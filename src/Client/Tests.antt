-- ===== src/Client/Tests.antt =====
-- The theorems of Client at concrete inputs.
use dcrstakepool.Shared.{
  ℕ, zero, suc, ◌≡◌, refl, String, text_key, number_key, true, none, some, List, [], ◌∷◌, Result,
  ok, err, inl, inr, All, arith,
}
use dcrstakepool.Shared.Map.{Map, get, put, has}
use dcrstakepool.Stakepoold.{Bytes}
use dcrstakepool.Rpc.Messages.{
  WalletInfoResponse, ValidateAddressResponse, CreateMultisigResponse, Chainhash,
}
use dcrstakepool.Client.Calls.{Conn, pure, fail, first, each, gather}
use dcrstakepool.Client.Calls.Laws.{Answers, first_total}
use dcrstakepool.Client.Backend.{Backend}
use dcrstakepool.Client.Reads.{
  connected, check_wallets, agreed, check_same, same_response, check_ext_pub, validate_address,
  cross_check_cold_wallet_ext_pubs,
}
use dcrstakepool.Client.Reads.Agreement.{
  Ready, connected-Ready, validate_address-agrees, cross_check_agrees,
}
use dcrstakepool.Client.Writes.{User, create_multisig, agreed_multisig, same_scripts}
use dcrstakepool.Client.Writes.Guard.{SameScript, create_multisig-agrees}
use dcrstakepool.Client.Sync.Scripts.{
  ScriptHeight, all_redeem_scripts, sync_scripts, import_all, import_missing, missing_scripts,
  known_scripts, add_missing,
}
use dcrstakepool.Client.Sync.Scripts.Coverage.{last_script, Synced, sync_scripts-Synced}
use dcrstakepool.Client.Sync.Tickets.{
  sync_tickets, add_all_missing, add_missing_tickets, all_hashes, add_hashes,
}
use dcrstakepool.Client.Sync.Tickets.Complete.{AnyReports, AllKnow, sync_tickets-AllKnow}
use dcrstakepool.Client.StakeInfo.{get_stake_info}
use dcrstakepool.Client.StakeInfo.Cache.{get_stake_info_cached}

-- Hashes are one byte long.
abbrev pub one_byte : Chainhash
one_byte = record {
  new_hash = λ bytes. elim bytes [ [] ↦ err "too short" | n ∷ ns ↦ ok n ];
  clone_bytes = λ h. h ∷ [];
  new_hash_from_str = λ s. ok 5;
}

abbrev pub ready_wallet : WalletInfoResponse
ready_wallet = record { vote_version = 7; daemon_connected = true; unlocked = true; voting = true }

-- Every instance answers; instance 1 has a ticket and a script that the others lack, and no instance
-- changes anything but the number of calls of `add_missing_ticket`.
abbrev pub plain : {W : Type 0} → Backend W ℕ ℕ
plain = record {
  wallet_info = λ conn. pure ready_wallet;
  get_added_low_fee_tickets = λ conn. pure [];
  get_ignored_low_fee_tickets = λ conn. pure [];
  get_live_tickets = λ conn. pure [];
  set_added_low_fee_tickets = λ conn tickets. pure tt;
  set_user_voting_prefs = λ conn entries. pure tt;
  create_multisig = λ conn address. pure (record { redeem_script = "51"; address = "Dc" });
  validate_address = λ conn addr. pure (record { is_mine = true; pub_key_addr = "Dk" });
  import_new_script = λ conn script. pure 9;
  import_missing_scripts = λ conn scripts height. pure tt;
  list_imported_addresses = λ conn. elim conn [ zero ↦ pure [] | suc n ↦ pure ("Dc1" ∷ []) ];
  account_sync_address_index = λ conn account branch count. pure tt;
  get_tickets = λ conn include. elim conn [ zero ↦ pure [] | suc n ↦ pure ((4 ∷ []) ∷ []) ];
  add_missing_ticket = λ conn hash. pure tt;
  stake_pool_user_info = λ conn addr. pure 0;
  get_stake_info = λ conn. elim conn [ zero ↦ fail "down" | suc n ↦ pure 11 ];
  get_cold_wallet_ext_pub = λ conn. pure "dpub";
}

abbrev zero_and_one : List Conn
zero_and_one = 0 ∷ 1 ∷ []

connected-Ready_example :
    (rs : List WalletInfoResponse) × Answers (plain {W = ℕ}).wallet_info zero_and_one rs
    × All Ready rs
unfolding connected gather check_wallets
connected-Ready_example = connected-Ready plain zero_and_one 0 refl

validate_address-agrees_example :
    (rs : List ValidateAddressResponse) × Answers
      (λ conn. (plain {W = ℕ}).validate_address conn "Dc")
      zero_and_one
      rs
    × All (λ r. r ≡ record { is_mine = true; pub_key_addr = "Dk" }) rs
unfolding validate_address gather agreed check_same same_response
validate_address-agrees_example =
    validate_address-agrees plain zero_and_one "Dc" 0
      (record { is_mine = true; pub_key_addr = "Dk" }) refl

cross_check_agrees_example :
    All (λ c. (v : ℕ) × (((plain {W = ℕ}).get_cold_wallet_ext_pub c v).0 ≡ ok "dpub")) zero_and_one
unfolding cross_check_cold_wallet_ext_pubs check_ext_pub each
cross_check_agrees_example = cross_check_agrees plain zero_and_one "dpub" 0 refl

abbrev multisig : CreateMultisigResponse
multisig = record { redeem_script = "51"; address = "Dc" }

create_multisig-agrees_example :
    (rs : List CreateMultisigResponse) × Answers
      (λ conn. (plain {W = ℕ}).create_multisig conn ("Dp" ∷ []))
      zero_and_one
      rs
    × All (SameScript multisig) rs
unfolding create_multisig connected gather check_wallets agreed_multisig same_scripts
create_multisig-agrees_example =
    create_multisig-agrees plain zero_and_one ("Dp" ∷ []) 0 multisig refl

abbrev alice : User
alice = record {
  multi_sig_address = "Dc1";
  multi_sig_script = "51";
  height_registered = 40;
  vote_bits = 5;
  vote_bits_version = 7;
}

abbrev decode : String → Result Bytes
decode s = ok (81 ∷ [])

abbrev alices_script : Map String ScriptHeight
alices_script = ("Dc1", record { script = 81 ∷ []; height = 40 }) ∷ []

sync_scripts-Synced_example :
    ((k : String) → get k alices_script ≡ last_script decode k (alice ∷ []))
    × ((addresses : List (List String)) × Answers
          (plain {W = ℕ}).list_imported_addresses
          zero_and_one
          addresses
        × Synced (plain {W = ℕ}) alices_script zero_and_one addresses)
unfolding all_redeem_scripts sync_scripts gather put get has import_all import_missing
    missing_scripts known_scripts add_missing
sync_scripts-Synced_example =
    sync_scripts-Synced plain zero_and_one decode (alice ∷ []) 0 alices_script refl
      (omega arith, tt) refl

sync_tickets-AllKnow_example :
    (replies : List (List Bytes)) × Answers
      (λ conn. (plain {W = ℕ}).get_tickets conn true)
      zero_and_one
      replies
    × ((h : Bytes) → AnyReports h replies → AllKnow (plain {W = ℕ}) h zero_and_one replies)
unfolding sync_tickets gather add_all_missing add_missing_tickets all_hashes add_hashes put has get
sync_tickets-AllKnow_example = sync_tickets-AllKnow plain zero_and_one 0 refl

get_stake_info_cached_example :
    get_stake_info
      (plain {W = ℕ})
      zero_and_one
      1000
      (record { info = some 11; timer = 300000000050 })
      8
    ≡ (ok (some 11), record { info = some 11; timer = 300000000050 }, 8)
unfolding get_stake_info first
get_stake_info_cached_example =
    get_stake_info_cached plain zero_and_one 50 1000 (record { info = none; timer = 0 })
      (record { info = some 11; timer = 300000000050 }) 0 0 8 11 (omega arith) refl (omega arith)

-- Instance 0 never answers, instance 1 always does.
first_total_example :
    (a : ℕ) × ((first (plain {W = ℕ}).get_stake_info "none left" zero_and_one 0).0 ≡ ok a)
first_total_example =
    first_total (plain {W = ℕ}).get_stake_info "none left" zero_and_one 1 (inr (inl refl))
      (λ w. (11, refl)) 0

-- ===== src/Wallet/Tests.antt =====
-- The theorems of Wallet at concrete inputs.
use dcrstakepool.Shared.{
  ℕ, ◌+◌, ◌≡◌, ◌≢◌, refl, String, text_key, ◌==◌, true, none, List, [], ◌∷◌, ok, err, if◌then◌else◌,
}
use dcrstakepool.Stakepoold.{Bytes}
use dcrstakepool.Rpc.Messages.{CreateMultisigResponse}
use dcrstakepool.Client.Calls.{pure}
use dcrstakepool.Client.Tests.{one_byte, ready_wallet}
use dcrstakepool.Wallet.{
  Connections, TxRawResult, import_missing_scripts, create_multisig, decode_all, add_missing_ticket,
}
use dcrstakepool.Wallet.Scripts.{
  ImportedAll, import_missing_scripts-ImportedAll, import_missing_scripts_safe,
}
use dcrstakepool.Wallet.Addresses.{Decodes, create_multisig-Decodes, add_missing_ticket-hash}

abbrev multisig : CreateMultisigResponse
multisig = record { redeem_script = "51"; address = "Dc" }

abbrev transaction : TxRawResult
transaction = record { block_hash = "aa"; hex = "0100" }

-- The state counts the scripts imported.
abbrev wallet : Connections ℕ ℕ ℕ
wallet = record {
  import_script_rescan_from = λ script rescan height n. (ok tt, 1 + n);
  add_transaction = λ block hex. pure tt;
  get_addresses_by_account = λ account. pure [];
  wallet_create_multisig = λ required addresses. pure multisig;
  wallet_account_sync_address_index = λ account branch index. pure tt;
  wallet_get_tickets = λ include. pure [];
  stakepooluserinfo = λ address. pure 0;
  walletinfo = pure ready_wallet;
  wallet_validate_address = λ address. pure (record { is_mine = true; pub_key_addr = "Dk" });
  getstakeinfo = pure 0;
  get_best_block = pure 0;
  get_raw_transaction_verbose = λ hash. pure transaction;
  decode_address = λ text. if text == "bad" then err "bad address" else ok text;
}

abbrev two_scripts : List Bytes
two_scripts = (81 ∷ []) ∷ (82 ∷ []) ∷ []

import_missing_scripts-ImportedAll_example : ImportedAll wallet 40 two_scripts
unfolding import_missing_scripts
import_missing_scripts-ImportedAll_example =
    import_missing_scripts-ImportedAll wallet two_scripts 40 0 refl

create_multisig-Decodes_example :
    (ds : List String) × Decodes wallet.decode_address ("Dp" ∷ "Dq" ∷ []) ds
    × ((wallet.wallet_create_multisig 1 ds 0).0 ≡ ok multisig)
unfolding create_multisig decode_all
create_multisig-Decodes_example = create_multisig-Decodes wallet ("Dp" ∷ "Dq" ∷ []) 0 multisig refl

add_missing_ticket-hash_example :
    add_missing_ticket wallet one_byte (4 ∷ []) 0 ≡ wallet.add_transaction "aa" "0100" 0
add_missing_ticket-hash_example =
    add_missing_ticket-hash wallet one_byte 4 0 0 transaction (λ h. refl) refl

import_missing_scripts_safe_example : (import_missing_scripts wallet two_scripts 40 0).0 ≢ ok none
import_missing_scripts_safe_example =
    import_missing_scripts_safe wallet two_scripts 40 0 (λ e. absurd (cc))

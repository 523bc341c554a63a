-- ===== src/Addresses/Tests.antt =====
-- The theorem of Addresses for a user who submits an address, with one instance.
use dcrstakepool.Shared.{ℕ, ◌≡◌, refl, String, text_key, true, false, some, List, [], ◌∷◌, ok, ◌⊎◌}
use dcrstakepool.Client.Calls.{Conn, pure, gather, each}
use dcrstakepool.Client.Backend.{Backend}
use dcrstakepool.Client.Reads.{
  validate_address, connected, check_wallets, agreed, check_same, same_response,
}
use dcrstakepool.Client.Writes.{
  create_multisig, import_new_script, set_user_voting_prefs, agreed_multisig, same_scripts,
  last_height,
}
use dcrstakepool.Client.Tests.{plain}
use dcrstakepool.Stakepoold.FeeAddresses.{derived}
use dcrstakepool.Shared.Map.{put}
use dcrstakepool.VoteBits.{
  check_and_reset_user_vote_bits, check_and_reset_users, check_and_reset_user, all_users,
  get_user_max, update_vote_bits_by_id, update_vote_bits_version_by_id, is_valid_vote_bits,
}
use dcrstakepool.Accounts.{Tables}
use dcrstakepool.Accounts.Queries.{rows_where, change_where}
use dcrstakepool.Accounts.Requests.{WebSession}
use dcrstakepool.Accounts.Tests.{outside, start, laws}
use dcrstakepool.Addresses.{
  AddressConfig, fee_address_for_user_id, ticket_address_for_user_id, validate_user_pub_key_addr,
  update_user_by_id, address_post, stakepoold_update_users, max_id,
}
use dcrstakepool.Addresses.Agreed.{users_of, Apart, Agreed}
use dcrstakepool.Addresses.Agreed.Whole.{address_post-Agreed}

abbrev instances : Backend Tables ℕ ℕ
instances = record plain {
  create_multisig = λ conn address. pure (record { redeem_script = "0102"; address = "DcM" });
}

abbrev config : AddressConfig ℕ
config = record {
  keys = record {
    new_key_from_string = λ xpub. ok 0;
    child = λ k i. derived i;
    address_from = λ k. ok "DsK";
  };
  fee_xpub = 0;
  voting_xpub = 0;
  decode_address = λ addr. ok true;
}

abbrev one : List Conn
one = 0 ∷ []

abbrev alice_session : WebSession
alice_session = record {
  user_id = some 1;
  captcha_done = false;
  max_age_negative = false;
  flashes = [];
}

abbrev address : String
address = "DkM3EyZ546GghVSkvzb6J47PvGDyntqiDtFgipQhNj78"

apart : Apart instances one outside [] 8 config (λ t. t) laws
unfolding validate_address create_multisig import_new_script set_user_voting_prefs connected gather
    check_wallets agreed_multisig each
apart = (λ addr w. refl, λ addrs w. refl, λ script w. refl, λ users w. refl)

-- The columns that are written.
posted :
    users_of instances one outside [] 8 config
      (λ t. t)
      laws
      (address_post instances one outside [] 8 config address alice_session start).1
    ≡ record {
      id = 1;
      multi_sig_address = "DcM";
      multi_sig_script = "0102";
      pool_pub_key_addr = "Dk";
      user_pub_key_addr = address;
      user_fee_addr = "DsK";
      height_registered = 9;
    }
      ∷ []
unfolding address_post validate_user_pub_key_addr ticket_address_for_user_id fee_address_for_user_id
    update_user_by_id validate_address create_multisig import_new_script connected gather
    check_wallets agreed agreed_multisig same_scripts last_height check_same same_response
    rows_where change_where stakepoold_update_users max_id check_and_reset_user_vote_bits
    check_and_reset_users check_and_reset_user all_users get_user_max update_vote_bits_by_id
    update_vote_bits_version_by_id set_user_voting_prefs each put is_valid_vote_bits
posted = refl

address_post-Agreed_example :
    (users_of instances one outside [] 8 config
        (λ t. t)
        laws
        (address_post instances one outside [] 8 config address alice_session start).1
      ≡ users_of instances one outside [] 8 config (λ t. t) laws start)
    ⊎ Agreed instances one outside [] 8 config
        (λ t. t)
        laws
        address
        alice_session
        start
        (users_of instances one outside [] 8 config
          (λ t. t)
          laws
          (address_post instances one outside [] 8 config address alice_session start).1)
address_post-Agreed_example =
    address_post-Agreed instances one outside [] 8 config (λ t. t) laws apart address alice_session
      start

-- ===== src/Client/Backend.antt =====
-- The stakepoold service as the front end sees it: one function for each gRPC method, over the state
-- `W` behind the connections.
use dcrstakepool.Shared.{ℕ, String, Bool, List}
use dcrstakepool.Stakepoold.{Bytes}
use dcrstakepool.Rpc.Messages.{
  Ticket, UserVotingConfigEntry, WalletInfoResponse, ValidateAddressResponse,
  CreateMultisigResponse,
}
use dcrstakepool.Client.Calls.{Conn, Call}

-- `Info` is the reply to GetStakeInfo and `UserInfo` that to StakePoolUserInfo, which are passed on
-- unread. A script height is an int64.
pub record Backend (W Info UserInfo : Type 0) : Type 0 where
  pub wallet_info : Conn → Call W WalletInfoResponse
  pub get_added_low_fee_tickets : Conn → Call W (List Ticket)
  pub get_ignored_low_fee_tickets : Conn → Call W (List Ticket)
  pub get_live_tickets : Conn → Call W (List Ticket)
  pub set_added_low_fee_tickets : Conn → List Ticket → Call W (Unit {0})
  pub set_user_voting_prefs : Conn → List UserVotingConfigEntry → Call W (Unit {0})
  pub create_multisig : Conn → List String → Call W CreateMultisigResponse
  pub validate_address : Conn → String → Call W ValidateAddressResponse
  pub import_new_script : Conn → Bytes → Call W ℕ
  pub import_missing_scripts : Conn → List Bytes → ℕ → Call W (Unit {0})
  pub list_imported_addresses : Conn → Call W (List String)
  pub account_sync_address_index : Conn → String → ℕ → ℕ → Call W (Unit {0})
  pub get_tickets : Conn → Bool → Call W (List Bytes)
  pub add_missing_ticket : Conn → Bytes → Call W (Unit {0})
  pub stake_pool_user_info : Conn → String → Call W UserInfo
  pub get_stake_info : Conn → Call W Info
  pub get_cold_wallet_ext_pub : Conn → Call W String

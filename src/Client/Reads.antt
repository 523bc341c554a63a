-- ===== src/Client/Reads.antt =====
-- The methods of stakepooldManager that only read: WalletInfo and the connectivity check, the
-- ticket lists, ValidateAddress, StakePoolUserInfo and CrossCheckColdWalletExtPubs.
pub mod Agreement
use dcrstakepool.Shared.{
  ℕ, String, text_key, number_key, ◌==◌, Bool, true, false, not, ◌||◌, ◌&&◌, Option, none, some,
  List, [], ◌∷◌, Result, ok, err, if◌then◌else◌,
}
use dcrstakepool.Shared.Map.{Map}
use dcrstakepool.Stakepoold.{Hash}
use dcrstakepool.Rpc.Messages.{WalletInfoResponse, ValidateAddressResponse, Chainhash}
use dcrstakepool.Rpc.Tickets.{process_tickets_response}
use dcrstakepool.Client.Calls.{Conn, Call, continue, ◌>>=◌, pure, fail, lift, each, gather, first}
use dcrstakepool.Client.Backend.{Backend}

-- The loop of `connected` over the responses.
unfoldable pub check_wallets : List WalletInfoResponse → Result (Unit {0})
check_wallets [] = ok tt
check_wallets (resp ∷ responses) =
    if not resp.daemon_connected
    then err "wallet is not connected to dcrd"
    else if not resp.unlocked
    then err "wallet is not unlocked"
    else check_wallets responses

same_bool : Bool → Bool → Bool
same_bool true b = b
same_bool false b = not b

-- v.IsMine == last.IsMine && v.PubKeyAddr == last.PubKeyAddr
unfoldable pub same_response : ValidateAddressResponse → ValidateAddressResponse → Bool
unfolding same_bool
same_response v last = same_bool v.is_mine last.is_mine && v.pub_key_addr == last.pub_key_addr

-- The responses are compared with the first that the range over their map yields.
unfoldable pub check_same : ValidateAddressResponse → List ValidateAddressResponse → Bool
check_same last [] = true
check_same last (v ∷ responses) = same_response v last && check_same last responses

-- With no connection the response is nil, `none`.
unfoldable pub agreed : List ValidateAddressResponse → Result (Option ValidateAddressResponse)
agreed [] = ok none
agreed (v ∷ responses) =
    if check_same v (v ∷ responses)
    then ok (some v)
    else err "wallets have different ValidateAddress responses"

module _ {W Info UserInfo : Type 0} (b : Backend W Info UserInfo) (conns : List Conn) where
  unfoldable pub wallet_info : Call W (List WalletInfoResponse)
  wallet_info = gather b.wallet_info conns

  unfoldable pub connected : Call W (Unit {0})
  unfolding wallet_info
  connected = do responses ← wallet_info; lift (check_wallets responses)

  unfoldable pub get_added_low_fee_tickets : Chainhash → Call W (Map Hash String)
  get_added_low_fee_tickets c = do
    tickets ←
        first b.get_added_low_fee_tickets
          "GetAddedLowFeeTickets RPC failed on all stakepoold instances" conns
    pure (process_tickets_response c tickets)

  unfoldable pub get_ignored_low_fee_tickets : Chainhash → Call W (Map Hash String)
  get_ignored_low_fee_tickets c = do
    tickets ←
        first b.get_ignored_low_fee_tickets
          "GetIgnoredLowFeeTickets RPC failed on all stakepoold instances" conns
    pure (process_tickets_response c tickets)

  unfoldable pub get_live_tickets : Chainhash → Call W (Map Hash String)
  get_live_tickets c = do
    tickets ← first b.get_live_tickets "GetLiveTickets RPC failed on all stakepoold instances" conns
    pure (process_tickets_response c tickets)

  unfoldable pub stake_pool_user_info : String → Call W UserInfo
  stake_pool_user_info multi_sig_address =
      first (λ conn. b.stake_pool_user_info conn multi_sig_address)
        "StakePoolUserInfo RPC failed on all stakepoold instances" conns

  unfoldable pub validate_address : String → Call W (Option ValidateAddressResponse)
  validate_address addr = do
    responses ← gather (λ conn. b.validate_address conn addr) conns
    lift (agreed responses)

  -- The check of one instance's coldwalletextpub.
  unfoldable pub check_ext_pub : String → Conn → Call W (Unit {0})
  check_ext_pub ext_pub conn = do
    theirs ← b.get_cold_wallet_ext_pub conn
    if theirs == ext_pub then pure tt else fail "coldwalletextpub incorrectly configured"

  unfoldable pub cross_check_cold_wallet_ext_pubs : String → Call W (Unit {0})
  unfolding check_ext_pub
  cross_check_cold_wallet_ext_pubs ext_pub = each (check_ext_pub ext_pub) conns

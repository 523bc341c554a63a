-- ===== src/Wallet.antt =====
-- The gRPC handlers of backend/stakepoold/rpc/server/server.go that go to the wallet, with the
-- methods of backend/stakepoold/stakepool/stakepool.go that they call. dcrwallet and dcrd are
-- calls on a state `W`.
pub mod Scripts
pub mod Addresses
pub mod Tests
use dcrstakepool.Shared.{
  ℕ, String, Bool, true, false, Option, none, some, List, [], ◌∷◌, Result, ok, err, map,
}
use dcrstakepool.Stakepoold.{Hash, Bytes, Stakepoold}
use dcrstakepool.Rpc.Messages.{
  WalletInfoResponse, ValidateAddressResponse, CreateMultisigResponse, Chainhash,
}
use dcrstakepool.Client.Calls.{Conn, Call, continue, ◌>>=◌, ◌>>◌, pure, lift}
use dcrstakepool.Client.Backend.{Backend}

-- The reply of dcrd to getrawtransaction, the fields that are read
pub record TxRawResult : Type 0 where
  pub block_hash : String
  pub hex : String

-- The methods of WalletConnection.RPCClient() and of NodeConnection. An address is its text, and
-- `decode_address` is dcrutil.DecodeAddress with the network's parameters.
pub record Connections (W Info UserInfo : Type 0) : Type 0 where
  pub import_script_rescan_from : Bytes → Bool → ℕ → Call W (Unit {0})
  pub add_transaction : String → String → Call W (Unit {0})
  pub get_addresses_by_account : String → Call W (List String)
  pub wallet_create_multisig : ℕ → List String → Call W CreateMultisigResponse
  pub wallet_account_sync_address_index : String → ℕ → ℕ → Call W (Unit {0})
  pub wallet_get_tickets : Bool → Call W (List Hash)
  pub stakepooluserinfo : String → Call W UserInfo
  pub walletinfo : Call W WalletInfoResponse
  pub wallet_validate_address : String → Call W ValidateAddressResponse
  pub getstakeinfo : Call W Info
  pub get_best_block : Call W ℕ
  pub get_raw_transaction_verbose : Hash → Call W TxRawResult
  pub decode_address : String → Result String

-- decodedAddresses[i] = decodedAddress, up to the first that does not decode
unfoldable pub decode_all : (String → Result String) → List String → Result (List String)
decode_all decode_address [] = ok []
decode_all decode_address (addr ∷ addresses) = elim (decode_address addr) [
  | err e ↦ err e
  | ok decoded ↦ elim (decode_all decode_address addresses) [
    | err e ↦ err e
    | ok rest ↦ ok (decoded ∷ rest)
  ]
]

module _ {W Info UserInfo : Type 0} (k : Connections W Info UserInfo) where
  unfoldable pub import_new_script : Bytes → Call W ℕ
  import_new_script script = do k.import_script_rescan_from script false 0; k.get_best_block

  -- The scripts up to the last without a rescan, and then the last with one. With no script at all
  -- the slice expression panics, `none`.
  unfoldable pub import_missing_scripts : List Bytes → ℕ → Call W (Option (Unit {0}))
  import_missing_scripts [] rescan_height w = (ok none, w)
  import_missing_scripts (last_one ∷ []) rescan_height w =
      (k.import_script_rescan_from last_one true rescan_height >> pure (some tt)) w
  import_missing_scripts (script ∷ s ∷ scripts) rescan_height w =
      let (r, w') = k.import_script_rescan_from script false 0 w in
      elim r [ err e ↦ (err e, w') | ok _ ↦ import_missing_scripts (s ∷ scripts) rescan_height w' ]

  unfoldable pub add_missing_ticket : Chainhash → Bytes → Call W (Unit {0})
  add_missing_ticket c ticket_hash = do
    hash ← lift (c.new_hash ticket_hash)
    tx_verbose ← k.get_raw_transaction_verbose hash
    k.add_transaction tx_verbose.block_hash tx_verbose.hex

  unfoldable pub list_imported_addresses : Call W (List String)
  list_imported_addresses = k.get_addresses_by_account "imported"

  unfoldable pub create_multisig : List String → Call W CreateMultisigResponse
  create_multisig addresses = do
    decoded_addresses ← lift (decode_all k.decode_address addresses)
    k.wallet_create_multisig 1 decoded_addresses

  unfoldable pub account_sync_address_index : String → ℕ → ℕ → Call W (Unit {0})
  account_sync_address_index account branch index =
      k.wallet_account_sync_address_index account branch index

  -- ticketBytes[i] = tickets[i][:]
  unfoldable pub get_tickets : Chainhash → Bool → Call W (List Bytes)
  get_tickets c include_immature = do
    tickets ← k.wallet_get_tickets include_immature
    pure (map c.clone_bytes tickets)

  unfoldable pub stake_pool_user_info : String → Call W UserInfo
  stake_pool_user_info multisig_address = do
    decoded_multisig ← lift (k.decode_address multisig_address)
    k.stakepooluserinfo decoded_multisig

  unfoldable pub wallet_info : Call W WalletInfoResponse
  wallet_info = k.walletinfo

  unfoldable pub validate_address : String → Call W ValidateAddressResponse
  validate_address address = do
    addr ← lift (k.decode_address address)
    k.wallet_validate_address addr

  unfoldable pub get_stake_info : Call W Info
  get_stake_info = k.getstakeinfo

pub get_cold_wallet_ext_pub : Stakepoold → String
get_cold_wallet_ext_pub spd = spd.cold_wallet_ext_pub

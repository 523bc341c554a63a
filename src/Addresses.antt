-- ===== src/Addresses.antt =====
-- AddressPost of controllers/main.go: a user without an address gets a multisig script with the pool, with
-- the functions that it calls on the way.
pub mod Agreed
pub mod Tests
use dcrstakepool.Shared.{
  ℕ, ◌+◌, ◌%◌, ◌^◌, String, text_key, ◌==◌, ltb, Bool, true, false, not, Option, none, some, List,
  [], ◌∷◌, Result, ok, err, if◌then◌else◌,
}
use Prim.Native.String.{len}
use dcrstakepool.Shared.Map.{Map}
use dcrstakepool.Rpc.Messages.{ValidateAddressResponse, CreateMultisigResponse}
use dcrstakepool.Client.Calls.{Conn, Call, ◌>>=◌, pure}
use dcrstakepool.Client.Backend.{Backend}
use dcrstakepool.Client.Reads.{validate_address}
use dcrstakepool.Client.Writes.{create_multisig, import_new_script, set_user_voting_prefs}
use dcrstakepool.Client.Writes
use dcrstakepool.VoteBits.{Vote, UserRow, UserTable, check_and_reset_user_vote_bits}
use dcrstakepool.Stakepoold.FeeAddresses.{Child, Keys, external_branch, branch_key}
use dcrstakepool.Accounts.{User, Statement, Outside}
use dcrstakepool.Accounts.Queries.{change_where, has_id, select_user_by_id, update_user}
use dcrstakepool.Accounts.Requests.{WebSession, Answer, redirect, page, panicked, flash}

abbrev pub max_users : ℕ
max_users = 10000

-- controllers.Config with the two account keys, and what dcrutil.DecodeAddress makes of a text: whether the
-- address is an AddressSecpPubKey.
pub record AddressConfig (K : Type 0) : Type 0 where
  pub keys : Keys K
  pub fee_xpub : K
  pub voting_xpub : K
  pub decode_address : String → Result Bool

-- The address of an index of the external branch of an account key.
abbrev address_of_child : {K : Type 0} → Keys K → Result K → Result String
address_of_child keys (err e) = err e
address_of_child keys (ok k) = keys.address_from k

abbrev address_of_branch : {K : Type 0} → Keys K → ℕ → Result K → Result String
address_of_branch keys uid (err e) = err e
address_of_branch keys uid (ok k) =
    address_of_child keys (branch_key keys (keys.child k (uid % 2 ^ 32)))

unfoldable pub fee_address_for_user_id : {K : Type 0} → AddressConfig K → ℕ → Result String
fee_address_for_user_id cfg uid =
    if ltb max_users (uid + 1)
    then err "bad uid index"
    else address_of_branch cfg.keys uid
        (branch_key cfg.keys (cfg.keys.child cfg.fee_xpub external_branch))

unfoldable pub ticket_address_for_user_id : {K : Type 0} → AddressConfig K → ℕ → Result String
ticket_address_for_user_id cfg uid =
    if ltb max_users (uid + 1)
    then err "bad uid index"
    else address_of_branch cfg.keys uid
        (branch_key cfg.keys (cfg.keys.child cfg.voting_xpub external_branch))

abbrev secp_pub_key : Result Bool → Result (Unit {0})
secp_pub_key (err e) = err "Couldn't decode address"
secp_pub_key (ok true) = ok tt
secp_pub_key (ok false) = err "Incorrect address type"

unfoldable pub validate_user_pub_key_addr :
    {K : Type 0} → AddressConfig K → String → Result (Unit {0})
validate_user_pub_key_addr cfg pub_key_addr =
    if ltb (len pub_key_addr) 40
    then err "Address is too short"
    else if ltb 65 (len pub_key_addr)
    then err "Address is too long"
    else secp_pub_key (cfg.decode_address pub_key_addr)

-- The user with the addresses that UpdateUserByID writes.
abbrev pub with_addresses : CreateMultisigResponse → String → String → String → ℕ → User → User
with_addresses m pool_pub_key_addr user_pub_key_addr user_fee_addr height user = record user {
  multi_sig_address = m.address;
  multi_sig_script = m.redeem_script;
  pool_pub_key_addr = pool_pub_key_addr;
  user_pub_key_addr = user_pub_key_addr;
  user_fee_addr = user_fee_addr;
  height_registered = height;
}

-- The columns that CheckAndResetUserVoteBits reads.
abbrev pub row_of : User → UserRow
row_of user = record {
  id = user.id;
  multi_sig_address = user.multi_sig_address;
  vote_bits = user.vote_bits;
  vote_bits_version = user.vote_bits_version;
}

-- gorp's Update of a user that has been selected with other vote bits. The other columns are written back as
-- they are.
abbrev pub update_row : UserRow → Statement (Unit {0})
update_row row t = (
  ok tt,
  record t {
    users =
        change_where (has_id row.id)
          (λ user. record user {
            vote_bits = row.vote_bits;
            vote_bits_version = row.vote_bits_version;
          })
          t.users;
  },
)

unfoldable pub max_id : List User → ℕ → ℕ
max_id [] id = id
max_id (user ∷ users) id = max_id users (if ltb id user.id then user.id else id)

-- SELECT MAX(UserId) FROM Users, which is NULL for no users
abbrev pub select_max_id : Statement ℕ
select_max_id t = (
  elim t.users [ [] ↦ err "converting NULL to int64" | user ∷ users ↦ ok (max_id users user.id) ],
  t,
)

-- The statements of CheckAndResetUserVoteBits on the table Users.
abbrev pub user_table : {W : Type 0} → Outside W → UserTable W
user_table o = record {
  select_one = λ id. o.run (select_user_by_id id) >>= λ user. pure (row_of user);
  update = λ row. o.run (update_row row);
  select_max = o.run select_max_id;
}

module _ {W Info UserInfo : Type 0} (b : Backend W Info UserInfo) (conns : List Conn) where
  abbrev pub client_users : Map ℕ UserRow → Map ℕ Writes.User
  client_users [] = []
  client_users ((id, user) ∷ users) =
      (
        id,
        record {
          multi_sig_address = user.multi_sig_address;
          multi_sig_script = "";
          height_registered = 0;
          vote_bits = user.vote_bits;
          vote_bits_version = user.vote_bits_version;
        },
      )
      ∷ client_users users

  -- Of a user, SetUserVotingPrefs reads the address and the vote bits.
  unfoldable pub stakepoold_update_users : UserTable W → List Vote → ℕ → Call W (Unit {0})
  stakepoold_update_users t deployments vote_version = do
    users ← check_and_reset_user_vote_bits t deployments vote_version
    set_user_voting_prefs b conns (client_users users)

-- The steps of AddressPost. The error of StakepooldUpdateUsers is only logged.
module _ {W Info UserInfo K : Type 0} (b : Backend W Info UserInfo) (conns : List Conn)
    (o : Outside W) (deployments : List Vote) (vote_version : ℕ) (cfg : AddressConfig K) where
  abbrev pub address_error : String → WebSession → W → Answer W
  address_error message = flash message "address" "address"

  abbrev pub error_page : WebSession → W → Answer W
  error_page s w = ((redirect "/error", s), w)

  -- UpdateUserByID: a user that is not found is nil, and a panic; an error of the update is only logged.
  abbrev pub user_found : (User → User) → Result User × W → Option (Unit {0}) × W
  user_found change (err e, w) = (none, w)
  user_found change (ok user, w) = (some tt, (o.run (update_user (change user)) w).1)

  unfoldable pub update_user_by_id : ℕ → (User → User) → W → Option (Unit {0}) × W
  update_user_by_id id change w = user_found change (o.run (select_user_by_id id) w)

  abbrev pub user_updated : WebSession → Option (Unit {0}) × W → Answer W
  user_updated s (none, w) = ((panicked, s), w)
  user_updated s (some _, w) = (
    (redirect "/tickets", s),
    (stakepoold_update_users b conns (user_table o) deployments vote_version w).1,
  )

  abbrev pub fee_derived :
      ℕ
      → String
      → ValidateAddressResponse
      → CreateMultisigResponse
      → ℕ
      → WebSession
      → W
      → Result String
      → Answer W
  fee_derived uid addr v m height s w (err e) = address_error "Unable to derive fee address" s w
  fee_derived uid addr v m height s w (ok fee) =
      user_updated s (update_user_by_id uid (with_addresses m v.pub_key_addr addr fee height) w)

  abbrev pub script_imported :
      ℕ
      → String
      → ValidateAddressResponse
      → CreateMultisigResponse
      → WebSession
      → Result ℕ × W
      → Answer W
  script_imported uid addr v m s (err e, w) = error_page s w
  script_imported uid addr v m s (ok height, w) =
      fee_derived uid addr v m height s w (fee_address_for_user_id cfg uid)

  abbrev pub script_decoded :
      ℕ
      → String
      → ValidateAddressResponse
      → CreateMultisigResponse
      → WebSession
      → W
      → Result (List ℕ)
      → Answer W
  script_decoded uid addr v m s w (err e) = error_page s w
  script_decoded uid addr v m s w (ok script) =
      script_imported uid addr v m s (import_new_script b conns script w)

  abbrev pub multisig_created :
      ℕ
      → String
      → ValidateAddressResponse
      → WebSession
      → Result (Option CreateMultisigResponse) × W
      → Answer W
  multisig_created uid addr v s (err e, w) = error_page s w
  multisig_created uid addr v s (ok none, w) = ((panicked, s), w)
  multisig_created uid addr v s (ok (some m), w) =
      script_decoded uid addr v m s w (o.decode_string m.redeem_script)

  abbrev pub pool_address_decoded :
      ℕ → String → ValidateAddressResponse → WebSession → W → Result Bool → Answer W
  pool_address_decoded uid addr v s w (err e) = error_page s w
  pool_address_decoded uid addr v s w (ok _) =
      multisig_created uid addr v s (create_multisig b conns (v.pub_key_addr ∷ addr ∷ []) w)

  abbrev pub pool_address_validated :
      ℕ → String → WebSession → Result (Option ValidateAddressResponse) × W → Answer W
  pool_address_validated uid addr s (err e, w) = error_page s w
  pool_address_validated uid addr s (ok none, w) = ((panicked, s), w)
  pool_address_validated uid addr s (ok (some v), w) =
      if not v.is_mine
      then address_error "Unable to validate pool ticket address" s w
      else pool_address_decoded uid addr v s w (cfg.decode_address v.pub_key_addr)

  abbrev pub ticket_address_derived : ℕ → String → WebSession → W → Result String → Answer W
  ticket_address_derived uid addr s w (err e) = address_error "Unable to derive ticket address" s w
  ticket_address_derived uid addr s w (ok pool_address) =
      pool_address_validated uid addr s (validate_address b conns pool_address w)

  abbrev pub user_address_valid : ℕ → String → WebSession → W → Result (Unit {0}) → Answer W
  user_address_valid uid addr s w (err e) = address_error e s w
  user_address_valid uid addr s w (ok _) =
      ticket_address_derived uid addr s w (ticket_address_for_user_id cfg uid)

  -- The error of GetUserByID is dropped, and its user is nil.
  abbrev pub user_selected : ℕ → String → WebSession → Result User × W → Answer W
  user_selected uid addr s (err e, w) = ((panicked, s), w)
  user_selected uid addr s (ok user, w) =
      if ltb 0 (len user.user_pub_key_addr)
      then address_error "The voting service is currently limited to one address per account" s w
      else user_address_valid uid addr s w (validate_user_pub_key_addr cfg addr)

  abbrev pub address_if_known : String → WebSession → W → Option ℕ → Answer W
  address_if_known addr s w none = ((redirect "/", s), w)
  address_if_known addr s w (some uid) = user_selected uid addr s (o.run (select_user_by_id uid) w)

  -- `addr` is UserPubKeyAddr of the form.
  unfoldable pub address_post : String → WebSession → W → Answer W
  address_post addr s w = address_if_known addr s w s.user_id

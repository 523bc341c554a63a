-- ===== src/Addresses/Agreed.antt =====
-- What AddressPost writes to the users.
pub mod Users
pub mod Steps
pub mod Whole
use dcrstakepool.Shared.{
  ℕ, ◌+◌, ◌%◌, ◌^◌, ◌≤◌, ◌<◌, All, ◌≡◌, refl, sym, ap, subst, ◌∙◌, String, ltb, nat_beq_iff, Bool,
  true, false, not, Option, none, some, List, [], ◌∷◌, Result, ok, err, if◌then◌else◌, map, ◌⊎◌,
  inl, inr,
}
use Prim.Native.String.{len}
use dcrstakepool.Rpc.Messages.{ValidateAddressResponse, CreateMultisigResponse}
use dcrstakepool.Client.Calls.{Conn}
use dcrstakepool.Client.Backend.{Backend}
use dcrstakepool.Client.Reads.{validate_address}
use dcrstakepool.Client.Calls.Laws.{Answers}
use dcrstakepool.Client.Writes.{create_multisig, import_new_script, set_user_voting_prefs}
use dcrstakepool.Client.Writes
use dcrstakepool.Client.Writes.Guard.{SameScript}
use dcrstakepool.Shared.Map.{Map}
use dcrstakepool.Stakepoold.FeeAddresses.{derived}
use dcrstakepool.VoteBits.{Vote}
use dcrstakepool.Accounts.{User, Tables, Outside, IsOutside}
use dcrstakepool.Accounts.Queries.{change_where, has_id, select_user_by_id, update_user}
use dcrstakepool.Accounts.Keys.{only_row-Unique}
use dcrstakepool.Accounts.Rules.{run-ok, run-kept, run-Inv}
use dcrstakepool.Accounts.Requests.{WebSession, Answer}
use dcrstakepool.Addresses.{
  AddressConfig, max_users, fee_address_for_user_id, ticket_address_for_user_id,
  validate_user_pub_key_addr, with_addresses, user_found, update_user_by_id, user_updated,
  fee_derived, script_imported, script_decoded, multisig_created, pool_address_decoded,
  pool_address_validated, ticket_address_derived, user_address_valid, user_selected,
  address_if_known, address_post,
}

-- The columns of a user that UpdateUserByID writes, with the id.
pub record Columns : Type 0 where
  pub id : ℕ
  pub multi_sig_address : String
  pub multi_sig_script : String
  pub pool_pub_key_addr : String
  pub user_pub_key_addr : String
  pub user_fee_addr : String
  pub height_registered : ℕ

abbrev pub columns : User → Columns
columns user = record {
  id = user.id;
  multi_sig_address = user.multi_sig_address;
  multi_sig_script = user.multi_sig_script;
  pool_pub_key_addr = user.pool_pub_key_addr;
  user_pub_key_addr = user.user_pub_key_addr;
  user_fee_addr = user.user_fee_addr;
  height_registered = user.height_registered;
}

-- The last of the heights, or 0 if there is none.
abbrev pub Last : List ℕ → ℕ → Type 0
Last [] height = height ≡ 0
Last (h ∷ []) height = height ≡ h
Last (h ∷ k ∷ heights) height = Last (k ∷ heights) height

module _ {W Info UserInfo K : Type 0} (b : Backend W Info UserInfo) (conns : List Conn)
    (o : Outside W) (deployments : List Vote) (vote_version : ℕ) (cfg : AddressConfig K)
    (tables : W → Tables) (laws : IsOutside o tables) where
  -- The address of the user's index on the external branch, number 0, of the account key.
  abbrev pub DerivedFrom : K → ℕ → String → Type 0
  DerivedFrom xpub uid address =
      (uid < max_users)
      × ((branch : K) × (key : K) × (cfg.keys.child xpub 0 ≡ derived branch)
          × (cfg.keys.child branch (uid % 2 ^ 32) ≡ derived key)
          × (cfg.keys.address_from key ≡ ok address))

  abbrev pub users_of : W → List Columns
  users_of w = map columns (tables w).users

  -- The calls of the instances do not write to the tables.
  abbrev pub Apart : Type 0
  Apart =
      ((addr : String) (w : W) → tables (validate_address b conns addr w).1 ≡ tables w)
      × ((addrs : List String) (w : W) → tables (create_multisig b conns addrs w).1 ≡ tables w)
      × ((script : List ℕ) (w : W) → tables (import_new_script b conns script w).1 ≡ tables w)
      × ((users : Map ℕ Writes.User) (w : W)
          → tables (set_user_voting_prefs b conns users w).1 ≡ tables w)

  -- The user of the session, who had no address, has the address of the form, the pool's address for this
  -- user, and the script of both, which every instance has answered with and has imported.
  pub record Agreed (addr : String) (s : WebSession) (before : Tables) (after : List Columns)
      : Type 0 where
    pub user : User
    pub session : s.user_id ≡ some user.id
    pub found : (select_user_by_id user.id before).0 ≡ ok user
    pub no_address : ltb 0 (len user.user_pub_key_addr) ≡ false
    pub long_enough : 40 ≤ len addr
    pub short_enough : len addr ≤ 65
    pub decoded_address : cfg.decode_address addr ≡ ok true
    pub pool_address : String
    pub pool_derived : DerivedFrom cfg.voting_xpub user.id pool_address
    pub pool : ValidateAddressResponse
    pub validated : (w : W) × ((validate_address b conns pool_address w).0 ≡ ok (some pool))
    pub claims : List ValidateAddressResponse
    pub claimed : Answers (λ conn. b.validate_address conn pool_address) conns claims
    pub same_claims : All (λ r. r ≡ pool) claims
    pub is_mine : pool.is_mine ≡ true
    pub multisig : CreateMultisigResponse
    pub created :
        (w : W) × ((create_multisig b conns (pool.pub_key_addr ∷ addr ∷ []) w).0
          ≡ ok (some multisig))
    pub responses : List CreateMultisigResponse
    pub answered :
        Answers (λ conn. b.create_multisig conn (pool.pub_key_addr ∷ addr ∷ [])) conns responses
    pub same_scripts : All (SameScript multisig) responses
    pub script : List ℕ
    pub decoded : o.decode_string multisig.redeem_script ≡ ok script
    pub height : ℕ
    pub heights : List ℕ
    pub imported : Answers (λ conn. b.import_new_script conn script) conns heights
    pub last : Last heights height
    pub fee : String
    pub fee_derived_from : DerivedFrom cfg.fee_xpub user.id fee
    pub changed :
        after
        ≡ map columns (
            change_where
              (has_id user.id)
              (λ _. with_addresses multisig pool.pub_key_addr addr fee height user)
              before.users)

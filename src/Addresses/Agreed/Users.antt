-- ===== src/Addresses/Agreed/Users.antt =====
-- The steps of AddressPost that write to no user, or to no column that AddressPost writes.
use dcrstakepool.Shared.{
  ℕ, ◌+◌, ◌%◌, ◌^◌, ◌≤◌, ◌<◌, ◌≡◌, refl, sym, ap, subst, ◌∙◌, String, ltb, nat_beq, Bool, true,
  false, List, [], ◌∷◌, Result, ok, err, if◌then◌else◌, map, arith, Result-cases, inl, inr,
}
use Prim.Native.String.{len}
use dcrstakepool.Shared.Map.{Map}
use dcrstakepool.Client.Calls.{Conn, Call, continue, gather}
use dcrstakepool.Client.Calls.Laws.{Answers, gather-Answers}
use dcrstakepool.Client.Backend.{Backend}
use dcrstakepool.Client.Reads.{connected}
use dcrstakepool.Client.Writes.{import_new_script, set_user_voting_prefs, last_height}
use dcrstakepool.Stakepoold.FeeAddresses.{Child, derived, invalid_child, failed, branch_key}
use dcrstakepool.VoteBits.{Vote, UserRow, check_and_reset_user_vote_bits}
use dcrstakepool.VoteBits.Keeps.{check_and_reset_keeps}
use dcrstakepool.Accounts.{User, Tables, Outside, IsOutside}
use dcrstakepool.Accounts.Queries.{change_where, has_id, select_user_by_id}
use dcrstakepool.Accounts.Rules.{run-Inv}
use dcrstakepool.Addresses.{
  AddressConfig, max_users, address_of_branch, address_of_child, fee_address_for_user_id,
  ticket_address_for_user_id, secp_pub_key, validate_user_pub_key_addr, row_of, update_row,
  select_max_id, user_table, client_users, stakepoold_update_users,
}
use dcrstakepool.Addresses.Agreed.{columns, Last, DerivedFrom, users_of, Apart}

-- An update of the vote bits leaves the other columns.
change_where-columns :
    (row : UserRow) (us : List User)
    → map columns (
        change_where
          (has_id row.id)
          (λ user. record user {
            vote_bits = row.vote_bits;
            vote_bits_version = row.vote_bits_version;
          })
          us)
      ≡ map columns us
unfolding change_where
change_where-columns row [] = refl
change_where-columns row (u ∷ us) = one (nat_beq u.id row.id) (change_where-columns row us)
  where
    rest : List User
    rest =
        change_where (has_id row.id)
          (λ user. record user {
            vote_bits = row.vote_bits;
            vote_bits_version = row.vote_bits_version;
          })
          us

    one :
        (t : Bool)
        → map columns rest ≡ map columns us
        → map columns (
            (if t
              then record u { vote_bits = row.vote_bits; vote_bits_version = row.vote_bits_version }
              else u)
            ∷ rest)
          ≡ columns u ∷ map columns us
    one true later = ap (λ l. columns u ∷ l) later
    one false later = ap (λ l. columns u ∷ l) later

last_height-Last :
    (height : ℕ) (heights : List ℕ) → Last (height ∷ heights) (last_height height heights)
unfolding last_height
last_height-Last height [] = refl
last_height-Last height (h ∷ heights) = last_height-Last h heights

all-Last : (heights : List ℕ) → Last heights (last_height 0 heights)
unfolding last_height
all-Last [] = refl
all-Last (h ∷ heights) = last_height-Last h heights

module _ {W Info UserInfo K : Type 0} (b : Backend W Info UserInfo) (conns : List Conn)
    (o : Outside W) (deployments : List Vote) (vote_version : ℕ) (cfg : AddressConfig K)
    (tables : W → Tables) (laws : IsOutside o tables) where
  pub update_users-columns :
      Apart b conns o deployments vote_version cfg tables laws
      → (w : W)
      → users_of b conns o deployments vote_version cfg tables laws
          (stakepoold_update_users b conns (user_table o) deployments vote_version w).1
        ≡ users_of b conns o deployments vote_version cfg tables laws w
  unfolding stakepoold_update_users
  update_users-columns apart w =
      told (check_and_reset_user_vote_bits (user_table o) deployments vote_version w) (
        check_and_reset_keeps (user_table o) Same selects
          (λ row w' h.
            run-Inv o tables laws Same' (update_row row) w' h
              (change_where-columns row (tables w').users ∙ h))
          (λ w' h. run-Inv o tables laws Same' select_max_id w' h h) deployments vote_version w
          refl)
    where
      Same' : Tables → Type 0
      Same' t = map columns t.users ≡ map columns (tables w).users

      Same : W → Type 0
      Same w' = Same' (tables w')

      selects : (id : ℕ) (w' : W) → Same w' → Same ((user_table o).select_one id w').1
      selects id w' h =
          found (o.run (select_user_by_id id) w')
            (run-Inv o tables laws Same' (select_user_by_id id) w' h h)
        where
          found :
              (x : Result User × W)
              → Same x.1
              → Same (continue x.0 (λ user. λ v. (ok (row_of user), v)) x.1).1
          found (err e, v) i = i
          found (ok user, v) i = i

      told :
          (x : Result (Map ℕ UserRow) × W)
          → Same x.1
          → Same
              (continue x.0
                (λ users. set_user_voting_prefs b conns (client_users b conns users))
                x.1).1
      told (err e, v) h = h
      told (ok users, v) h = subst Same' (sym (apart.3 (client_users b conns users) v)) h

  child-DerivedFrom :
      (xpub : K) (uid : ℕ) (address : String)
      → (if ltb max_users (uid + 1)
          then err "bad uid index"
          else address_of_branch cfg.keys uid (branch_key cfg.keys (cfg.keys.child xpub 0)))
        ≡ ok address
      → DerivedFrom b conns o deployments vote_version cfg tables laws xpub uid address
  child-DerivedFrom xpub uid address h = bounded (ltb max_users (uid + 1)) refl h
    where
      Goal : Type 0
      Goal = DerivedFrom b conns o deployments vote_version cfg tables laws xpub uid address

      child :
          (branch : K)
          → uid < max_users
          → cfg.keys.child xpub 0 ≡ derived branch
          → (x : Child K) → cfg.keys.child branch (uid % 2 ^ 32) ≡ x
          → address_of_child cfg.keys (branch_key cfg.keys x) ≡ ok address
          → Goal
      child branch below at_branch (derived key) at_key found =
          (below, (branch, key, at_branch, at_key, found))
      child branch below at_branch invalid_child at_key found = absurd (cc)
      child branch below at_branch (failed e) at_key found = absurd (cc)

      on_branch :
          uid < max_users
          → (x : Child K) → cfg.keys.child xpub 0 ≡ x
          → address_of_branch cfg.keys uid (branch_key cfg.keys x) ≡ ok address
          → Goal
      on_branch below (derived branch) at_branch found =
          child branch below at_branch (cfg.keys.child branch (uid % 2 ^ 32)) refl found
      on_branch below invalid_child at_branch found = absurd (cc)
      on_branch below (failed e) at_branch found = absurd (cc)

      bounded :
          (t : Bool)
          → ltb max_users (uid + 1) ≡ t
          → (if t
              then err "bad uid index"
              else address_of_branch cfg.keys uid (branch_key cfg.keys (cfg.keys.child xpub 0)))
            ≡ ok address
          → Goal
      bounded true at_t found = absurd (cc)
      bounded false at_t found = on_branch (ground arith) (cfg.keys.child xpub 0) refl found

  pub ticket_address-DerivedFrom :
      (uid : ℕ) (address : String)
      → ticket_address_for_user_id cfg uid ≡ ok address
      → DerivedFrom b conns o deployments vote_version cfg tables laws cfg.voting_xpub uid address
  unfolding ticket_address_for_user_id
  ticket_address-DerivedFrom uid address h = child-DerivedFrom cfg.voting_xpub uid address h

  pub fee_address-DerivedFrom :
      (uid : ℕ) (address : String)
      → fee_address_for_user_id cfg uid ≡ ok address
      → DerivedFrom b conns o deployments vote_version cfg tables laws cfg.fee_xpub uid address
  unfolding fee_address_for_user_id
  fee_address-DerivedFrom uid address h = child-DerivedFrom cfg.fee_xpub uid address h

pub import_new_script-Answers :
    {W Info UserInfo : Type 0} (b : Backend W Info UserInfo) (conns : List Conn) (script : List ℕ)
    (w : W) (height : ℕ)
    → (import_new_script b conns script w).0 ≡ ok height
    → (heights : List ℕ) × Answers (λ conn. b.import_new_script conn script) conns heights
      × Last heights height
unfolding import_new_script
import_new_script-Answers {W} b conns script w height h =
    elim (Result-cases (connected b conns w).0) [
      | inr (m, e) ↦ let clash : err m ≡ ok height = rw e at h in absurd (cc)
      | inl (t, ready) ↦
          let v : W = (connected b conns w).1 in
          let call : Conn → Call W ℕ = λ conn. b.import_new_script conn script in
          elim (Result-cases (gather call conns v).0) [
            | inr (m, e) ↦ let clash : err m ≡ ok height = rw (ready, e) at h in absurd (cc)
            | inl (heights, e) ↦
                let last : ok (last_height 0 heights) ≡ ok height = rw (ready, e) at h in
                let is_last : last_height 0 heights ≡ height = cc in
                (
                  heights,
                  gather-Answers call conns v heights e,
                  subst (λ n. Last heights n) is_last (all-Last heights),
                )
          ]
    ]

pub validate-valid :
    {K : Type 0} (cfg : AddressConfig K) (addr : String)
    → validate_user_pub_key_addr cfg addr ≡ ok tt
    → (40 ≤ len addr) × (len addr ≤ 65) × (cfg.decode_address addr ≡ ok true)
unfolding validate_user_pub_key_addr
validate-valid cfg addr h = short (ltb (len addr) 40) refl h
  where
    Goal : Type 0
    Goal = (40 ≤ len addr) × (len addr ≤ 65) × (cfg.decode_address addr ≡ ok true)

    right : (x : Result Bool) → secp_pub_key x ≡ ok tt → x ≡ ok true
    right (err e) h = absurd (cc)
    right (ok true) h = refl
    right (ok false) h = absurd (cc)

    long :
        40 ≤ len addr
        → (t : Bool) → ltb 65 (len addr) ≡ t
        → (if t then err "Address is too long" else secp_pub_key (cfg.decode_address addr)) ≡ ok tt
        → Goal
    long low true at_t h = absurd (cc)
    long low false at_t h = (low, ground arith, right (cfg.decode_address addr) h)

    short :
        (t : Bool)
        → ltb (len addr) 40 ≡ t
        → (if t
            then err "Address is too short"
            else if ltb 65 (len addr)
            then err "Address is too long"
            else secp_pub_key (cfg.decode_address addr))
          ≡ ok tt
        → Goal
    short true at_t h = absurd (cc)
    short false at_t h = long (ground arith) (ltb 65 (len addr)) refl h

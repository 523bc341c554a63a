-- ===== src/Addresses/Agreed/Steps.antt =====
-- The steps of AddressPost, each from what is known before it.
use dcrstakepool.Shared.{
  ℕ, ◌≡◌, refl, sym, ap, subst, ◌∙◌, String, ltb, nat_beq_iff, Bool, true, false, not, Option, none,
  some, List, [], ◌∷◌, Result, ok, err, if◌then◌else◌, map, ◌⊎◌, inl, inr,
}
use Prim.Native.String.{len}
use dcrstakepool.Rpc.Messages.{ValidateAddressResponse, CreateMultisigResponse}
use dcrstakepool.Client.Calls.{Conn}
use dcrstakepool.Client.Backend.{Backend}
use dcrstakepool.Client.Reads.{validate_address}
use dcrstakepool.Client.Writes.{create_multisig, import_new_script}
use dcrstakepool.VoteBits.{Vote}
use dcrstakepool.Accounts.{User, Tables, Outside, IsOutside}
use dcrstakepool.Accounts.Queries.{change_where, has_id, select_user_by_id, update_user}
use dcrstakepool.Accounts.Keys.{only_row-Unique}
use dcrstakepool.Accounts.Rules.{run-ok, run-kept, run-Inv}
use dcrstakepool.Accounts.Requests.{WebSession, Answer}
use dcrstakepool.Addresses.{
  AddressConfig, fee_address_for_user_id, ticket_address_for_user_id, validate_user_pub_key_addr,
  with_addresses, user_found, update_user_by_id, user_updated, fee_derived, script_imported,
  script_decoded, multisig_created, pool_address_decoded, pool_address_validated,
  ticket_address_derived, user_address_valid, user_selected, address_if_known,
}
use dcrstakepool.Client.Reads.Agreement.{validate_address-agrees}
use dcrstakepool.Client.Writes.Guard.{create_multisig-agrees}
use dcrstakepool.Addresses.Agreed.Users.{
  update_users-columns, ticket_address-DerivedFrom, fee_address-DerivedFrom,
  import_new_script-Answers, validate-valid,
}
use dcrstakepool.Addresses.Agreed.{Columns, columns, users_of, Apart, Agreed}

module _ {W Info UserInfo K : Type 0} (b : Backend W Info UserInfo) (conns : List Conn)
    (o : Outside W) (deployments : List Vote) (vote_version : ℕ) (cfg : AddressConfig K)
    (tables : W → Tables) (laws : IsOutside o tables)
    (apart : Apart b conns o deployments vote_version cfg tables laws) (addr : String)
    (s : WebSession) (w : W) where
  abbrev P : List Columns → Type 0
  P us =
      (us ≡ users_of b conns o deployments vote_version cfg tables laws w)
      ⊎ Agreed b conns o deployments vote_version cfg tables laws addr s (tables w) us

  abbrev Fine : W → Type 0
  Fine w' = P (users_of b conns o deployments vote_version cfg tables laws w')

  left : (w' : W) → tables w' ≡ tables w → Fine w'
  left w' same = inl (ap (λ t. map columns t.users) same)

  told :
      (x : Option (Unit {0}) × W)
      → Fine x.1
      → Fine (user_updated b conns o deployments vote_version cfg s x).1
  told (none, w') h = h
  told (some _, w') h =
      subst P
        (sym (update_users-columns b conns o deployments vote_version cfg tables laws apart w')) h

  written :
      (user : User) (change : User → User) (w' : W)
      → tables w' ≡ tables w
      → (select_user_by_id user.id (tables w)).0 ≡ ok user
      → P (map columns (change_where (has_id (change user).id) (λ _. change user) (tables w).users))
      → Fine
          (user_found b conns o deployments vote_version cfg change
            (o.run (select_user_by_id user.id) w')).1
  written user change w' same found changed =
      selected (o.run (select_user_by_id user.id) w') refl
        (run-kept o tables laws (select_user_by_id user.id) w' refl ∙ same)
    where
      selected :
          (x : Result User × W)
          → o.run (select_user_by_id user.id) w' ≡ x
          → tables x.1 ≡ tables w
          → Fine (user_found b conns o deployments vote_version cfg change x).1
      selected (err e, w'') at_x same'' = left w'' same''
      selected (ok u, w'') at_x same'' =
          let at_u : ok u ≡ ok user =
            sym (run-ok o tables laws (select_user_by_id user.id) w' u w'' at_x).0
            ∙ ap (λ t. (select_user_by_id user.id t).0) same
            ∙ found in
          let one : u ≡ user = cc in
          run-Inv o tables laws (λ t. P (map columns t.users)) (update_user (change u)) w''
            (left w'' same'')
            (subst
              (λ v. P (
                map columns
                  (change_where (has_id (change v).id) (λ _. change v) (tables w'').users)))
              (sym one)
              (subst
                (λ t.
                  P (
                    map columns
                      (change_where (has_id (change user).id) (λ _. change user) t.users)))
                (sym same'') changed))

  -- The facts of the steps up to the answer of CreateMultisig.
  abbrev Steps : User → ValidateAddressResponse → CreateMultisigResponse → Type 0
  Steps user v m =
      ((s.user_id ≡ some user.id)
        × ((select_user_by_id user.id (tables w)).0 ≡ ok user)
        × (ltb 0 (len user.user_pub_key_addr) ≡ false))
      × (validate_user_pub_key_addr cfg addr ≡ ok tt)
      × ((pool_address : String) × (ticket_address_for_user_id cfg user.id ≡ ok pool_address)
          × ((w1 : W) × ((validate_address b conns pool_address w1).0 ≡ ok (some v))))
      × (v.is_mine ≡ true)
      × ((w2 : W) × ((create_multisig b conns (v.pub_key_addr ∷ addr ∷ []) w2).0 ≡ ok (some m)))

  fee_known :
      (user : User) (v : ValidateAddressResponse) (m : CreateMultisigResponse) (script : List ℕ)
      (height : ℕ) (w' : W)
      → tables w' ≡ tables w
      → Steps user v m
      → o.decode_string m.redeem_script ≡ ok script
      → ((w3 : W) × ((import_new_script b conns script w3).0 ≡ ok height))
      → (x : Result String) → fee_address_for_user_id cfg user.id ≡ x
      → Fine (fee_derived b conns o deployments vote_version cfg user.id addr v m height s w' x).1
  unfolding update_user_by_id
  fee_known user v m script height w' same steps decoded imported (err e) at_x = left w' same
  fee_known user v m script height w' same steps decoded imported (ok fee) at_x =
      let agreed =
        create_multisig-agrees b conns (v.pub_key_addr ∷ addr ∷ []) steps.4.0 m steps.4.1 in
      let claimed = validate_address-agrees b conns steps.2.0 steps.2.2.0 v steps.2.2.1 in
      let told_heights = import_new_script-Answers b conns script imported.0 height imported.1 in
      told
        (update_user_by_id b conns o deployments vote_version cfg user.id
          (with_addresses m v.pub_key_addr addr fee height) w')
        (written user (with_addresses m v.pub_key_addr addr fee height) w' same steps.0.1 (
          inr (record {
            user = user;
            session = steps.0.0;
            found = steps.0.1;
            no_address = steps.0.2;
            long_enough = (validate-valid cfg addr steps.1).0;
            short_enough = (validate-valid cfg addr steps.1).1;
            decoded_address = (validate-valid cfg addr steps.1).2;
            pool_address = steps.2.0;
            pool_derived =
                ticket_address-DerivedFrom b conns o deployments vote_version cfg tables laws
                  user.id steps.2.0 steps.2.1;
            pool = v;
            validated = steps.2.2;
            claims = claimed.0;
            claimed = claimed.1;
            same_claims = claimed.2;
            is_mine = steps.3;
            multisig = m;
            created = steps.4;
            responses = agreed.0;
            answered = agreed.1;
            same_scripts = agreed.2;
            script = script;
            decoded = decoded;
            height = height;
            heights = told_heights.0;
            imported = told_heights.1;
            last = told_heights.2;
            fee = fee;
            fee_derived_from =
                fee_address-DerivedFrom b conns o deployments vote_version cfg tables laws user.id
                  fee at_x;
            changed = refl;
          })))

  script_known :
      (user : User) (v : ValidateAddressResponse) (m : CreateMultisigResponse) (w' : W)
      → tables w' ≡ tables w
      → Steps user v m
      → (x : Result (List ℕ)) → o.decode_string m.redeem_script ≡ x
      → Fine (script_decoded b conns o deployments vote_version cfg user.id addr v m s w' x).1
  script_known user v m w' same steps (err e) at_x = left w' same
  script_known user v m w' same steps (ok script) at_x =
      imported (import_new_script b conns script w') refl (apart.2 script w' ∙ same)
    where
      imported :
          (y : Result ℕ × W)
          → import_new_script b conns script w' ≡ y
          → tables y.1 ≡ tables w
          → Fine (script_imported b conns o deployments vote_version cfg user.id addr v m s y).1
      imported (err e, w'') at_y same'' = left w'' same''
      imported (ok height, w'') at_y same'' =
          fee_known user v m script height w'' same'' steps at_x (w', ap (λ z. z.0) at_y)
            (fee_address_for_user_id cfg user.id) refl

  pool_known :
      (user : User) (v : ValidateAddressResponse) (w' : W)
      → tables w' ≡ tables w
      → ((m : CreateMultisigResponse) (w2 : W)
          → (create_multisig b conns (v.pub_key_addr ∷ addr ∷ []) w2).0 ≡ ok (some m)
          → Steps user v m)
      → (x : Result Bool)
      → Fine (pool_address_decoded b conns o deployments vote_version cfg user.id addr v s w' x).1
  pool_known user v w' same steps (err e) = left w' same
  pool_known user v w' same steps (ok _) =
      created (create_multisig b conns (v.pub_key_addr ∷ addr ∷ []) w') refl
        (apart.1 (v.pub_key_addr ∷ addr ∷ []) w' ∙ same)
    where
      created :
          (y : Result (Option CreateMultisigResponse) × W)
          → create_multisig b conns (v.pub_key_addr ∷ addr ∷ []) w' ≡ y
          → tables y.1 ≡ tables w
          → Fine (multisig_created b conns o deployments vote_version cfg user.id addr v s y).1
      created (err e, w'') at_y same'' = left w'' same''
      created (ok none, w'') at_y same'' = left w'' same''
      created (ok (some m), w'') at_y same'' =
          script_known user v m w'' same'' (steps m w' (ap (λ z. z.0) at_y))
            (o.decode_string m.redeem_script) refl

  choose :
      (t : Bool) (x y : Answer W)
      → (t ≡ true → Fine x.1)
      → (t ≡ false → Fine y.1)
      → Fine (if t then x else y).1
  choose true x y h k = h refl
  choose false x y h k = k refl

  not-false : (t : Bool) → not t ≡ false → t ≡ true
  not-false true e = refl
  not-false false e = absurd (cc)

  ticket_known :
      (user : User) (w' : W)
      → tables w' ≡ tables w
      → (s.user_id ≡ some user.id)
        × ((select_user_by_id user.id (tables w)).0 ≡ ok user)
        × (ltb 0 (len user.user_pub_key_addr) ≡ false)
      → validate_user_pub_key_addr cfg addr ≡ ok tt
      → (x : Result String) → ticket_address_for_user_id cfg user.id ≡ x
      → Fine (ticket_address_derived b conns o deployments vote_version cfg user.id addr s w' x).1
  ticket_known user w' same start valid (err e) at_x = left w' same
  ticket_known user w' same start valid (ok pool_address) at_x =
      validated (validate_address b conns pool_address w') refl (apart.0 pool_address w' ∙ same)
    where
      validated :
          (y : Result (Option ValidateAddressResponse) × W)
          → validate_address b conns pool_address w' ≡ y
          → tables y.1 ≡ tables w
          → Fine (pool_address_validated b conns o deployments vote_version cfg user.id addr s y).1
      validated (err e, w'') at_y same'' = left w'' same''
      validated (ok none, w'') at_y same'' = left w'' same''
      validated (ok (some v), w'') at_y same'' =
          choose (not v.is_mine) _ _ (λ _. left w'' same'')
            (λ mine.
              pool_known user v w'' same''
                (λ m w2 created. (
                  start,
                  valid,
                  (pool_address, at_x, (w', ap (λ z. z.0) at_y)),
                  not-false v.is_mine mine,
                  (w2, created),
                ))
                (cfg.decode_address v.pub_key_addr))

  address_known :
      (user : User) (w' : W)
      → tables w' ≡ tables w
      → (s.user_id ≡ some user.id)
        × ((select_user_by_id user.id (tables w)).0 ≡ ok user)
        × (ltb 0 (len user.user_pub_key_addr) ≡ false)
      → (x : Result (Unit {0})) → validate_user_pub_key_addr cfg addr ≡ x
      → Fine (user_address_valid b conns o deployments vote_version cfg user.id addr s w' x).1
  address_known user w' same start (err e) at_x = left w' same
  address_known user w' same start (ok tt) at_x =
      ticket_known user w' same start at_x (ticket_address_for_user_id cfg user.id) refl

  selected :
      (uid : ℕ)
      → s.user_id ≡ some uid
      → (x : Result User × W) → o.run (select_user_by_id uid) w ≡ x
      → tables x.1 ≡ tables w
      → Fine (user_selected b conns o deployments vote_version cfg uid addr s x).1
  selected uid session (err e, w') at_x same = left w' same
  selected uid session (ok user, w') at_x same =
      let found = (run-ok o tables laws (select_user_by_id uid) w user w' at_x).0 in
      let at_id : user.id ≡ uid =
        (nat_beq_iff user.id uid).0 (only_row-Unique (has_id uid) (tables w).users user found).0 in
      subst
        (λ n. Fine (user_selected b conns o deployments vote_version cfg n addr s (ok user, w')).1)
        at_id
        (choose (ltb 0 (len user.user_pub_key_addr)) _ _ (λ _. left w' same)
          (λ no_address.
            address_known user w' same
              (
                session ∙ ap some (sym at_id),
                ap (λ n. (select_user_by_id n (tables w)).0) at_id ∙ found,
                no_address,
              )
              (validate_user_pub_key_addr cfg addr) refl))

  pub session_known :
      (x : Option ℕ)
      → s.user_id ≡ x
      → Fine (address_if_known b conns o deployments vote_version cfg addr s w x).1
  session_known none at_x = inl refl
  session_known (some uid) at_x =
      selected uid at_x (o.run (select_user_by_id uid) w) refl
        (run-kept o tables laws (select_user_by_id uid) w refl)

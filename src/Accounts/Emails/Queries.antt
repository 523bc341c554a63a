-- ===== src/Accounts/Emails/Queries.antt =====
-- The functions of Accounts.Queries and the ids and emails of the users.
use dcrstakepool.Shared.{
  All-each, ℕ, ◌≡◌, refl, sym, ap, subst, String, text_key, List, Result, ok, err, map,
}
use dcrstakepool.Client.Calls.{pure, lift}
use dcrstakepool.Accounts.{User, Tables, Statement, Outside, IsOutside}
use dcrstakepool.Accounts.Queries.{
  select_user_by_email, select_user_by_id, update_user, verify_email, select_sessions_of,
  delete_sessions, has_email_token, text_of_token, found_user, get_user_by_email,
  email_verification_complete, password_valid_by_id, login, update_user_password_by_id,
  destroy_sessions_for_user_id,
}
use dcrstakepool.Accounts.Keys.{key_of, change_where-keys}
use dcrstakepool.Accounts.Rules.{run-Inv, run-ok, bind-Inv, delete_sessions-Inv}
use dcrstakepool.Accounts.Emails.{IsCollation, IsWellFormed}
use dcrstakepool.Accounts.Emails.Updates.{update_user-keys}

module _ {W : Type 0} (o : Outside W) (tables : W → Tables) (laws : IsOutside o tables)
    (collation : IsCollation o.same_text) where
  abbrev pub Sound : Tables → Type 0
  Sound t = IsWellFormed o.same_text (map key_of t.users) t.next_user_id

  -- A statement that does not write to Users.
  pub elsewhere :
      {A : Type 0} (s : Statement A) (w : W)
      → Sound (tables w)
      → (s (tables w)).1.users ≡ (tables w).users
      → (s (tables w)).1.next_user_id ≡ (tables w).next_user_id
      → Sound (tables (o.run s w).1)
  elsewhere s w sound users next = run-Inv o tables laws Sound s w sound (
      subst (λ us. IsWellFormed o.same_text (map key_of us) (s (tables w)).1.next_user_id)
        (sym users)
        (subst (λ n. IsWellFormed o.same_text (map key_of (tables w).users) n) (sym next) sound))

  -- A statement that writes rows of Users with the keys that they have.
  keys_kept :
      {A : Type 0} (s : Statement A) (w : W)
      → Sound (tables w)
      → map key_of (s (tables w)).1.users ≡ map key_of (tables w).users
      → (s (tables w)).1.next_user_id ≡ (tables w).next_user_id
      → Sound (tables (o.run s w).1)
  keys_kept s w sound keys next = run-Inv o tables laws Sound s w sound (
      subst (λ ks. IsWellFormed o.same_text ks (s (tables w)).1.next_user_id) (sym keys)
        (subst (λ n. IsWellFormed o.same_text (map key_of (tables w).users) n) (sym next) sound))

  pub destroy_sessions-Sound :
      (id : ℕ) (w : W) → Sound (tables w) → Sound (tables (destroy_sessions_for_user_id o id w).1)
  unfolding destroy_sessions_for_user_id
  destroy_sessions-Sound id w sound =
      bind-Inv o tables laws Sound (o.run (select_sessions_of id)) (delete_sessions o) w
        (elsewhere (select_sessions_of id) w sound refl refl)
        (λ ds w' e. delete_sessions-Inv o tables laws Sound (λ t ss h. h) ds w' (kept w' ds e))
    where
      kept :
          (w' : W) (ds : List _) → o.run (select_sessions_of id) w ≡ (ok ds, w') → Sound (tables w')
      kept w' ds e =
          subst Sound (sym (run-ok o tables laws (select_sessions_of id) w ds w' e).1) sound

  pub get_user_by_email-Sound :
      (email : String) (w : W) → Sound (tables w) → Sound (tables (get_user_by_email o email w).1)
  unfolding get_user_by_email
  get_user_by_email-Sound email w sound =
      found (o.run (select_user_by_email o email) w)
        (elsewhere (select_user_by_email o email) w sound refl refl)
    where
      found : (x : Result User × W) → Sound (tables x.1) → Sound (tables (found_user o x).1)
      found (ok u, w') h = h
      found (err m, w') h = h

  -- The checked password: only reads.
  pub password_valid_by_id-Sound :
      (id : ℕ) (password : String) (w : W)
      → Sound (tables w)
      → Sound (tables (password_valid_by_id o id password w).1)
  unfolding password_valid_by_id
  password_valid_by_id-Sound id password w sound =
      bind-Inv o tables laws Sound (o.run (select_user_by_id id)) _ w
        (elsewhere (select_user_by_id id) w sound refl refl)
        (λ user w' e.
          let kept =
            subst Sound (sym (run-ok o tables laws (select_user_by_id id) w user w' e).1) sound in
          bind-Inv o tables laws Sound (lift (o.compare_hash_and_password user.password password))
            (λ _. pure user) w' kept
            (λ _ w'' e'. subst (λ v. Sound (tables v)) (ap (λ x. x.1) e') kept))

  pub login-Sound :
      (email password : String) (w : W)
      → Sound (tables w)
      → Sound (tables (login o email password w).1)
  unfolding login
  login-Sound email password w sound =
      bind-Inv o tables laws Sound (o.run (select_user_by_email o email)) _ w
        (elsewhere (select_user_by_email o email) w sound refl refl)
        (λ user w' e.
          let kept =
            subst Sound (sym (run-ok o tables laws (select_user_by_email o email) w user w' e).1)
              sound in
          bind-Inv o tables laws Sound (lift (o.compare_hash_and_password user.password password))
            (λ _. pure user) w' kept
            (λ _ w'' e'. subst (λ v. Sound (tables v)) (ap (λ x. x.1) e') kept))

  pub update_user_password_by_id-Sound :
      (id : ℕ) (password : String) (w : W)
      → Sound (tables w)
      → Sound (tables (update_user_password_by_id o id password w).1)
  unfolding update_user_password_by_id
  update_user_password_by_id-Sound id password w sound =
      bind-Inv o tables laws Sound (o.run (select_user_by_id id)) _ w
        (elsewhere (select_user_by_id id) w sound refl refl)
        (λ user w' e.
          let (found, same) = run-ok o tables laws (select_user_by_id id) w user w' e in
          let updated =
            keys_kept (update_user (record user { password = password })) w'
              (subst Sound (sym same) sound)
              (update_user-keys id (tables w').users user (record user { password = password })
                (subst (λ t. (select_user_by_id id t).0 ≡ ok user) (sym same) found) refl)
              refl in
          bind-Inv o tables laws Sound (o.run (update_user (record user { password = password })))
            (λ _. pure (record user { password = password })) w' updated
            (λ _ w'' e'. subst (λ x. Sound (tables x.1)) e' updated))

  pub email_verification_complete-Sound :
      (token : List ℕ) (w : W)
      → Sound (tables w)
      → Sound (tables (email_verification_complete o token w).1)
  unfolding email_verification_complete
  email_verification_complete-Sound token w sound =
      keys_kept (verify_email o (text_of_token o token)) w sound
        (change_where-keys (has_email_token o (text_of_token o token))
          (λ user. record user { email_token = ""; email_verified = 1 }) (tables w).users
          (All-each (tables w).users (λ user. λ _. refl)))
        refl

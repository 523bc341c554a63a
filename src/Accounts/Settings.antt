-- ===== src/Accounts/Settings.antt =====
-- SettingsPost and the passwords of the users.
use dcrstakepool.Shared.{
  ℕ, ◌≡◌, refl, sym, ap, ◌∙◌, String, text_key, ◌==◌, nat_beq_iff, Bool, true, false, not, Option,
  none, some, List, Result, ok, err, ◌⊎◌, inl, inr,
}
use dcrstakepool.Accounts.{User, Tables, Outside, IsOutside}
use dcrstakepool.Accounts.Queries.{
  change_where, has_id, select_user_by_id, insert_email_change_row, insert_email_change,
  update_user_password_by_id,
}
use dcrstakepool.Accounts.Keys.{only_row-Unique}
use dcrstakepool.Accounts.Requests.{Request, Config, WebSession}
use dcrstakepool.Accounts.Requests.Change.{
  change_notified, change_mailed, change_inserted, new_email_change, ask_unless_found,
  change_confirmed, settings_updated, settings_hashed, change_settings, settings_of,
  settings_if_known, settings_post,
}
use dcrstakepool.Accounts.Login.{Confirmed, password_valid_by_id-Confirmed}
use dcrstakepool.Accounts.Rules.{
  if-Inv, if-known, send-Inv, users-kept, get_user_by_email-kept, destroy_sessions-users,
  update_user_password_by_id-users,
}

module _ {W : Type 0} (o : Outside W) (tables : W → Tables) (laws : IsOutside o tables) where
  -- The user of the session has the hash of the new password, and nothing else is changed.
  pub record ByPassword (r : Request) (s : WebSession) (before : Tables) (after : List User)
      : Type 0 where
    pub user : User
    pub session : s.user_id ≡ some user.id
    pub found : (select_user_by_id user.id before).0 ≡ ok user
    pub compared : o.compare_hash_and_password user.password r.password ≡ ok tt
    pub repeated : (r.new_password == r.new_password_repeat) ≡ true
    pub hash : String
    pub hashed : o.generate_from_password r.salt r.new_password ≡ ok hash
    pub changed :
        after ≡ change_where (has_id user.id) (λ _. record user { password = hash }) before.users

  -- If a statement either fails and changes nothing or does what it says, SettingsPost leaves the users,
  -- or gives the hash of the new password of the form, which was repeated, to the user of the session, whose
  -- current password is that of the form, and changes nothing else of the users.
  pub settings_post-ByPassword :
      (cfg : Config) (r : Request) (s : WebSession) (w : W)
      → ((tables (settings_post o cfg r s w).1).users ≡ (tables w).users)
        ⊎ ByPassword r s (tables w) (tables (settings_post o cfg r s w).1).users
  unfolding settings_post settings_of change_settings settings_hashed settings_updated
      change_confirmed ask_unless_found change_inserted change_mailed change_notified
      insert_email_change
  settings_post-ByPassword cfg r s w = known s.user_id refl
    where
      P : List User → Type 0
      P us = (us ≡ (tables w).users) ⊎ ByPassword r s (tables w) us

      Fine : W → Type 0
      Fine w' = P (tables w').users

      left : (w' : W) → tables w' ≡ tables w → Fine w'
      left w' same = inl (ap (λ t. t.users) same)

      confirmed :
          (s : WebSession) (x : Result (Unit {0}) × W) → Fine x.1 → Fine (change_confirmed o s x).1
      confirmed s (err e, w) h = h
      confirmed s (ok _, w) h = h

      updated :
          (s : WebSession) (u : User) (x : Result User × W)
          → Fine x.1
          → Fine (settings_updated o cfg r u s x).1
      updated s u (err e, w) h = h
      updated s u (ok _, w) h = confirmed s _ (
          send-Inv o tables laws (λ t. P t.users) _ _
            (destroy_sessions-users o tables laws P u.id w h))

      notified :
          (s : WebSession) (x : Result (Unit {0}) × W) → Fine x.1 → Fine (change_notified o s x).1
      notified s (err e, w) h = h
      notified s (ok _, w) h = h

      inserted :
          (s : WebSession) (u : User) (x : Result (Unit {0}) × W)
          → Fine x.1
          → Fine (change_inserted o cfg r u s x).1
      inserted s u (err e, w) h = h
      inserted s u (ok _, w) h = notified _ _ (
          send-Inv o tables laws (λ t. P t.users) _ _
            (send-Inv o tables laws (λ t. P t.users) _ w h))

      asked :
          (s : WebSession) (u : User) (x : Option User × W)
          → Fine x.1
          → Fine (ask_unless_found o cfg r u s x).1
      asked s u (some _, w) h = h
      asked s u (none, w) h =
          inserted s u _
            (users-kept o tables laws P (insert_email_change_row (new_email_change o r u)) w h refl)

      not_false : (t : Bool) → not t ≡ false → t ≡ true
      not_false true e = refl
      not_false false e = absurd (cc)

      hashed :
          (s' : WebSession) (u : User) (w' : W)
          → tables w' ≡ tables w
          → s.user_id ≡ some u.id
          → (select_user_by_id u.id (tables w)).0 ≡ ok u
          → o.compare_hash_and_password u.password r.password ≡ ok tt
          → (r.new_password == r.new_password_repeat) ≡ true
          → (x : Result String) → o.generate_from_password r.salt r.new_password ≡ x
          → Fine (settings_hashed o cfg r u s' w' x).1
      hashed s' u w' same session found compared repeat (err e) at_x = left w' same
      hashed s' u w' same session found compared repeat (ok hash) at_x =
          updated s' u (update_user_password_by_id o u.id hash w') (
            update_user_password_by_id-users o tables laws P u.id hash w' (left w' same)
              (λ user at_user.
                let at_u : ok user ≡ ok u =
                  sym at_user ∙ ap (λ t. (select_user_by_id u.id t).0) same ∙ found in
                let one : user ≡ u = cc in
                inr (record {
                  user = u;
                  session = session;
                  found = found;
                  compared = compared;
                  repeated = repeat;
                  hash = hash;
                  hashed = at_x;
                  changed =
                      ap
                        (λ v.
                          change_where (has_id v.id) (λ _. record v { password = hash })
                            (tables w').users)
                        one
                      ∙ ap
                          (λ t.
                            change_where (has_id u.id) (λ _. record u { password = hash }) t.users)
                          same;
                })))

      changed :
          (s' : WebSession) (id : ℕ)
          → s.user_id ≡ some id
          → (x : Result User × W) → Confirmed o tables laws (select_user_by_id id) r.password w x
          → Fine (change_settings o cfg r s' x).1
      changed s' id session (err e, w') same = left w' same
      changed s' id session (ok u, w') (same, found, compared) =
          if-Inv o tables laws (λ t. P t.users) (r.update_email == "true") _ _
            (asked s' u _ (left _ (get_user_by_email-kept o tables laws r.email w' ∙ same)))
            (if-Inv o tables laws (λ t. P t.users) (r.update_password == "true") _ _
              (if-known o tables laws (λ t. P t.users)
                (not (r.new_password == r.new_password_repeat)) _ _ (λ _. left w' same)
                (λ repeat.
                  hashed s' u w' same (session ∙ ap some (sym at_id))
                    (ap (λ n. (select_user_by_id n (tables w)).0) at_id ∙ found) compared
                    (not_false (r.new_password == r.new_password_repeat) repeat)
                    (o.generate_from_password r.salt r.new_password) refl))
              (left w' same))
        where
          at_id : u.id ≡ id
          at_id = (nat_beq_iff u.id id).0 (only_row-Unique (has_id id) (tables w).users u found).0

      known : (id : Option ℕ) → s.user_id ≡ id → Fine (settings_if_known o cfg r s w id).1
      known none at_id = inl refl
      known (some id) at_id =
          if-Inv o tables laws (λ t. P t.users) (r.update_email == "true") _ _
            (if-Inv o tables laws (λ t. P t.users) (not r.captcha_done) _ _ (inl refl)
              (changed _ id at_id _ (password_valid_by_id-Confirmed o tables laws id r.password w)))
            (changed s id at_id _ (password_valid_by_id-Confirmed o tables laws id r.password w))

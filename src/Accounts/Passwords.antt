-- ===== src/Accounts/Passwords.antt =====
-- PasswordUpdatePost and the passwords of the users.
pub mod Changed
use dcrstakepool.Shared.{
  ℕ, ◌≡◌, refl, sym, ap, subst, ◌∙◌, String, text_key, ◌==◌, Bool, true, false, not, List, [], ◌∷◌,
  Result, ok, err, if◌then◌else◌, ◌⊎◌, inl, inr,
}
use dcrstakepool.Accounts.{User, PasswordReset, Tables, Outside, IsOutside}
use dcrstakepool.Accounts.Queries.{
  change_where, has_id, select_user_by_id, select_password_reset, delete_password_reset,
  text_of_token, user_token_from_str, user_id_exists, password_reset_token_exists,
  password_reset_token_delete, update_user_password_by_id,
}
use dcrstakepool.Accounts.Requests.{Request, WebSession, expired}
use dcrstakepool.Accounts.Requests.Reset.{
  token_not_expired, token_decoded, check_password_reset_token, password_updated, update_hashed,
  update_if_found, update_if_valid, password_update_post,
}
use dcrstakepool.Accounts.Rules.{
  run-ok, run-kept, if-Inv, if-known, users-kept, destroy_sessions-users,
  update_user_password_by_id-users,
}

module _ {W : Type 0} (o : Outside W) (tables : W → Tables) (laws : IsOutside o tables) where
  -- The token of the request is that of a row of PasswordReset that has not expired.
  abbrev pub ValidToken : Request → Tables → List ℕ × PasswordReset → Type 0
  ValidToken r t (token, p) =
      (user_token_from_str o r.t ≡ ok token)
      × ((select_password_reset o (text_of_token o token) t).0 ≡ ok p)
      × (expired p.expires r.now ≡ false)

  -- The owner of the token of the request has the hash of the new password, and nothing else is changed.
  pub record ByToken (r : Request) (before : Tables) (after : List User) : Type 0 where
    pub token : List ℕ
    pub reset : PasswordReset
    pub valid : ValidToken r before (token, reset)
    pub user : User
    pub owner : (select_user_by_id reset.user_id before).0 ≡ ok user
    pub not_empty : (r.password == "") ≡ false
    pub repeated : (r.password == r.password_repeat) ≡ true
    pub hash : String
    pub hashed : o.generate_from_password r.salt r.password ≡ ok hash
    pub changed :
        after ≡ change_where (has_id user.id) (λ _. record user { password = hash }) before.users

  -- The token check reads only, and its row is that of the token.
  abbrev Checked : Request → W → Result (List ℕ × PasswordReset) × W → Type 0
  Checked r w (err e, w') = tables w' ≡ tables w
  Checked r w (ok found, w') = (tables w' ≡ tables w) × ValidToken r (tables w) found

  pub check_password_reset_token-Checked :
      (r : Request) (w : W) → Checked r w (check_password_reset_token o r w)
  unfolding check_password_reset_token token_not_expired password_reset_token_exists
  check_password_reset_token-Checked r w = present (r.t == "")
    where
      live :
          (token : List ℕ) (p : PasswordReset) (w' : W)
          → tables w' ≡ tables w
          → user_token_from_str o r.t ≡ ok token
          → (select_password_reset o (text_of_token o token) (tables w)).0 ≡ ok p
          → (t : Bool) → expired p.expires r.now ≡ t
          → Checked r w
              (if t then (err "Password update token has expired.", w') else (ok (token, p), w'))
      live token p w' same decoded known true e = same
      live token p w' same decoded known false e = (same, (decoded, known, e))

      found :
          (token : List ℕ)
          → user_token_from_str o r.t ≡ ok token
          → (x : Result PasswordReset × W)
          → o.run (select_password_reset o (text_of_token o token)) w ≡ x
          → tables x.1 ≡ tables w
          → Checked r w (token_not_expired o r token x)
      found token decoded (err e, w') at_x same = same
      found token decoded (ok p, w') at_x same =
          live token p w' same decoded
            (run-ok o tables laws (select_password_reset o (text_of_token o token)) w p w' at_x).0
            (expired p.expires r.now) refl

      decode :
          (x : Result (List ℕ))
          → user_token_from_str o r.t ≡ x
          → Checked r w (token_decoded o r w x)
      decode (err e) at_x = refl
      decode (ok token) at_x =
          found token at_x (o.run (select_password_reset o (text_of_token o token)) w) refl
            (run-kept o tables laws (select_password_reset o (text_of_token o token)) w refl)

      present :
          (t : Bool)
          → Checked r w (
              if t
              then (err "No password update token present.", w)
              else token_decoded o r w (user_token_from_str o r.t))
      present true = refl
      present false = decode (user_token_from_str o r.t) refl

  -- If a statement either fails and changes nothing or does what it says, PasswordUpdatePost leaves the
  -- users, or gives the hash of the password of the form, which is not empty and was repeated, to the
  -- user of a row of PasswordReset with the token of the request that has not expired, and changes nothing
  -- else of the users.
  pub password_update_post-ByToken :
      (r : Request) (s : WebSession) (w : W)
      → ((tables (password_update_post o r s w).1).users ≡ (tables w).users)
        ⊎ ByToken r (tables w) (tables (password_update_post o r s w).1).users
  unfolding password_update_post update_if_valid update_if_found update_hashed password_updated
      password_reset_token_delete user_id_exists
  password_update_post-ByToken r s w =
      valid (check_password_reset_token o r w) (check_password_reset_token-Checked r w)
    where
      P : List User → Type 0
      P us = (us ≡ (tables w).users) ⊎ ByToken r (tables w) us

      updated :
          (token : List ℕ) (u : User) (x : Result User × W)
          → P (tables x.1).users
          → P (tables (password_updated o token u s x).1).users
      updated token u (err e, w') h = h
      updated token u (ok _, w') h =
          destroy_sessions-users o tables laws P u.id _
            (users-kept o tables laws P (delete_password_reset o (text_of_token o token)) w' h refl)

      hashed :
          (token : List ℕ) (p : PasswordReset) (u : User) (w' : W)
          → tables w' ≡ tables w
          → ValidToken r (tables w) (token, p)
          → (r.password == "") ≡ false
          → (r.password == r.password_repeat) ≡ true
          → (x : Result String) → o.generate_from_password r.salt r.password ≡ x
          → P (tables (update_hashed o token p u s w' x).1).users
      hashed token p u w' same valid filled repeat (err e) at_x = inl (ap (λ t. t.users) same)
      hashed token p u w' same valid filled repeat (ok hash) at_x =
          updated token u (update_user_password_by_id o p.user_id hash w') (
            update_user_password_by_id-users o tables laws P p.user_id hash w'
              (inl (ap (λ t. t.users) same))
              (λ user owner. inr (record {
                token = token;
                reset = p;
                valid = valid;
                user = user;
                owner = subst (λ t. (select_user_by_id p.user_id t).0 ≡ ok user) same owner;
                not_empty = filled;
                repeated = repeat;
                hash = hash;
                hashed = at_x;
                changed =
                    ap
                      (λ t.
                        change_where (has_id user.id) (λ _. record user { password = hash })
                          t.users)
                      same;
              })))

      found :
          (token : List ℕ) (p : PasswordReset)
          → ValidToken r (tables w) (token, p)
          → (r.password == "") ≡ false
          → (r.password == r.password_repeat) ≡ true
          → (x : Result User × W) → tables x.1 ≡ tables w
          → P (tables (update_if_found o r token p s x).1).users
      found token p valid filled repeat (err e, w') same = inl (ap (λ t. t.users) same)
      found token p valid filled repeat (ok u, w') same =
          hashed token p u w' same valid filled repeat (o.generate_from_password r.salt r.password)
            refl

      not_false : (t : Bool) → not t ≡ false → t ≡ true
      not_false true e = refl
      not_false false e = absurd (cc)

      valid :
          (x : Result (List ℕ × PasswordReset) × W)
          → Checked r w x
          → P (tables (update_if_valid o r s x).1).users
      valid (err e, w') same = inl (ap (λ t. t.users) same)
      valid (ok (token, p), w') (same, known) =
          if-known o tables laws (λ t. P t.users) (r.password == "") _ _
            (λ _. inl (ap (λ t. t.users) same))
            (λ filled.
              if-known o tables laws (λ t. P t.users) (not (r.password == r.password_repeat)) _ _
                (λ _. inl (ap (λ t. t.users) same))
                (λ repeat.
                  found token p known filled (not_false (r.password == r.password_repeat) repeat)
                    (o.run (select_user_by_id p.user_id) w')
                    (run-kept o tables laws (select_user_by_id p.user_id) w' refl ∙ same)))

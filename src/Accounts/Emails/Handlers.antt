-- ===== src/Accounts/Emails/Handlers.antt =====
-- The handlers of Accounts and the ids and emails of the users.
use dcrstakepool.Shared.{
  ℕ, ◌≡◌, refl, sym, ap, subst, ◌∙◌, String, text_key, ◌==◌, Bool, false, not, nat_beq, Option,
  none, some, List, Result, ok, err, if◌then◌else◌, map, All, ◌⊎◌, inl, inr,
}
use dcrstakepool.Client.Calls.{Call, ◌>>=◌}
use dcrstakepool.Accounts.{User, EmailChange, Tables, Outside, IsOutside}
use dcrstakepool.Accounts.Queries.{
  select_user_by_email, select_email_change, insert_user, set_email, delete_password_resets_of,
  delete_email_change, text_of_token, select_user_by_email_token, found_user, get_user_by_email,
  insert_user_row, user_token_from_str, email_verification_token_exists,
  email_verification_complete, email_change_complete, login,
}
use dcrstakepool.Accounts.Requests.{
  Request, Config, WebSession, Answer, mail_sent, logged_in, login_post, registered, new_user,
  insert_hashed, register_unless_found, register_post, verified, verify_decoded, contains_text,
  verify_if_found, email_verify,
}
use dcrstakepool.Accounts.Keys.{key_of}
use dcrstakepool.Accounts.Rules.{run-Inv, run-ok, run-kept, send-Inv, bind-Inv, if-Inv}
use dcrstakepool.Accounts.Emails.{IsCollation, only_row-free, insert-IsWellFormed}
use dcrstakepool.Accounts.Emails.Updates.{set_email-IsWellFormed}
use dcrstakepool.Accounts.Emails.Queries.{
  Sound, elsewhere, get_user_by_email-Sound, login-Sound, email_verification_complete-Sound,
}

-- The selection of a user by an email has failed although there was one row with it.
abbrev pub Misses : {W : Type 0} → Outside W → (W → Tables) → String → W → Type 0
Misses o tables email w =
    (e : String) × (user : User) × ((o.run (select_user_by_email o email) w).0 ≡ err e)
    × ((select_user_by_email o email (tables w)).0 ≡ ok user)

module _ {W : Type 0} (o : Outside W) (tables : W → Tables) (laws : IsOutside o tables)
    (collation : IsCollation o.same_text) where
  abbrev pub Good : W → Type 0
  Good w = Sound o tables laws collation (tables w)

  logged_in-Sound : (s : WebSession) (x : Result User × W) → Good x.1 → Good (logged_in o s x).1
  unfolding logged_in
  logged_in-Sound s (err e, w) h = h
  logged_in-Sound s (ok u, w) h =
      if-Inv o tables laws (Sound o tables laws collation) (nat_beq u.email_verified 0) _ _ h h

  pub login_post-Sound :
      (r : Request) (s : WebSession) (w : W) → Good w → Good (login_post o r s w).1
  unfolding login_post
  login_post-Sound r s w h =
      logged_in-Sound s (login o r.email r.password w)
        (login-Sound o tables laws collation r.email r.password w h)

  verified-Sound : (s : WebSession) (x : Result (Unit {0}) × W) → Good x.1 → Good (verified o s x).1
  unfolding verified
  verified-Sound s (err e, w) h = h
  verified-Sound s (ok _, w) h = h

  verify_if_found-Sound :
      (token : List ℕ) (s : WebSession) (x : Result User × W)
      → Good x.1
      → Good (verify_if_found o token s x).1
  unfolding verify_if_found
  verify_if_found-Sound token s (err e, w) h = h
  verify_if_found-Sound token s (ok u, w) h =
      verified-Sound s (email_verification_complete o token w)
        (email_verification_complete-Sound o tables laws collation token w h)

  pub email_verify-Sound :
      (r : Request) (s : WebSession) (w : W) → Good w → Good (email_verify o r s w).1
  unfolding email_verify email_verification_token_exists
  email_verify-Sound r s w h =
      if-Inv o tables laws (Sound o tables laws collation) (r.t == "") _ _ h
        (decoded (user_token_from_str o r.t))
    where
      decoded : (x : Result (List ℕ)) → Good (verify_decoded o s w x).1
      decoded (err e) = h
      decoded (ok token) = verify_if_found-Sound token s _ (
          elsewhere o tables laws collation (select_user_by_email_token o (text_of_token o token)) w
            h refl refl)

  mail_sent-Sound :
      (s : WebSession) (x : Result (Unit {0}) × W) → Good x.1 → Good (mail_sent o s x).1
  mail_sent-Sound s (err e, w) h = h
  mail_sent-Sound s (ok _, w) h = h

  registered-Sound :
      (cfg : Config) (r : Request) (s : WebSession) (x : Result (Unit {0}) × W)
      → Good x.1
      → Good (registered o cfg r s x).1
  unfolding registered
  registered-Sound cfg r s (err e, w) h = h
  registered-Sound cfg r s (ok _, w) h =
      mail_sent-Sound s _ (send-Inv o tables laws (Sound o tables laws collation) _ w h)

  abbrev pub Free : String → W → Type 0
  Free email w = All (λ k. o.same_text k.1 email ≡ false) (map key_of (tables w).users)

  -- After GetUserByEmail has returned nil, no row has the email, or the selection has missed it.
  pub get_user_by_email-Free :
      (email : String) (w w' : W)
      → Good w
      → get_user_by_email o email w ≡ (none, w')
      → (Good w' × Free email w') ⊎ Misses o tables email w
  unfolding get_user_by_email
  get_user_by_email-Free email w w' sound e =
      found (o.run (select_user_by_email o email) w) refl
        (run-kept o tables laws (select_user_by_email o email) w refl) e
    where
      absent :
          (m : String) (v : W)
          → o.run (select_user_by_email o email) w ≡ (err m, v)
          → tables w' ≡ tables w
          → (x : Result User) → (select_user_by_email o email (tables w)).0 ≡ x
          → (Good w' × Free email w') ⊎ Misses o tables email w
      absent m v at_run same (ok user) at_x = inr (m, user, ap (λ y. y.0) at_run, at_x)
      absent m v at_run same (err m') at_x = inl (
        subst (Sound o tables laws collation) (sym same) sound,
        subst (λ t. All (λ k. o.same_text k.1 email ≡ false) (map key_of t.users)) (sym same)
            (only_row-free o.same_text collation email m' (tables w).users sound.emails_distinct
              at_x),
      )

      found :
          (x : Result User × W)
          → o.run (select_user_by_email o email) w ≡ x
          → tables x.1 ≡ tables w
          → found_user o x ≡ (none, w')
          → (Good w' × Free email w') ⊎ Misses o tables email w
      found (ok u, v) at_run kept at_x =
          let clash : some u ≡ none = ap (λ y. y.0) at_x in absurd (cc)
      found (err m, v) at_run kept at_x =
          absent m v at_run (ap (λ y. tables y.1) (sym at_x) ∙ kept)
            (select_user_by_email o email (tables w)).0 refl

  insert_hashed-Sound :
      (cfg : Config) (r : Request) (s : WebSession) (w : W) (h : Result String)
      → Good w
      → Free r.email w
      → Good (insert_hashed o cfg r s w h).1
  unfolding insert_user_row
  insert_hashed-Sound cfg r s w (err e) sound free = sound
  insert_hashed-Sound cfg r s w (ok hash) sound free =
      registered-Sound cfg r s (insert_user_row o (new_user o cfg r hash) w) (
        run-Inv o tables laws (Sound o tables laws collation) (insert_user (new_user o cfg r hash))
          w sound
          (insert-IsWellFormed o.same_text collation (tables w).users (tables w).next_user_id
            (record (new_user o cfg r hash) { id = (tables w).next_user_id }) sound refl free))

  pub register_post-Sound :
      (cfg : Config) (r : Request) (s : WebSession) (w : W)
      → Good w
      → Good (register_post o cfg r s w).1 ⊎ Misses o tables r.email w
  unfolding register_post register_unless_found
  register_post-Sound cfg r s w h = choose cfg.close_pool _ _ (inl h) (
      choose (not r.captcha_done) _ _ (inl h) (
        choose (not (contains_text r.email "@")) _ _ (inl h) (
          choose (r.password == "") _ _ (inl h) (
            choose (not (r.password == r.password_repeat)) _ _ (inl h) (
              looked (get_user_by_email o r.email w) refl
                (get_user_by_email-Sound o tables laws collation r.email w h))))))
    where
      Right : W → Type 0
      Right v = Good v ⊎ Misses o tables r.email w

      choose : (t : Bool) (x y : Answer W) → Right x.1 → Right y.1 → Right (if t then x else y).1
      choose t x y =
          if-Inv o tables laws (λ t'. Sound o tables laws collation t' ⊎ Misses o tables r.email w)
            t x y

      insert_if_free :
          (w' : W)
          → (Good w' × Free r.email w') ⊎ Misses o tables r.email w
          → Right
              (insert_hashed o cfg r
                (record s { captcha_done = false })
                w'
                (o.generate_from_password r.salt r.password)).1
      insert_if_free w' (inl (sound, free)) = inl (
          insert_hashed-Sound cfg r (record s { captcha_done = false }) w'
            (o.generate_from_password r.salt r.password) sound free)
      insert_if_free w' (inr misses) = inr misses

      looked :
          (x : Option User × W)
          → get_user_by_email o r.email w ≡ x
          → Good x.1
          → Right (register_unless_found o cfg r (record s { captcha_done = false }) x).1
      looked (some u, w') at_x sound = inl sound
      looked (none, w') at_x sound = insert_if_free w' (get_user_by_email-Free r.email w w' h at_x)

  -- EmailChangeComplete, if no row has the new email of the row that the token names.
  pub email_change_complete-Sound :
      (token : List ℕ) (c : EmailChange) (w : W)
      → (select_email_change o (text_of_token o token) (tables w)).0 ≡ ok c
      → Good w
      → Free c.new_email w
      → Good (email_change_complete o token w).1
  unfolding email_change_complete
  email_change_complete-Sound token c w known sound free =
      follow (o.run (select_email_change o text)) _ w
        (elsewhere o tables laws collation (select_email_change o text) w sound refl refl)
        (λ c' w' e.
          let (found, same) = run-ok o tables laws (select_email_change o text) w c' w' e in
          let one : ok c' ≡ ok c = sym found ∙ known in
          let email : c'.new_email ≡ c.new_email = cc in
          let free' : Free c'.new_email w' =
            subst (λ t. All (λ k. o.same_text k.1 c'.new_email ≡ false) (map key_of t.users))
              (sym same) (subst (λ m. Free m w) (sym email) free) in
          rest c' w' (subst Good' (sym same) sound) free')
    where
      text : String
      text = text_of_token o token

      Good' : Tables → Type 0
      Good' = Sound o tables laws collation

      follow :
          {A B : Type 0} (m : Call W A) (f : A → Call W B) (w : W)
          → Good (m w).1
          → ((a : A) (w' : W) → m w ≡ (ok a, w') → Good (f a w').1)
          → Good ((m >>= f) w).1
      follow = bind-Inv o tables laws (Sound o tables laws collation)

      rest :
          (c : EmailChange) (w : W)
          → Good w
          → Free c.new_email w
          → Good
              ((o.run (set_email c.new_email c.user_id) >>= λ _.
                  o.run (delete_password_resets_of c.user_id) >>= λ _.
                  o.run (delete_email_change o text))
                w).1
      rest c w sound free =
          let changed =
            run-Inv o tables laws (Sound o tables laws collation) (set_email c.new_email c.user_id)
              w sound
              (set_email-IsWellFormed o.same_text collation c.user_id c.new_email (tables w).users
                (tables w).next_user_id sound free) in
          follow (o.run (set_email c.new_email c.user_id)) _ w changed (λ _ w' e.
            let sound' = subst (λ x. Good x.1) e changed in
            let deleted =
              elsewhere o tables laws collation (delete_password_resets_of c.user_id) w' sound' refl
                refl in
            follow (o.run (delete_password_resets_of c.user_id)) _ w' deleted (λ _ w'' e'.
              elsewhere o tables laws collation (delete_email_change o text) w''
                (subst (λ x. Good x.1) e' deleted) refl refl))

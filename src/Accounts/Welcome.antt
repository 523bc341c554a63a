-- ===== src/Accounts/Welcome.antt =====
-- A new user registers, verifies the email with the token that was sent, and logs in.
use dcrstakepool.Shared.{
  ℕ, ◌≡◌, refl, sym, ap, subst, ◌∙◌, String, text_key, ◌==◌, true, false, not, some, List, [], ◌∷◌,
  ◌++◌, Result, ok, err,
}
use dcrstakepool.Accounts.{User, Tables, Email, Outside}
use dcrstakepool.Accounts.Queries.{
  rows_where, only_row, has_email, has_email_token, select_user_by_email,
  select_user_by_email_token, insert_user, verify_email, text_of_token, user_token_from_str,
  found_user, get_user_by_email, insert_user_row, email_verification_token_exists,
  email_verification_complete,
}
use dcrstakepool.Accounts.Keys.{only_row-Unique}
use dcrstakepool.Accounts.Requests.{
  Request, Config, WebSession, Answer, redirect, contains_text, mail_sent, registered, new_user,
  insert_hashed, register_unless_found, register_post, verified, verify_decoded, verify_if_found,
  email_verify, login_post,
}
use dcrstakepool.Accounts.Login.Done.{login_post-done}
use dcrstakepool.Accounts.Reliable.{IsReliable, run-result, run-done, take_else}
use dcrstakepool.Accounts.Rows.{rows_where-snoc, only_row-changed, change_where-one}

module _ {W : Type 0} (o : Outside W) (tables : W → Tables) (reliable : IsReliable o tables)
    (sends : (m : Email) (w : W) → tables (o.send m w).1 ≡ tables w) (cfg : Config) (r : Request)
    (hash : String) where
  -- The row of the new user, before and after the verification of the email.
  abbrev row : ℕ → User
  row id = record (new_user o cfg r hash) { id = id }

  abbrev confirmed : User → User
  confirmed user = record user { email_token = ""; email_verified = 1 }

  abbrev text : String
  text = text_of_token o r.new_user_token

  -- The form is filled in right, and no row has the email.
  abbrev pub Registers : W → Type 0
  Registers w =
      (cfg.close_pool ≡ false)
      × (not r.captcha_done ≡ false)
      × (not (contains_text r.email "@") ≡ false)
      × ((r.password == "") ≡ false)
      × (not (r.password == r.password_repeat) ≡ false)
      × (rows_where (has_email o r.email) (tables w).users ≡ [])
      × (o.generate_from_password r.salt r.password ≡ ok hash)

  register_post-inserted :
      (s : WebSession) (w : W)
      → Registers w
      → tables (register_post o cfg r s w).1 ≡ (insert_user (new_user o cfg r hash) (tables w)).1
  unfolding register_post register_unless_found get_user_by_email registered insert_user_row
  register_post-inserted s w (open_pool, captcha, at_sign, filled, repeat, free, hashed) =
      take_else Done cfg.close_pool _ _ open_pool (
        take_else Done (not r.captcha_done) _ _ captcha (
          take_else Done (not (contains_text r.email "@")) _ _ at_sign (
            take_else Done (r.password == "") _ _ filled (
              take_else Done (not (r.password == r.password_repeat)) _ _ repeat (
                run-result o tables reliable
                  (λ x. Done (
                    register_unless_found o cfg r (record s { captcha_done = false })
                      (found_user o x)))
                  (select_user_by_email o r.email) w (err "sql: no rows in result set")
                  (ap only_row free)
                  (λ w' same.
                    subst
                      (λ h. Done (insert_hashed o cfg r (record s { captcha_done = false }) w' h))
                      (sym hashed)
                      (run-done o tables reliable
                        (λ x. Done (registered o cfg r (record s { captcha_done = false }) x))
                        (insert_user (new_user o cfg r hash)) w' tt refl
                        (λ w'' same'. mailed _ (
                          sends _ w''
                          ∙ same'
                          ∙ ap (λ t. (insert_user (new_user o cfg r hash) t).1) same)))))))))
    where
      Done : Answer W → Type 0
      Done a = tables a.1 ≡ (insert_user (new_user o cfg r hash) (tables w)).1

      mailed :
          (x : Result (Unit {0}) × W)
          → tables x.1 ≡ (insert_user (new_user o cfg r hash) (tables w)).1
          → Done (mail_sent o (record s { captcha_done = false }) x)
      mailed (err e, w') h = h
      mailed (ok _, w') h = h

  -- The token that was sent is read back, is the text of itself, and was no other user's.
  abbrev pub Verifies : Request → W → Type 0
  Verifies r' w =
      ((r'.t == "") ≡ false)
      × (user_token_from_str o r'.t ≡ ok r.new_user_token)
      × (o.same_text text text ≡ true)
      × (rows_where (has_email_token o text) (tables w).users ≡ [])

  email_verify-confirmed :
      (r' : Request) (s : WebSession) (w w1 : W)
      → Verifies r' w
      → tables w1 ≡ (insert_user (new_user o cfg r hash) (tables w)).1
      → tables (email_verify o r' s w1).1 ≡ (verify_email o text (tables w1)).1
  unfolding email_verify verify_if_found verified email_verification_token_exists
      email_verification_complete
  email_verify-confirmed r' s w w1 (present, decoded, itself, fresh) inserted =
      take_else Done (r'.t == "") _ _ present (
        subst (λ x. Done (verify_decoded o s w1 x)) (sym decoded)
          (run-done o tables reliable (λ x. Done (verify_if_found o r.new_user_token s x))
            (select_user_by_email_token o text) w1 (row (tables w).next_user_id)
            (ap (λ t. (select_user_by_email_token o text t).0) inserted
              ∙ ap only_row (
                  rows_where-snoc (has_email_token o text) (tables w).users
                    (row (tables w).next_user_id) fresh itself))
            (λ w2 same.
              run-done o tables reliable (λ x. Done (verified o s x)) (verify_email o text) w2 tt
                refl (λ w3 same'. same' ∙ ap (λ t. (verify_email o text t).1) same))))
    where
      Done : Answer W → Type 0
      Done a = tables a.1 ≡ (verify_email o text (tables w1)).1

  -- The new user is selected by the email after both.
  found_confirmed :
      (w : W)
      → rows_where (has_email o r.email) (tables w).users ≡ []
      → o.same_text r.email r.email ≡ true
      → rows_where (has_email_token o text) (tables w).users ≡ []
      → o.same_text text text ≡ true
      → (select_user_by_email o r.email
          (verify_email o text (insert_user (new_user o cfg r hash) (tables w)).1).1).0
        ≡ ok (confirmed (row (tables w).next_user_id))
  found_confirmed w free itself fresh token_itself =
      ap (λ us. only_row (rows_where (has_email o r.email) us))
        (change_where-one (has_email_token o text) confirmed new us'
          (only_row-Unique (has_email_token o text) us' new by_token).1)
      ∙ only_row-changed (has_email o r.email) (has_email_token o text) new (confirmed new) us'
          by_email by_token itself
    where
      new : User
      new = row (tables w).next_user_id

      us' : List User
      us' = (tables w).users ++ new ∷ []

      by_token : only_row (rows_where (has_email_token o text) us') ≡ ok new
      by_token =
          ap only_row
            (rows_where-snoc (has_email_token o text) (tables w).users new fresh token_itself)

      by_email : only_row (rows_where (has_email o r.email) us') ≡ ok new
      by_email =
          ap only_row (rows_where-snoc (has_email o r.email) (tables w).users new free itself)

  -- Over a database that carries every statement out, where the email and the token are the same as
  -- themselves, and a mail server that writes to no table, if the form of RegisterPost is filled in right, no
  -- user has its email, its password has a hash that matches it, and the random token is read back from the
  -- link and was no other user's, then after RegisterPost and EmailVerify with the token, LoginPost with the
  -- email and the password gives the session the new user and goes on to the address page.
  pub register-verify-login :
      (s s' s'' : WebSession) (r' r'' : Request) (w : W)
      → Registers w
      → Verifies r' w
      → o.same_text r.email r.email ≡ true
      → o.compare_hash_and_password hash r.password ≡ ok tt
      → r''.email ≡ r.email
      → r''.password ≡ r.password
      → (login_post o r'' s'' (email_verify o r' s' (register_post o cfg r s w).1).1).0
        ≡ (redirect "/address", record s'' { user_id = some (tables w).next_user_id })
  register-verify-login s s' s'' r' r'' w registers verifies itself compared email password =
      login_post-done o tables reliable r'' s''
        (email_verify o r' s' (register_post o cfg r s w).1).1
        (confirmed (row (tables w).next_user_id))
        (ap
            (λ e.
              (select_user_by_email o e
                (tables (email_verify o r' s' (register_post o cfg r s w).1).1)).0)
            email
          ∙ ap (λ t. (select_user_by_email o r.email t).0)
              (email_verify-confirmed r' s' w (register_post o cfg r s w).1 verifies inserted
                ∙ ap (λ t. (verify_email o text t).1) inserted)
          ∙ found_confirmed w registers.5 itself verifies.3 verifies.2)
        (ap (λ p. o.compare_hash_and_password hash p) password ∙ compared) refl
    where
      inserted :
          tables (register_post o cfg r s w).1 ≡ (insert_user (new_user o cfg r hash) (tables w)).1
      inserted = register_post-inserted s w registers

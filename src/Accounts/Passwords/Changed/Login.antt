-- ===== src/Accounts/Passwords/Changed/Login.antt =====
-- The login, the token and the sessions after PasswordUpdatePost.
use dcrstakepool.Shared.{
  ℕ, ◌≡◌, sym, ap, ◌∙◌, String, text_key, ◌==◌, nat_beq, nat_beq_iff, false, not, some, List, [],
  ok, err, if◌then◌else◌,
}
use dcrstakepool.Accounts.{User, PasswordReset, Tables, Outside}
use dcrstakepool.Accounts.Queries.{
  only_row, has_id, has_email, select_user_by_id, select_user_by_email, select_password_reset,
  select_sessions_of, text_of_token, user_token_from_str,
}
use dcrstakepool.Accounts.Keys.{only_row-Unique}
use dcrstakepool.Accounts.Requests.{Request, WebSession, redirect, expired, login_post}
use dcrstakepool.Accounts.Requests.Reset.{password_update_post}
use dcrstakepool.Accounts.Login.Done.{login_post-done}
use dcrstakepool.Accounts.Reliable.{IsReliable}
use dcrstakepool.Accounts.Rows.{rows_where-except_self, rows_where-sessions, only_row-changed}
use dcrstakepool.Accounts.Passwords.Changed.{Updated, new_row, password_update_post-Updated}

module _ {W : Type 0} (o : Outside W) (tables : W → Tables) (reliable : IsReliable o tables)
    (r : Request) (s : WebSession) (w : W) (token : List ℕ) (p : PasswordReset) (user : User)
    (hash : String) where
  abbrev row : User
  row = new_row o tables reliable r s w token p user hash

  -- Over a database that carries every statement out, if the token of the request is that of a row of
  -- PasswordReset that has not expired, of a user whose email no other row has and is verified, and the new
  -- password is not empty, was repeated, and has a hash that matches it, then after PasswordUpdatePost
  -- LoginPost with this email and the new password gives the session this user, and goes on to the page for
  -- the address or to the tickets; no row of PasswordReset has the token, and no session is the user's.
  pub password_update_post-login :
      (r' : Request) (s' : WebSession)
      → r'.email ≡ user.email
      → r'.password ≡ r.password
      → nat_beq user.email_verified 0 ≡ false
      → (r.t == "") ≡ false
      → user_token_from_str o r.t ≡ ok token
      → (select_password_reset o (text_of_token o token) (tables w)).0 ≡ ok p
      → expired p.expires r.now ≡ false
      → (r.password == "") ≡ false
      → not (r.password == r.password_repeat) ≡ false
      → (select_user_by_id p.user_id (tables w)).0 ≡ ok user
      → (select_user_by_email o user.email (tables w)).0 ≡ ok user
      → o.generate_from_password r.salt r.password ≡ ok hash
      → o.compare_hash_and_password hash r.password ≡ ok tt
      → ((login_post o r' s' (password_update_post o r s w).1).0 ≡ (
        redirect (if user.multi_sig_address == "" then "/address" else "/tickets"),
        record s' { user_id = some user.id },
      ))
        × ((select_password_reset o
              (text_of_token o token)
              (tables (password_update_post o r s w).1)).0
            ≡ err "sql: no rows in result set")
        × ((select_sessions_of user.id (tables (password_update_post o r s w).1)).0 ≡ ok [])
  password_update_post-login r' s' email password verified present decoded known live filled repeat
        owner alone hashed compared =
      (
        login_post-done o tables reliable r' s' (password_update_post o r s w).1 row
            (ap (λ e. (select_user_by_email o e (tables (password_update_post o r s w).1)).0) email
              ∙ ap (λ t. (select_user_by_email o user.email t).0) after
              ∙ found)
            (ap (λ q. o.compare_hash_and_password hash q) password ∙ compared) verified,
        ap (λ t. (select_password_reset o text t).0) after
            ∙ ap only_row
                (rows_where-except_self (λ q. o.same_text q.token text) (tables w).password_resets),
        ap (λ t. (select_sessions_of user.id t).0) after
            ∙ ap ok (rows_where-sessions (λ c. nat_beq c.user_id user.id) (tables w).sessions),
      )
    where
      text : String
      text = text_of_token o token

      after :
          tables (password_update_post o r s w).1 ≡ Updated o tables reliable text row (tables w)
      after =
          password_update_post-Updated o tables reliable r s w token p user hash present decoded
            known live filled repeat owner hashed

      at_id : p.user_id ≡ user.id
      at_id = sym (
          (nat_beq_iff user.id p.user_id).0
            (only_row-Unique (has_id p.user_id) (tables w).users user owner).0)

      found :
          (select_user_by_email o user.email (Updated o tables reliable text row (tables w))).0
          ≡ ok row
      found =
          only_row-changed (has_email o user.email) (has_id user.id) user row (tables w).users alone
            (ap (λ n. (select_user_by_id n (tables w)).0) (sym at_id) ∙ owner)
            (only_row-Unique (has_email o user.email) (tables w).users user alone).0

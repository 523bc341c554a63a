-- ===== src/Accounts/Login/Done.antt =====
-- A LoginPost that succeeds, over a database that carries every statement out.
use dcrstakepool.Shared.{
  ◌≡◌, refl, sym, subst, text_key, ◌==◌, nat_beq, false, some, ok, if◌then◌else◌,
}
use dcrstakepool.Client.Calls.{continue}
use dcrstakepool.Accounts.{User, Tables, Outside}
use dcrstakepool.Accounts.Queries.{select_user_by_email, login}
use dcrstakepool.Accounts.Requests.{Request, WebSession, Answer, redirect, logged_in, login_post}
use dcrstakepool.Accounts.Reliable.{IsReliable, run-done, take_else}

module _ {W : Type 0} (o : Outside W) (tables : W → Tables) (reliable : IsReliable o tables) where
  pub login_post-done :
      (r : Request) (s : WebSession) (w : W) (user : User)
      → (select_user_by_email o r.email (tables w)).0 ≡ ok user
      → o.compare_hash_and_password user.password r.password ≡ ok tt
      → nat_beq user.email_verified 0 ≡ false
      → (login_post o r s w).0 ≡ (
        redirect (if user.multi_sig_address == "" then "/address" else "/tickets"),
        record s { user_id = some user.id },
      )
  unfolding login_post login logged_in
  login_post-done r s w user found compared confirmed =
      run-done o tables reliable
        (λ x. Right (
          logged_in o s (
            continue x.0
              (λ u. λ v.
                continue (o.compare_hash_and_password u.password r.password) (λ _. λ v'. (ok u, v'))
                  v)
              x.1)))
        (select_user_by_email o r.email) w user found
        (λ w' same.
          subst (λ c. Right (logged_in o s (continue c (λ _. λ v'. (ok user, v')) w')))
            (sym compared) (take_else Right (nat_beq user.email_verified 0) _ _ confirmed refl))
    where
      Right : Answer W → Type 0
      Right a = a.0 ≡ (
        redirect (if user.multi_sig_address == "" then "/address" else "/tickets"),
        record s { user_id = some user.id },
      )

-- ===== src/Accounts/Passwords/Changed.antt =====
-- PasswordUpdatePost with a valid token over a database that carries every statement out.
pub mod Login
use dcrstakepool.Shared.{
  ℕ, ◌≡◌, refl, sym, ap, subst, ◌∙◌, String, text_key, ◌==◌, nat_beq, Bool, true, false, not, List,
  [], ◌∷◌, Result, ok, err, if◌then◌else◌,
}
use dcrstakepool.Client.Calls.{continue}
use dcrstakepool.Accounts.{User, PasswordReset, Tables, Outside}
use dcrstakepool.Accounts.Queries.{
  rows_where, change_where, only_row, has_id, has_email, select_user_by_id, select_user_by_email,
  select_password_reset, delete_password_reset, select_sessions_of, delete_sessions, update_user,
  text_of_token, user_token_from_str, user_id_exists, login, password_reset_token_exists,
  password_reset_token_delete, update_user_password_by_id, destroy_sessions_for_user_id,
}
use dcrstakepool.Accounts.Requests.{Request, WebSession, Answer, expired}
use dcrstakepool.Accounts.Requests.Reset.{
  token_not_expired, token_decoded, check_password_reset_token, password_updated, update_hashed,
  update_if_found, update_if_valid, password_update_post,
}
use dcrstakepool.Accounts.Reliable.{IsReliable, run-done, take_else}
use dcrstakepool.Accounts.Rows.{
  without_sessions, delete_sessions-done, rows_where-except_self, rows_where-sessions,
  only_row-changed,
}

module _ {W : Type 0} (o : Outside W) (tables : W → Tables) (reliable : IsReliable o tables) where
  -- The tables after a change of the password of a user and the end of a token and of the user's sessions.
  abbrev pub Updated : String → User → Tables → Tables
  Updated text user t =
      let t' = (delete_password_reset o text (update_user user t).1).1 in
      without_sessions (rows_where (λ s. nat_beq s.user_id user.id) t'.sessions) t'

  destroyed :
      (Q : Tables → Type 0) (id : ℕ) (w : W)
      → Q (without_sessions (rows_where (λ s. nat_beq s.user_id id) (tables w).sessions) (tables w))
      → Q (tables (destroy_sessions_for_user_id o id w).1)
  unfolding destroy_sessions_for_user_id
  destroyed Q id w h =
      run-done o tables reliable (λ x. Q (tables (continue x.0 (delete_sessions o) x.1).1))
        (select_sessions_of id) w _ refl
        (λ w' same.
          subst Q
            (sym (
              (delete_sessions-done o tables reliable
                (rows_where (λ s. nat_beq s.user_id id) (tables w).sessions) w').1
              ∙ ap (without_sessions (rows_where (λ s. nat_beq s.user_id id) (tables w).sessions))
                  same))
            h)

  module _ (r : Request) (s : WebSession) (w : W) (token : List ℕ) (p : PasswordReset) (user : User)
      (hash : String) where
    abbrev pub new_row : User
    new_row = record user { password = hash }

    updated-Updated :
        (w' : W) (u : User)
        → tables w' ≡ (update_user new_row (tables w)).1
        → tables (password_updated o token user s (ok u, w')).1
          ≡ Updated (text_of_token o token) new_row (tables w)
    unfolding password_updated password_reset_token_delete
    updated-Updated w' u same =
        run-done o tables reliable
          (λ x.
            tables (destroy_sessions_for_user_id o user.id x.1).1
            ≡ Updated (text_of_token o token) new_row (tables w))
          (delete_password_reset o (text_of_token o token)) w' tt refl
          (λ w'' same'.
            let t'' : tables w''
                ≡ (delete_password_reset o (text_of_token o token)
                    (update_user new_row (tables w)).1).1 =
              same' ∙ ap (λ t. (delete_password_reset o (text_of_token o token) t).1) same in
            destroyed (λ t. t ≡ Updated (text_of_token o token) new_row (tables w)) user.id w''
              (ap (λ t. without_sessions (rows_where (λ s. nat_beq s.user_id user.id) t.sessions) t)
                t''))

    update_user_password-Updated :
        (w' : W)
        → tables w' ≡ tables w
        → (select_user_by_id p.user_id (tables w)).0 ≡ ok user
        → tables
            (password_updated o token user s (update_user_password_by_id o p.user_id hash w')).1
          ≡ Updated (text_of_token o token) new_row (tables w)
    unfolding update_user_password_by_id
    update_user_password-Updated w' same owner =
        run-done o tables reliable
          (λ x. Done (
            continue x.0
              (λ u. λ v.
                continue (o.run (update_user (record u { password = hash })) v).0
                  (λ _. λ v'. (ok (record u { password = hash }), v'))
                  (o.run (update_user (record u { password = hash })) v).1)
              x.1))
          (select_user_by_id p.user_id) w' user
          (ap (λ t. (select_user_by_id p.user_id t).0) same ∙ owner)
          (λ v same'.
            run-done o tables reliable (λ x. Done (continue x.0 (λ _. λ v'. (ok new_row, v')) x.1))
              (update_user new_row) v tt refl
              (λ v' same''.
                updated-Updated v' new_row
                  (same'' ∙ ap (λ t. (update_user new_row t).1) (same' ∙ same))))
      where
        Done : Result User × W → Type 0
        Done x =
            tables (password_updated o token user s x).1
            ≡ Updated (text_of_token o token) new_row (tables w)

    -- The tables after PasswordUpdatePost with a valid token.
    pub password_update_post-Updated :
        (r.t == "") ≡ false
        → user_token_from_str o r.t ≡ ok token
        → (select_password_reset o (text_of_token o token) (tables w)).0 ≡ ok p
        → expired p.expires r.now ≡ false
        → (r.password == "") ≡ false
        → not (r.password == r.password_repeat) ≡ false
        → (select_user_by_id p.user_id (tables w)).0 ≡ ok user
        → o.generate_from_password r.salt r.password ≡ ok hash
        → tables (password_update_post o r s w).1
          ≡ Updated (text_of_token o token) new_row (tables w)
    unfolding password_update_post check_password_reset_token token_not_expired
        password_reset_token_exists update_if_valid update_if_found update_hashed user_id_exists
    password_update_post-Updated present decoded known live filled repeat owner hashed =
        take_else (λ x. Done (update_if_valid o r s x)) (r.t == "") _ _ present
          (subst (λ x. Done (update_if_valid o r s (token_decoded o r w x))) (sym decoded)
            (run-done o tables reliable
              (λ x. Done (update_if_valid o r s (token_not_expired o r token x)))
              (select_password_reset o (text_of_token o token)) w p known
              (λ w1 same1.
                take_else (λ x. Done (update_if_valid o r s x)) (expired p.expires r.now) _ _ live
                  (take_else Done (r.password == "") _ _ filled (
                    take_else Done (not (r.password == r.password_repeat)) _ _ repeat (
                      run-done o tables reliable (λ x. Done (update_if_found o r token p s x))
                        (select_user_by_id p.user_id) w1 user
                        (ap (λ t. (select_user_by_id p.user_id t).0) same1 ∙ owner)
                        (λ w2 same2.
                          subst (λ x. Done (update_hashed o token p user s w2 x)) (sym hashed)
                            (update_user_password-Updated w2 (same2 ∙ same1) owner))))))))
      where
        Done : Answer W → Type 0
        Done a = tables a.1 ≡ Updated (text_of_token o token) new_row (tables w)

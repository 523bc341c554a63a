-- ===== src/Accounts/Queries.antt =====
-- The SQL statements, and the functions of models/user.go, helpers/auth.go and system/sqlstore.go that
-- run them. A row of a table that is missing, or that is not the only one, is an error of gorp's SelectOne.
use dcrstakepool.Shared.{
  ℕ, ◌+◌, String, text_key, nat_beq, Bool, true, false, List, [], ◌∷◌, ◌++◌, Result, ok, err,
  Option, none, some, if◌then◌else◌, length,
}
use dcrstakepool.Client.Calls.{Call, ◌>>=◌, ◌>>◌, pure, lift}
use dcrstakepool.Accounts.{User, EmailChange, PasswordReset, Session, Statement, Outside}

unfoldable pub rows_where : {A : Type 0} → (A → Bool) → List A → List A
rows_where p [] = []
rows_where p (a ∷ as') = let rest = rows_where p as' in if p a then a ∷ rest else rest

unfoldable pub rows_except : {A : Type 0} → (A → Bool) → List A → List A
rows_except p [] = []
rows_except p (a ∷ as') = let rest = rows_except p as' in if p a then rest else a ∷ rest

unfoldable pub change_where : {A : Type 0} → (A → Bool) → (A → A) → List A → List A
change_where p f [] = []
change_where p f (a ∷ as') = (if p a then f a else a) ∷ change_where p f as'

abbrev pub only_row : {A : Type 0} → List A → Result A
only_row [] = err "sql: no rows in result set"
only_row (a ∷ []) = ok a
only_row (a ∷ _ ∷ _) = err "gorp: multiple rows returned"

abbrev pub select_users : (User → Bool) → Statement User
select_users p t = (only_row (rows_where p t.users), t)

abbrev pub has_id : ℕ → User → Bool
has_id id user = nat_beq user.id id

-- SELECT * FROM Users WHERE UserId = ?
abbrev pub select_user_by_id : ℕ → Statement User
select_user_by_id id = select_users (has_id id)

-- gorp's Update of a row of Users
abbrev pub update_user : User → Statement (Unit {0})
update_user user t = (ok tt, record t { users = change_where (has_id user.id) (λ _. user) t.users })

-- gorp's Insert into Users
abbrev pub insert_user : User → Statement (Unit {0})
insert_user user t = (
  ok tt,
  record t {
    users = t.users ++ record user { id = t.next_user_id } ∷ [];
    next_user_id = t.next_user_id + 1;
  },
)

abbrev pub insert_email_change_row : EmailChange → Statement (Unit {0})
insert_email_change_row c t = (
  ok tt,
  record t {
    email_changes = t.email_changes ++ record c { id = t.next_email_change_id } ∷ [];
    next_email_change_id = t.next_email_change_id + 1;
  },
)

abbrev pub insert_password_reset_row : PasswordReset → Statement (Unit {0})
insert_password_reset_row p t = (
  ok tt,
  record t {
    password_resets = t.password_resets ++ record p { id = t.next_password_reset_id } ∷ [];
    next_password_reset_id = t.next_password_reset_id + 1;
  },
)

-- UPDATE Users SET Email = ? WHERE UserId = ?
abbrev pub set_email : String → ℕ → Statement (Unit {0})
set_email email id t = (
  ok tt,
  record t { users = change_where (has_id id) (λ user. record user { email = email }) t.users },
)

-- DELETE FROM PasswordReset WHERE UserId = ?
abbrev pub delete_password_resets_of : ℕ → Statement (Unit {0})
delete_password_resets_of id t = (
  ok tt,
  record t { password_resets = rows_except (λ p. nat_beq p.user_id id) t.password_resets },
)

-- SELECT * FROM Session WHERE UserId = ?
abbrev pub select_sessions_of : ℕ → Statement (List Session)
select_sessions_of id t = (ok (rows_where (λ s. nat_beq s.user_id id) t.sessions), t)

abbrev pub one_of : List Session → Session → Bool
one_of [] s = false
one_of (d ∷ ds) s = if nat_beq d.id s.id then true else one_of ds s

-- gorp's Delete of one row of Session
abbrev pub delete_session : Session → Statement (Unit {0})
delete_session d t = (ok tt, record t { sessions = rows_except (one_of (d ∷ [])) t.sessions })

abbrev pub user_token_size : ℕ
user_token_size = 16

module _ {W : Type 0} (o : Outside W) where
  -- UserToken.String
  abbrev pub text_of_token : List ℕ → String
  text_of_token token = o.encode_to_string token

  unfoldable pub user_token_from_str : String → Result (List ℕ)
  user_token_from_str token = elim (o.decode_string token) [
    | err e ↦ err e
    | ok b ↦ if nat_beq (length b) user_token_size then ok b else err "token length incorrect"
  ]

  abbrev pub has_email : String → User → Bool
  has_email email user = o.same_text user.email email

  abbrev pub has_email_token : String → User → Bool
  has_email_token token user = o.same_text user.email_token token

  -- SELECT * FROM Users WHERE Email = ?
  abbrev pub select_user_by_email : String → Statement User
  select_user_by_email email = select_users (has_email email)

  -- SELECT * FROM Users WHERE EmailToken = ?
  abbrev pub select_user_by_email_token : String → Statement User
  select_user_by_email_token token = select_users (has_email_token token)

  -- UPDATE Users SET EmailToken = '', EmailVerified = 1 WHERE EmailToken = ?
  abbrev pub verify_email : String → Statement (Unit {0})
  verify_email token t = (
    ok tt,
    record t {
      users =
          change_where (has_email_token token)
            (λ user. record user { email_token = ""; email_verified = 1 }) t.users;
    },
  )

  -- SELECT * FROM EmailChange WHERE Token = ?
  abbrev pub select_email_change : String → Statement EmailChange
  select_email_change token t =
      (only_row (rows_where (λ c. o.same_text c.token token) t.email_changes), t)

  -- DELETE FROM EmailChange WHERE Token = ?
  abbrev pub delete_email_change : String → Statement (Unit {0})
  delete_email_change token t = (
    ok tt,
    record t { email_changes = rows_except (λ c. o.same_text c.token token) t.email_changes },
  )

  -- SELECT * FROM PasswordReset WHERE Token = ?
  abbrev pub select_password_reset : String → Statement PasswordReset
  select_password_reset token t =
      (only_row (rows_where (λ p. o.same_text p.token token) t.password_resets), t)

  -- DELETE FROM PasswordReset WHERE Token = ?
  abbrev pub delete_password_reset : String → Statement (Unit {0})
  delete_password_reset token t = (
    ok tt,
    record t { password_resets = rows_except (λ p. o.same_text p.token token) t.password_resets },
  )

  -- A user, or nil after any error.
  abbrev pub found_user : Result User × W → Option User × W
  found_user (ok user, w) = (some user, w)
  found_user (err e, w) = (none, w)

  unfoldable pub get_user_by_email : String → W → Option User × W
  get_user_by_email email w = found_user (o.run (select_user_by_email email) w)

  unfoldable pub insert_user_row : User → Call W (Unit {0})
  insert_user_row user = o.run (insert_user user)

  unfoldable pub email_exists : String → Call W User
  email_exists email = o.run (select_user_by_email email)

  unfoldable pub user_id_exists : ℕ → Call W User
  user_id_exists id = o.run (select_user_by_id id)

  unfoldable pub insert_email_change : EmailChange → Call W (Unit {0})
  insert_email_change c = o.run (insert_email_change_row c)

  unfoldable pub insert_password_reset : PasswordReset → Call W (Unit {0})
  insert_password_reset p = o.run (insert_password_reset_row p)

  unfoldable pub email_change_token_exists : List ℕ → Call W EmailChange
  email_change_token_exists token = o.run (select_email_change (text_of_token token))

  unfoldable pub email_verification_token_exists : List ℕ → Call W User
  email_verification_token_exists token = o.run (select_user_by_email_token (text_of_token token))

  unfoldable pub email_verification_complete : List ℕ → Call W (Unit {0})
  email_verification_complete token = o.run (verify_email (text_of_token token))

  unfoldable pub password_reset_token_exists : List ℕ → Call W PasswordReset
  password_reset_token_exists token = o.run (select_password_reset (text_of_token token))

  unfoldable pub password_reset_token_delete : List ℕ → Call W (Unit {0})
  password_reset_token_delete token = o.run (delete_password_reset (text_of_token token))

  unfoldable pub email_change_complete : List ℕ → Call W (Unit {0})
  email_change_complete token = do
    c ← o.run (select_email_change (text_of_token token))
    o.run (set_email c.new_email c.user_id)
    o.run (delete_password_resets_of c.user_id)
    o.run (delete_email_change (text_of_token token))

  unfoldable pub password_valid_by_id : ℕ → String → Call W User
  password_valid_by_id id password = do
    user ← o.run (select_user_by_id id)
    lift (o.compare_hash_and_password user.password password)
    pure user

  unfoldable pub login : String → String → Call W User
  login email password = do
    user ← o.run (select_user_by_email email)
    lift (o.compare_hash_and_password user.password password)
    pure user

  unfoldable pub update_user_password_by_id : ℕ → String → Call W User
  update_user_password_by_id id password = do
    user ← o.run (select_user_by_id id)
    o.run (update_user (record user { password = password }))
    pure (record user { password = password })

  -- gorp's Delete of rows of Session, one statement for each, up to the first that fails
  unfoldable pub delete_sessions : List Session → Call W (Unit {0})
  delete_sessions [] w = (ok tt, w)
  delete_sessions (d ∷ sessions) w = (o.run (delete_session d) >> delete_sessions sessions) w

  unfoldable pub destroy_sessions_for_user_id : ℕ → Call W (Unit {0})
  destroy_sessions_for_user_id user_id = do
    sessions ← o.run (select_sessions_of user_id)
    delete_sessions sessions

-- ===== src/Accounts.antt =====
-- The accounts of the web front end: the rows of models/user.go, the SQL statements of models/user.go,
-- helpers/auth.go and system/sqlstore.go, and the pages of controllers/main.go that work on them.
pub mod Queries
pub mod Requests
pub mod Routes
pub mod Rules
pub mod Keys
pub mod Reliable
pub mod Rows
pub mod Login
pub mod Emails
pub mod Passwords
pub mod Settings
pub mod Welcome
pub mod Tests
use dcrstakepool.Shared.{
  ℕ, ◌+◌, ◌≡◌, String, Bool, true, false, List, [], ◌∷◌, ◌++◌, Result, ok, err, ◌⊎◌, if◌then◌else◌,
  map,
}
use dcrstakepool.Client.Calls.{Call}

pub record User : Type 0 where
  pub id : ℕ
  pub email : String
  pub username : String
  pub password : String
  pub multi_sig_address : String
  pub multi_sig_script : String
  pub pool_pub_key_addr : String
  pub user_pub_key_addr : String
  pub user_fee_addr : String
  pub height_registered : ℕ
  pub email_verified : ℕ
  pub email_token : String
  pub api_token : String
  pub vote_bits : ℕ
  pub vote_bits_version : ℕ

pub record EmailChange : Type 0 where
  pub id : ℕ
  pub user_id : ℕ
  pub new_email : String
  pub token : String
  pub created : ℕ
  pub expires : ℕ

pub record PasswordReset : Type 0 where
  pub id : ℕ
  pub user_id : ℕ
  pub token : String
  pub created : ℕ
  pub expires : ℕ

pub record Session : Type 0 where
  pub id : ℕ
  pub token : String
  pub session_data : List ℕ
  pub user_id : ℕ
  pub created : ℕ
  pub expires : ℕ

-- The tables, each with the next value of its AUTO_INCREMENT key.
pub record Tables : Type 0 where
  pub users : List User
  pub next_user_id : ℕ
  pub email_changes : List EmailChange
  pub next_email_change_id : ℕ
  pub password_resets : List PasswordReset
  pub next_password_reset_id : ℕ
  pub sessions : List Session
  pub next_session_id : ℕ

-- What a statement says: its result, and the tables after it.
abbrev pub Statement : Type 0 → Type 0
Statement A = Tables → Result A × Tables

-- The emails of email/email.go, with the arguments of the functions that send them.
pub data Email : Type 0 where
  password_change_request : String → String → String → String → Email
  email_change_verification : String → String → String → String → String → Email
  email_change_notification : String → String → String → String → Email
  password_change_confirm : String → String → String → Email
  registration : String → String → String → String → Email

-- MySQL, the mail server, bcrypt and hex. `same_text` is the equality of texts in a WHERE clause, which
-- the collation of the tables decides; a hash is made with a salt.
pub record Outside (W : Type 0) : Type 1 where
  pub run : {A : Type 0} → Statement A → Call W A
  pub send : Email → Call W (Unit {0})
  pub same_text : String → String → Bool
  pub generate_from_password : String → String → Result String
  pub compare_hash_and_password : String → String → Result (Unit {0})
  pub encode_to_string : List ℕ → String
  pub decode_string : String → Result (List ℕ)

-- The statement was carried out, or failed and changed nothing.
abbrev pub Ran : {W A : Type 0} → (W → Tables) → Statement A → W → Result A × W → Type 0
Ran {A} tables s w (r, w') =
    (((e : String) × (r ≡ err e)) × (tables w' ≡ tables w))
    ⊎ ((r ≡ (s (tables w)).0) × (tables w' ≡ (s (tables w)).1))

pub record IsOutside {W : Type 0} (o : Outside W) (tables : W → Tables) : Type 1 where
  pub runs : {A : Type 0} (s : Statement A) (w : W) → Ran tables s w (o.run s w)
  pub sends : (m : Email) (w : W) → tables (o.send m w).1 ≡ tables w

-- ===== src/Accounts/Tests.antt =====
-- The theorems of Accounts over a database that is one value and never fails.
use dcrstakepool.Shared.{
  ℕ, ◌≡◌, refl, sym, ◌∙◌, text_key, ◌==◌, true, false, none, some, List, [], ◌∷◌, ok, err,
  if◌then◌else◌, ◌⊎◌, inr, arith,
}
use dcrstakepool.Accounts.{User, PasswordReset, Tables, Outside, IsOutside}
use dcrstakepool.Accounts.Queries.{
  rows_where, user_token_from_str, select_password_reset, select_sessions_of,
}
use dcrstakepool.Accounts.Reliable.{IsReliable}
use dcrstakepool.Accounts.Passwords.Changed.Login.{password_update_post-login}
use dcrstakepool.Accounts.Welcome.{register-verify-login}
use dcrstakepool.Accounts.Requests.{
  Request, Config, WebSession, redirect, login_post, register_post, email_verify,
}
use dcrstakepool.Accounts.Requests.Reset.{password_update_post}
use dcrstakepool.Accounts.Requests.Change.{settings_post}
use dcrstakepool.Accounts.Routes.{Route, post_register, get_emailupdate, serve_all}
use dcrstakepool.Accounts.Emails.{IsCollation}
use dcrstakepool.Accounts.Emails.Queries.{Sound}
use dcrstakepool.Accounts.Emails.Visits.{SomeMisses, serve_all-Sound}
use dcrstakepool.Accounts.Login.{LoggedIn, login_post-LoggedIn}
use dcrstakepool.Accounts.Passwords.{ByToken, password_update_post-ByToken}
use dcrstakepool.Accounts.Settings.{ByPassword, settings_post-ByPassword}

abbrev token_bytes : List ℕ
token_bytes = 1 ∷ 2 ∷ 3 ∷ 4 ∷ 5 ∷ 6 ∷ 7 ∷ 8 ∷ 9 ∷ 10 ∷ 11 ∷ 12 ∷ 13 ∷ 14 ∷ 15 ∷ 16 ∷ []

abbrev pub outside : Outside Tables
outside = record {
  run = λ s t. s t;
  send = λ m t. (ok tt, t);
  same_text = λ a b. a == b;
  generate_from_password = λ salt password. ok password;
  compare_hash_and_password = λ hash password. if hash == password then ok tt else err "hash";
  encode_to_string = λ b. "0102";
  decode_string = λ s. if s == "0102" then ok token_bytes else err "hex";
}

tables : Tables → Tables
tables t = t

pub laws : IsOutside outside (λ t. t)
laws = record { runs = λ s w. inr (refl, refl); sends = λ m w. refl }

collation : IsCollation outside.same_text
collation = record {
  symmetric = λ a b h. (text_key.equal_iff b a).1 (sym ((text_key.equal_iff a b).0 h));
  transitive = λ a b c h k.
      (text_key.equal_iff a c).1 ((text_key.equal_iff a b).0 h ∙ (text_key.equal_iff b c).0 k);
}

abbrev alice : User
alice = record {
  id = 1;
  email = "alice@pool";
  username = "alice@pool";
  password = "secret";
  multi_sig_address = "";
  multi_sig_script = "";
  pool_pub_key_addr = "";
  user_pub_key_addr = "";
  user_fee_addr = "";
  height_registered = 0;
  email_verified = 1;
  email_token = "";
  api_token = "";
  vote_bits = 1;
  vote_bits_version = 8;
}

abbrev reset : PasswordReset
reset = record { id = 1; user_id = 1; token = "0102"; created = 0; expires = 4000 }

abbrev pub start : Tables
start = record {
  users = alice ∷ [];
  next_user_id = 2;
  email_changes =
      record {
        id = 1;
        user_id = 1;
        new_email = "alice@home";
        token = "0102";
        created = 0;
        expires = 4000;
      }
      ∷ [];
  next_email_change_id = 2;
  password_resets = reset ∷ [];
  next_password_reset_id = 2;
  sessions =
      record {
        id = 1;
        token = "cookie";
        session_data = [];
        user_id = 1;
        created = 0;
        expires = 9000;
      }
      ∷ [];
  next_session_id = 2;
}

abbrev request : Request
request = record {
  email = "alice@pool";
  password = "secret";
  password_repeat = "secret";
  new_password = "changed";
  new_password_repeat = "changed";
  update_email = "";
  update_password = "true";
  t = "0102";
  captcha_done = true;
  remote_ip = "127.0.0.1";
  now = 1000000000000;
  new_user_token = token_bytes;
  salt = "salt";
}

abbrev new_password : Request
new_password = record request { password = "new"; password_repeat = "new" }

abbrev config : Config
config = record { close_pool = false; base_url = "https://pool"; vote_version = 8 }

abbrev nobody : WebSession
nobody = record { user_id = none; captcha_done = true; max_age_negative = false; flashes = [] }

abbrev visits : List (Route × (Request × WebSession))
visits =
    (post_register, (record request { email = "bob@pool" }, nobody))
    ∷ (get_emailupdate, (request, nobody))
    ∷ (post_register, (record request { email = "alice@home" }, nobody))
    ∷ []

start-Sound : Sound outside (λ t. t) laws collation start
start-Sound = record {
  ids_below = (omega arith, tt);
  ids_distinct = (tt, tt);
  emails_distinct = (tt, tt);
}

serve_all-Sound_example :
    Sound outside (λ t. t) laws collation (serve_all outside config visits start)
    ⊎ SomeMisses outside (λ t. t) laws collation config visits start
serve_all-Sound_example =
    serve_all-Sound outside (λ t. t) laws collation config visits start start-Sound

login_post-LoggedIn_example :
    ((login_post outside request nobody start).1 ≡ start)
    × (((login_post outside request nobody start).0.1.user_id ≡ none)
        ⊎ LoggedIn outside
            (λ t. t)
            laws
            request
            start
            (login_post outside request nobody start).0.1)
login_post-LoggedIn_example = login_post-LoggedIn outside (λ t. t) laws request nobody start

password_update_post-ByToken_example :
    ((password_update_post outside request nobody start).1.users ≡ start.users)
    ⊎ ByToken outside
        (λ t. t)
        laws
        request
        start
        (password_update_post outside request nobody start).1.users
password_update_post-ByToken_example =
    password_update_post-ByToken outside (λ t. t) laws request nobody start

settings_post-ByPassword_example :
    ((settings_post outside config request (record nobody { user_id = some 1 }) start).1.users
      ≡ start.users)
    ⊎ ByPassword outside
        (λ t. t)
        laws
        request
        (record nobody { user_id = some 1 })
        start
        (settings_post outside config request (record nobody { user_id = some 1 }) start).1.users
settings_post-ByPassword_example =
    settings_post-ByPassword outside (λ t. t) laws config request
      (record nobody { user_id = some 1 }) start

pub reliable : IsReliable outside (λ t. t)
reliable = record { carried = λ s w. (refl, refl) }

abbrev alice_again : Request
alice_again = record request { email = "alice@pool"; password = "new" }

password_update_post-login_example :
    ((login_post outside alice_again nobody
        (password_update_post outside new_password nobody start).1).0
      ≡ (redirect "/address", record nobody { user_id = some 1 }))
    × ((select_password_reset outside "0102"
          (password_update_post outside new_password nobody start).1).0
        ≡ err "sql: no rows in result set")
    × ((select_sessions_of 1 (password_update_post outside new_password nobody start).1).0 ≡ ok [])
unfolding user_token_from_str rows_where
password_update_post-login_example =
    password_update_post-login outside (λ t. t) reliable new_password nobody start token_bytes reset
      alice "new" alice_again nobody refl refl refl refl refl refl refl refl refl refl refl refl
      refl

-- A new user, with another token than the rows of `start`.
abbrev bob : Request
bob = record request { email = "bob@pool" }

register-verify-login_example :
    (login_post outside bob nobody
      (email_verify outside bob nobody (register_post outside config bob nobody start).1).1).0
    ≡ (redirect "/address", record nobody { user_id = some 2 })
unfolding user_token_from_str rows_where
register-verify-login_example =
    register-verify-login outside (λ t. t) reliable (λ m w. refl) config bob "secret" nobody nobody
      nobody bob bob start (refl, refl, refl, refl, refl, refl, refl) (refl, refl, refl, refl) refl
      refl refl refl

-- ===== src/Accounts/Requests.antt =====
-- The handlers of controllers/main.go that log in, register, verify an email and change it. They are
-- chains of steps, each from the result of one call to the next call.
pub mod Reset
pub mod Change
use dcrstakepool.Shared.{
  ℕ, ◌+◌, ◌*◌, ◌/◌, String, text_key, ◌==◌, nat_beq, ltb, Bool, true, false, not, Option, none,
  some, List, [], ◌∷◌, Result, ok, err, if◌then◌else◌,
}
use text.Mathlib.Text.{find?}
use dcrstakepool.Accounts.{User, EmailChange, Outside, registration}
use dcrstakepool.Accounts.Queries.{
  get_user_by_email, insert_user_row, text_of_token, user_token_from_str, login,
  email_change_token_exists, email_change_complete, email_verification_token_exists,
  email_verification_complete, destroy_sessions_for_user_id,
}

-- The form and the query of a request, with what the handler takes from elsewhere: the client's address,
-- the time in nanoseconds, the random bytes of a new token and of a salt.
pub record Request : Type 0 where
  pub email : String
  pub password : String
  pub password_repeat : String
  pub new_password : String
  pub new_password_repeat : String
  pub update_email : String
  pub update_password : String
  pub t : String
  pub captcha_done : Bool
  pub remote_ip : String
  pub now : ℕ
  pub new_user_token : List ℕ
  pub salt : String

-- controllers.Config and MainController, the fields that are read
pub record Config : Type 0 where
  pub close_pool : Bool
  pub base_url : String
  pub vote_version : ℕ

-- The session of a browser: the values that are read, Options.MaxAge = -1, and each flash with its key.
pub record WebSession : Type 0 where
  pub user_id : Option ℕ
  pub captcha_done : Bool
  pub max_age_negative : Bool
  pub flashes : List (String × String)

-- A redirection, an empty page for the status Unauthorized, a page that is rendered, or a panic.
pub data Page : Type 0 where
  redirect : String → Page
  unauthorized : Page
  page : String → Page
  panicked : Page

abbrev pub Answer : Type 0 → Type 0
Answer W = (Page × WebSession) × W

abbrev pub add_flash : String → String → WebSession → WebSession
add_flash message key s = record s { flashes = (message, key) ∷ s.flashes }

abbrev pub flash : {W : Type 0} → String → String → String → WebSession → W → Answer W
flash message key shown s w = ((page shown, add_flash message key s), w)

-- time.Unix(expires, 0).Before(now)
abbrev pub expired : ℕ → ℕ → Bool
expired expires now = ltb (expires * 1000000000) now

-- now.Unix()
abbrev pub unix : ℕ → ℕ
unix now = now / 1000000000

abbrev pub contains_text : String → String → Bool
contains_text s t = elim (find? s t) [ none ↦ false | some _ ↦ true ]

module _ {W : Type 0} (o : Outside W) where
  abbrev pub login_error : String → WebSession → W → Answer W
  login_error message = flash message "loginError" "auth/login"

  unfoldable pub logged_in : WebSession → Result User × W → Answer W
  logged_in s (err e, w) = login_error "Invalid Email or Password" s w
  logged_in s (ok user, w) =
      if nat_beq user.email_verified 0
      then login_error "You must validate your email address" s w
      else (
        (
          redirect (if user.multi_sig_address == "" then "/address" else "/tickets"),
          record s { user_id = some user.id },
        ),
        w,
      )

  unfoldable pub login_post : Request → WebSession → W → Answer W
  login_post r s w = logged_in s (login o r.email r.password w)

  abbrev pub register_error : String → WebSession → W → Answer W
  register_error message = flash message "registrationError" "auth/register"

  abbrev pub mail_sent : WebSession → Result (Unit {0}) × W → Answer W
  mail_sent s (err e, w) =
      flash "Unable to send verification email" "registrationError" "auth/register" s w
  mail_sent s (ok _, w) =
      flash "A verification email has been sent" "registrationSuccess" "auth/register" s w

  unfoldable pub registered : Config → Request → WebSession → Result (Unit {0}) × W → Answer W
  registered cfg r s (err e, w) = register_error "Database error occurred while adding user" s w
  registered cfg r s (ok _, w) =
      mail_sent s (
        o.send (registration r.email cfg.base_url r.remote_ip (text_of_token o r.new_user_token)) w)

  abbrev pub new_user : Config → Request → String → User
  new_user cfg r hash = record {
    id = 0;
    email = r.email;
    username = r.email;
    password = hash;
    multi_sig_address = "";
    multi_sig_script = "";
    pool_pub_key_addr = "";
    user_pub_key_addr = "";
    user_fee_addr = "";
    height_registered = 0;
    email_verified = 0;
    email_token = text_of_token o r.new_user_token;
    api_token = "";
    vote_bits = 1;
    vote_bits_version = cfg.vote_version;
  }

  abbrev pub insert_hashed : Config → Request → WebSession → W → Result String → Answer W
  insert_hashed cfg r s w (err e) = ((panicked, s), w)
  insert_hashed cfg r s w (ok hash) = registered cfg r s (insert_user_row o (new_user cfg r hash) w)

  unfoldable pub register_unless_found : Config → Request → WebSession → Option User × W → Answer W
  register_unless_found cfg r s (some user, w) =
      register_error "This email address is already registered" s w
  register_unless_found cfg r s (none, w) =
      insert_hashed cfg r s w (o.generate_from_password r.salt r.password)

  unfoldable pub register_post : Config → Request → WebSession → W → Answer W
  register_post cfg r s w =
      if cfg.close_pool
      then ((redirect "/error", s), w)
      else if not r.captcha_done
      then register_error "You must complete the captcha." s w
      else if not (contains_text r.email "@")
      then register_error "Email address is invalid" s w
      else if r.password == ""
      then register_error "Password cannot be empty" s w
      else if not (r.password == r.password_repeat)
      then register_error "Passwords do not match" s w
      else register_unless_found cfg r (record s { captcha_done = false })
          (get_user_by_email o r.email w)

  abbrev pub verify_error : String → WebSession → W → Answer W
  verify_error message = flash message "emailverifyError" "emailverify"

  unfoldable pub verified : WebSession → Result (Unit {0}) × W → Answer W
  verified s (err e, w) = verify_error "Unable to set email to verified status." s w
  verified s (ok _, w) = flash "Email successfully verified." "emailverifySuccess" "emailverify" s w

  unfoldable pub verify_if_found : List ℕ → WebSession → Result User × W → Answer W
  verify_if_found token s (err e, w) = verify_error "Email verification token not recognized." s w
  verify_if_found token s (ok user, w) = verified s (email_verification_complete o token w)

  abbrev pub verify_decoded : WebSession → W → Result (List ℕ) → Answer W
  verify_decoded s w (err e) = verify_error "Email verification token not valid." s w
  verify_decoded s w (ok token) =
      verify_if_found token s (email_verification_token_exists o token w)

  unfoldable pub email_verify : Request → WebSession → W → Answer W
  email_verify r s w =
      if r.t == ""
      then verify_error "No email verification token present." s w
      else verify_decoded s w (user_token_from_str o r.t)

  abbrev pub update_error : String → WebSession → W → Answer W
  update_error message = flash message "emailupdateError" "emailupdate"

  -- userID, _ := session.Values["UserId"].(int64)
  abbrev pub id_or_zero : Option ℕ → ℕ
  id_or_zero none = 0
  id_or_zero (some id) = id

  unfoldable pub email_changed : WebSession → Result (Unit {0}) × W → Answer W
  email_changed s (err e, w) = update_error "Error occurred while changing email address" s w
  email_changed s (ok _, w) =
      flash "Email successfully updated" "emailupdateSuccess" "emailupdate"
        (record s { max_age_negative = true })
        (destroy_sessions_for_user_id o (id_or_zero s.user_id) w).1

  unfoldable pub change_unless_found : List ℕ → WebSession → Option User × W → Answer W
  change_unless_found token s (some user, w) = update_error "Email address is in use" s w
  change_unless_found token s (none, w) = email_changed s (email_change_complete o token w)

  unfoldable pub change_if_found : Request → List ℕ → WebSession → Result EmailChange × W → Answer W
  change_if_found r token s (err e, w) = update_error "Email verification token not recognized." s w
  change_if_found r token s (ok c, w) =
      if expired c.expires r.now
      then update_error "Email change token has expired." s w
      else change_unless_found token s (get_user_by_email o c.new_email w)

  abbrev pub change_decoded : Request → WebSession → W → Result (List ℕ) → Answer W
  change_decoded r s w (err e) = update_error "Email verification token not valid." s w
  change_decoded r s w (ok token) = change_if_found r token s (email_change_token_exists o token w)

  unfoldable pub email_update : Request → WebSession → W → Answer W
  email_update r s w =
      if r.t == ""
      then update_error "No email verification token present" s w
      else change_decoded r s w (user_token_from_str o r.t)

-- ===== src/Accounts/Requests/Reset.antt =====
-- PasswordResetPost and PasswordUpdatePost of controllers/main.go, with CheckPasswordResetToken of
-- system/controller.go.
use dcrstakepool.Shared.{
  ℕ, ◌+◌, String, text_key, ◌==◌, false, not, List, Result, ok, err, if◌then◌else◌,
}
use dcrstakepool.Accounts.{User, PasswordReset, Outside, password_change_request}
use dcrstakepool.Accounts.Queries.{
  email_exists, insert_password_reset, text_of_token, user_token_from_str,
  password_reset_token_exists, password_reset_token_delete, user_id_exists,
  update_user_password_by_id, destroy_sessions_for_user_id,
}
use dcrstakepool.Accounts.Requests.{
  Request, Config, WebSession, panicked, Answer, flash, expired, unix,
}

-- expires := t.Add(time.Hour * 1)
abbrev pub hour_after : ℕ → ℕ
hour_after now = unix (now + 3600000000000)

module _ {W : Type 0} (o : Outside W) where
  abbrev pub reset_error : String → WebSession → W → Answer W
  reset_error message = flash message "passwordresetError" "passwordreset"

  unfoldable pub instructions_sent : WebSession → W → Answer W
  instructions_sent =
      flash
        "An email containing password reset instructions has been sent if it was a registered account here."
        "passwordresetSuccess" "passwordreset"

  unfoldable pub reset_mailed : WebSession → Result (Unit {0}) × W → Answer W
  reset_mailed s (err e, w) = reset_error "Unable to send password reset email" s w
  reset_mailed s (ok _, w) = instructions_sent s w

  unfoldable pub reset_inserted :
      Config → Request → User → WebSession → Result (Unit {0}) × W → Answer W
  reset_inserted cfg r user s (err e, w) = reset_error "Unable to add reset token to database" s w
  reset_inserted cfg r user s (ok _, w) = reset_mailed s (
      o.send
        (password_change_request user.email r.remote_ip cfg.base_url
          (text_of_token o r.new_user_token))
        w)

  abbrev pub new_password_reset : Request → User → PasswordReset
  new_password_reset r user = record {
    id = 0;
    user_id = user.id;
    token = text_of_token o r.new_user_token;
    created = unix r.now;
    expires = hour_after r.now;
  }

  unfoldable pub reset_if_found : Config → Request → WebSession → Result User × W → Answer W
  reset_if_found cfg r s (err e, w) = instructions_sent s w
  reset_if_found cfg r s (ok user, w) =
      reset_inserted cfg r user s (insert_password_reset o (new_password_reset r user) w)

  unfoldable pub password_reset_post : Config → Request → WebSession → W → Answer W
  password_reset_post cfg r s w =
      if not r.captcha_done
      then reset_error "You must complete the captcha." s w
      else reset_if_found cfg r (record s { captcha_done = false }) (email_exists o r.email w)

  abbrev pub password_error : String → WebSession → W → Answer W
  password_error message = flash message "passwordupdateError" "passwordupdate"

  -- What CheckPasswordResetToken returns: the token and its row, or the flash of the failed check.
  unfoldable pub token_not_expired :
      Request → List ℕ → Result PasswordReset × W → Result (List ℕ × PasswordReset) × W
  token_not_expired r token (err e, w) = (err "Password update token not recognized.", w)
  token_not_expired r token (ok p, w) =
      if expired p.expires r.now
      then (err "Password update token has expired.", w)
      else (ok (token, p), w)

  abbrev pub token_decoded : Request → W → Result (List ℕ) → Result (List ℕ × PasswordReset) × W
  token_decoded r w (err e) = (err "Email verification token not valid.", w)
  token_decoded r w (ok token) = token_not_expired r token (password_reset_token_exists o token w)

  unfoldable pub check_password_reset_token : Request → W → Result (List ℕ × PasswordReset) × W
  check_password_reset_token r w =
      if r.t == ""
      then (err "No password update token present.", w)
      else token_decoded r w (user_token_from_str o r.t)

  -- After the update of the password: the token is deleted and the sessions are destroyed, and the
  -- errors of both are only logged.
  unfoldable pub password_updated : List ℕ → User → WebSession → Result User × W → Answer W
  password_updated token user s (err e, w) = password_error "Unable to update password." s w
  password_updated token user s (ok _, w) =
      flash "Password successfully updated" "passwordupdateSuccess" "passwordupdate" s
        (destroy_sessions_for_user_id o user.id (password_reset_token_delete o token w).1).1

  unfoldable pub update_hashed :
      List ℕ → PasswordReset → User → WebSession → W → Result String → Answer W
  update_hashed token p user s w (err e) = ((panicked, s), w)
  update_hashed token p user s w (ok hash) =
      password_updated token user s (update_user_password_by_id o p.user_id hash w)

  unfoldable pub update_if_found :
      Request → List ℕ → PasswordReset → WebSession → Result User × W → Answer W
  update_if_found r token p s (err e, w) = password_error "Unable to find User ID." s w
  update_if_found r token p s (ok user, w) =
      update_hashed token p user s w (o.generate_from_password r.salt r.password)

  unfoldable pub update_if_valid :
      Request → WebSession → Result (List ℕ × PasswordReset) × W → Answer W
  update_if_valid r s (err message, w) = password_error message s w
  update_if_valid r s (ok (token, p), w) =
      if r.password == ""
      then password_error "Password cannot be empty." s w
      else if not (r.password == r.password_repeat)
      then password_error "Passwords do not match." s w
      else update_if_found r token p s (user_id_exists o p.user_id w)

  unfoldable pub password_update_post : Request → WebSession → W → Answer W
  password_update_post r s w = update_if_valid r s (check_password_reset_token r w)

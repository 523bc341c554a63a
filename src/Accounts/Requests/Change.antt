-- ===== src/Accounts/Requests/Change.antt =====
-- SettingsPost of controllers/main.go: a user asks for another email or sets another password.
use dcrstakepool.Shared.{
  ℕ, String, text_key, ◌==◌, false, not, Option, none, some, Result, ok, err, if◌then◌else◌,
}
use dcrstakepool.Accounts.{
  User, EmailChange, Outside, email_change_verification, email_change_notification,
  password_change_confirm,
}
use dcrstakepool.Accounts.Queries.{
  get_user_by_email, insert_email_change, text_of_token, password_valid_by_id,
  update_user_password_by_id, destroy_sessions_for_user_id,
}
use dcrstakepool.Accounts.Requests.{
  Request, Config, WebSession, redirect, page, panicked, Answer, add_flash, flash, unix,
}
use dcrstakepool.Accounts.Requests.Reset.{hour_after}

module _ {W : Type 0} (o : Outside W) where
  abbrev pub settings_error : String → WebSession → W → Answer W
  settings_error message = flash message "settingsError" "settings"

  -- The notification of the old address.
  unfoldable pub change_notified : WebSession → Result (Unit {0}) × W → Answer W
  change_notified s (err e, w) =
      settings_error
        "Failed to send email change verification email. Please contact the site admin." s w
  change_notified s (ok _, w) = ((page "settings", s), w)

  abbrev pub verification_sent : WebSession → Result (Unit {0}) → WebSession
  verification_sent s (err e) = add_flash "Unable to send email change token." "settingsError" s
  verification_sent s (ok _) =
      add_flash "Verification token sent to new email address" "settingsSuccess" s

  unfoldable pub change_mailed :
      Config → Request → User → WebSession → Result (Unit {0}) × W → Answer W
  change_mailed cfg r user s (sent, w) =
      change_notified (verification_sent s sent)
        (o.send (email_change_notification cfg.base_url user.email r.email r.remote_ip) w)

  unfoldable pub change_inserted :
      Config → Request → User → WebSession → Result (Unit {0}) × W → Answer W
  change_inserted cfg r user s (err e, w) =
      settings_error "Unable to add email change token to database" s w
  change_inserted cfg r user s (ok _, w) = change_mailed cfg r user s (
      o.send
        (email_change_verification cfg.base_url user.email r.email r.remote_ip
          (text_of_token o r.new_user_token))
        w)

  abbrev pub new_email_change : Request → User → EmailChange
  new_email_change r user = record {
    id = 0;
    user_id = user.id;
    new_email = r.email;
    token = text_of_token o r.new_user_token;
    created = unix r.now;
    expires = hour_after r.now;
  }

  unfoldable pub ask_unless_found :
      Config → Request → User → WebSession → Option User × W → Answer W
  ask_unless_found cfg r user s (some _, w) = settings_error "Email address in use" s w
  ask_unless_found cfg r user s (none, w) =
      change_inserted cfg r user s (insert_email_change o (new_email_change r user) w)

  unfoldable pub change_confirmed : WebSession → Result (Unit {0}) × W → Answer W
  change_confirmed s (err e, w) =
      settings_error "Failed to send password change email. Please contact the site admin." s w
  change_confirmed s (ok _, w) =
      flash "Password successfully updated" "settingsSuccess" "settings" s w

  unfoldable pub settings_updated :
      Config → Request → User → WebSession → Result User × W → Answer W
  settings_updated cfg r user s (err e, w) = settings_error "Unable to update password" s w
  settings_updated cfg r user s (ok _, w) = change_confirmed s (
      o.send (password_change_confirm user.email cfg.base_url r.remote_ip)
        (destroy_sessions_for_user_id o user.id w).1)

  unfoldable pub settings_hashed :
      Config → Request → User → WebSession → W → Result String → Answer W
  settings_hashed cfg r user s w (err e) = ((panicked, s), w)
  settings_hashed cfg r user s w (ok hash) =
      settings_updated cfg r user s (update_user_password_by_id o user.id hash w)

  unfoldable pub change_settings : Config → Request → WebSession → Result User × W → Answer W
  change_settings cfg r s (err e, w) = settings_error "Password not valid" s w
  change_settings cfg r s (ok user, w) =
      if r.update_email == "true"
      then ask_unless_found cfg r user s (get_user_by_email o r.email w)
      else if r.update_password == "true"
      then (if not (r.new_password == r.new_password_repeat)
          then settings_error "Passwords do not match" s w
          else settings_hashed cfg r user s w (o.generate_from_password r.salt r.new_password))
      else ((page "settings", s), w)

  unfoldable pub settings_of : Config → Request → ℕ → WebSession → W → Answer W
  settings_of cfg r user_id s w =
      if r.update_email == "true"
      then (if not r.captcha_done
          then settings_error "You must complete the captcha." s w
          else change_settings cfg r (record s { captcha_done = false })
              (password_valid_by_id o user_id r.password w))
      else change_settings cfg r s (password_valid_by_id o user_id r.password w)

  abbrev pub settings_if_known : Config → Request → WebSession → W → Option ℕ → Answer W
  settings_if_known cfg r s w none = ((redirect "/", s), w)
  settings_if_known cfg r s w (some user_id) = settings_of cfg r user_id s w

  unfoldable pub settings_post : Config → Request → WebSession → W → Answer W
  settings_post cfg r s w = settings_if_known cfg r s w s.user_id

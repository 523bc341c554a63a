-- ===== src/Accounts/Emails/Passwords.antt =====
-- PasswordResetPost, PasswordUpdatePost and SettingsPost, and the ids and emails of the users.
use dcrstakepool.Shared.{
  ℕ, refl, String, text_key, ◌==◌, Bool, not, Option, none, some, List, Result, ok, err,
  if◌then◌else◌,
}
use dcrstakepool.Accounts.{User, PasswordReset, Tables, Outside, IsOutside}
use dcrstakepool.Accounts.Queries.{
  select_user_by_email, select_user_by_id, text_of_token, select_password_reset,
  delete_password_reset, insert_password_reset_row, insert_email_change_row, email_exists,
  user_id_exists, insert_email_change, insert_password_reset, user_token_from_str,
  password_reset_token_exists, password_reset_token_delete,
}
use dcrstakepool.Accounts.Requests.{Request, Config, WebSession, expired}
use dcrstakepool.Accounts.Requests.Reset.{
  instructions_sent, reset_mailed, reset_inserted, new_password_reset, reset_if_found,
  password_reset_post, token_not_expired, token_decoded, check_password_reset_token,
  password_updated, update_hashed, update_if_found, update_if_valid, password_update_post,
}
use dcrstakepool.Accounts.Requests.Change.{
  change_notified, change_mailed, verification_sent, change_inserted, new_email_change,
  ask_unless_found, change_confirmed, settings_updated, settings_hashed, change_settings,
  settings_of, settings_if_known, settings_post,
}
use dcrstakepool.Accounts.Rules.{send-Inv, if-Inv}
use dcrstakepool.Accounts.Emails.{IsCollation}
use dcrstakepool.Accounts.Emails.Queries.{
  Sound, elsewhere, destroy_sessions-Sound, get_user_by_email-Sound, password_valid_by_id-Sound,
  update_user_password_by_id-Sound,
}
use dcrstakepool.Accounts.Emails.Handlers.{Good}

module _ {W : Type 0} (o : Outside W) (tables : W → Tables) (laws : IsOutside o tables)
    (collation : IsCollation o.same_text) where
  abbrev Fine : W → Type 0
  Fine = Good o tables laws collation

  choose : {A : Type 0} (t : Bool) (x y : A × W) → Fine x.1 → Fine y.1 → Fine (if t then x else y).1
  choose t x y = if-Inv o tables laws (Sound o tables laws collation) t x y

  pub password_reset_post-Sound :
      (cfg : Config) (r : Request) (s : WebSession) (w : W)
      → Fine w
      → Fine (password_reset_post o cfg r s w).1
  unfolding password_reset_post reset_if_found reset_inserted reset_mailed instructions_sent
      email_exists insert_password_reset
  password_reset_post-Sound cfg r s w h = choose (not r.captcha_done) _ _ h (
      found _ (o.run (select_user_by_email o r.email) w)
        (elsewhere o tables laws collation (select_user_by_email o r.email) w h refl refl))
    where
      mailed : (s : WebSession) (x : Result (Unit {0}) × W) → Fine x.1 → Fine (reset_mailed o s x).1
      mailed s (err e, w) h = h
      mailed s (ok _, w) h = h

      inserted :
          (s : WebSession) (u : User) (x : Result (Unit {0}) × W)
          → Fine x.1
          → Fine (reset_inserted o cfg r u s x).1
      inserted s u (err e, w) h = h
      inserted s u (ok _, w) h =
          mailed s _ (send-Inv o tables laws (Sound o tables laws collation) _ w h)

      found :
          (s : WebSession) (x : Result User × W) → Fine x.1 → Fine (reset_if_found o cfg r s x).1
      found s (err e, w) h = h
      found s (ok u, w) h = inserted s u _ (
          elsewhere o tables laws collation (insert_password_reset_row (new_password_reset o r u)) w
            h refl refl)

  pub password_update_post-Sound :
      (r : Request) (s : WebSession) (w : W) → Fine w → Fine (password_update_post o r s w).1
  unfolding password_update_post update_if_valid update_if_found update_hashed password_updated
      check_password_reset_token token_not_expired password_reset_token_exists user_id_exists
      password_reset_token_delete
  password_update_post-Sound r s w h =
      valid _ (choose (r.t == "") _ _ h (decoded (user_token_from_str o r.t)))
    where
      checked :
          (token : List ℕ) (x : Result PasswordReset × W)
          → Fine x.1
          → Fine (token_not_expired o r token x).1
      checked token (err e, w) h = h
      checked token (ok p, w) h = choose (expired p.expires r.now) _ _ h h

      decoded : (x : Result (List ℕ)) → Fine (token_decoded o r w x).1
      decoded (err e) = h
      decoded (ok token) = checked token _ (
          elsewhere o tables laws collation (select_password_reset o (text_of_token o token)) w h
            refl refl)

      updated :
          (token : List ℕ) (u : User) (x : Result User × W)
          → Fine x.1
          → Fine (password_updated o token u s x).1
      updated token u (err e, w) h = h
      updated token u (ok _, w) h = destroy_sessions-Sound o tables laws collation u.id _ (
          elsewhere o tables laws collation (delete_password_reset o (text_of_token o token)) w h
            refl refl)

      hashed :
          (token : List ℕ) (p : PasswordReset) (u : User) (w : W) (x : Result String)
          → Fine w
          → Fine (update_hashed o token p u s w x).1
      hashed token p u w (err e) h = h
      hashed token p u w (ok hash) h =
          updated token u _
            (update_user_password_by_id-Sound o tables laws collation p.user_id hash w h)

      found :
          (token : List ℕ) (p : PasswordReset) (x : Result User × W)
          → Fine x.1
          → Fine (update_if_found o r token p s x).1
      found token p (err e, w) h = h
      found token p (ok u, w) h = hashed token p u w (o.generate_from_password r.salt r.password) h

      valid :
          (x : Result (List ℕ × PasswordReset) × W) → Fine x.1 → Fine (update_if_valid o r s x).1
      valid (err e, w) h = h
      valid (ok (token, p), w) h = choose (r.password == "") _ _ h (
          choose (not (r.password == r.password_repeat)) _ _ h (
            found token p _
              (elsewhere o tables laws collation (select_user_by_id p.user_id) w h refl refl)))

  pub settings_post-Sound :
      (cfg : Config) (r : Request) (s : WebSession) (w : W)
      → Fine w
      → Fine (settings_post o cfg r s w).1
  unfolding settings_post settings_of change_settings settings_hashed settings_updated
      change_confirmed ask_unless_found change_inserted change_mailed change_notified
      insert_email_change
  settings_post-Sound cfg r s w h = known s.user_id
    where
      confirmed :
          (s : WebSession) (x : Result (Unit {0}) × W) → Fine x.1 → Fine (change_confirmed o s x).1
      confirmed s (err e, w) h = h
      confirmed s (ok _, w) h = h

      updated :
          (s : WebSession) (u : User) (x : Result User × W)
          → Fine x.1
          → Fine (settings_updated o cfg r u s x).1
      updated s u (err e, w) h = h
      updated s u (ok _, w) h = confirmed s _ (
          send-Inv o tables laws (Sound o tables laws collation) _ _
            (destroy_sessions-Sound o tables laws collation u.id w h))

      hashed :
          (s : WebSession) (u : User) (w : W) (x : Result String)
          → Fine w
          → Fine (settings_hashed o cfg r u s w x).1
      hashed s u w (err e) h = h
      hashed s u w (ok hash) h =
          updated s u _ (update_user_password_by_id-Sound o tables laws collation u.id hash w h)

      notified :
          (s : WebSession) (x : Result (Unit {0}) × W) → Fine x.1 → Fine (change_notified o s x).1
      notified s (err e, w) h = h
      notified s (ok _, w) h = h

      mailed :
          (s : WebSession) (u : User) (x : Result (Unit {0}) × W)
          → Fine x.1
          → Fine (change_mailed o cfg r u s x).1
      mailed s u (sent, w) h =
          notified (verification_sent o s sent) _
            (send-Inv o tables laws (Sound o tables laws collation) _ w h)

      inserted :
          (s : WebSession) (u : User) (x : Result (Unit {0}) × W)
          → Fine x.1
          → Fine (change_inserted o cfg r u s x).1
      inserted s u (err e, w) h = h
      inserted s u (ok _, w) h =
          mailed s u _ (send-Inv o tables laws (Sound o tables laws collation) _ w h)

      asked :
          (s : WebSession) (u : User) (x : Option User × W)
          → Fine x.1
          → Fine (ask_unless_found o cfg r u s x).1
      asked s u (some _, w) h = h
      asked s u (none, w) h = inserted s u _ (
          elsewhere o tables laws collation (insert_email_change_row (new_email_change o r u)) w h
            refl refl)

      changed :
          (s : WebSession) (x : Result User × W) → Fine x.1 → Fine (change_settings o cfg r s x).1
      changed s (err e, w) h = h
      changed s (ok u, w) h =
          choose (r.update_email == "true") _ _
            (asked s u _ (get_user_by_email-Sound o tables laws collation r.email w h))
            (choose (r.update_password == "true") _ _
              (choose (not (r.new_password == r.new_password_repeat)) _ _ h
                (hashed s u w (o.generate_from_password r.salt r.new_password) h))
              h)

      known : (id : Option ℕ) → Fine (settings_if_known o cfg r s w id).1
      known none = h
      known (some id) =
          choose (r.update_email == "true") _ _
            (choose (not r.captcha_done) _ _ h
              (changed _ _ (password_valid_by_id-Sound o tables laws collation id r.password w h)))
            (changed s _ (password_valid_by_id-Sound o tables laws collation id r.password w h))

-- ===== src/Accounts/Routes.antt =====
-- The routes of server.go to the handlers of Accounts.
use dcrstakepool.Shared.{List, [], ◌∷◌}
use dcrstakepool.Accounts.{Outside}
use dcrstakepool.Accounts.Requests.{
  Request, Config, WebSession, Answer, login_post, register_post, email_verify, email_update,
}
use dcrstakepool.Accounts.Requests.Reset.{password_reset_post, password_update_post}
use dcrstakepool.Accounts.Requests.Change.{settings_post}

pub data Route : Type 0 where
  get_emailupdate : Route
  get_emailverify : Route
  post_passwordreset : Route
  post_passwordupdate : Route
  post_settings : Route
  post_login : Route
  post_register : Route

unfoldable pub serve :
    {W : Type 0} → Outside W → Config → Route → Request → WebSession → W → Answer W
serve o cfg get_emailupdate r s w = email_update o r s w
serve o cfg get_emailverify r s w = email_verify o r s w
serve o cfg post_passwordreset r s w = password_reset_post o cfg r s w
serve o cfg post_passwordupdate r s w = password_update_post o r s w
serve o cfg post_settings r s w = settings_post o cfg r s w
serve o cfg post_login r s w = login_post o r s w
serve o cfg post_register r s w = register_post o cfg r s w

-- One request after another, each with the session of its browser. The server runs its handlers concurrently; here
-- each ends before the next begins.
unfoldable pub serve_all :
    {W : Type 0} → Outside W → Config → List (Route × (Request × WebSession)) → W → W
serve_all o cfg [] w = w
serve_all o cfg ((route, (r, s)) ∷ visits) w = serve_all o cfg visits (serve o cfg route r s w).1

-- ===== src/Accounts/Emails/Visits.antt =====
-- Sequences of requests to the handlers of Accounts, and the ids and emails of the users.
use dcrstakepool.Shared.{
  ℕ, ◌≡◌, refl, sym, ap, subst, ◌⊎◌, inl, inr, text_key, ◌==◌, Bool, Option, none, some, List, [],
  ◌∷◌, Result, ok, err, if◌then◌else◌,
}
use dcrstakepool.Accounts.{User, EmailChange, Tables, Outside, IsOutside}
use dcrstakepool.Accounts.Queries.{
  select_email_change, text_of_token, get_user_by_email, email_change_token_exists,
  user_token_from_str, email_change_complete,
}
use dcrstakepool.Accounts.Requests.{
  Request, Config, WebSession, expired, id_or_zero, email_changed, change_unless_found,
  change_if_found, change_decoded, email_update,
}
use dcrstakepool.Accounts.Routes.{
  Route, get_emailupdate, get_emailverify, post_passwordreset, post_passwordupdate, post_settings,
  post_login, post_register, serve, serve_all,
}
use dcrstakepool.Accounts.Rules.{run-ok, if-Inv, get_user_by_email-kept}
use dcrstakepool.Accounts.Emails.{IsCollation}
use dcrstakepool.Accounts.Emails.Queries.{
  Sound, elsewhere, destroy_sessions-Sound, get_user_by_email-Sound,
}
use dcrstakepool.Accounts.Emails.Handlers.{
  Misses, Free, Good, login_post-Sound, email_verify-Sound, register_post-Sound,
  get_user_by_email-Free, email_change_complete-Sound,
}
use dcrstakepool.Accounts.Emails.Passwords.{
  password_reset_post-Sound, password_update_post-Sound, settings_post-Sound,
}

module _ {W : Type 0} (o : Outside W) (tables : W → Tables) (laws : IsOutside o tables)
    (collation : IsCollation o.same_text) where
  abbrev Fine : W → Type 0
  Fine = Good o tables laws collation

  email_changed-Sound :
      (s : WebSession) (x : Result (Unit {0}) × W) → Fine x.1 → Fine (email_changed o s x).1
  unfolding email_changed
  email_changed-Sound s (err e, w) h = h
  email_changed-Sound s (ok _, w) h =
      destroy_sessions-Sound o tables laws collation (id_or_zero o s.user_id) w h

  -- EmailUpdate has read the row of EmailChange with the token, and the selection of a user by its new email
  -- has then missed one.
  abbrev pub UpdateMisses : Request → W → Type 0
  UpdateMisses r w =
      (token : List ℕ) × (c : EmailChange) × (user_token_from_str o r.t ≡ ok token)
      × ((o.run (select_email_change o (text_of_token o token)) w).0 ≡ ok c)
      × Misses o tables c.new_email (o.run (select_email_change o (text_of_token o token)) w).1

  email_update-Sound :
      (r : Request) (s : WebSession) (w : W)
      → Fine w
      → Fine (email_update o r s w).1 ⊎ UpdateMisses r w
  unfolding email_update change_if_found change_unless_found email_change_token_exists
  email_update-Sound r s w h =
      either (r.t == "") _ _ (inl h) (decoded (user_token_from_str o r.t) refl)
    where
      Right : W → Type 0
      Right v = Fine v ⊎ UpdateMisses r w

      either :
          {A : Type 0} (t : Bool) (x y : A × W)
          → Right x.1
          → Right y.1
          → Right (if t then x else y).1
      either t x y =
          if-Inv o tables laws (λ t'. Sound o tables laws collation t' ⊎ UpdateMisses r w) t x y

      change :
          (token : List ℕ) (c : EmailChange) (v : W)
          → user_token_from_str o r.t ≡ ok token
          → o.run (select_email_change o (text_of_token o token)) w ≡ (ok c, v)
          → (w' : W) → (select_email_change o (text_of_token o token) (tables w')).0 ≡ ok c
          → (Fine w' × Free o tables laws collation c.new_email w') ⊎ Misses o tables c.new_email v
          → Right (email_changed o s (email_change_complete o token w')).1
      change token c v decoded at_run w' known (inl (fine, free)) = inl (
          email_changed-Sound s (email_change_complete o token w')
            (email_change_complete-Sound o tables laws collation token c w' known fine free))
      change token c v decoded at_run w' known (inr misses) = inr (
        token,
        c,
        decoded,
        ap (λ y. y.0) at_run,
        subst (λ u. Misses o tables c.new_email u) (sym (ap (λ y. y.1) at_run)) misses,
      )

      free :
          (token : List ℕ) (c : EmailChange) (v : W)
          → user_token_from_str o r.t ≡ ok token
          → o.run (select_email_change o (text_of_token o token)) w ≡ (ok c, v)
          → Fine v
          → (select_email_change o (text_of_token o token) (tables v)).0 ≡ ok c
          → (x : Option User × W) → get_user_by_email o c.new_email v ≡ x
          → Fine x.1
          → tables x.1 ≡ tables v
          → Right (change_unless_found o token s x).1
      free token c v decoded at_run h known (some u, w') at_x fine kept = inl fine
      free token c v decoded at_run h known (none, w') at_x fine kept =
          change token c v decoded at_run w'
            (subst (λ t. (select_email_change o (text_of_token o token) t).0 ≡ ok c) (sym kept)
              known)
            (get_user_by_email-Free o tables laws collation c.new_email v w' h at_x)

      found :
          (token : List ℕ) (x : Result EmailChange × W)
          → user_token_from_str o r.t ≡ ok token
          → o.run (select_email_change o (text_of_token o token)) w ≡ x
          → Fine x.1
          → Right (change_if_found o r token s x).1
      found token (err e, w') decoded at_x fine = inl fine
      found token (ok c, w') decoded at_x fine =
          let (known, same) =
            run-ok o tables laws (select_email_change o (text_of_token o token)) w c w' at_x in
          either (expired c.expires r.now) _ _ (inl fine) (
            free token c w' decoded at_x fine
              (subst (λ t. (select_email_change o (text_of_token o token) t).0 ≡ ok c) (sym same)
                known)
              (get_user_by_email o c.new_email w') refl
              (get_user_by_email-Sound o tables laws collation c.new_email w' fine)
              (get_user_by_email-kept o tables laws c.new_email w'))

      decoded :
          (x : Result (List ℕ)) → user_token_from_str o r.t ≡ x → Right (change_decoded o r s w x).1
      decoded (err e) at_x = inl h
      decoded (ok token) at_x =
          found token (o.run (select_email_change o (text_of_token o token)) w) at_x refl (
            elsewhere o tables laws collation (select_email_change o (text_of_token o token)) w h
              refl refl)

  -- The lookup by which the request makes sure that an email is free has missed the row that has it.
  abbrev pub VisitMisses : Route → Request → W → Type 0
  VisitMisses post_register r w = Misses o tables r.email w
  VisitMisses get_emailupdate r w = UpdateMisses r w
  VisitMisses get_emailverify r w = ⊥
  VisitMisses post_passwordreset r w = ⊥
  VisitMisses post_passwordupdate r w = ⊥
  VisitMisses post_settings r w = ⊥
  VisitMisses post_login r w = ⊥

  -- This happened in one of the requests.
  abbrev pub SomeMisses : Config → List (Route × (Request × WebSession)) → W → Type 0
  SomeMisses cfg [] w = ⊥
  SomeMisses cfg ((route, (r, s)) ∷ visits) w =
      VisitMisses route r w ⊎ SomeMisses cfg visits (serve o cfg route r s w).1

  serve-Sound :
      (cfg : Config) (route : Route) (r : Request) (s : WebSession) (w : W)
      → Fine w
      → Fine (serve o cfg route r s w).1 ⊎ VisitMisses route r w
  unfolding serve
  serve-Sound cfg get_emailupdate r s w h = email_update-Sound r s w h
  serve-Sound cfg get_emailverify r s w h = inl (email_verify-Sound o tables laws collation r s w h)
  serve-Sound cfg post_passwordreset r s w h =
      inl (password_reset_post-Sound o tables laws collation cfg r s w h)
  serve-Sound cfg post_passwordupdate r s w h =
      inl (password_update_post-Sound o tables laws collation r s w h)
  serve-Sound cfg post_settings r s w h =
      inl (settings_post-Sound o tables laws collation cfg r s w h)
  serve-Sound cfg post_login r s w h = inl (login_post-Sound o tables laws collation r s w h)
  serve-Sound cfg post_register r s w h = register_post-Sound o tables laws collation cfg r s w h

  -- If a statement either fails and changes nothing or does what it says, and the collation is an
  -- equivalence, then after any sequence of requests that are served one after another no two users have the
  -- same id or email, and all ids are below the next one, provided that this holds before; unless in one of
  -- the requests RegisterPost or EmailUpdate looked for a user with the email to be taken, the selection
  -- failed, and there was one.
  pub serve_all-Sound :
      (cfg : Config) (visits : List (Route × (Request × WebSession))) (w : W)
      → Sound o tables laws collation (tables w)
      → Sound o tables laws collation (tables (serve_all o cfg visits w)) ⊎ SomeMisses cfg visits w
  unfolding serve_all
  serve_all-Sound cfg [] w h = inl h
  serve_all-Sound cfg ((route, (r, s)) ∷ visits) w h =
      served (serve-Sound cfg route r s w h)
        (serve_all-Sound cfg visits (serve o cfg route r s w).1)
    where
      w' : W
      w' = (serve o cfg route r s w).1

      followed :
          Fine (serve_all o cfg visits w') ⊎ SomeMisses cfg visits w'
          → Fine (serve_all o cfg visits w') ⊎ SomeMisses cfg ((route, (r, s)) ∷ visits) w
      followed (inl fine) = inl fine
      followed (inr misses) = inr (inr misses)

      served :
          Fine w' ⊎ VisitMisses route r w
          → (Fine w' → Fine (serve_all o cfg visits w') ⊎ SomeMisses cfg visits w')
          → Fine (serve_all o cfg visits w') ⊎ SomeMisses cfg ((route, (r, s)) ∷ visits) w
      served (inl fine) later = followed (later fine)
      served (inr misses) later = inr (inl misses)

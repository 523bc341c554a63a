-- ===== src/Accounts/Rules.antt =====
-- How a predicate of the tables is followed through the statements and the emails of Accounts.
use dcrstakepool.Shared.{
  ℕ, List, [], ◌∷◌, Bool, true, false, if◌then◌else◌, ◌≡◌, refl, sym, ap, subst, ◌∙◌, String,
  Result, ok, err, inl, inr,
}
use dcrstakepool.Client.Calls.{Call, continue, ◌>>=◌, pure}
use dcrstakepool.Accounts.Queries.{
  select_user_by_email, select_user_by_id, found_user, get_user_by_email, select_sessions_of,
  delete_session, delete_sessions, destroy_sessions_for_user_id, change_where, has_id, update_user,
  update_user_password_by_id,
}
use dcrstakepool.Accounts.{User, Session, Tables, Statement, Email, Outside, Ran, IsOutside}

module _ {W : Type 0} (o : Outside W) (tables : W → Tables) (laws : IsOutside o tables) where
  pub run-Inv :
      (Inv : Tables → Type 0) {A : Type 0} (s : Statement A) (w : W)
      → Inv (tables w)
      → Inv ((s (tables w)).1)
      → Inv (tables (o.run s w).1)
  run-Inv Inv s w before after = ran (o.run s w) (laws.runs s w)
    where
      ran : (x : Result _ × W) → Ran tables s w x → Inv (tables x.1)
      ran (r, w') (inl (failed, same)) = subst Inv (sym same) before
      ran (r, w') (inr (done, same)) = subst Inv (sym same) after

  -- A statement that returns a row was carried out.
  pub run-ok :
      {A : Type 0} (s : Statement A) (w : W) (a : A) (w' : W)
      → o.run s w ≡ (ok a, w')
      → ((s (tables w)).0 ≡ ok a) × (tables w' ≡ (s (tables w)).1)
  run-ok s w a w' e = ran (o.run s w) (laws.runs s w) e
    where
      ran :
          (x : Result _ × W)
          → Ran tables s w x
          → x ≡ (ok a, w')
          → ((s (tables w)).0 ≡ ok a) × (tables w' ≡ (s (tables w)).1)
      ran x (inl ((m, failed), same)) at_x =
          let clash : err m ≡ ok a = sym failed ∙ ap (λ y. y.0) at_x in absurd (cc)
      ran x (inr (done, same)) at_x =
          (sym done ∙ ap (λ y. y.0) at_x, sym (ap (λ y. tables y.1) at_x) ∙ same)

  -- A statement that only reads leaves the tables, whether it fails or not.
  pub run-kept :
      {A : Type 0} (s : Statement A) (w : W)
      → (s (tables w)).1 ≡ tables w
      → tables (o.run s w).1 ≡ tables w
  run-kept s w reads = run-Inv (λ t. t ≡ tables w) s w refl reads

  pub send-Inv :
      (Inv : Tables → Type 0) (m : Email) (w : W) → Inv (tables w) → Inv (tables (o.send m w).1)
  send-Inv Inv m w h = subst Inv (sym (laws.sends m w)) h

  pub bind-Inv :
      (Inv : Tables → Type 0) {A B : Type 0} (m : Call W A) (f : A → Call W B) (w : W)
      → Inv (tables (m w).1)
      → ((a : A) (w' : W) → m w ≡ (ok a, w') → Inv (tables (f a w').1))
      → Inv (tables ((m >>= f) w).1)
  bind-Inv Inv m f w failed next = called (m w) refl failed
    where
      called : (x : Result _ × W) → m w ≡ x → Inv (tables x.1) → Inv (tables (continue x.0 f x.1).1)
      called (err e, w') at_x h = h
      called (ok a, w') at_x h = next a w' at_x

  pub if-Inv :
      (Inv : Tables → Type 0) {A : Type 0} (t : Bool) (x y : A × W)
      → Inv (tables x.1)
      → Inv (tables y.1)
      → Inv (tables (if t then x else y).1)
  if-Inv Inv true x y h k = h
  if-Inv Inv false x y h k = k

  pub get_user_by_email-kept :
      (email : String) (w : W) → tables (get_user_by_email o email w).1 ≡ tables w
  unfolding get_user_by_email
  get_user_by_email-kept email w =
      found (o.run (select_user_by_email o email) w)
        (run-kept (select_user_by_email o email) w refl)
    where
      found : (x : Result User × W) → tables x.1 ≡ tables w → tables (found_user o x).1 ≡ tables w
      found (ok u, w') same = same
      found (err m, w') same = same

  -- What the users satisfy under a statement that does not write to them.
  pub users-kept :
      (P : List User → Type 0) {A : Type 0} (s : Statement A) (w : W)
      → P (tables w).users
      → (s (tables w)).1.users ≡ (tables w).users
      → P (tables (o.run s w).1).users
  users-kept P s w h same = run-Inv (λ t. P t.users) s w h (subst P (sym same) h)

  -- Sessions are deleted one by one, and any of the statements may fail.
  pub delete_sessions-Inv :
      (Inv : Tables → Type 0)
      → ((t : Tables) (ss : List Session) → Inv t → Inv (record t { sessions = ss }))
      → (ds : List Session) (w : W) → Inv (tables w)
      → Inv (tables (delete_sessions o ds w).1)
  unfolding delete_sessions
  delete_sessions-Inv Inv apart [] w h = h
  delete_sessions-Inv Inv apart (d ∷ ds) w h =
      bind-Inv Inv (o.run (delete_session d)) (λ _. delete_sessions o ds) w deleted
        (λ _ w' e. delete_sessions-Inv Inv apart ds w' (subst (λ x. Inv (tables x.1)) e deleted))
    where
      deleted : Inv (tables (o.run (delete_session d) w).1)
      deleted = run-Inv Inv (delete_session d) w h (apart (tables w) _ h)

  pub destroy_sessions-users :
      (P : List User → Type 0) (id : ℕ) (w : W)
      → P (tables w).users
      → P (tables (destroy_sessions_for_user_id o id w).1).users
  unfolding destroy_sessions_for_user_id
  destroy_sessions-users P id w h =
      bind-Inv (λ t. P t.users) (o.run (select_sessions_of id)) (delete_sessions o) w selected
        (λ ds w' e.
          delete_sessions-Inv (λ t. P t.users) (λ t ss q. q) ds w'
            (subst (λ x. P (tables x.1).users) e selected))
    where
      selected : P (tables (o.run (select_sessions_of id) w).1).users
      selected = users-kept P (select_sessions_of id) w h refl

  pub update_user_password_by_id-users :
      (P : List User → Type 0) (id : ℕ) (hash : String) (w : W)
      → P (tables w).users
      → ((user : User)
          → (select_user_by_id id (tables w)).0 ≡ ok user
          → P (
              change_where
                (has_id user.id)
                (λ _. record user { password = hash })
                (tables w).users))
      → P (tables (update_user_password_by_id o id hash w).1).users
  unfolding update_user_password_by_id
  update_user_password_by_id-users P id hash w h changed =
      bind-Inv (λ t. P t.users) (o.run (select_user_by_id id)) _ w selected
        (λ user w' e.
          let (found, same) = run-ok (select_user_by_id id) w user w' e in
          let updated =
            run-Inv (λ t. P t.users) (update_user (record user { password = hash })) w'
              (subst (λ x. P (tables x.1).users) e selected)
              (subst
                (λ t.
                  P (change_where (has_id user.id) (λ _. record user { password = hash }) t.users))
                (sym same) (changed user found)) in
          bind-Inv (λ t. P t.users) (o.run (update_user (record user { password = hash })))
            (λ _. pure (record user { password = hash })) w' updated
            (λ _ w'' e'. subst (λ x. P (tables x.1).users) e' updated))
    where
      selected : P (tables (o.run (select_user_by_id id) w).1).users
      selected = users-kept P (select_user_by_id id) w h refl

  pub if-known :
      (Inv : Tables → Type 0) {A : Type 0} (t : Bool) (x y : A × W)
      → (t ≡ true → Inv (tables x.1))
      → (t ≡ false → Inv (tables y.1))
      → Inv (tables (if t then x else y).1)
  if-known Inv true x y h k = h refl
  if-known Inv false x y h k = k refl

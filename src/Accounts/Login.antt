-- ===== src/Accounts/Login.antt =====
-- LoginPost: who is logged in.
pub mod Done
use dcrstakepool.Shared.{
  ℕ, ◌≡◌, refl, String, nat_beq, Bool, true, false, some, Result, ok, err, if◌then◌else◌, ◌⊎◌, inl,
  inr,
}
use dcrstakepool.Client.Calls.{continue}
use dcrstakepool.Accounts.{User, Tables, Statement, Outside, IsOutside}
use dcrstakepool.Accounts.Queries.{
  select_user_by_email, select_user_by_id, login, password_valid_by_id,
}
use dcrstakepool.Accounts.Requests.{Request, WebSession, Answer, logged_in, login_post}
use dcrstakepool.Accounts.Rules.{run-ok, run-kept}

module _ {W : Type 0} (o : Outside W) (tables : W → Tables) (laws : IsOutside o tables) where
  -- The result of a selection of a user and a comparison of the password, which only read.
  abbrev pub Confirmed : Statement User → String → W → Result User × W → Type 0
  Confirmed s password w (err e, w') = tables w' ≡ tables w
  Confirmed s password w (ok user, w') =
      (tables w' ≡ tables w)
      × ((s (tables w)).0 ≡ ok user)
      × (o.compare_hash_and_password user.password password ≡ ok tt)

  compared :
      (s : Statement User) (password : String) (w : W) (user : User) (w' : W)
      → tables w' ≡ tables w
      → (s (tables w)).0 ≡ ok user
      → (c : Result (Unit {0})) → o.compare_hash_and_password user.password password ≡ c
      → Confirmed s password w (continue c (λ _. λ v. (ok user, v)) w')
  compared s password w user w' same found (err e) at_c = same
  compared s password w user w' same found (ok tt) at_c = (same, found, at_c)

  selected :
      (s : Statement User) (password : String) (w : W)
      → (s (tables w)).1 ≡ tables w
      → (x : Result User × W) → o.run s w ≡ x
      → tables x.1 ≡ tables w
      → Confirmed s password w (
          continue x.0
            (λ user. λ v.
              continue
                (o.compare_hash_and_password user.password password)
                (λ _. λ u. (ok user, u))
                v)
            x.1)
  selected s password w reads (err e, w') at_x same = same
  selected s password w reads (ok user, w') at_x same =
      compared s password w user w' same (run-ok o tables laws s w user w' at_x).0
        (o.compare_hash_and_password user.password password) refl

  pub login-Confirmed :
      (email password : String) (w : W)
      → Confirmed (select_user_by_email o email) password w (login o email password w)
  unfolding login
  login-Confirmed email password w =
      selected (select_user_by_email o email) password w refl
        (o.run (select_user_by_email o email) w) refl
        (run-kept o tables laws (select_user_by_email o email) w refl)

  pub password_valid_by_id-Confirmed :
      (id : ℕ) (password : String) (w : W)
      → Confirmed (select_user_by_id id) password w (password_valid_by_id o id password w)
  unfolding password_valid_by_id
  password_valid_by_id-Confirmed id password w =
      selected (select_user_by_id id) password w refl (o.run (select_user_by_id id) w) refl
        (run-kept o tables laws (select_user_by_id id) w refl)

  -- The session belongs to the one user with the email of the form, who has the password of the form and
  -- a verified email.
  pub record LoggedIn (r : Request) (t : Tables) (s : WebSession) : Type 0 where
    pub user : User
    pub found : (select_user_by_email o r.email t).0 ≡ ok user
    pub compared : o.compare_hash_and_password user.password r.password ≡ ok tt
    pub email_verified : nat_beq user.email_verified 0 ≡ false
    pub session : s.user_id ≡ some user.id

  -- If a statement either fails and changes nothing or does what it says, LoginPost leaves the tables,
  -- and gives the session no other user than it has, unless to the one user with the email of the form,
  -- whose password is that of the form and whose email is verified.
  pub login_post-LoggedIn :
      (r : Request) (s : WebSession) (w : W)
      → (tables (login_post o r s w).1 ≡ tables w)
        × (((login_post o r s w).0.1.user_id ≡ s.user_id)
            ⊎ LoggedIn r (tables w) (login_post o r s w).0.1)
  unfolding login_post logged_in
  login_post-LoggedIn r s w =
      answered (login o r.email r.password w) (login-Confirmed r.email r.password w)
    where
      Right : Answer W → Type 0
      Right a =
          (tables a.1 ≡ tables w) × ((a.0.1.user_id ≡ s.user_id) ⊎ LoggedIn r (tables w) a.0.1)

      verified :
          (t : Bool) (x y : Answer W)
          → (t ≡ true → Right x)
          → (t ≡ false → Right y)
          → Right (if t then x else y)
      verified true x y h k = h refl
      verified false x y h k = k refl

      answered :
          (x : Result User × W)
          → Confirmed (select_user_by_email o r.email) r.password w x
          → Right (logged_in o s x)
      answered (err e, w') same = (same, inl refl)
      answered (ok user, w') (same, found, compared) =
          verified (nat_beq user.email_verified 0) _ _ (λ _. (same, inl refl))
            (λ yes_verified. (
              same,
              inr (record {
                user = user;
                found = found;
                compared = compared;
                email_verified = yes_verified;
                session = refl;
              }),
            ))

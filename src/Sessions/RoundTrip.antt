-- ===== src/Sessions/RoundTrip.antt =====
-- Sessions that are saved and loaded again, and sessions that have expired.
use dcrstakepool.Shared.{
  ℕ, ◌+◌, ◌≤◌, ◌<◌, ◌≡◌, refl, sym, ap, subst, ◌∙◌, String, nat_beq_iff, ltb, Bool, true, false,
  List, [], ◌∷◌, Result, ok, err, if◌then◌else◌, All-map, ◌⊎◌, inl, inr, arith,
}
use dcrstakepool.Accounts.{Session, Tables, Outside}
use dcrstakepool.Accounts.Queries.{rows_where, only_row, one_of}
use dcrstakepool.Accounts.Requests.{unix}
use dcrstakepool.Accounts.Keys.{only_row-Unique}
use dcrstakepool.Accounts.Rows.{
  without_sessions, delete_sessions-done, rows_where-snoc, rows_where-except, only_row-changed,
}
use dcrstakepool.Accounts.Reliable.{IsReliable, run-result, run-done, take_else}
use dcrstakepool.Sessions.{
  Gob, StoredSession, has_session_id, insert_session, update_session, row_user_id, has_token,
  select_session, destroy, destroy_found, keep_values, load_found, load, insert_encoded,
  update_encoded, save_found, save,
}

not_expired : (expires now : ℕ) → now ≤ expires → ltb expires now ≡ false
not_expired expires now h = ground arith

is_expired : (expires now : ℕ) → expires < now → ltb expires now ≡ true
is_expired expires now h = ground arith

module _ {W : Type 0} (o : Outside W) (tables : W → Tables) (reliable : IsReliable o tables)
    {V : Type 0} (gob : Gob V) where
  load-values :
      (token : String) (v v' : V) (d : List ℕ) (now : ℕ) (w : W) (row : Session)
      → (select_session o token (tables w)).0 ≡ ok row
      → unix now ≤ row.expires
      → row.session_data ≡ d
      → gob.decode d v ≡ ok v'
      → (load o gob token v now w).0 ≡ ok v'
  unfolding load
  load-values token v v' d now w row found live there decoded =
      run-done o tables reliable (λ x. (load_found o gob token v now x).0 ≡ ok v')
        (select_session o token) w row found
        (λ w' same.
          take_else (λ (x : Result V × W). x.0 ≡ ok v') (ltb row.expires (unix now)) _ _
            (not_expired row.expires (unix now) live) (ap (λ e. gob.decode e v) there ∙ decoded))

  -- No row has the token, and the session is loaded before its max age; or the one row with the token is the
  -- only one with its id, and has not expired.
  abbrev pub Loadable : StoredSession V → ℕ → ℕ → W → Type 0
  Loadable s now later w =
      ((rows_where (has_token o s.id) (tables w).sessions ≡ [])
        × (o.same_text s.id s.id ≡ true)
        × (unix later ≤ unix now + s.max_age))
      ⊎ ((row : Session) × ((select_session o s.id (tables w)).0 ≡ ok row)
          × (only_row (rows_where (has_session_id row.id) (tables w).sessions) ≡ ok row)
          × (unix later ≤ row.expires))

  -- Over a database that carries every statement out, if gob decodes the values of a session from what it
  -- encodes, a session that is saved is loaded with these values: a new one, whose token no row has, until its
  -- max age has passed, and one that was saved before, in the one row with its token and that row's id, until
  -- that row expires.
  pub save-load :
      (s : StoredSession V) (v : V) (d : List ℕ) (now later : ℕ) (w : W)
      → gob.encode s.values ≡ ok d
      → gob.decode d v ≡ ok s.values
      → Loadable s now later w
      → (load o gob s.id v later (save o gob s now w).1).0 ≡ ok s.values
  unfolding save
  save-load s v d now later w encoded decoded (inl (none_there, itself, in_time)) =
      run-result o tables reliable (λ x. Loaded (save_found o gob s now x)) (select_session o s.id)
        w (err "sql: no rows in result set") (ap only_row none_there)
        (λ w' same.
          subst (λ x. Loaded (insert_encoded o gob s now x w')) (sym encoded)
            (run-done o tables reliable Loaded (insert_session new) w' tt refl (λ w'' same'.
              load-values s.id v s.values d later w''
                (record new { id = (tables w').next_session_id })
                (ap (λ t. (select_session o s.id t).0) same'
                  ∙ ap only_row (
                      rows_where-snoc (has_token o s.id) (tables w').sessions
                        (record new { id = (tables w').next_session_id })
                        (ap (λ t. rows_where (has_token o s.id) t.sessions) same ∙ none_there)
                        itself))
                in_time refl decoded)))
    where
      Loaded : Result (Unit {0}) × W → Type 0
      Loaded x = (load o gob s.id v later x.1).0 ≡ ok s.values

      new : Session
      new = record {
        id = 0;
        token = s.id;
        session_data = d;
        user_id = row_user_id (gob.user_id s.values);
        created = unix now;
        expires = unix now + s.max_age;
      }
  save-load s v d now later w encoded decoded (inr (row, found, alone, in_time)) =
      run-done o tables reliable (λ x. Loaded (save_found o gob s now x)) (select_session o s.id) w
        row found
        (λ w' same.
          subst (λ x. Loaded (update_encoded o gob s row x w')) (sym encoded)
            (run-done o tables reliable Loaded (update_session new) w' tt refl (λ w'' same'.
              load-values s.id v s.values d later w'' new
                (ap (λ t. (select_session o s.id t).0)
                    (same' ∙ ap (λ t. (update_session new t).1) same)
                  ∙ only_row-changed (has_token o s.id) (has_session_id row.id) row new
                      (tables w).sessions found alone
                      (only_row-Unique (has_token o s.id) (tables w).sessions row found).0)
                in_time refl decoded)))
    where
      Loaded : Result (Unit {0}) × W → Type 0
      Loaded x = (load o gob s.id v later x.1).0 ≡ ok s.values

      new : Session
      new = record row { session_data = d; user_id = row_user_id (gob.user_id s.values) }

  destroy-gone :
      (token : String) (w : W) (row : Session)
      → (select_session o token (tables w)).0 ≡ ok row
      → ((destroy o token w).0 ≡ ok tt)
        × (rows_where (has_token o token) (tables (destroy o token w).1).sessions ≡ [])
  unfolding destroy
  destroy-gone token w row found =
      run-done o tables reliable (λ x. Gone (destroy_found o x)) (select_session o token) w row
        found
        (λ w' same.
          let (answer, after) = delete_sessions-done o tables reliable (row ∷ []) w' in
          (
            answer,
            ap (λ t. rows_where (has_token o token) t.sessions)
                  (after ∙ ap (without_sessions (row ∷ [])) same)
                ∙ rows_where-except (has_token o token) (one_of (row ∷ [])) (tables w).sessions (
                    All-map (tables w).sessions (λ a unique at_a. met a (unique at_a))
                      (only_row-Unique (has_token o token) (tables w).sessions row found).1),
          ))
    where
      Gone : Result (Unit {0}) × W → Type 0
      Gone x = (x.0 ≡ ok tt) × (rows_where (has_token o token) (tables x.1).sessions ≡ [])

      met : (a : Session) → a ≡ row → one_of (row ∷ []) a ≡ true
      met a same =
          ap (λ t. if t then true else false)
            ((nat_beq_iff row.id a.id).1 (ap (λ r. r.id) (sym same)))

  -- Over a database that carries every statement out, the load of a session whose one row has expired
  -- leaves the values that the session has, and after that no row has its token.
  pub load_expired :
      (token : String) (v : V) (now : ℕ) (w : W) (row : Session)
      → (select_session o token (tables w)).0 ≡ ok row
      → row.expires < unix now
      → ((load o gob token v now w).0 ≡ ok v)
        × (rows_where (has_token o token) (tables (load o gob token v now w).1).sessions ≡ [])
  unfolding load
  load_expired token v now w row found late =
      run-done o tables reliable (λ x. Empty (load_found o gob token v now x))
        (select_session o token) w row found
        (λ w' same.
          late_row (ltb row.expires (unix now)) (is_expired row.expires (unix now) late) w'
            (destroy-gone token w' row (ap (λ t. (select_session o token t).0) same ∙ found)))
    where
      Empty : Result V × W → Type 0
      Empty x = (x.0 ≡ ok v) × (rows_where (has_token o token) (tables x.1).sessions ≡ [])

      kept :
          (x : Result (Unit {0}) × W)
          → (x.0 ≡ ok tt) × (rows_where (has_token o token) (tables x.1).sessions ≡ [])
          → Empty (keep_values o gob v x)
      kept (err e, w') (failed, gone) = let clash : err e ≡ ok tt = failed in absurd (cc)
      kept (ok _, w') (done, gone) = (refl, gone)

      late_row :
          (t : Bool)
          → t ≡ true
          → (w' : W)
          → ((destroy o token w').0 ≡ ok tt)
            × (rows_where (has_token o token) (tables (destroy o token w').1).sessions ≡ [])
          → Empty (
              if t
              then keep_values o gob v (destroy o token w')
              else (gob.decode row.session_data v, w'))
      late_row true e w' gone = kept (destroy o token w') gone
      late_row false e w' gone = absurd (cc)

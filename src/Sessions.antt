-- ===== src/Sessions.antt =====
-- The store of sessions, system/sqlstore.go, over the table Session of Accounts.
pub mod RoundTrip
pub mod Tests
use dcrstakepool.Shared.{
  ℕ, ◌+◌, ◌-◌, ◌^◌, String, text_key, ◌==◌, ltb, nat_beq, Bool, true, false, Option, none, some,
  List, [], ◌∷◌, ◌++◌, Result, ok, err, if◌then◌else◌,
}
use dcrstakepool.Client.Calls.{Call}
use dcrstakepool.Accounts.{Session, Tables, Statement, Outside}
use dcrstakepool.Accounts.Queries.{rows_where, rows_except, change_where, only_row, delete_sessions}
use dcrstakepool.Accounts.Requests.{unix}

-- encoding/gob on the values of a session, with the user id among them; a decoder adds to the values that
-- are there.
pub record Gob (V : Type 0) : Type 0 where
  pub encode : V → Result (List ℕ)
  pub decode : List ℕ → V → Result V
  pub user_id : V → Option ℕ

-- sessions.Session, with Options.MaxAge as a number and whether it is negative
pub record StoredSession (V : Type 0) : Type 0 where
  pub id : String
  pub values : V
  pub max_age : ℕ
  pub max_age_negative : Bool

abbrev pub has_session_id : ℕ → Session → Bool
has_session_id id s = nat_beq s.id id

-- gorp's Insert and Update of a row of Session
abbrev pub insert_session : Session → Statement (Unit {0})
insert_session s t = (
  ok tt,
  record t {
    sessions = t.sessions ++ record s { id = t.next_session_id } ∷ [];
    next_session_id = t.next_session_id + 1;
  },
)

abbrev pub update_session : Session → Statement (Unit {0})
update_session s t =
    (ok tt, record t { sessions = change_where (has_session_id s.id) (λ _. s) t.sessions })

-- SELECT * FROM Session WHERE Expires < ?
abbrev pub select_expired_sessions : ℕ → Statement (List Session)
select_expired_sessions now t = (ok (rows_where (λ s. ltb s.expires now) t.sessions), t)

-- errors.Is(err, sql.ErrNoRows)
abbrev pub no_rows : String → Bool
no_rows e = e == "sql: no rows in result set"

-- dbSession.UserID, which is -1 if the values have no user
abbrev pub row_user_id : Option ℕ → ℕ
row_user_id none = 2 ^ 64 - 1
row_user_id (some id) = id

module _ {W : Type 0} (o : Outside W) where
  abbrev pub has_token : String → Session → Bool
  has_token token s = o.same_text s.token token

  -- SELECT * FROM Session WHERE Token = ?
  abbrev pub select_session : String → Statement Session
  select_session token t = (only_row (rows_where (has_token token) t.sessions), t)

  abbrev pub destroy_found : Result Session × W → Result (Unit {0}) × W
  destroy_found (err e, w) =
      if no_rows e then (ok tt, w) else (err "could not select session to destroy", w)
  destroy_found (ok s, w) = delete_sessions o (s ∷ []) w

  unfoldable pub destroy : String → Call W (Unit {0})
  destroy token w = destroy_found (o.run (select_session token) w)

  abbrev pub destroy_all : Result (List Session) × W → Result (Unit {0}) × W
  destroy_all (err e, w) = (err "could not select expired sessions", w)
  destroy_all (ok ss, w) = delete_sessions o ss w

  unfoldable pub destroy_expired_sessions : ℕ → Call W (Unit {0})
  destroy_expired_sessions now w = destroy_all (o.run (select_expired_sessions (unix now)) w)

  module _ {V : Type 0} (gob : Gob V) where
    -- The values after a destroyed session has been looked for.
    abbrev pub keep_values : V → Result (Unit {0}) × W → Result V × W
    keep_values v (err e, w) = (err e, w)
    keep_values v (ok _, w) = (ok v, w)

    abbrev pub load_found : String → V → ℕ → Result Session × W → Result V × W
    load_found token v now (err e, w) =
        if no_rows e then (ok v, w) else (err "could not select session to destroy", w)
    load_found token v now (ok s, w) =
        if ltb s.expires (unix now)
        then keep_values v (destroy token w)
        else (gob.decode s.session_data v, w)

    -- The values of the session after load.
    unfoldable pub load : String → V → ℕ → Call W V
    load token v now w = load_found token v now (o.run (select_session token) w)

    abbrev pub insert_encoded : StoredSession V → ℕ → Result (List ℕ) → Call W (Unit {0})
    insert_encoded s now (err e) w = (err e, w)
    insert_encoded s now (ok d) w =
        o.run
          (insert_session (record {
            id = 0;
            token = s.id;
            session_data = d;
            user_id = row_user_id (gob.user_id s.values);
            created = unix now;
            expires = unix now + s.max_age;
          }))
          w

    abbrev pub update_encoded : StoredSession V → Session → Result (List ℕ) → Call W (Unit {0})
    update_encoded s row (err e) w = (err e, w)
    update_encoded s row (ok d) w =
        o.run
          (update_session
            (record row { session_data = d; user_id = row_user_id (gob.user_id s.values) }))
          w

    abbrev pub save_found : StoredSession V → ℕ → Result Session × W → Result (Unit {0}) × W
    save_found s now (err e, w) =
        if no_rows e
        then insert_encoded s now (gob.encode s.values) w
        else (err "could not select session", w)
    save_found s now (ok row, w) = update_encoded s row (gob.encode s.values) w

    unfoldable pub save : StoredSession V → ℕ → Call W (Unit {0})
    save s now w = save_found s now (o.run (select_session s.id) w)

    -- Save, with the random id of a session that has none; the cookie is left out.
    unfoldable pub save_session :
        StoredSession V → String → ℕ → W → (StoredSession V × Result (Unit {0})) × W
    save_session s random_id now w =
        if s.max_age_negative
        then (let (r, w') = destroy s.id w in ((s, r), w'))
        else (let named : StoredSession V = if s.id == "" then record s { id = random_id } else s in
            let (r, w') = save named now w in ((named, r), w'))

-- ===== src/Sessions/Tests.antt =====
-- The theorems of Sessions with values that are one number, the user id.
use dcrstakepool.Shared.{
  ℕ, ◌≡◌, refl, text_key, number_key, false, some, [], ◌∷◌, ok, err, inl, arith,
}
use dcrstakepool.Accounts.{Session}
use dcrstakepool.Accounts.Queries.{rows_where}
use dcrstakepool.Accounts.Tests.{outside, start, reliable}
use dcrstakepool.Sessions.{Gob, StoredSession, has_token, load, save}
use dcrstakepool.Sessions.RoundTrip.{save-load, load_expired}

abbrev gob : Gob ℕ
gob = record {
  encode = λ v. ok (v ∷ []);
  decode = λ bytes v. elim bytes [ [] ↦ err "gob" | n ∷ ns ↦ ok n ];
  user_id = λ v. some v;
}

abbrev new_session : StoredSession ℕ
new_session = record { id = "second"; values = 7; max_age = 100; max_age_negative = false }

abbrev cookie : Session
cookie = record {
  id = 1;
  token = "cookie";
  session_data = [];
  user_id = 1;
  created = 0;
  expires = 9000;
}

save-load_example :
    (load outside gob "second" 0 60000000000 (save outside gob new_session 1000000000 start).1).0
    ≡ ok 7
unfolding rows_where
save-load_example =
    save-load outside (λ t. t) reliable gob new_session 0 (7 ∷ []) 1000000000 60000000000 start refl
      refl (inl (refl, refl, omega arith))

load_expired_example :
    ((load outside gob "cookie" 0 10000000000000 start).0 ≡ ok 0)
    × (rows_where
          (has_token outside "cookie")
          (load outside gob "cookie" 0 10000000000000 start).1.sessions
        ≡ [])
unfolding rows_where
load_expired_example =
    load_expired outside (λ t. t) reliable gob "cookie" 0 10000000000000 start cookie refl
      (omega arith)

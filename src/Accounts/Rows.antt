-- ===== src/Accounts/Rows.antt =====
-- Rows that are deleted or replaced, and the selections after that.
use dcrstakepool.Shared.{
  ◌++◌, All-each, ◌≡◌, refl, sym, ap, ◌∙◌, Result, nat_beq, nat_beq_iff, Bool, true, false, List,
  [], ◌∷◌, ok, if◌then◌else◌, map, All, All-map,
}
use dcrstakepool.Client.Calls.{continue}
use dcrstakepool.Accounts.{Session, Tables, Outside}
use dcrstakepool.Accounts.Keys.{only_row-Unique}
use dcrstakepool.Accounts.Queries.{
  rows_where, rows_except, change_where, only_row, one_of, delete_session, delete_sessions,
}
use dcrstakepool.Accounts.Reliable.{IsReliable, run-done}

-- No row is selected if every row with the property was deleted.
pub rows_where-except :
    {A : Type 0} (p q : A → Bool) (as' : List A)
    → All (λ a. p a ≡ true → q a ≡ true) as'
    → rows_where p (rows_except q as') ≡ []
unfolding rows_where rows_except
rows_where-except p q [] h = refl
rows_where-except p q (a ∷ as') h = looked (q a) refl (p a) refl (rows_where-except p q as' h.1)
  where
    looked :
        (t : Bool)
        → q a ≡ t
        → (u : Bool) → p a ≡ u
        → rows_where p (rows_except q as') ≡ []
        → rows_where p (if t then rows_except q as' else a ∷ rows_except q as') ≡ []
    looked true at_q u at_p rest = rest
    looked false at_q true at_p rest = let clash = h.0 at_p in absurd (cc)
    looked false at_q false at_p rest =
        ap
          (λ t.
            if t then a ∷ rows_where p (rows_except q as') else rows_where p (rows_except q as'))
          at_p
        ∙ rest

pub rows_where-except_self :
    {A : Type 0} (p : A → Bool) (as' : List A) → rows_where p (rows_except p as') ≡ []
rows_where-except_self p as' = rows_where-except p p as' (All-each as' (λ a h. h))

one_of-weaker :
    (t : Bool) (a s : Session) (rows : List Session)
    → one_of rows s ≡ true
    → one_of (if t then a ∷ rows else rows) s ≡ true
one_of-weaker false a s rows h = h
one_of-weaker true a s rows h = met (nat_beq a.id s.id)
  where
    met : (u : Bool) → (if u then true else one_of rows s) ≡ true
    met true = refl
    met false = h

one_of-selected :
    (p : Session → Bool) (ss : List Session)
    → All (λ s. p s ≡ true → one_of (rows_where p ss) s ≡ true) ss
unfolding rows_where
one_of-selected p [] = tt
one_of-selected p (a ∷ ss) = (
  (λ at_a.
      ap (λ t. one_of (if t then a ∷ rows_where p ss else rows_where p ss) a) at_a
      ∙ ap (λ t. if t then true else one_of (rows_where p ss) a) ((nat_beq_iff a.id a.id).1 refl)),
  All-map ss (λ s h at_s. one_of-weaker (p a) a s (rows_where p ss) (h at_s))
      (one_of-selected p ss),
)

rows_except-none : (ss : List Session) → rows_except (one_of []) ss ≡ ss
unfolding rows_except
rows_except-none [] = refl
rows_except-none (s ∷ ss) = ap (λ l. s ∷ l) (rows_except-none ss)

rows_except-cons :
    (d : Session) (ds ss : List Session)
    → rows_except (one_of ds) (rows_except (one_of (d ∷ [])) ss) ≡ rows_except (one_of (d ∷ ds)) ss
unfolding rows_except
rows_except-cons d ds [] = refl
rows_except-cons d ds (s ∷ ss) = looked (rows_except-cons d ds ss) (nat_beq d.id s.id)
  where
    rest : List Session
    rest = rows_except (one_of (d ∷ [])) ss

    looked :
        rows_except (one_of ds) (rows_except (one_of (d ∷ [])) ss)
          ≡ rows_except (one_of (d ∷ ds)) ss
        → (t : Bool)
        → rows_except (one_of ds) (if (if t then true else false) then rest else s ∷ rest) ≡ (
            if (if t then true else one_of ds s)
            then rows_except (one_of (d ∷ ds)) ss
            else s ∷ rows_except (one_of (d ∷ ds)) ss)
    looked later true = later
    looked later false = ap (λ l. if one_of ds s then l else s ∷ l) later

-- The tables without these sessions.
abbrev pub without_sessions : List Session → Tables → Tables
without_sessions ds t = record t { sessions = rows_except (one_of ds) t.sessions }

-- A database that carries every statement out deletes all of the sessions.
pub delete_sessions-done :
    {W : Type 0} (o : Outside W) (tables : W → Tables)
    → IsReliable o tables
    → (ds : List Session) (w : W)
    → ((delete_sessions o ds w).0 ≡ ok tt)
      × (tables (delete_sessions o ds w).1 ≡ without_sessions ds (tables w))
unfolding delete_sessions
delete_sessions-done o tables reliable [] w = (
  refl,
  ap (λ ss. record (tables w) { sessions = ss }) (sym (rows_except-none (tables w).sessions)),
)
delete_sessions-done {W} o tables reliable (d ∷ ds) w =
    run-done o tables reliable (λ x. Done (continue x.0 (λ _. delete_sessions o ds) x.1))
      (delete_session d) w tt refl
      (λ w' same. next w' same (delete_sessions-done o tables reliable ds w'))
  where
    Done : Result (Unit {0}) × W → Type 0
    Done x = (x.0 ≡ ok tt) × (tables x.1 ≡ without_sessions (d ∷ ds) (tables w))

    next :
        (w' : W)
        → tables w' ≡ (delete_session d (tables w)).1
        → ((delete_sessions o ds w').0 ≡ ok tt)
          × (tables (delete_sessions o ds w').1 ≡ without_sessions ds (tables w'))
        → Done (delete_sessions o ds w')
    next w' same (answer, after) = (
      answer,
      after
          ∙ ap (without_sessions ds) same
          ∙ ap (λ ss. record (tables w) { sessions = ss })
              (rows_except-cons d ds (tables w).sessions),
    )

-- All sessions that are selected are deleted.
pub rows_where-sessions :
    (p : Session → Bool) (ss : List Session)
    → rows_where p (rows_except (one_of (rows_where p ss)) ss) ≡ []
rows_where-sessions p ss = rows_where-except p (one_of (rows_where p ss)) ss (one_of-selected p ss)

only_row-replaced :
    {A : Type 0} (a a' : A) (rows : List A)
    → only_row rows ≡ ok a
    → only_row (map (λ _. a') rows) ≡ ok a'
only_row-replaced a a' [] h = absurd (cc)
only_row-replaced a a' (b ∷ []) h = refl
only_row-replaced a a' (b ∷ c ∷ rows) h = absurd (cc)

-- The rows that `p` selects, where the one row that `p` and `q` hold of is replaced.
rows_where-replaced :
    {A : Type 0} (p q : A → Bool) (a a' : A) (us : List A)
    → p a ≡ true
    → q a ≡ true
    → p a' ≡ true
    → All (λ v. p v ≡ true → v ≡ a) us
    → All (λ v. q v ≡ true → v ≡ a) us
    → rows_where p (change_where q (λ _. a') us) ≡ map (λ _. a') (rows_where p us)
unfolding rows_where change_where
rows_where-replaced p q a a' [] at_p at_q new only_p only_q = refl
rows_where-replaced {A} p q a a' (v ∷ us) at_p at_q new only_p only_q =
    looked (p v) refl (q v) refl (rows_where-replaced p q a a' us at_p at_q new only_p.1 only_q.1)
  where
    rest : List A
    rest = rows_where p (change_where q (λ _. a') us)

    looked :
        (t : Bool)
        → p v ≡ t
        → (u : Bool) → q v ≡ u
        → rest ≡ map (λ _. a') (rows_where p us)
        → (if p (if u then a' else v) then (if u then a' else v) ∷ rest else rest)
          ≡ map (λ _. a') (if t then v ∷ rows_where p us else rows_where p us)
    looked true p_v true q_v later =
        ap (λ t. if t then a' ∷ rest else rest) new ∙ ap (λ l. a' ∷ l) later
    looked true p_v false q_v later =
        let clash : q v ≡ true = ap q (only_p.0 p_v) ∙ at_q in absurd (cc)
    looked false p_v true q_v later =
        let clash : p v ≡ true = ap p (only_q.0 q_v) ∙ at_p in absurd (cc)
    looked false p_v false q_v later = ap (λ t. if t then v ∷ rest else rest) p_v ∙ later

pub only_row-changed :
    {A : Type 0} (p q : A → Bool) (a a' : A) (us : List A)
    → only_row (rows_where p us) ≡ ok a
    → only_row (rows_where q us) ≡ ok a
    → p a' ≡ true
    → only_row (rows_where p (change_where q (λ _. a') us)) ≡ ok a'
only_row-changed p q a a' us found_p found_q new =
    ap only_row (
      rows_where-replaced p q a a' us (only_row-Unique p us a found_p).0
        (only_row-Unique q us a found_q).0 new (only_row-Unique p us a found_p).1
        (only_row-Unique q us a found_q).1)
    ∙ only_row-replaced a a' (rows_where p us) found_p

-- A row that is inserted is selected alone.
pub rows_where-snoc :
    {A : Type 0} (p : A → Bool) (ss : List A) (s : A)
    → rows_where p ss ≡ []
    → p s ≡ true
    → rows_where p (ss ++ s ∷ []) ≡ s ∷ []
unfolding rows_where
rows_where-snoc p [] s none_there this = ap (λ t. if t then s ∷ [] else []) this
rows_where-snoc p (a ∷ ss) s none_there this =
    looked (p a) none_there (λ h. rows_where-snoc p ss s h this)
  where
    looked :
        (t : Bool)
        → (if t then a ∷ rows_where p ss else rows_where p ss) ≡ []
        → (rows_where p ss ≡ [] → rows_where p (ss ++ s ∷ []) ≡ s ∷ [])
        → (if t then a ∷ rows_where p (ss ++ s ∷ []) else rows_where p (ss ++ s ∷ [])) ≡ s ∷ []
    looked true h later = absurd (cc)
    looked false h later = later h

pub change_where-one :
    {A : Type 0} (q : A → Bool) (f : A → A) (a : A) (us : List A)
    → All (λ v. q v ≡ true → v ≡ a) us
    → change_where q f us ≡ change_where q (λ _. f a) us
unfolding change_where
change_where-one q f a [] only = refl
change_where-one {A} q f a (v ∷ us) only =
    ap (λ l. l ∷ change_where q f us) (met (q v) only.0)
    ∙ ap (λ l. (if q v then f a else v) ∷ l) (change_where-one q f a us only.1)
  where
    met : (t : Bool) → (t ≡ true → v ≡ a) → (if t then f v else v) ≡ (if t then f a else v)
    met true same = ap f (same refl)
    met false same = refl

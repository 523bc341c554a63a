-- ===== src/Accounts/Reliable.antt =====
-- A database that carries every statement out.
use dcrstakepool.Shared.{◌≡◌, sym, subst, ◌∙◌, Bool, true, false, Result, ok, if◌then◌else◌}
use dcrstakepool.Accounts.{Tables, Statement, Outside}

pub record IsReliable {W : Type 0} (o : Outside W) (tables : W → Tables) : Type 1 where
  pub carried :
      {A : Type 0} (s : Statement A) (w : W)
      → ((o.run s w).0 ≡ (s (tables w)).0) × (tables (o.run s w).1 ≡ (s (tables w)).1)

-- What follows a statement, from its result.
pub run-result :
    {W : Type 0} (o : Outside W) (tables : W → Tables)
    → IsReliable o tables
    → {A : Type 0} (Q : Result A × W → Type 0) (s : Statement A) (w : W) (a : Result A)
    → (s (tables w)).0 ≡ a
    → ((w' : W) → tables w' ≡ (s (tables w)).1 → Q (a, w'))
    → Q (o.run s w)
run-result {W} o tables reliable {A} Q s w a found next = ran (o.run s w) (reliable.carried s w)
  where
    ran : (x : Result A × W) → (x.0 ≡ (s (tables w)).0) × (tables x.1 ≡ (s (tables w)).1) → Q x
    ran (r, w') (at_r, same) = subst (λ y. Q (y, w')) (sym (at_r ∙ found)) (next w' same)

pub run-done :
    {W : Type 0} (o : Outside W) (tables : W → Tables)
    → IsReliable o tables
    → {A : Type 0} (Q : Result A × W → Type 0) (s : Statement A) (w : W) (a : A)
    → (s (tables w)).0 ≡ ok a
    → ((w' : W) → tables w' ≡ (s (tables w)).1 → Q (ok a, w'))
    → Q (o.run s w)
run-done o tables reliable Q s w a found next = run-result o tables reliable Q s w (ok a) found next

pub take_else :
    {A : Type 0} (Q : A → Type 0) (t : Bool) (x y : A) → t ≡ false → Q y → Q (if t then x else y)
take_else Q true x y e h = absurd (cc)
take_else Q false x y e h = h

-- ===== src/Accounts/Keys.antt =====
-- The ids and the emails of the users, and how the statements change them.
use dcrstakepool.Shared.{
  ℕ, ◌≡◌, refl, sym, ap, ◌∙◌, String, nat_beq, Bool, true, false, List, [], ◌∷◌, ◌++◌, ok,
  if◌then◌else◌, map, All, All-map,
}
use dcrstakepool.Accounts.{User}
use dcrstakepool.Accounts.Queries.{rows_where, change_where, only_row}

abbrev pub Key : Type 0
Key = ℕ × String

abbrev pub key_of : User → Key
key_of user = (user.id, user.email)

abbrev pub Distinct : (Key → Key → Bool) → List Key → Type 0
Distinct same [] = Unit
Distinct same (k ∷ ks) = All (λ l. same k l ≡ false) ks × Distinct same ks

abbrev pub same_id : Key → Key → Bool
same_id k l = nat_beq k.0 l.0

pub All-snoc : (P : Key → Type 0) (ks : List Key) (k : Key) → All P ks → P k → All P (ks ++ k ∷ [])
All-snoc P [] k h last = (last, tt)
All-snoc P (l ∷ ks) k h last = (h.0, All-snoc P ks k h.1 last)

pub Distinct-snoc :
    (same : Key → Key → Bool) (ks : List Key) (k : Key)
    → Distinct same ks
    → All (λ l. same l k ≡ false) ks
    → Distinct same (ks ++ k ∷ [])
Distinct-snoc same [] k d fresh = (tt, tt)
Distinct-snoc same (l ∷ ks) k d fresh =
    (All-snoc (λ m. same l m ≡ false) ks k d.0 fresh.0, Distinct-snoc same ks k d.1 fresh.1)

pub map-snoc :
    (us : List User) (u : User) → map key_of (us ++ u ∷ []) ≡ map key_of us ++ key_of u ∷ []
map-snoc [] u = refl
map-snoc (v ∷ us) u = ap (λ l. key_of v ∷ l) (map-snoc us u)

-- Rows that are changed without a change of their keys.
pub change_where-keys :
    (p : User → Bool) (f : User → User) (us : List User)
    → All (λ v. p v ≡ true → key_of (f v) ≡ key_of v) us
    → map key_of (change_where p f us) ≡ map key_of us
unfolding change_where
change_where-keys p f [] h = refl
change_where-keys p f (v ∷ us) h =
    ap (λ l. l ∷ map key_of (change_where p f us)) (changed (p v) h.0)
    ∙ ap (λ l. key_of v ∷ l) (change_where-keys p f us h.1)
  where
    changed :
        (t : Bool) → (t ≡ true → key_of (f v) ≡ key_of v) → key_of (if t then f v else v) ≡ key_of v
    changed true kept = kept refl
    changed false kept = refl

rows_where-none :
    {A : Type 0} (p : A → Bool) (us : List A) → rows_where p us ≡ [] → All (λ v. p v ≡ false) us
unfolding rows_where
rows_where-none p [] empty = tt
rows_where-none {A} p (u ∷ us) empty = passed (p u) refl empty (rows_where-none p us)
  where
    passed :
        (t : Bool)
        → p u ≡ t
        → (if t then u ∷ rows_where p us else rows_where p us) ≡ []
        → (rows_where p us ≡ [] → All (λ v. p v ≡ false) us)
        → (p u ≡ false) × All (λ v. p v ≡ false) us
    passed true at_u empty later = absurd (cc)
    passed false at_u empty later = (at_u, later empty)

-- The row that SelectOne finds is the only one that its condition holds of.
pub only_row-Unique :
    {A : Type 0} (p : A → Bool) (us : List A) (a : A)
    → only_row (rows_where p us) ≡ ok a
    → (p a ≡ true) × All (λ v. p v ≡ true → v ≡ a) us
unfolding rows_where
only_row-Unique p [] a e = absurd (cc)
only_row-Unique {A} p (v ∷ us) a e =
    looked (p v) refl (rows_where p us) refl e (only_row-Unique p us a)
  where
    looked :
        (t : Bool)
        → p v ≡ t
        → (rows : List A) → rows_where p us ≡ rows
        → only_row (if t then v ∷ rows else rows) ≡ ok a
        → (only_row (rows_where p us) ≡ ok a → (p a ≡ true) × All (λ v. p v ≡ true → v ≡ a) us)
        → (p a ≡ true) × ((p v ≡ true → v ≡ a) × All (λ v. p v ≡ true → v ≡ a) us)
    looked true at_v [] at_rows found later =
        let same : v ≡ a = cc in
        (
          ap p (sym same) ∙ at_v,
          (
            (λ _. same),
            All-map us (λ u none_is at_true. absurd (cc)) (rows_where-none p us at_rows),
          ),
        )
    looked true at_v (u ∷ rows) at_rows found later = absurd (cc)
    looked false at_v rows at_rows found later =
        let (at_a, rest) = later (ap only_row at_rows ∙ found) in
        (at_a, ((λ at_true. absurd (cc)), rest))

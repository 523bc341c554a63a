-- ===== src/Shared/Map.antt =====
-- Go maps as association lists. A `range` over a map visits it in the order of the list: a theorem
-- about every list is a theorem about every order that the run-time may choose.
use mathlib.Core.Path.{◌≡◌, refl}
use mathlib.Core.Bool.{Bool, true, false}
use mathlib.Core.Option.{Option, none, some}
use mathlib.Core.List.{List, [], ◌∷◌}
use native.Mathlib.Omega.{arith}
use dcrstakepool.Shared.Tests.{Comparable, ◌==◌, if◌then◌else◌}
use dcrstakepool.Shared.Lists.{contains}

abbrev pub Map {ℓ κ} : Type ℓ → Type κ → Type (ℓ ⊔ κ)
Map K V = List (K × V)

-- The first value, or else the second.
abbrev pub or_else {ℓ} : {V : Type ℓ} → Option V → Option V → Option V
or_else none o = o
or_else (some v) o = some v

module _ {ℓ κ} {K : Type ℓ} {V : Type κ} ⦃e : Comparable K⦄ where
  -- v, ok := m[k]
  unfoldable pub get : K → Map K V → Option V
  get k [] = none
  get k ((j, v) ∷ m) = if j == k then some v else get k m

  -- m[k] = v
  unfoldable pub put : K → V → Map K V → Map K V
  put k v [] = (k, v) ∷ []
  put k v ((j, w) ∷ m) = if j == k then (k, v) ∷ m else (j, w) ∷ put k v m

  -- delete(m, k)
  unfoldable pub delete : K → Map K V → Map K V
  delete k [] = []
  delete k ((j, v) ∷ m) = let rest = delete k m in if j == k then rest else (j, v) ∷ rest

  -- _, ok := m[k]
  unfoldable pub has : K → Map K V → Bool
  unfolding get
  has k m = elim (get k m) [ none ↦ false | some _ ↦ true ]

  -- Puts every pair of the first map into the second, in the order of the first.
  unfoldable pub put_all : Map K V → Map K V → Map K V
  put_all [] m = m
  put_all ((k, v) ∷ new) m = put_all new (put k v m)

  unfoldable pub delete_all : List K → Map K V → Map K V
  delete_all [] m = m
  delete_all (k ∷ ks) m = delete_all ks (delete k m)

  -- No key is listed twice: what every Go map satisfies.
  abbrev pub IsMap : Map K V → Type κ
  IsMap [] = Unit
  IsMap ((k, v) ∷ m) = (get k m ≡ none) × IsMap m

  pub get-put :
      (k j : K) (v : V) (m : Map K V) → get j (put k v m) ≡ (if k == j then some v else get j m)
  unfolding get put
  get-put k j v [] = refl
  get-put k j v ((i, w) ∷ m) =
      ground (arith, e.equal_iff k j, e.equal_iff i k, e.equal_iff i j, get-put k j v m)

  pub get-delete : (k j : K) (m : Map K V) → get j (delete k m) ≡ (if k == j then none else get j m)
  unfolding get delete
  get-delete k j [] = ground arith
  get-delete k j ((i, w) ∷ m) =
      ground (arith, e.equal_iff k j, e.equal_iff i k, e.equal_iff i j, get-delete k j m)

  pub get-put_all :
      (j : K) (new m : Map K V) → IsMap new → get j (put_all new m) ≡ or_else (get j new) (get j m)
  unfolding get put_all
  get-put_all j [] m h = refl
  get-put_all j ((k, v) ∷ new) m h =
      ground (arith, e.equal_iff k j, get-put_all j new (put k v m) h.1, get-put k j v m)

  -- Storing a map that was built from the empty map.
  pub get-put_all_built :
      (j : K) (new m : Map K V) (part : Option V)
      → IsMap new
      → get j new ≡ or_else part (get j [])
      → get j (put_all new m) ≡ or_else part (get j m)
  unfolding get
  get-put_all_built j new m part h e = ground (arith, get-put_all j new m h)

  pub get-delete_all :
      (j : K) (ks : List K) (m : Map K V)
      → get j (delete_all ks m) ≡ (if contains j ks then none else get j m)
  unfolding delete_all
  get-delete_all j [] m = refl
  get-delete_all j (k ∷ ks) m =
      ground (
        arith,
        e.equal_iff k j,
        e.equal_iff j k,
        get-delete_all j ks (delete k m),
        get-delete k j m,
      )

  pub put-IsMap : (k : K) (v : V) (m : Map K V) → IsMap m → IsMap (put k v m)
  unfolding put get
  put-IsMap k v [] h = (refl, tt)
  put-IsMap k v ((i, w) ∷ m) h =
      ground (arith, put-IsMap k v m h.1, get-put k i v m, e.equal_iff i k, e.equal_iff k i)

  pub delete-IsMap : (k : K) (m : Map K V) → IsMap m → IsMap (delete k m)
  unfolding delete get
  delete-IsMap k [] h = tt
  delete-IsMap k ((i, w) ∷ m) h = ground (arith, delete-IsMap k m h.1, get-delete k i m)

  pub put_all-IsMap : (new m : Map K V) → IsMap m → IsMap (put_all new m)
  unfolding put_all
  put_all-IsMap [] m h = h
  put_all-IsMap ((k, v) ∷ new) m h = put_all-IsMap new (put k v m) (put-IsMap k v m h)

  pub delete_all-IsMap : (ks : List K) (m : Map K V) → IsMap m → IsMap (delete_all ks m)
  unfolding delete_all
  delete_all-IsMap [] m h = h
  delete_all-IsMap (k ∷ ks) m h = delete_all-IsMap ks (delete k m) (delete-IsMap k m h)

pub ruleset map_laws = (get-put, get-delete)

-- ===== src/Stakepoold/FeeAddresses/Derivation.antt =====
-- When the loop of deriveChildAddresses ends, and with which addresses.
use dcrstakepool.Shared.{
  ℕ, zero, suc, ◌+◌, ◌^◌, ◌≤◌, ◌<◌, ◌≡◌, refl, sym, ap, ◌∙◌, String, text_key, Bool, true, false,
  Option, none, some, List, [], ◌∷◌, ◌++◌, Result, ok, err, ltb, arith,
}
use mathlib.Core.List.{append_assoc, append-nil}
use dcrstakepool.Stakepoold.FeeAddresses.{
  Child, derived, invalid_child, failed, Keys, uint32_add, derive_from, derive_child_addresses,
}

ltb-of-lt : (a b : ℕ) → a < b → ltb a b ≡ true
ltb-of-lt a b h = ground arith

ltb-of-le : (a b : ℕ) → b ≤ a → ltb a b ≡ false
ltb-of-le a b h = ground arith

module _ {K : Type 0} (keys : Keys K) (key : K) (start count : ℕ) where
  -- The address of one index; an invalid child has none.
  abbrev pub address_of : Child K → Option (Result String)
  address_of invalid_child = none
  address_of (failed e) = some (err e)
  address_of (derived child) = some (keys.address_from child)

  abbrev pub address_at : ℕ → Option (Result String)
  address_at i = address_of (keys.child key (uint32_add start i))

  abbrev pub cons_address : Option (Result String) → Result (List String) → Result (List String)
  cons_address none rest = rest
  cons_address (some (err e)) rest = err e
  cons_address (some (ok a)) (err e) = err e
  cons_address (some (ok a)) (ok as') = ok (a ∷ as')

  -- The addresses of `n` indices from `i` on, or the first error.
  abbrev pub addresses_from : ℕ → ℕ → Result (List String)
  addresses_from zero i = ok []
  addresses_from (suc n) i = cons_address (address_at i) (addresses_from n (suc i))

  -- `before` with what follows.
  abbrev pub after : List String → Result (List String) → Result (List String)
  after before (err e) = err e
  after before (ok as') = ok (before ++ as')

  abbrev pub NoInvalid : ℕ → ℕ → Type 0
  NoInvalid zero i = Unit
  NoInvalid (suc n) i = ((r : Result String) × (address_at i ≡ some r)) × NoInvalid n (suc i)

  -- One round at an index below the end.
  abbrev step_address : ℕ → ℕ → List String → Result String → Option (Result (List String))
  step_address fuel i before (err e) = some (err e)
  step_address fuel i before (ok addr) =
      derive_from keys key start count fuel (uint32_add i 1) (before ++ addr ∷ [])

  abbrev step_child : ℕ → ℕ → List String → Child K → Option (Result (List String))
  step_child fuel i before invalid_child = derive_from keys key start count fuel i before
  step_child fuel i before (failed e) = some (err e)
  step_child fuel i before (derived child) = step_address fuel i before (keys.address_from child)

  step_lem :
      (fuel i : ℕ) (before : List String)
      → i < count
      → derive_from keys key start count (suc fuel) i before
        ≡ step_child fuel i before (keys.child key (uint32_add start i))
  unfolding derive_from
  step_lem fuel i before below = going (ltb i count) (ltb-of-lt i count below)
    where
      same_address :
          (r : Result String)
          → (elim r [
            | err e ↦ some (err e)
            | ok addr ↦ derive_from keys key start count fuel (uint32_add i 1) (before ++ addr ∷ [])
          ])
            ≡ step_address fuel i before r
      same_address (err e) = refl
      same_address (ok a) = refl

      same :
          (c : Child K)
          → (elim c [
            | invalid_child ↦ derive_from keys key start count fuel i before
            | failed e ↦ some (err e)
            | derived child ↦ elim (keys.address_from child) [
              | err e ↦ some (err e)
              | ok addr ↦
                  derive_from keys key start count fuel (uint32_add i 1) (before ++ addr ∷ [])
            ]
          ])
            ≡ step_child fuel i before c
      same invalid_child = refl
      same (failed e) = refl
      same (derived child) = same_address (keys.address_from child)

      going :
          (t : Bool)
          → t ≡ true
          → (elim t [
            | false ↦ some (ok before)
            | true ↦ elim (keys.child key (uint32_add start i)) [
              | invalid_child ↦ derive_from keys key start count fuel i before
              | failed e ↦ some (err e)
              | derived child ↦ elim (keys.address_from child) [
                | err e ↦ some (err e)
                | ok addr ↦
                    derive_from keys key start count fuel (uint32_add i 1) (before ++ addr ∷ [])
              ]
            ]
          ])
            ≡ step_child fuel i before (keys.child key (uint32_add start i))
      going false e = absurd (cc)
      going true e = same (keys.child key (uint32_add start i))

  after-cons :
      (before : List String) (a : String) (rest : Result (List String))
      → after (before ++ a ∷ []) rest ≡ after before (cons_address (some (ok a)) rest)
  after-cons before a (err e) = refl
  after-cons before a (ok as') = ap ok (append_assoc before (a ∷ []) as')

  step_child-after :
      (fuel i : ℕ) (before : List String) (c : Child K) (rest : Result (List String))
      → ((r : Result String) × (address_of c ≡ some r))
      → ((b : List String)
          → derive_from keys key start count fuel (uint32_add i 1) b ≡ some (after b rest))
      → step_child fuel i before c ≡ some (after before (cons_address (address_of c) rest))
  step_child-after fuel i before invalid_child rest (r, none_at) later =
      let clash : none ≡ some r = none_at in absurd (cc)
  step_child-after fuel i before (failed e) rest valid later = refl
  step_child-after fuel i before (derived child) rest valid later =
      answered (keys.address_from child)
    where
      answered :
          (r : Result String)
          → step_address fuel i before r ≡ some (after before (cons_address (some r) rest))
      answered (err e) = refl
      answered (ok a) = later (before ++ a ∷ []) ∙ ap some (after-cons before a rest)

  derive_from-end :
      (fuel i : ℕ) (before : List String)
      → count ≤ i
      → derive_from keys key start count (suc fuel) i before ≡ some (ok before)
  unfolding derive_from
  derive_from-end fuel i before reached = ended _ (ltb i count) (ltb-of-le i count reached)
    where
      ended :
          (more : Option (Result (List String))) (t : Bool)
          → t ≡ false
          → (elim t [ false ↦ some (ok before) | true ↦ more ]) ≡ some (ok before)
      ended more true e = absurd (cc)
      ended more false e = refl

  derive_from-addresses :
      (n i fuel : ℕ) (before : List String)
      → i + n ≡ count
      → count < 2 ^ 32
      → n < fuel
      → NoInvalid n i
      → derive_from keys key start count fuel i before ≡ some (after before (addresses_from n i))
  unfolding derive_from
  derive_from-addresses n i zero before e small enough valid = absurd (omega arith)
  derive_from-addresses zero i (suc fuel) before e small enough valid =
      derive_from-end fuel i before (omega arith) ∙ ap (λ l. some (ok l)) (sym (append-nil before))
  derive_from-addresses (suc n) i (suc fuel) before e small enough valid =
      step_lem fuel i before (omega arith)
      ∙ step_child-after fuel i before (keys.child key (uint32_add start i))
          (addresses_from n (suc i)) valid.0
          (λ b.
            ap (λ k. derive_from keys key start count fuel k b) (next i (omega arith))
            ∙ derive_from-addresses n (suc i) fuel b (omega arith) small (omega arith) valid.1)
    where
      next : (i : ℕ) → i + 1 < 2 ^ 32 → uint32_add i 1 ≡ suc i
      next i h = omega arith

  -- If no index below `count` has an invalid child, the loop ends after a round for each index and the
  -- test, with the address of every index in order, or with the first error.
  pub derive_child_addresses-total :
      (fuel : ℕ)
      → count < 2 ^ 32
      → count < fuel
      → NoInvalid count 0
      → derive_child_addresses keys fuel key start count ≡ some (addresses_from count 0)
  unfolding derive_child_addresses
  derive_child_addresses-total fuel small enough valid =
      derive_from-addresses count 0 fuel [] (omega arith) small enough valid
      ∙ ap some (after_nil (addresses_from count 0))
    where
      after_nil : (r : Result (List String)) → after [] r ≡ r
      after_nil (err e) = refl
      after_nil (ok as') = refl

  derive_from-stuck :
      (fuel i : ℕ) (before : List String)
      → i < count
      → keys.child key (uint32_add start i) ≡ invalid_child
      → derive_from keys key start count fuel i before ≡ none
  derive_from-stuck zero i before below invalid = unfold derive_from in refl
  derive_from-stuck (suc fuel) i before below invalid =
      step_lem fuel i before below
      ∙ ap (step_child fuel i before) invalid
      ∙ derive_from-stuck fuel i before below invalid

  -- All of the first indices have an address.
  abbrev pub AllFine : ℕ → ℕ → Type 0
  AllFine zero i = Unit
  AllFine (suc n) i = ((a : String) × (address_at i ≡ some (ok a))) × AllFine n (suc i)

  derive_from-diverges :
      (n i fuel : ℕ) (before : List String)
      → i + n < count
      → count < 2 ^ 32
      → AllFine n i
      → keys.child key (uint32_add start (i + n)) ≡ invalid_child
      → derive_from keys key start count fuel i before ≡ none
  derive_from-diverges zero i fuel before below small fine invalid =
      derive_from-stuck fuel i before (omega arith)
        (ap (λ k. keys.child key (uint32_add start k)) (plus_zero i) ∙ invalid)
    where
      plus_zero : (i : ℕ) → i ≡ i + 0
      plus_zero i = omega arith
  derive_from-diverges (suc n) i zero before below small fine invalid = unfold derive_from in refl
  derive_from-diverges (suc n) i (suc fuel) before below small ((a, at_i), fine) invalid =
      step_lem fuel i before (omega arith)
      ∙ diverged (keys.child key (uint32_add start i)) at_i (λ b.
        ap (λ k. derive_from keys key start count fuel k b) (next i (omega arith))
        ∙ derive_from-diverges n (suc i) fuel b (omega arith) small fine
            (ap (λ k. keys.child key (uint32_add start k)) (shift i n) ∙ invalid))
    where
      next : (i : ℕ) → i + 1 < 2 ^ 32 → uint32_add i 1 ≡ suc i
      next i h = omega arith

      shift : (i n : ℕ) → suc i + n ≡ i + suc n
      shift i n = omega arith

      answered :
          (r : Result String)
          → some r ≡ some (ok a)
          → ((b : List String) → derive_from keys key start count fuel (uint32_add i 1) b ≡ none)
          → step_address fuel i before r ≡ none
      answered (err e) at_r later = let clash : some (err e) ≡ some (ok a) = at_r in absurd (cc)
      answered (ok a') at_r later = later (before ++ a' ∷ [])

      diverged :
          (c : Child K)
          → address_of c ≡ some (ok a)
          → ((b : List String) → derive_from keys key start count fuel (uint32_add i 1) b ≡ none)
          → step_child fuel i before c ≡ none
      diverged invalid_child at_c later = let clash : none ≡ some (ok a) = at_c in absurd (cc)
      diverged (failed e) at_c later = let clash : some (err e) ≡ some (ok a) = at_c in absurd (cc)
      diverged (derived child) at_c later = answered (keys.address_from child) at_c later

  -- If the first index that has no address has an invalid child, the loop never ends: no number of rounds
  -- is enough.
  pub derive_child_addresses_diverges :
      (n fuel : ℕ)
      → n < count
      → count < 2 ^ 32
      → AllFine n 0
      → keys.child key (uint32_add start n) ≡ invalid_child
      → derive_child_addresses keys fuel key start count ≡ none
  unfolding derive_child_addresses
  derive_child_addresses_diverges n fuel below small fine invalid =
      derive_from-diverges n 0 fuel [] (omega arith) small fine
        (ap (λ k. keys.child key (uint32_add start k)) (zero_plus n) ∙ invalid)
    where
      zero_plus : (n : ℕ) → 0 + n ≡ n
      zero_plus n = omega arith

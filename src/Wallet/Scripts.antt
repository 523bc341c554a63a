-- ===== src/Wallet/Scripts.antt =====
-- ImportMissingScripts of backend/stakepoold/stakepool/stakepool.go.
use dcrstakepool.Shared.{
  ℕ, ◌≡◌, ◌≢◌, refl, Bool, true, false, none, some, List, [], ◌∷◌, ok, err, inl, inr, Result-cases,
}
use dcrstakepool.Stakepoold.{Bytes}
use dcrstakepool.Wallet.{Connections, import_missing_scripts}

module _ {W Info UserInfo : Type 0} (k : Connections W Info UserInfo) where
  -- The wallet has imported the script.
  abbrev pub Imported : Bool → ℕ → Bytes → Type 0
  Imported rescan height s = (v : W) × ((k.import_script_rescan_from s rescan height v).0 ≡ ok tt)

  -- All scripts but the last were imported without a rescan, the last with one.
  abbrev pub ImportedAll : ℕ → List Bytes → Type 0
  ImportedAll height [] = ⊥
  ImportedAll height (s ∷ []) = Imported true height s
  ImportedAll height (s ∷ t ∷ scripts) = Imported false 0 s × ImportedAll height (t ∷ scripts)

  -- A list of missing scripts that is imported without an error or a panic has been imported in full,
  -- all but the last without a rescan and the last with one from the given height.
  pub import_missing_scripts-ImportedAll :
      (scripts : List Bytes) (height : ℕ) (w : W)
      → (import_missing_scripts k scripts height w).0 ≡ ok (some tt)
      → ImportedAll height scripts
  unfolding import_missing_scripts
  import_missing_scripts-ImportedAll [] height w h =
      let clash : ok none ≡ ok (some tt) = h in absurd (cc)
  import_missing_scripts-ImportedAll (s ∷ []) height w h =
      elim (Result-cases (k.import_script_rescan_from s true height w).0) [
        | inl (a, e) ↦ (w, e)
        | inr (m, e) ↦ let clash : err m ≡ ok (some tt) = rw e at h in absurd (cc)
      ]
  import_missing_scripts-ImportedAll (s ∷ t ∷ scripts) height w h =
      elim (Result-cases (k.import_script_rescan_from s false 0 w).0) [
        | inl (a, e) ↦ (
          (w, e),
          import_missing_scripts-ImportedAll (t ∷ scripts) height
              (k.import_script_rescan_from s false 0 w).1 (rw (e, import_missing_scripts) at h),
        )
        | inr (m, e) ↦
            let clash : err m ≡ ok (some tt) = rw (e, import_missing_scripts) at h in absurd (cc)
      ]

  -- The handler panics only on an empty list.
  import_missing_scripts_panics :
      (scripts : List Bytes) (height : ℕ) (w : W)
      → (import_missing_scripts k scripts height w).0 ≡ ok none
      → scripts ≡ []
  unfolding import_missing_scripts
  import_missing_scripts_panics [] height w h = refl
  import_missing_scripts_panics (s ∷ []) height w h =
      elim (Result-cases (k.import_script_rescan_from s true height w).0) [
        | inl (a, e) ↦ let clash : ok (some tt) ≡ ok none = rw e at h in absurd (cc)
        | inr (m, e) ↦ let clash : err m ≡ ok none = rw e at h in absurd (cc)
      ]
  import_missing_scripts_panics (s ∷ t ∷ scripts) height w h =
      elim (Result-cases (k.import_script_rescan_from s false 0 w).0) [
        | inl (a, e) ↦
            let never : t ∷ scripts ≡ [] =
              import_missing_scripts_panics (t ∷ scripts) height
                (k.import_script_rescan_from s false 0 w).1 (rw (e, import_missing_scripts) at h) in
            absurd (cc)
        | inr (m, e) ↦
            let clash : err m ≡ ok none = rw (e, import_missing_scripts) at h in absurd (cc)
      ]

  -- With a script to import, the handler does not panic.
  pub import_missing_scripts_safe :
      (scripts : List Bytes) (height : ℕ) (w : W)
      → scripts ≢ []
      → (import_missing_scripts k scripts height w).0 ≢ ok none
  import_missing_scripts_safe scripts height w some_left panics =
      some_left (import_missing_scripts_panics scripts height w panics)

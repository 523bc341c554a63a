-- ===== src/Stakepoold/SaveFiles/Tests.antt =====
-- The theorems of Stakepoold.SaveFiles for a directory with two save files and another file.
use dcrstakepool.Shared.{
  ◌≡◌, refl, String, text_key, true, false, if◌then◌else◌, All, ◌==◌, not, Bool, List, [], ◌∷◌,
}
use dcrstakepool.Stakepoold.SaveFiles.{files_to_prune, last_seen, prune_data}
use dcrstakepool.Stakepoold.SaveFiles.Kept.{Different, prune_data-last_seen}
use dcrstakepool.Stakepoold.SaveFiles.Count.{prune_data-drop}

abbrev dir : List String
dir =
    "a00" ∷ "a01" ∷ "a02" ∷ "a03" ∷ "a04" ∷ "a05" ∷ "b00" ∷ "a06" ∷ "a07" ∷ "a08" ∷ "a09" ∷ "a10"
    ∷ "a11" ∷ []

abbrev not_b : String → Bool
not_b f = not (f == "b00")

-- A test for names that are not there twice.
abbrev absent : String → List String → Bool
absent f [] = true
absent f (g ∷ files) = if g == f then false else absent f files

abbrev all_different : List String → Bool
all_different [] = true
all_different (f ∷ files) = if absent f files then all_different files else false

absent-All :
    (f : String) (files : List String) → absent f files ≡ true → All (λ g. (g == f) ≡ false) files
absent-All f [] h = tt
absent-All f (g ∷ files) h = met (g == f) refl h (absent-All f files)
  where
    met :
        (t : Bool)
        → (g == f) ≡ t
        → (if t then false else absent f files) ≡ true
        → (absent f files ≡ true → All (λ g. (g == f) ≡ false) files)
        → ((g == f) ≡ false) × All (λ g. (g == f) ≡ false) files
    met true same h later = absurd (cc)
    met false same h later = (same, later h)

all_different-Different : (files : List String) → all_different files ≡ true → Different files
all_different-Different [] h = tt
all_different-Different (f ∷ files) h = met (absent f files) refl h (all_different-Different files)
  where
    met :
        (t : Bool)
        → absent f files ≡ t
        → (if t then all_different files else false) ≡ true
        → (all_different files ≡ true → Different files)
        → All (λ g. (g == f) ≡ false) files × Different files
    met true same h later = (absent-All f files same, later h)
    met false same h later = absurd (cc)

names-Different : Different (files_to_prune not_b dir)
unfolding files_to_prune
names-Different = all_different-Different (files_to_prune not_b dir) refl

prune_data-last_seen_example :
    last_seen not_b "" (prune_data (λ f. not (f == "a01")) not_b dir) ≡ "a11"
unfolding last_seen
prune_data-last_seen_example =
    prune_data-last_seen (λ f. not (f == "a01")) not_b dir names-Different

prune_data-drop_example :
    files_to_prune not_b (prune_data (λ f. true) not_b dir)
    ≡ "a02" ∷ "a03" ∷ "a04" ∷ "a05" ∷ "a06" ∷ "a07" ∷ "a08" ∷ "a09" ∷ "a10" ∷ "a11" ∷ []
unfolding files_to_prune
prune_data-drop_example = prune_data-drop not_b dir names-Different

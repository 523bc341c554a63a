-- ===== src/Stakepoold/SaveFiles/Kept.antt =====
-- The file that loadData opens after pruneData.
use dcrstakepool.Shared.{
  ℕ, zero, suc, ◌-◌, ◌<◌, ◌≡◌, refl, sym, ap, subst, ◌∙◌, String, text_key, ◌==◌, ltb, Bool, true,
  false, List, [], ◌∷◌, if◌then◌else◌, length, All, arith,
}
use dcrstakepool.Stakepoold.SaveFiles.{
  save_files_to_keep, files_to_prune, last_seen, remove_file, remove_files, prune_data,
}

-- The last of the names, `seen` if there is none.
abbrev last_of : String → List String → String
last_of seen [] = seen
last_of seen (f ∷ files) = last_of f files

-- No name is there twice.
abbrev pub Different : List String → Type 0
Different [] = Unit
Different (f ∷ files) = All (λ g. (g == f) ≡ false) files × Different files

module _ (p : String → Bool) where
  last_seen-last_of :
      (seen : String) (dir : List String)
      → last_seen p seen dir ≡ last_of seen (files_to_prune p dir)
  unfolding last_seen files_to_prune
  last_seen-last_of seen [] = refl
  last_seen-last_of seen (f ∷ dir) = last_seen-last_of (if p f then f else seen) dir ∙ step (p f)
    where
      step :
          (t : Bool)
          → last_of (if t then f else seen) (files_to_prune p dir)
            ≡ last_of seen (if t then f ∷ files_to_prune p dir else files_to_prune p dir)
      step true = refl
      step false = refl

  -- The names of the kind after one removal.
  pub files_to_prune-remove :
      (f : String) (dir : List String)
      → files_to_prune p (remove_file f dir) ≡ remove_file f (files_to_prune p dir)
  unfolding files_to_prune remove_file
  files_to_prune-remove f [] = refl
  files_to_prune-remove f (g ∷ dir) = met (g == f) refl (p g) refl (files_to_prune-remove f dir)
    where
      met :
          (t : Bool)
          → (g == f) ≡ t
          → (u : Bool) → p g ≡ u
          → files_to_prune p (remove_file f dir) ≡ remove_file f (files_to_prune p dir)
          → files_to_prune p (if t then remove_file f dir else g ∷ remove_file f dir)
            ≡ remove_file f (if u then g ∷ files_to_prune p dir else files_to_prune p dir)
      met true same true at_g later =
          later
          ∙ sym (
              ap
                (λ t.
                  if t
                  then remove_file f (files_to_prune p dir)
                  else g ∷ remove_file f (files_to_prune p dir))
                same)
      met true same false at_g later = later
      met false same true at_g later =
          ap
            (λ u.
              if u
              then g ∷ files_to_prune p (remove_file f dir)
              else files_to_prune p (remove_file f dir))
            at_g
          ∙ ap (λ l. g ∷ l) later
          ∙ sym (
              ap
                (λ t.
                  if t
                  then remove_file f (files_to_prune p dir)
                  else g ∷ remove_file f (files_to_prune p dir))
                same)
      met false same false at_g later =
          ap
            (λ u.
              if u
              then g ∷ files_to_prune p (remove_file f dir)
              else files_to_prune p (remove_file f dir))
            at_g
          ∙ later

-- A removal of another file than the last keeps the last.
last_of-remove :
    (f seen : String) (files : List String)
    → (last_of seen files == f) ≡ false
    → last_of seen (remove_file f files) ≡ last_of seen files
unfolding remove_file
last_of-remove f seen [] differs = refl
last_of-remove f seen (g ∷ files) differs =
    met (g == f) refl files differs (λ s h. last_of-remove f s files h)
  where
    met :
        (t : Bool)
        → (g == f) ≡ t
        → (files : List String) → (last_of g files == f) ≡ false
        → ((s : String)
            → (last_of s files == f) ≡ false
            → last_of s (remove_file f files) ≡ last_of s files)
        → last_of seen (if t then remove_file f files else g ∷ remove_file f files)
          ≡ last_of g files
    met true same [] differs later = absurd (cc)
    met true same (h ∷ files) differs later = later seen differs
    met false same files differs later = later g differs

-- The name is none of the first `n`.
abbrev NotAmong : ℕ → List String → String → Type 0
NotAmong zero files last = Unit
NotAmong (suc n) [] last = Unit
NotAmong (suc n) (f ∷ files) last = ((last == f) ≡ false) × NotAmong n files last

last_of-All :
    (P : String → Type 0) (seen g : String) (files : List String)
    → All P (g ∷ files)
    → P (last_of seen (g ∷ files))
last_of-All P seen g [] all = all.0
last_of-All P seen g (h ∷ files) all = last_of-All P g h files all.1

-- Fewer than all of the names leave out the last.
last_of-NotAmong :
    (n : ℕ) (files : List String) (seen : String)
    → Different files
    → n < length files
    → NotAmong n files (last_of seen files)
last_of-NotAmong zero files seen d below = tt
last_of-NotAmong (suc n) [] seen d below = tt
last_of-NotAmong (suc n) (f ∷ []) seen d below = absurd (omega arith)
last_of-NotAmong (suc n) (f ∷ g ∷ files) seen d below = (
  last_of-All (λ h. (h == f) ≡ false) f g files d.0,
  last_of-NotAmong n (g ∷ files) f d.1 (omega arith),
)

module _ (removable p : String → Bool) where
  remove_files-last :
      (n : ℕ) (to_prune dir : List String)
      → NotAmong n to_prune (last_of "" (files_to_prune p dir))
      → last_of "" (files_to_prune p (remove_files removable n to_prune dir))
        ≡ last_of "" (files_to_prune p dir)
  unfolding remove_files
  remove_files-last zero to_prune dir h = refl
  remove_files-last (suc n) [] dir h = refl
  remove_files-last (suc n) (f ∷ to_prune) dir h =
      let same = removed (removable f) in
      remove_files-last n to_prune (if removable f then remove_file f dir else dir)
        (subst (λ l. NotAmong n to_prune l) (sym same) h.1)
      ∙ same
    where
      removed :
          (t : Bool)
          → last_of "" (files_to_prune p (if t then remove_file f dir else dir))
            ≡ last_of "" (files_to_prune p dir)
      removed true =
          ap (last_of "") (files_to_prune-remove p f dir)
          ∙ last_of-remove f "" (files_to_prune p dir) h.0
      removed false = refl

  -- If no name is in the directory twice, pruneData keeps the save file that loadData opens, whichever files
  -- can be removed.
  pub prune_data-last_seen :
      (dir : List String)
      → Different (files_to_prune p dir)
      → last_seen p "" (prune_data removable p dir) ≡ last_seen p "" dir
  unfolding prune_data
  prune_data-last_seen dir different =
      last_seen-last_of p "" (prune_data removable p dir)
      ∙ pruned (ltb save_files_to_keep (length (files_to_prune p dir))) refl
      ∙ sym (last_seen-last_of p "" dir)
    where
      pruned :
          (t : Bool)
          → ltb save_files_to_keep (length (files_to_prune p dir)) ≡ t
          → last_of "" (
              files_to_prune p (
                if t
                then remove_files removable
                    (length (files_to_prune p dir) - save_files_to_keep)
                    (files_to_prune p dir)
                    dir
                else dir))
            ≡ last_of "" (files_to_prune p dir)
      pruned true many =
          remove_files-last (length (files_to_prune p dir) - save_files_to_keep)
            (files_to_prune p dir) dir
            (last_of-NotAmong (length (files_to_prune p dir) - save_files_to_keep)
              (files_to_prune p dir) "" different (fewer (length (files_to_prune p dir)) many))
        where
          fewer : (n : ℕ) → ltb 10 n ≡ true → n - 10 < n
          fewer n h = ground arith
      pruned false few = refl

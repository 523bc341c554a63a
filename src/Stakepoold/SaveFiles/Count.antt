-- ===== src/Stakepoold/SaveFiles/Count.antt =====
-- The save files that pruneData leaves.
use dcrstakepool.Shared.{
  ℕ, zero, suc, ◌-◌, ◌≡◌, refl, sym, ap, ◌∙◌, String, text_key, ◌==◌, equal_refl, ltb, Bool, true,
  false, List, [], ◌∷◌, if◌then◌else◌, length, All, arith,
}
use dcrstakepool.Stakepoold.SaveFiles.{
  save_files_to_keep, files_to_prune, remove_file, remove_files, prune_data,
}
use dcrstakepool.Stakepoold.SaveFiles.Kept.{Different, files_to_prune-remove}

-- The names after the first `n`.
abbrev pub drop : ℕ → List String → List String
drop zero files = files
drop (suc n) [] = []
drop (suc n) (f ∷ files) = drop n files

drop-all : (files : List String) → drop 0 files ≡ files
drop-all [] = refl
drop-all (f ∷ files) = refl

remove_file-absent :
    (f : String) (files : List String)
    → All (λ g. (g == f) ≡ false) files
    → remove_file f files ≡ files
unfolding remove_file
remove_file-absent f [] differs = refl
remove_file-absent f (g ∷ files) differs =
    ap (λ t. if t then remove_file f files else g ∷ remove_file f files) differs.0
    ∙ ap (λ l. g ∷ l) (remove_file-absent f files differs.1)

remove_file-head :
    (f : String) (files : List String)
    → All (λ g. (g == f) ≡ false) files
    → remove_file f (f ∷ files) ≡ files
unfolding remove_file
remove_file-head f files differs =
    ap (λ t. if t then remove_file f files else f ∷ remove_file f files) (equal_refl f)
    ∙ remove_file-absent f files differs

module _ (p : String → Bool) where
  remove_files-drop :
      (n : ℕ) (to_prune dir : List String)
      → files_to_prune p dir ≡ to_prune
      → Different to_prune
      → files_to_prune p (remove_files (λ f. true) n to_prune dir) ≡ drop n to_prune
  unfolding remove_files
  remove_files-drop zero to_prune dir e d = e
  remove_files-drop (suc n) [] dir e d = e
  remove_files-drop (suc n) (f ∷ to_prune) dir e d =
      remove_files-drop n to_prune (remove_file f dir)
        (files_to_prune-remove p f dir ∙ ap (remove_file f) e ∙ remove_file-head f to_prune d.0) d.1

  -- If no name is in the directory twice and every file can be removed, pruneData leaves of a kind of save
  -- files the last ten in the order of the directory, or all if there are no more.
  pub prune_data-drop :
      (dir : List String)
      → Different (files_to_prune p dir)
      → files_to_prune p (prune_data (λ f. true) p dir)
        ≡ drop (length (files_to_prune p dir) - save_files_to_keep) (files_to_prune p dir)
  unfolding prune_data
  prune_data-drop dir different =
      pruned (ltb save_files_to_keep (length (files_to_prune p dir))) refl
    where
      pruned :
          (t : Bool)
          → ltb save_files_to_keep (length (files_to_prune p dir)) ≡ t
          → files_to_prune p (
              if t
              then remove_files
                  (λ f. true)
                  (length (files_to_prune p dir) - save_files_to_keep)
                  (files_to_prune p dir)
                  dir
              else dir)
            ≡ drop (length (files_to_prune p dir) - save_files_to_keep) (files_to_prune p dir)
      pruned true many =
          remove_files-drop (length (files_to_prune p dir) - save_files_to_keep)
            (files_to_prune p dir) dir refl different
      pruned false few = sym (
          ap (λ n. drop n (files_to_prune p dir)) (none_over (length (files_to_prune p dir)) few)
          ∙ drop-all (files_to_prune p dir))
        where
          none_over : (n : ℕ) → ltb 10 n ≡ false → n - 10 ≡ 0
          none_over n h = ground arith

-- ===== src/Stakepoold/SaveFiles.antt =====
-- pruneData of backend/stakepoold/server.go and the file that loadData opens, for one kind of data. A
-- directory is the list of its names, in the order of ReadDir.
pub mod Kept
pub mod Count
pub mod Tests
use dcrstakepool.Shared.{
  ℕ, zero, suc, ◌+◌, ◌-◌, String, text_key, ◌==◌, ltb, Bool, true, false, ◌&&◌, Option, none, some,
  List, [], ◌∷◌, if◌then◌else◌, length,
}
use Prim.Native.String.{len, slice}
use text.Mathlib.Text.{starts_with, find?}

abbrev pub save_files_to_keep : ℕ
save_files_to_keep = 10

-- strings.Contains and strings.HasSuffix
abbrev has_text : String → String → Bool
has_text s t = elim (find? s t) [ none ↦ false | some _ ↦ true ]

abbrev ends_with : String → String → Bool
ends_with s t = if ltb (len s) (len t) then false else slice s (len s - len t) (len s) == t

-- The names of the save files of a kind, in lower case, and a version.
unfoldable pub is_save_file : String → String → String → Bool
is_save_file data_kind data_version name =
    starts_with name data_kind && has_text name data_version && ends_with name ".gob"

module _ (p : String → Bool) where
  unfoldable pub files_to_prune : List String → List String
  files_to_prune [] = []
  files_to_prune (f ∷ files) = let rest = files_to_prune files in if p f then f ∷ rest else rest

  -- lastseen, from what was seen so far; "" if there is none
  unfoldable pub last_seen : String → List String → String
  last_seen seen [] = seen
  last_seen seen (f ∷ files) = last_seen (if p f then f else seen) files

-- os.Remove
unfoldable pub remove_file : String → List String → List String
remove_file f [] = []
remove_file f (g ∷ files) = let rest = remove_file f files in if g == f then rest else g ∷ rest

-- The loop over the files to prune up to their count; a file that cannot be removed stays.
unfoldable pub remove_files : (String → Bool) → ℕ → List String → List String → List String
remove_files removable zero to_prune dir = dir
remove_files removable (suc n) [] dir = dir
remove_files removable (suc n) (f ∷ to_prune) dir =
    remove_files removable n to_prune (if removable f then remove_file f dir else dir)

unfoldable pub prune_data : (String → Bool) → (String → Bool) → List String → List String
prune_data removable p dir =
    let to_prune = files_to_prune p dir in
    if ltb save_files_to_keep (length to_prune)
    then remove_files removable (length to_prune - save_files_to_keep) to_prune dir
    else dir

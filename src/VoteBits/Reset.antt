-- ===== src/VoteBits/Reset.antt =====
-- CheckAndResetUserVoteBits of controllers/main.go, over a table whose selections may fail.
use dcrstakepool.Shared.{
  ℕ, zero, suc, ◌+◌, ◌^◌, ◌<◌, number_key, text_key, String, ◌≡◌, ◌≢◌, true, ◌⊎◌, Option, some,
  List, Result, ok, err,
}
use dcrstakepool.Shared.Map.{Map, get}
use dcrstakepool.Rpc.Prefs.{uint16, uint32}
use dcrstakepool.Client.Calls.{Call, ◌>>=◌}
use dcrstakepool.VoteBits.{Vote, is_valid_vote_bits, UserRow, UserTable, check_and_reset_user}

-- The documented behaviour of the statements, where `rows` are the rows of the table: a row is selected
-- by its primary key, a selection changes nothing, and an update that succeeds writes its row.
pub record IsTable {W : Type 0} (t : UserTable W) (rows : W → ℕ → Option UserRow) : Type 0 where
  pub selected :
      (id : ℕ) (w : W) (row : UserRow) → (t.select_one id w).0 ≡ ok row → rows w id ≡ some row
  pub select_keeps : (id : ℕ) (w : W) (i : ℕ) → rows (t.select_one id w).1 i ≡ rows w i
  pub updated :
      (row : UserRow) (w : W)
      → (t.update row w).0 ≡ ok tt
      → rows (t.update row w).1 row.id ≡ some row
  pub update_keeps :
      (row : UserRow) (w : W) (i : ℕ) → i ≢ row.id → rows (t.update row w).1 i ≡ rows w i
  pub primary_key : (w : W) (id : ℕ) (row : UserRow) → rows w id ≡ some row → row.id ≡ id

module _ {W : Type 0} (t : UserTable W) (rows : W → ℕ → Option UserRow)
    (table : IsTable t rows) where
  -- A row that is selected, changed in some field and written back.
  abbrev change : (UserRow → UserRow) → ℕ → Call W (Unit {0})
  change f id = t.select_one id >>= λ user. t.update (f user)

  module _ (deployments : List Vote) (vote_version : ℕ) (is_uint32 : vote_version < 2 ^ 32) where
    -- The preferences of the row are for the current vote version and its agendas.
    abbrev pub Good : UserRow → Type 0
    Good row =
        (uint32 row.vote_bits_version ≡ vote_version)
        × (is_valid_vote_bits deployments (uint16 row.vote_bits) ≡ true)

    -- There is such a row under the id.
    abbrev GoodAt : W → ℕ → Type 0
    GoodAt w id = (r : UserRow) × (rows w id ≡ some r) × Good r

    -- Whatever row there is under the id is such a row, or `P` is the case.
    abbrev FineAt : W → ℕ → Type 0 → Type 0
    FineAt w id P = (r : UserRow) → rows w id ≡ some r → Good r ⊎ P

    -- The state after the first loop has dealt with one id.
    abbrev dealt_with : ℕ → Result UserRow × W → W
    dealt_with userid (err e, w') = w'
    dealt_with userid (ok user, w') =
        (check_and_reset_user t deployments vote_version userid user w').1

    -- The loop over `count` ids from `userid` on came to the id `i`, there was a row under it, and its
    -- selection failed.
    abbrev pub PassedOver : ℕ → ℕ → W → ℕ → Type 0
    PassedOver userid zero w i = ⊥
    PassedOver userid (suc count) w i =
        ((userid ≡ i)
          × ((row : UserRow) × (e : String) × (rows w userid ≡ some row)
              × ((t.select_one userid w).0 ≡ err e)))
        ⊎ PassedOver (1 + userid) count (dealt_with userid (t.select_one userid w)) i

    -- Every user of the map has such preferences, or `P` is the case of the id.
    abbrev pub GoodMap : (ℕ → Type 0) → Map ℕ UserRow → Type 0
    GoodMap P m = (k : ℕ) (r : UserRow) → get k m ≡ some r → Good r ⊎ P k

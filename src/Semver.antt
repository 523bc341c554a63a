-- ===== src/Semver.antt =====
-- semverCompatible of stakepooldclient/semver.go and backend/stakepoold/semver.go, which are the
-- same code.
pub mod Order
pub mod Tests
use dcrstakepool.Shared.{ℕ, Bool, true, false, not, ◌&&◌, ltb, nat_beq, if◌then◌else◌}

pub record Semver : Type 0 where
  pub major : ℕ
  pub minor : ℕ
  pub patch : ℕ

unfoldable pub semver_compatible : Semver → Semver → Bool
semver_compatible required actual =
    if not (nat_beq required.major actual.major)
    then false
    else if ltb actual.minor required.minor
    then false
    else if nat_beq required.minor actual.minor && ltb actual.patch required.patch
    then false
    else true

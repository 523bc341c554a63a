-- ===== src/Semver/Order.antt =====
-- semverCompatible as an order of versions.
use dcrstakepool.Shared.{◌≤◌, ◌<◌, ◌≡◌, ◌⊎◌, ◌↔◌, true, arith}
use dcrstakepool.Semver.{Semver, semver_compatible}

-- `required` is not above `actual`.
abbrev pub Admits : Semver → Semver → Type 0
Admits required actual =
    (required.major ≡ actual.major)
    × ((required.minor < actual.minor)
        ⊎ ((required.minor ≡ actual.minor) × (required.patch ≤ actual.patch)))

-- A version is compatible exactly if it has the required major version and is, by minor and then by
-- patch, no lower than the required one.
pub semver_compatible-Admits :
    (required actual : Semver) → (semver_compatible required actual ≡ true) ↔ Admits required actual
unfolding semver_compatible
semver_compatible-Admits required actual = (λ h. ground arith, λ h. ground arith)

-- What accepts a version also accepts whatever that version would be accepted by.
pub semver_compatible_trans :
    (a b c : Semver)
    → semver_compatible a b ≡ true
    → semver_compatible b c ≡ true
    → semver_compatible a c ≡ true
unfolding semver_compatible
semver_compatible_trans a b c h k = ground arith

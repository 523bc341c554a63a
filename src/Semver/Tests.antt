-- ===== src/Semver/Tests.antt =====
-- The theorems of Semver at concrete versions.
use dcrstakepool.Shared.{◌≡◌, ◌↔◌, true}
use dcrstakepool.Semver.{Semver, semver_compatible}
use dcrstakepool.Semver.Order.{Admits, semver_compatible-Admits}

abbrev required_api : Semver
required_api = record { major = 9; minor = 0; patch = 3 }

abbrev actual_api : Semver
actual_api = record { major = 9; minor = 1; patch = 0 }

semver_compatible-Admits_example :
    (semver_compatible required_api actual_api ≡ true) ↔ Admits required_api actual_api
semver_compatible-Admits_example = semver_compatible-Admits required_api actual_api

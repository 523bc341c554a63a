-- ===== src/Stakepoold/FeeAddresses.antt =====
-- calculateFeeAddresses and deriveChildAddresses of backend/stakepoold/server.go: the addresses to which
-- a ticket may pay the fee of the pool.
pub mod Derivation
mod Tests
use dcrstakepool.Shared.{
  ℕ, zero, suc, ◌+◌, ◌%◌, ◌^◌, String, text_key, Bool, true, false, Option, none, some, List, [],
  ◌∷◌, ◌++◌, Result, ok, err, ltb, if◌then◌else◌,
}
use dcrstakepool.Shared.Map.{Map, put}

-- What ExtendedKey.Child returns: a key, ErrInvalidChild or another error.
pub data Child (K : Type 0) : Type 0 where
  derived : K → Child K
  invalid_child : Child K
  failed : String → Child K

-- hdkeychain with the network's parameters: NewKeyFromString, ExtendedKey.Child, and the text of the
-- address that helpers.DCRUtilAddressFromExtendedKey makes of a key
pub record Keys (K : Type 0) : Type 0 where
  pub new_key_from_string : String → Result K
  pub child : K → ℕ → Child K
  pub address_from : K → Result String

abbrev pub uint32_add : ℕ → ℕ → ℕ
uint32_add a b = (a + b) % 2 ^ 32

abbrev pub num_service_payment_fee_addresses : ℕ
num_service_payment_fee_addresses = 10000

abbrev pub external_branch : ℕ
external_branch = 0

module _ {K : Type 0} (keys : Keys K) where
  -- for i := uint32(0); i < count; with `fuel` rounds at most; `none` if they are not enough. An invalid
  -- child continues with the same `i`.
  unfoldable pub derive_from : K → ℕ → ℕ → ℕ → ℕ → List String → Option (Result (List String))
  derive_from key start count zero i addresses = none
  derive_from key start count (suc fuel) i addresses = elim (ltb i count) [
    | false ↦ some (ok addresses)
    | true ↦ elim (keys.child key (uint32_add start i)) [
      | invalid_child ↦ derive_from key start count fuel i addresses
      | failed e ↦ some (err e)
      | derived child ↦ elim (keys.address_from child) [
        | err e ↦ some (err e)
        | ok addr ↦ derive_from key start count fuel (uint32_add i 1) (addresses ++ addr ∷ [])
      ]
    ]
  ]

  unfoldable pub derive_child_addresses : ℕ → K → ℕ → ℕ → Option (Result (List String))
  derive_child_addresses fuel key start count = derive_from key start count fuel 0 []

  -- addrMap[addrs[i].Address()] = struct{}{}
  unfoldable pub address_set : List String → Map String (Unit {0}) → Map String (Unit {0})
  address_set [] m = m
  address_set (a ∷ addrs) m = address_set addrs (put a tt m)

  abbrev pub branch_key : Child K → Result K
  branch_key (derived k) = ok k
  branch_key invalid_child = err "the extended key at this index is invalid"
  branch_key (failed e) = err e

  set_of : Option (Result (List String)) → Option (Result (Map String (Unit {0})))
  set_of none = none
  set_of (some (err e)) = some (err e)
  set_of (some (ok addrs)) = some (ok (address_set addrs []))

  unfoldable pub calculate_fee_addresses : ℕ → String → Option (Result (Map String (Unit {0})))
  unfolding set_of address_set
  calculate_fee_addresses fuel xpub = elim (keys.new_key_from_string xpub) [
    | err e ↦ some (err e)
    | ok key ↦ elim (branch_key (keys.child key external_branch)) [
      | err e ↦ some (err e)
      | ok branch ↦ set_of (derive_child_addresses fuel branch 0 num_service_payment_fee_addresses)
    ]
  ]

-- ===== src/Stakepoold/FeeAddresses/Tests.antt =====
-- The theorems of Stakepoold.FeeAddresses with a concrete key derivation.
use dcrstakepool.Shared.{
  ℕ, zero, suc, ◌≡◌, refl, nat_beq, none, some, [], ◌∷◌, ok, err, if◌then◌else◌, arith,
}
use dcrstakepool.Stakepoold.FeeAddresses.{Keys, derived, invalid_child, derive_child_addresses}
use dcrstakepool.Stakepoold.FeeAddresses.Derivation.{
  derive_child_addresses-total, derive_child_addresses_diverges,
}

-- The child at an index is the index; the children from 2 on are invalid.
abbrev keys : Keys ℕ
keys = record {
  new_key_from_string = λ xpub. if nat_beq 0 1 then err "not an extended key" else ok 7;
  child = λ k i. elim i [
    | zero ↦ derived 0
    | suc j ↦ elim j [ zero ↦ derived 1 | suc _ ↦ invalid_child ]
  ];
  address_from = λ k. elim k [ zero ↦ ok "DsA" | suc _ ↦ ok "DsB" ];
}

derive_child_addresses-total_example :
    derive_child_addresses keys 3 7 0 2 ≡ some (ok ("DsA" ∷ "DsB" ∷ []))
derive_child_addresses-total_example =
    derive_child_addresses-total keys 7 0 2 3 (omega arith) (omega arith)
      ((ok "DsA", refl), ((ok "DsB", refl), tt))

derive_child_addresses_diverges_example : derive_child_addresses keys 100 7 0 5 ≡ none
derive_child_addresses_diverges_example =
    derive_child_addresses_diverges keys 7 0 5 2 100 (omega arith) (omega arith)
      (("DsA", refl), (("DsB", refl), tt)) refl

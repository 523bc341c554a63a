-- ===== src/Stakepoold/Fees/Sums.antt =====
-- The two sums of EvaluateStakePoolTicket against plain sums modulo 2^64.
use dcrstakepool.Shared.{
  ℕ, suc, ◌+◌, ◌%◌, ◌<◌, ◌≡◌, refl, List, [], ◌∷◌, Result, ok, err, ◌>>=◌, inl, inr, arith,
  Result-cases,
}
use dcrstakepool.Stakepoold.{TxOut, Dcrd}
use dcrstakepool.Stakepoold.Fees.{two64, errorf, sum_commitments, sum_values}

-- The elements at odd positions, and at even ones.
abbrev mutual
  pub odds : List TxOut → List TxOut
  odds [] = []
  odds (o ∷ outs) = evens outs

  pub evens : List TxOut → List TxOut
  evens [] = []
  evens (o ∷ outs) = o ∷ odds outs

abbrev pub sum : List ℕ → ℕ
sum [] = 0
sum (x ∷ xs) = x + sum xs

abbrev pub values : List TxOut → List ℕ
values [] = []
values (o ∷ outs) = o.value ∷ values outs

-- The amounts committed to by the given outputs, or the first failure.
unfoldable pub commitments : Dcrd → List TxOut → Result (List ℕ)
commitments d [] = ok []
commitments d (o ∷ outs) = do
  amt ← errorf (d.amount_from_commitment o.pk_script) "Failed to parse commit out amt for commit"
  amts ← commitments d outs
  ok (amt ∷ amts)

abbrev pub total : ℕ → Result (List ℕ) → Result ℕ
total acc (ok amts) = ok ((acc + sum amts) % two64)
total acc (err e) = err e

mutual
  unfolding sum_commitments commitments

  sum_commitments_even :
      (d : Dcrd) (outs : List TxOut) (i acc : ℕ)
      → i % 2 ≡ 0
      → acc < two64
      → sum_commitments d i outs acc ≡ total acc (commitments d (odds outs))
  sum_commitments_even d [] i acc h b = ground arith
  sum_commitments_even d (o ∷ outs) i acc h b =
      ground (arith, sum_commitments_odd d outs (suc i) acc (omega arith) b)

  sum_commitments_odd :
      (d : Dcrd) (outs : List TxOut) (i acc : ℕ)
      → i % 2 ≡ 1
      → acc < two64
      → sum_commitments d i outs acc ≡ total acc (commitments d (evens outs))
  sum_commitments_odd d [] i acc h b = ground arith
  sum_commitments_odd d (o ∷ outs) i acc h b =
      elim (Result-cases (d.amount_from_commitment o.pk_script)) [
        | inr (e, failed) ↦ ground arith
        | inl (amt, parsed) ↦ ground (
          arith,
          sum_commitments_even d outs (suc i) ((acc + amt) % two64) (omega arith) (omega arith),
        )
      ]

-- The loop over the odd outputs adds up exactly their commitments, modulo 2^64, and fails where one
-- of them is no commitment.
pub sum_commitments-total :
    (d : Dcrd) (outs : List TxOut)
    → sum_commitments d 0 outs 0 ≡ total 0 (commitments d (odds outs))
sum_commitments-total d outs = sum_commitments_even d outs 0 0 refl (omega arith)

sum_values_acc :
    (outs : List TxOut) (acc : ℕ)
    → acc < two64
    → sum_values outs acc ≡ (acc + sum (values outs)) % two64
unfolding sum_values
sum_values_acc [] acc h = omega arith
sum_values_acc (o ∷ outs) acc h =
    omega (arith, sum_values_acc outs ((acc + o.value) % two64) (omega arith))

pub sum_values_total : (outs : List TxOut) → sum_values outs 0 ≡ sum (values outs) % two64
sum_values_total outs = omega (arith, sum_values_acc outs 0 (omega arith))

-- ===== src/Stakepoold/Fees/Acceptance.antt =====
-- When EvaluateStakePoolTicket accepts a ticket.
use dcrstakepool.Shared.{
  ℕ, ◌+◌, ◌-◌, ◌%◌, ◌≡◌, String, text_key, true, false, some, List, ◌∷◌, ok, arith, inl, inr,
  Result-cases,
}
use dcrstakepool.Shared.Map.{has}
use dcrstakepool.Stakepoold.{Stakepoold, TxOut, MsgTx, Dcrd}
use dcrstakepool.Stakepoold.Fees.{
  two64, int64_lt, ticket_fees, check_commitment, evaluate_stake_pool_ticket,
}
use dcrstakepool.Stakepoold.Fees.Sums.{
  odds, sum, values, commitments, sum_commitments-total, sum_values_total,
}

-- The fee of a ticket, as an int64 pattern: committed amounts less output values.
abbrev pub paid_fee : List ℕ → List TxOut → ℕ
paid_fee amts outs = (sum amts + (two64 - sum (values outs) % two64)) % two64

-- The outputs pay the pool: the first commitment is to a fee address of the pool and holds at least
-- the fee that is needed, and every odd output is a commitment.
abbrev pub Pays : Dcrd → Stakepoold → TxOut → TxOut → List TxOut → ℕ → Type 0
Pays d spd o c outs height =
    (addr : String) × (amts : List ℕ) × (amt : ℕ) × (d.addr_from_commitment c.pk_script ≡ ok addr)
    × (has addr spd.fee_addrs ≡ true)
    × (commitments d (odds outs) ≡ ok amts)
    × (d.amount_from_commitment c.pk_script ≡ ok amt)
    × (int64_lt amt (d.stake_pool_ticket_fee o.value (paid_fee amts outs) height) ≡ false)

module _ (d : Dcrd) (spd : Stakepoold) (tx : MsgTx) (o c : TxOut) (rest : List TxOut) (height : ℕ)
    (shape : tx.tx_out ≡ o ∷ c ∷ rest) where
  -- A ticket is accepted only if its outputs pay the pool.
  pub accepted-Pays :
      evaluate_stake_pool_ticket d spd tx height ≡ some (ok true)
      → Pays d spd o c (o ∷ c ∷ rest) height
  unfolding evaluate_stake_pool_ticket check_commitment ticket_fees
  accepted-Pays h = elim (Result-cases (d.addr_from_commitment c.pk_script)) [
    | inr (_, unparsed) ↦ absurd (ground arith)
    | inl (addr, parsed) ↦ elim (Result-cases (commitments d (c ∷ odds rest))) [
      | inr (_, bad) ↦ absurd (ground (arith, sum_commitments-total d (o ∷ c ∷ rest)))
      | inl (amts, summed) ↦ elim (Result-cases (d.amount_from_commitment c.pk_script)) [
        | inr (_, bad) ↦ absurd (ground (arith, sum_commitments-total d (o ∷ c ∷ rest)))
        | inl (amt, first) ↦ (
          addr,
          amts,
          amt,
          parsed,
          ground (arith, sum_commitments-total d (o ∷ c ∷ rest)),
          summed,
          first,
          ground (arith, sum_commitments-total d (o ∷ c ∷ rest), sum_values_total (o ∷ c ∷ rest)),
        )
      ]
    ]
  ]

  -- A ticket whose outputs pay the pool is accepted.
  pub Pays-accepted :
      Pays d spd o c (o ∷ c ∷ rest) height
      → evaluate_stake_pool_ticket d spd tx height ≡ some (ok true)
  unfolding evaluate_stake_pool_ticket check_commitment ticket_fees
  Pays-accepted (addr, amts, amt, parsed, known, summed, first, enough) =
      ground (arith, sum_commitments-total d (o ∷ c ∷ rest), sum_values_total (o ∷ c ∷ rest))

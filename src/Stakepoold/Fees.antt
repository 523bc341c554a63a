-- ===== src/Stakepoold/Fees.antt =====
-- EvaluateStakePoolTicket of backend/stakepoold/stakepool/stakepool.go: the check of a ticket's fee.
pub mod Sums
pub mod Acceptance
use dcrstakepool.Shared.{
  ℕ, suc, ◌+◌, ◌-◌, ◌%◌, ◌^◌, Bool, true, false, Option, none, some, List, [], ◌∷◌, Result, ok, err,
  ◌>>=◌, String, text_key, ltb, nat_beq, if◌then◌else◌,
}
use dcrstakepool.Shared.Map.{has}
use dcrstakepool.Stakepoold.{Stakepoold, TxOut, MsgTx, Dcrd}

-- The number of values of an int64.
abbrev pub two64 : ℕ
two64 = 2 ^ 64

-- a < b on int64 patterns
abbrev pub int64_lt : ℕ → ℕ → Bool
int64_lt a b = ltb ((a + 2 ^ 63) % two64) ((b + 2 ^ 63) % two64)

-- An error wrapped by fmt.Errorf. The interpolated values are left out.
abbrev pub errorf : {A : Type 0} → Result A → String → Result A
errorf (ok a) text = ok a
errorf (err e) text = err text

-- for i := range tx.TxOut { if i%2 != 0 { ... in += commitAmt } }
unfoldable pub sum_commitments : Dcrd → ℕ → List TxOut → ℕ → Result ℕ
sum_commitments d i [] acc = ok acc
sum_commitments d i (o ∷ outs) acc = elim (nat_beq (i % 2) 0) [
  | true ↦ sum_commitments d (suc i) outs acc
  | false ↦
      errorf (d.amount_from_commitment o.pk_script) "Failed to parse commit out amt for commit"
      >>= λ amt. sum_commitments d (suc i) outs ((acc + amt) % two64)
]

-- for i := range tx.TxOut { out += dcrutil.Amount(tx.TxOut[i].Value) }
unfoldable pub sum_values : List TxOut → ℕ → ℕ
sum_values [] acc = acc
sum_values (o ∷ outs) acc = sum_values outs ((acc + o.value) % two64)

-- fees := in - out
pub ticket_fees : ℕ → ℕ → ℕ
ticket_fees input output = (input + two64 - output % two64) % two64

-- The commitment in the first odd output against the fee that is needed.
check_commitment : Dcrd → TxOut → TxOut → ℕ → ℕ → Result Bool
check_commitment d ticket_out commitment_out fees height = do
  commit_amt ←
      errorf (d.amount_from_commitment commitment_out.pk_script) "failed to parse commit out amt"
  let fee_needed = d.stake_pool_ticket_fee ticket_out.value fees height
  if int64_lt commit_amt fee_needed then ok false else ok true

evaluate_outputs : Dcrd → Stakepoold → TxOut → TxOut → List TxOut → ℕ → Result Bool
unfolding check_commitment ticket_fees
evaluate_outputs d spd ticket_out commitment_out outs height = do
  commit_addr ←
      errorf (d.addr_from_commitment commitment_out.pk_script) "Failed to parse commit out addr"
  input ← sum_commitments d 0 outs 0
  let fees = ticket_fees input (sum_values outs 0)
  if has commit_addr spd.fee_addrs
      then check_commitment d ticket_out commitment_out fees height
      else ok false

evaluate_tx_outs : Dcrd → Stakepoold → List TxOut → ℕ → Option (Result Bool)
evaluate_tx_outs d spd [] height = none
evaluate_tx_outs d spd (o ∷ []) height = none
evaluate_tx_outs d spd (o ∷ c ∷ rest) height =
    some (evaluate_outputs d spd o c (o ∷ c ∷ rest) height)

-- A transaction with fewer than two outputs is a panic, `none`: the code reads `tx.TxOut[1]`.
unfoldable pub evaluate_stake_pool_ticket : Dcrd → Stakepoold → MsgTx → ℕ → Option (Result Bool)
unfolding evaluate_tx_outs evaluate_outputs check_commitment
evaluate_stake_pool_ticket d spd tx height = evaluate_tx_outs d spd tx.tx_out height

-- hex.DecodeString, then MsgTx.Deserialize
unfoldable pub msg_tx_from_hex : Dcrd → String → Result MsgTx
msg_tx_from_hex d txhex = do bytes ← d.decode_hex txhex; d.deserialize bytes

-- ===== src/Stakepoold/NewTickets/Verdict.antt =====
-- What processNewTickets does with its tickets, one by one.
use dcrstakepool.Shared.{
  ℕ, ◌≡◌, refl, String, text_key, number_key, ◌==◌, Bool, true, false, Option, none, some, Result,
  ok, err, if◌then◌else◌, arith, inl, inr, Option-cases,
}
use dcrstakepool.Shared.Map.{Map, put}
use dcrstakepool.Stakepoold.{Hash, UserVotingConfig, Stakepoold, Dcrd, Wallet, GetTransactionResult}
use dcrstakepool.Stakepoold.Fees.{evaluate_stake_pool_ticket, msg_tx_from_hex}
use dcrstakepool.Stakepoold.Lookup.{first_owned, found, getticket, owner}
use dcrstakepool.Stakepoold.NewTickets.{
  NewTicketsForBlock, Sorted, new_metadata, int32, sort_ticket,
}

-- `live a` and `ignored a`: a ticket of the pool, under the address `a`.
pub data Verdict : Type 0 where
  skipped : Verdict
  ignored live : String → Verdict

abbrev pub fee_verdict : String → Option (Result Bool) → Option Verdict
fee_verdict a none = none
fee_verdict a (some (ok true)) = some (live a)
fee_verdict a (some (ok false)) = some (ignored a)
fee_verdict a (some (err e)) = some (ignored a)

abbrev pub tx_verdict : Dcrd → Stakepoold → ℕ → String → String → Option Verdict
tx_verdict d spd height a hex = elim (msg_tx_from_hex d hex) [
  | err e ↦ some skipped
  | ok tx ↦ fee_verdict a (evaluate_stake_pool_ticket d spd tx (int32 height))
]

abbrev pub reply_verdict :
    Dcrd
    → Map String UserVotingConfig
    → Stakepoold
    → ℕ
    → Result GetTransactionResult
    → Option Verdict
reply_verdict d config spd height (err e) = some skipped
reply_verdict d config spd height (ok res) =
    let a = owner config (ok res) in
    if a == "" then some skipped else tx_verdict d spd height a res.hex

-- The fate of a ticket by itself, looked up in the configuration `configs t` of the users; `none` is a panic.
abbrev pub verdict :
    Dcrd → Wallet → (Hash → Map String UserVotingConfig) → Stakepoold → ℕ → Hash → Option Verdict
verdict d wallet configs spd height t = reply_verdict d (configs t) spd height (wallet t)

abbrev pub apply_verdict : Hash → Verdict → Sorted → Sorted
apply_verdict t skipped s = s
apply_verdict t (ignored a) s = record s { ignored = put t a s.ignored }
apply_verdict t (live a) s = record s { live = put t a s.live }

abbrev pub apply_if : Hash → Option Verdict → Sorted → Option Sorted
apply_if t none s = none
apply_if t (some v) s = some (apply_verdict t v s)

abbrev pub live_part : Verdict → Option String
live_part skipped = none
live_part (ignored a) = none
live_part (live a) = some a

abbrev pub ignored_part : Verdict → Option String
ignored_part skipped = none
ignored_part (ignored a) = some a
ignored_part (live a) = none

module _ (d : Dcrd) (wallet : Wallet) (configs : Hash → Map String UserVotingConfig)
    (spd : Stakepoold) (nt : NewTicketsForBlock) where
  sort_reply :
      (t : Hash) (s : Sorted) (r : Result GetTransactionResult)
      → sort_ticket d spd nt.block_height (found (configs t) (new_metadata nt t) r) s
        ≡ apply_if t (reply_verdict d (configs t) spd nt.block_height r) s
  unfolding sort_ticket found owner
  sort_reply t s (err e) = refl
  sort_reply t s (ok res) = elim (Option-cases (first_owned (configs t) res.details)) [
    | inl unowned ↦ rw (unowned, found, owner)
    | inr (a, owned) ↦ rw (owned, found, owner) (ground arith)
  ]

  -- One round of the loop does what the verdict says.
  pub sort_ticket-verdict :
      (t : Hash) (s : Sorted)
      → sort_ticket d spd nt.block_height (getticket wallet (configs t) (new_metadata nt t)) s
        ≡ apply_if t (verdict d wallet configs spd nt.block_height t) s
  unfolding getticket
  sort_ticket-verdict t s = sort_reply t s (wallet t)

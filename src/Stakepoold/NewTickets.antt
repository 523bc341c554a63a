-- ===== src/Stakepoold/NewTickets.antt =====
-- processNewTickets of backend/stakepoold/stakepool/stakepool.go. The handler looks its tickets up,
-- sorts them by their fees, and only then takes the lock to store them: the state that it stores
-- into may be a later one than the state that it read.
pub mod Verdict
pub mod Effects
use dcrstakepool.Shared.{
  ℕ, ◌+◌, ◌%◌, ◌^◌, String, text_key, number_key, ◌==◌, Bool, true, false, Option, none, some, List,
  [], ◌∷◌, map, Result, ok, err, if◌then◌else◌, not, ◌||◌,
}
use dcrstakepool.Shared.Map.{Map, put, put_all}
use dcrstakepool.Stakepoold.{
  Hash, UserVotingConfig, Stakepoold, Dcrd, Wallet, new, TicketMetadata, metadata,
}
use dcrstakepool.Stakepoold.Fees.{evaluate_stake_pool_ticket, msg_tx_from_hex}
use dcrstakepool.Stakepoold.Lookup.{getticket}

pub record NewTicketsForBlock : Type 0 where
  pub block_hash : Hash
  pub block_height : ℕ
  pub new_tickets : List Hash

-- The two maps that the handler fills before it takes the lock.
pub record Sorted : Type 0 where
  pub ignored : Map Hash String
  pub live : Map Hash String

abbrev pub new_metadata : NewTicketsForBlock → Hash → TicketMetadata
new_metadata nt ticket = record (metadata ticket) {
  block_hash = nt.block_hash;
  block_height = nt.block_height;
  ticket_type = new;
}

abbrev pub is_set : Option String → Bool
is_set none = false
is_set (some _) = true

-- if n.err != nil || n.msa == ""
abbrev pub not_ours : TicketMetadata → Bool
not_ours n = is_set n.err || n.msa == ""

-- int32(nt.BlockHeight)
abbrev pub int32 : ℕ → ℕ
int32 height = height % 2 ^ 32

-- if err != nil {ignored} else if ticketFeesValid {live} else {ignored}
file_ticket : TicketMetadata → Result Bool → Sorted → Sorted
file_ticket n (ok true) s = record s { live = put n.ticket n.msa s.live }
file_ticket n (ok false) s = record s { ignored = put n.ticket n.msa s.ignored }
file_ticket n (err e) s = record s { ignored = put n.ticket n.msa s.ignored }

-- The body of the loop over the new tickets; `none` is a panic.
pub sort_ticket : Dcrd → Stakepoold → ℕ → TicketMetadata → Sorted → Option Sorted
unfolding file_ticket
sort_ticket d spd height n s = if not_ours n then some s else elim (msg_tx_from_hex d n.hex) [
  | err e ↦ some s
  | ok tx ↦ elim (evaluate_stake_pool_ticket d spd tx (int32 height)) [
    | none ↦ none
    | some valid ↦ some (file_ticket n valid s)
  ]
]

sort_tickets : Dcrd → Stakepoold → ℕ → List TicketMetadata → Sorted → Option Sorted
sort_tickets d spd height [] s = some s
sort_tickets d spd height (n ∷ ns) s = elim (sort_ticket d spd height n s) [
  | none ↦ none
  | some s' ↦ sort_tickets d spd height ns s'
]

-- Everything before `spd.Lock()`. The goroutines look their tickets up without the lock: `configs` has the
-- configuration of the users that the lookup of each ticket reads.
unfoldable pub collect_new_tickets :
    Dcrd
    → Wallet
    → (Hash → Map String UserVotingConfig)
    → Stakepoold
    → NewTicketsForBlock
    → Option Sorted
unfolding sort_tickets sort_ticket
collect_new_tickets d wallet configs spd nt =
    sort_tickets d spd nt.block_height
      (map (λ t. getticket wallet (configs t) (new_metadata nt t)) nt.new_tickets)
      (record { ignored = []; live = [] })

-- The writes under the lock.
unfoldable pub store_new_tickets : Sorted → Stakepoold → Stakepoold
store_new_tickets s spd = record spd {
  ignored_low_fee_tickets_msa = put_all s.ignored spd.ignored_low_fee_tickets_msa;
  live_tickets_msa = put_all s.live spd.live_tickets_msa;
}

-- The handler with nothing in between.
unfoldable pub process_new_tickets :
    Dcrd → Wallet → Stakepoold → NewTicketsForBlock → Option Stakepoold
unfolding collect_new_tickets store_new_tickets
process_new_tickets d wallet spd nt =
    elim (collect_new_tickets d wallet (λ _. spd.user_voting_config) spd nt) [
      | none ↦ none
      | some s ↦ some (store_new_tickets s spd)
    ]

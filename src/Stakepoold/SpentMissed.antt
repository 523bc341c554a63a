-- ===== src/Stakepoold/SpentMissed.antt =====
-- processSpentMissedTickets of backend/stakepoold/stakepool/stakepool.go. As in NewTickets, the
-- state that the handler deletes from may be a later one than the state that it read.
pub mod Effects
use dcrstakepool.Shared.{
  ℕ, String, number_key, Bool, true, false, List, [], ◌∷◌, map, if◌then◌else◌,
}
use dcrstakepool.Shared.Map.{Map, delete_all}
use dcrstakepool.Stakepoold.{
  Hash, UserVotingConfig, Stakepoold, Wallet, spent_missed, TicketMetadata, metadata,
}
use dcrstakepool.Stakepoold.Lookup.{getticket}
use dcrstakepool.Stakepoold.NewTickets.{not_ours}

-- Each ticket with `true` if it was spent, `false` if it was missed.
pub record SpentMissedTicketsForBlock : Type 0 where
  pub block_hash : Hash
  pub block_height : ℕ
  pub sm_tickets : List (Hash × Bool)

abbrev pub spent_missed_metadata : SpentMissedTicketsForBlock → Hash → Bool → TicketMetadata
spent_missed_metadata smt ticket spent = record (metadata ticket) {
  block_hash = smt.block_hash;
  block_height = smt.block_height;
  spent = spent;
  ticket_type = spent_missed;
}

pub record Removed : Type 0 where
  pub missedtickets : List Hash
  pub spenttickets : List Hash

-- One round of the loop, its ticket put before those of the later rounds.
split_ticket : TicketMetadata → Removed → Removed
split_ticket sm r =
    if not_ours sm
    then r
    else if sm.spent
    then record r { spenttickets = sm.ticket ∷ r.spenttickets }
    else record r { missedtickets = sm.ticket ∷ r.missedtickets }

split_tickets : List TicketMetadata → Removed
unfolding split_ticket
split_tickets [] = record { missedtickets = []; spenttickets = [] }
split_tickets (sm ∷ sms) = split_ticket sm (split_tickets sms)

-- Everything before `spd.Lock()`. As in NewTickets, `configs` has the configuration of the users that the
-- lookup of each ticket reads.
unfoldable pub collect_spent_missed :
    Wallet → (Hash → Map String UserVotingConfig) → SpentMissedTicketsForBlock → Removed
unfolding split_tickets
collect_spent_missed wallet configs smt =
    split_tickets
      (map (λ e. getticket wallet (configs e.0) (spent_missed_metadata smt e.0 e.1)) smt.sm_tickets)

-- The deletions under the lock: the missed tickets, then the spent ones.
unfoldable pub delete_spent_missed : Removed → Stakepoold → Stakepoold
delete_spent_missed r spd = record spd {
  ignored_low_fee_tickets_msa =
      delete_all r.spenttickets (delete_all r.missedtickets spd.ignored_low_fee_tickets_msa);
  live_tickets_msa = delete_all r.spenttickets (delete_all r.missedtickets spd.live_tickets_msa);
}

-- The handler with nothing in between.
unfoldable pub process_spent_missed_tickets :
    Wallet → Stakepoold → SpentMissedTicketsForBlock → Stakepoold
unfolding collect_spent_missed delete_spent_missed
process_spent_missed_tickets wallet spd smt =
    delete_spent_missed (collect_spent_missed wallet (λ _. spd.user_voting_config) smt) spd

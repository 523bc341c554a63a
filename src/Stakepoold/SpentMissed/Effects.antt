-- ===== src/Stakepoold/SpentMissed/Effects.antt =====
-- What processSpentMissedTickets takes out of the maps.
use dcrstakepool.Shared.{
  ◌≡◌, refl, String, text_key, number_key, nat_beq_iff, ◌==◌, Bool, true, false, not, ◌&&◌, ◌||◌,
  none, List, [], ◌∷◌, map, if◌then◌else◌, contains, arith,
}
use dcrstakepool.Shared.Map.{Map, get, get-delete_all, delete_all}
use dcrstakepool.Stakepoold.{Hash, UserVotingConfig, Stakepoold, Wallet, TicketMetadata}
use dcrstakepool.Stakepoold.Lookup.{getticket, owner}
use dcrstakepool.Stakepoold.Lookup.Fields.{msa-getticket, ticket-getticket, err-getticket}
use dcrstakepool.Stakepoold.NewTickets.{not_ours}
use dcrstakepool.Stakepoold.SpentMissed.{
  SpentMissedTicketsForBlock, spent_missed_metadata, split_ticket, split_tickets,
  collect_spent_missed, delete_spent_missed,
}

-- The wallet knows the ticket as one of an address of the pool.
abbrev pub ours : Wallet → (Hash → Map String UserVotingConfig) → Hash → Bool
ours wallet configs t = not (owner (configs t) (wallet t) == "")

abbrev pub named : Hash → List (Hash × Bool) → Bool
named t [] = false
named t ((k, _) ∷ ts) = if t == k then true else named t ts

module _ (wallet : Wallet) (configs : Hash → Map String UserVotingConfig)
    (smt : SpentMissedTicketsForBlock) where
  abbrev looked_up : Hash × Bool → TicketMetadata
  looked_up e = getticket wallet (configs e.0) (spent_missed_metadata smt e.0 e.1)

  not_ours-looked_up : (e : Hash × Bool) → not_ours (looked_up e) ≡ not (ours wallet configs e.0)
  not_ours-looked_up e =
      rw (err-getticket (configs e.0) (spent_missed_metadata smt e.0 e.1) wallet) (
        rw (msa-getticket (configs e.0) (spent_missed_metadata smt e.0 e.1) wallet refl)
          (ground arith))

  -- A ticket is taken out where it is named and ours.
  abbrev goes : List (Hash × Bool) → Hash → Bool
  goes ts t = named t ts && ours wallet configs t

  contains-split_tickets :
      (t : Hash) (ts : List (Hash × Bool))
      → (contains t (split_tickets (map looked_up ts)).missedtickets
          || contains t (split_tickets (map looked_up ts)).spenttickets)
        ≡ goes ts t
  unfolding split_tickets split_ticket
  contains-split_tickets t [] = ground arith
  contains-split_tickets t (e ∷ ts) = ground (
    arith,
    contains-split_tickets t ts,
    not_ours-looked_up e,
    ticket-getticket (configs e.0) (spent_missed_metadata smt e.0 e.1) wallet,
    nat_beq_iff t e.0,
  )

-- What the notification `smt`, looked up in `configs`, does to the state that it is applied to:
-- its tickets of the pool are neither live nor ignored any more, and nothing else changes.
pub record Removes (wallet : Wallet) (configs : Hash → Map String UserVotingConfig)
    (smt : SpentMissedTicketsForBlock) (before after : Stakepoold) : Type 0 where
  pub live :
      (t : Hash)
      → get t after.live_tickets_msa ≡ (
          if named t smt.sm_tickets && ours wallet configs t
          then none
          else get t before.live_tickets_msa)
  pub ignored :
      (t : Hash)
      → get t after.ignored_low_fee_tickets_msa ≡ (
          if named t smt.sm_tickets && ours wallet configs t
          then none
          else get t before.ignored_low_fee_tickets_msa)
  pub added : after.added_low_fee_tickets_msa ≡ before.added_low_fee_tickets_msa
  pub config : after.user_voting_config ≡ before.user_voting_config

pub get-delete_twice :
    (t : Hash) (ks ls : List Hash) (m : Map Hash String)
    → get t (delete_all ls (delete_all ks m))
      ≡ (if contains t ks || contains t ls then none else get t m)
get-delete_twice t ks ls m =
    ground (arith, get-delete_all t ls (delete_all ks m), get-delete_all t ks m)

-- Spent or missed, each named ticket of the pool leaves both maps, whatever the state has become
-- since the lookups, each of which may have read another configuration of the users.
pub collect-delete-Removes :
    (wallet : Wallet) (configs : Hash → Map String UserVotingConfig)
    (smt : SpentMissedTicketsForBlock) (before : Stakepoold)
    → Removes wallet configs smt before
        (delete_spent_missed (collect_spent_missed wallet configs smt) before)
unfolding collect_spent_missed delete_spent_missed
collect-delete-Removes wallet configs smt before = record {
  live = λ t. rw get-delete_twice (rw (contains-split_tickets wallet configs smt t smt.sm_tickets));
  ignored =
      λ t. rw get-delete_twice (rw (contains-split_tickets wallet configs smt t smt.sm_tickets));
  added = refl;
  config = refl;
}

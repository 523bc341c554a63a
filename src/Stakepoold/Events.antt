-- ===== src/Stakepoold/Events.antt =====
-- stakepoold as the sequence of its critical sections. Each handler of stakepool.go takes the write
-- lock once; whatever the goroutines do in between, the state is the result of these steps in the
-- order in which they got the lock.
pub mod Status
pub mod Refinement
use dcrstakepool.Shared.{String, number_key, List, [], ◌∷◌}
use dcrstakepool.Shared.Map.{Map, IsMap}
use dcrstakepool.Stakepoold.{Hash, UserVotingConfig, Stakepoold}
use dcrstakepool.Stakepoold.NewTickets.{Sorted, store_new_tickets}
use dcrstakepool.Stakepoold.SpentMissed.{Removed, delete_spent_missed}
use dcrstakepool.Stakepoold.Updates.{update_ticket_data, update_user_data}

-- processNewTickets stores, processSpentMissedTickets deletes, UpdateTicketData, UpdateUserData.
pub data Event : Type 0 where
  stores : Sorted → Event
  deletes : Removed → Event
  sets_tickets : Map Hash String → Event
  sets_users : Map String UserVotingConfig → Event

unfoldable pub step : Event → Stakepoold → Stakepoold
step (stores s) spd = store_new_tickets s spd
step (deletes r) spd = delete_spent_missed r spd
step (sets_tickets new) spd = update_ticket_data new spd
step (sets_users new) spd = update_user_data new spd

unfoldable pub run : List Event → Stakepoold → Stakepoold
run [] spd = spd
run (e ∷ es) spd = run es (step e spd)

-- What an event carries are Go maps.
abbrev pub CarriesMaps : Event → Type 0
CarriesMaps (stores s) = IsMap s.ignored × IsMap s.live
CarriesMaps (deletes r) = Unit
CarriesMaps (sets_tickets new) = IsMap new
CarriesMaps (sets_users new) = Unit

-- The three ticket maps are Go maps.
pub record IsWellFormed (spd : Stakepoold) : Type 0 where
  pub added : IsMap spd.added_low_fee_tickets_msa
  pub ignored : IsMap spd.ignored_low_fee_tickets_msa
  pub live : IsMap spd.live_tickets_msa

-- ===== src/Stakepoold/Events/Status.antt =====
-- The life of one ticket, as an automaton: where it is listed, and under which address.
use dcrstakepool.Shared.{
  String, number_key, ◌||◌, Option, none, List, [], ◌∷◌, contains, if◌then◌else◌,
}
use dcrstakepool.Shared.Map.{get, has, or_else}
use dcrstakepool.Stakepoold.{Hash, Stakepoold}
use dcrstakepool.Stakepoold.Events.{Event, stores, deletes, sets_tickets, sets_users}

pub record Status : Type 0 where
  pub added : Option String
  pub ignored : Option String
  pub live : Option String

abbrev pub status : Hash → Stakepoold → Status
status t spd = record {
  added = get t spd.added_low_fee_tickets_msa;
  ignored = get t spd.ignored_low_fee_tickets_msa;
  live = get t spd.live_tickets_msa;
}

-- What an event does to the ticket `t`, which needs nothing but the status of `t`.
abbrev pub status_step : Hash → Event → Status → Status
status_step t (stores s) st = record st {
  ignored = or_else (get t s.ignored) st.ignored;
  live = or_else (get t s.live) st.live;
}
status_step t (deletes r) st =
    if contains t r.missedtickets || contains t r.spenttickets
    then record st { ignored = none; live = none }
    else st
status_step t (sets_tickets new) st = record {
  added = get t new;
  ignored = if has t new then none else or_else st.added st.ignored;
  live = or_else (get t new) st.live;
}
status_step t (sets_users new) st = st

unfoldable pub status_run : Hash → List Event → Status → Status
status_run t [] st = st
status_run t (e ∷ es) st = status_run t es (status_step t e st)

-- The event makes `t` live.
abbrev pub introduces : Hash → Event → Option String
introduces t (stores s) = get t s.live
introduces t (deletes r) = none
introduces t (sets_tickets new) = get t new
introduces t (sets_users new) = none

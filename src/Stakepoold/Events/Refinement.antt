-- ===== src/Stakepoold/Events/Refinement.antt =====
-- The state of stakepoold refines the automata of its tickets.
use dcrstakepool.Shared.{◌≡◌, refl, ap, ◌∙◌, number_key, none, List, [], ◌∷◌, All, arith}
use dcrstakepool.Shared.Map.{get, get-put_all, put_all-IsMap, delete_all-IsMap}
use dcrstakepool.Stakepoold.{Hash, Stakepoold}
use dcrstakepool.Stakepoold.NewTickets.{store_new_tickets}
use dcrstakepool.Stakepoold.SpentMissed.{delete_spent_missed}
use dcrstakepool.Stakepoold.SpentMissed.Effects.{get-delete_twice}
use dcrstakepool.Stakepoold.Updates.Effects.{update_ticket_data-Replaces, update_ticket_data-IsMap}
use dcrstakepool.Stakepoold.Updates.{update_user_data}
use dcrstakepool.Stakepoold.Events.{
  Event, stores, deletes, sets_tickets, sets_users, step, run, CarriesMaps, IsWellFormed,
}
use dcrstakepool.Stakepoold.Events.Status.{Status, status, status_step, status_run, introduces}

-- Every event keeps the ticket maps Go maps.
pub step-IsWellFormed :
    (e : Event) (spd : Stakepoold) → CarriesMaps e → IsWellFormed spd → IsWellFormed (step e spd)
unfolding step store_new_tickets delete_spent_missed update_user_data
step-IsWellFormed (stores s) spd c h = record {
  added = h.added;
  ignored = put_all-IsMap s.ignored spd.ignored_low_fee_tickets_msa h.ignored;
  live = put_all-IsMap s.live spd.live_tickets_msa h.live;
}
step-IsWellFormed (deletes r) spd c h = record {
  added = h.added;
  ignored = delete_all-IsMap r.spenttickets _ (delete_all-IsMap r.missedtickets _ h.ignored);
  live = delete_all-IsMap r.spenttickets _ (delete_all-IsMap r.missedtickets _ h.live);
}
step-IsWellFormed (sets_tickets new) spd c h =
    let (ignored, live) = update_ticket_data-IsMap new spd h.ignored h.live in
    record {
      added = rw (update_ticket_data-Replaces new spd c h.added).added c;
      ignored = ignored;
      live = live;
    }
step-IsWellFormed (sets_users new) spd c h = record {
  added = h.added;
  ignored = h.ignored;
  live = h.live;
}

status-step :
    (t : Hash) (e : Event) (spd : Stakepoold)
    → CarriesMaps e
    → IsWellFormed spd
    → status t (step e spd) ≡ status_step t e (status t spd)
unfolding step store_new_tickets delete_spent_missed update_user_data
status-step t (stores s) spd c h = ground (
  arith,
  get-put_all t s.ignored spd.ignored_low_fee_tickets_msa c.0,
  get-put_all t s.live spd.live_tickets_msa c.1,
)
status-step t (deletes r) spd c h = ground (
  arith,
  get-delete_twice t r.missedtickets r.spenttickets spd.ignored_low_fee_tickets_msa,
  get-delete_twice t r.missedtickets r.spenttickets spd.live_tickets_msa,
)
status-step t (sets_tickets new) spd c h =
    let r = update_ticket_data-Replaces new spd c h.added in
    ground (arith, r.added, r.live t, r.ignored t)
status-step t (sets_users new) spd c h = refl

-- After any sequence of critical sections each ticket is where its own automaton has taken it.
pub status-run :
    (t : Hash) (es : List Event) (spd : Stakepoold)
    → All CarriesMaps es
    → IsWellFormed spd
    → status t (run es spd) ≡ status_run t es (status t spd)
unfolding run status_run
status-run t [] spd c h = refl
status-run t (e ∷ es) spd (ce, c) h =
    status-run t es (step e spd) c (step-IsWellFormed e spd ce h)
    ∙ ap (status_run t es) (status-step t e spd ce h)

live-status_run :
    (t : Hash) (es : List Event) (st : Status)
    → All (λ e. introduces t e ≡ none) es
    → st.live ≡ none
    → (status_run t es st).live ≡ none
unfolding status_run
live-status_run t [] st q h = h
live-status_run t (e ∷ es) st (qe, q) h = live-status_run t es (status_step t e st) q (keeps e qe)
  where
    keeps : (e : Event) → introduces t e ≡ none → (status_step t e st).live ≡ none
    keeps (stores s) qe = ground arith
    keeps (deletes r) qe = ground arith
    keeps (sets_tickets new) qe = ground arith
    keeps (sets_users new) qe = h

-- A ticket that has left the live tickets, spent or missed, is not live, and so never voted, until
-- new tickets or the list of added tickets bring it in again.
pub gone_stays_gone :
    (t : Hash) (es : List Event) (spd : Stakepoold)
    → All CarriesMaps es
    → IsWellFormed spd
    → All (λ e. introduces t e ≡ none) es
    → get t spd.live_tickets_msa ≡ none
    → get t (run es spd).live_tickets_msa ≡ none
gone_stays_gone t es spd c h q gone =
    ap (λ (st : Status). st.live) (status-run t es spd c h)
    ∙ live-status_run t es (status t spd) q gone

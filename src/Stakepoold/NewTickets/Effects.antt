-- ===== src/Stakepoold/NewTickets/Effects.antt =====
-- What processNewTickets leaves in the maps of stakepoold.
use dcrstakepool.Shared.{
  ℕ, ◌≡◌, refl, ap, ◌∙◌, String, number_key, Option, none, some, List, [], ◌∷◌, map, if◌then◌else◌,
  contains, All, arith, nat_beq_iff,
}
use dcrstakepool.Shared.Map.{Map, get, or_else, IsMap, get-put, get-put_all_built, put-IsMap}
use dcrstakepool.Stakepoold.{Hash, UserVotingConfig, Stakepoold, Dcrd, Wallet}
use dcrstakepool.Stakepoold.Lookup.{getticket}
use dcrstakepool.Stakepoold.NewTickets.{
  NewTicketsForBlock, Sorted, new_metadata, sort_ticket, sort_tickets, collect_new_tickets,
  store_new_tickets,
}
use dcrstakepool.Stakepoold.NewTickets.Verdict.{
  Verdict, skipped, verdict, apply_verdict, apply_if, live_part, ignored_part, sort_ticket-verdict,
}

abbrev pub HasVerdict :
    Dcrd → Wallet → (Hash → Map String UserVotingConfig) → Stakepoold → ℕ → Hash → Type 0
HasVerdict d wallet configs spd height t =
    (v : Verdict) × (verdict d wallet configs spd height t ≡ some v)

-- The part of the verdict on `t`, if `t` is one of `ts`.
abbrev pub among : (Verdict → Option String) → Option Verdict → List Hash → Hash → Option String
among part none ts t = none
among part (some v) ts t = if contains t ts then part v else none

-- What the notification `nt`, read in the state `read` and looked up in `configs`, does to the state that it is stored into:
-- each of its tickets goes where its verdict says, and nothing else changes.
pub record Files (d : Dcrd) (wallet : Wallet) (configs : Hash → Map String UserVotingConfig)
    (read : Stakepoold) (nt : NewTicketsForBlock) (before after : Stakepoold) : Type 0 where
  pub live :
      (t : Hash)
      → get t after.live_tickets_msa
        ≡ or_else
            (among live_part (verdict d wallet configs read nt.block_height t) nt.new_tickets t)
            (get t before.live_tickets_msa)
  pub ignored :
      (t : Hash)
      → get t after.ignored_low_fee_tickets_msa
        ≡ or_else
            (among ignored_part (verdict d wallet configs read nt.block_height t) nt.new_tickets t)
            (get t before.ignored_low_fee_tickets_msa)
  pub added : after.added_low_fee_tickets_msa ≡ before.added_low_fee_tickets_msa
  pub config : after.user_voting_config ≡ before.user_voting_config

-- The maps `s` have become `s'`, by the verdicts of `judge` on the tickets `ts`.
record Sorts (judge : Hash → Option Verdict) (ts : List Hash) (s s' : Sorted) : Type 0 where
  live : (t : Hash) → get t s'.live ≡ or_else (among live_part (judge t) ts t) (get t s.live)
  ignored :
      (t : Hash) → get t s'.ignored ≡ or_else (among ignored_part (judge t) ts t) (get t s.ignored)
  live_map : IsMap s'.live
  ignored_map : IsMap s'.ignored

module _ (judge : Hash → Option Verdict) where
  live_nil :
      (t : Hash) (m : Map Hash String)
      → get t m ≡ or_else (among live_part (judge t) [] t) (get t m)
  live_nil t m = ground arith

  ignored_nil :
      (t : Hash) (m : Map Hash String)
      → get t m ≡ or_else (among ignored_part (judge t) [] t) (get t m)
  ignored_nil t m = ground arith

  live_cons :
      (t j : Hash) (ts : List Hash) (s : Sorted) (m : Map Hash String) (v : Verdict)
      → judge t ≡ some v
      → get j m ≡ or_else (among live_part (judge j) ts j) (get j (apply_verdict t v s).live)
      → get j m ≡ or_else (among live_part (judge j) (t ∷ ts) j) (get j s.live)
  live_cons t j ts s m skipped e h = ground (arith, nat_beq_iff j t)
  live_cons t j ts s m (Verdict.ignored a) e h = ground (arith, nat_beq_iff j t)
  live_cons t j ts s m (Verdict.live a) e h =
      ground (arith, get-put t j a s.live, nat_beq_iff j t, nat_beq_iff t j)

  ignored_cons :
      (t j : Hash) (ts : List Hash) (s : Sorted) (m : Map Hash String) (v : Verdict)
      → judge t ≡ some v
      → get j m ≡ or_else (among ignored_part (judge j) ts j) (get j (apply_verdict t v s).ignored)
      → get j m ≡ or_else (among ignored_part (judge j) (t ∷ ts) j) (get j s.ignored)
  ignored_cons t j ts s m skipped e h = ground (arith, nat_beq_iff j t)
  ignored_cons t j ts s m (Verdict.live a) e h = ground (arith, nat_beq_iff j t)
  ignored_cons t j ts s m (Verdict.ignored a) e h =
      ground (arith, get-put t j a s.ignored, nat_beq_iff j t, nat_beq_iff t j)

  Sorts-cons :
      (t : Hash) (ts : List Hash) (s s' : Sorted) (v : Verdict)
      → judge t ≡ some v
      → Sorts judge ts (apply_verdict t v s) s'
      → Sorts judge (t ∷ ts) s s'
  Sorts-cons t ts s s' v e r = record {
    live = λ j. live_cons t j ts s s'.live v e (r.live j);
    ignored = λ j. ignored_cons t j ts s s'.ignored v e (r.ignored j);
    live_map = r.live_map;
    ignored_map = r.ignored_map;
  }

apply_verdict-live-IsMap :
    (t : Hash) (v : Verdict) (s : Sorted) → IsMap s.live → IsMap (apply_verdict t v s).live
apply_verdict-live-IsMap t skipped s h = h
apply_verdict-live-IsMap t (Verdict.ignored a) s h = h
apply_verdict-live-IsMap t (Verdict.live a) s h = put-IsMap t a s.live h

apply_verdict-ignored-IsMap :
    (t : Hash) (v : Verdict) (s : Sorted) → IsMap s.ignored → IsMap (apply_verdict t v s).ignored
apply_verdict-ignored-IsMap t skipped s h = h
apply_verdict-ignored-IsMap t (Verdict.live a) s h = h
apply_verdict-ignored-IsMap t (Verdict.ignored a) s h = put-IsMap t a s.ignored h

module _ (d : Dcrd) (wallet : Wallet) (configs : Hash → Map String UserVotingConfig)
    (spd : Stakepoold) (nt : NewTicketsForBlock) where
  sort_ticket-some :
      (t : Hash) (v : Verdict) (s : Sorted)
      → verdict d wallet configs spd nt.block_height t ≡ some v
      → sort_ticket d spd nt.block_height (getticket wallet (configs t) (new_metadata nt t)) s
        ≡ some (apply_verdict t v s)
  sort_ticket-some t v s e =
      sort_ticket-verdict d wallet configs spd nt t s ∙ ap (λ o. apply_if t o s) e

  sort_tickets-Sorts :
      (ts : List Hash) (s : Sorted)
      → All (HasVerdict d wallet configs spd nt.block_height) ts
      → IsMap s.live
      → IsMap s.ignored
      → (s' : Sorted) × (sort_tickets d spd nt.block_height
            (map (λ t. getticket wallet (configs t) (new_metadata nt t)) ts)
            s
          ≡ some s')
        × Sorts (verdict d wallet configs spd nt.block_height) ts s s'
  unfolding sort_tickets
  sort_tickets-Sorts [] s h ml mi = (
    s,
    refl,
    record {
      live = λ t. live_nil (verdict d wallet configs spd nt.block_height) t s.live;
      ignored = λ t. ignored_nil (verdict d wallet configs spd nt.block_height) t s.ignored;
      live_map = ml;
      ignored_map = mi;
    },
  )
  sort_tickets-Sorts (t ∷ ts) s ((v, e), h) ml mi =
      let (s', done, sorts) =
        sort_tickets-Sorts ts (apply_verdict t v s) h (apply_verdict-live-IsMap t v s ml)
          (apply_verdict-ignored-IsMap t v s mi) in
      (
        s',
        rw (sort_ticket-some t v s e, sort_tickets) done,
        Sorts-cons (verdict d wallet configs spd nt.block_height) t ts s s' v e sorts,
      )

  -- If no ticket makes the fee check panic, the handler sorts them all, and stores each, whatever the
  -- state has become by then, where its own verdict says; each ticket may have been looked up in another
  -- configuration of the users.
  pub collect-store-Files :
      All (HasVerdict d wallet configs spd nt.block_height) nt.new_tickets
      → (s : Sorted) × (collect_new_tickets d wallet configs spd nt ≡ some s)
        × ((before : Stakepoold)
            → Files d wallet configs spd nt before (store_new_tickets s before))
  unfolding collect_new_tickets store_new_tickets
  collect-store-Files h =
      let (s, done, sorts) =
        sort_tickets-Sorts nt.new_tickets (record { ignored = []; live = [] }) h tt tt in
      (
        s,
        done,
        λ before. record {
          live = λ t.
              get-put_all_built t s.live before.live_tickets_msa _ sorts.live_map (sorts.live t);
          ignored = λ t.
              get-put_all_built t s.ignored before.ignored_low_fee_tickets_msa _ sorts.ignored_map
                (sorts.ignored t);
          added = refl;
          config = refl;
        },
      )

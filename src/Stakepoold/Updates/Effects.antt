-- ===== src/Stakepoold/Updates/Effects.antt =====
-- What UpdateTicketData leaves in the three maps.
use dcrstakepool.Shared.{
  ◌≡◌, refl, String, number_key, nat_beq_iff, none, [], ◌∷◌, arith, if◌then◌else◌, Bool-cases, inl,
  inr,
}
use dcrstakepool.Shared.Map.{
  Map, get, has, put, put_all, delete, or_else, IsMap, get-put, get-delete, get-put_all,
  delete-IsMap, put-IsMap, put_all-IsMap,
}
use dcrstakepool.Stakepoold.{Hash, Stakepoold}
use dcrstakepool.Stakepoold.Updates.{add_tickets, ignore_removed, update_ticket_data}

add_tickets-live :
    (new : Map Hash String) (spd : Stakepoold)
    → (add_tickets new spd).live_tickets_msa ≡ put_all new spd.live_tickets_msa
unfolding add_tickets put_all
add_tickets-live [] spd = refl
add_tickets-live ((t, m) ∷ new) spd = add_tickets-live new _

add_tickets-added :
    (new : Map Hash String) (spd : Stakepoold)
    → (add_tickets new spd).added_low_fee_tickets_msa ≡ spd.added_low_fee_tickets_msa
unfolding add_tickets
add_tickets-added [] spd = refl
add_tickets-added ((t, m) ∷ new) spd = add_tickets-added new _

add_tickets-ignored :
    (new : Map Hash String) (spd : Stakepoold) (t : Hash)
    → get t (add_tickets new spd).ignored_low_fee_tickets_msa
      ≡ (if has t new then none else get t spd.ignored_low_fee_tickets_msa)
unfolding add_tickets has get
add_tickets-ignored [] spd t = refl
add_tickets-ignored ((k, m) ∷ new) spd t = ground (
  arith,
  add_tickets-ignored new
      (record spd {
        ignored_low_fee_tickets_msa = delete k spd.ignored_low_fee_tickets_msa;
        live_tickets_msa = put k m spd.live_tickets_msa;
      })
      t,
  get-delete k t spd.ignored_low_fee_tickets_msa,
)

get-ignore_removed :
    (new added ignored : Map Hash String) (t : Hash)
    → IsMap added
    → get t (ignore_removed new added ignored)
      ≡ (if has t new then get t ignored else or_else (get t added) (get t ignored))
unfolding ignore_removed get has
get-ignore_removed new [] ignored t h = ground arith
get-ignore_removed new ((k, m) ∷ added) ignored t h = ground (
  arith,
  get-ignore_removed new added (if has k new then ignored else put k m ignored) t h.1,
  get-put k t m ignored,
  nat_beq_iff k t,
)

-- The update: what was added is live and not ignored, what is added no longer is ignored, under its
-- old address, and every other ticket stays where it was.
pub record Replaces (new : Map Hash String) (before after : Stakepoold) : Type 0 where
  pub added : after.added_low_fee_tickets_msa ≡ new
  pub live :
      (t : Hash)
      → get t after.live_tickets_msa ≡ or_else (get t new) (get t before.live_tickets_msa)
  pub ignored :
      (t : Hash)
      → get t after.ignored_low_fee_tickets_msa ≡ (
          if has t new
          then none
          else or_else
              (get t before.added_low_fee_tickets_msa)
              (get t before.ignored_low_fee_tickets_msa))

pub update_ticket_data-Replaces :
    (new : Map Hash String) (spd : Stakepoold)
    → IsMap new
    → IsMap spd.added_low_fee_tickets_msa
    → Replaces new spd (update_ticket_data new spd)
unfolding update_ticket_data
update_ticket_data-Replaces new spd h k = record {
  added = refl;
  live = λ t. rw add_tickets-live (get-put_all t new spd.live_tickets_msa h);
  ignored = λ t. rw add_tickets-added (
      ground (
        arith,
        get-ignore_removed new spd.added_low_fee_tickets_msa
            (add_tickets new spd).ignored_low_fee_tickets_msa t k,
        add_tickets-ignored new spd t,
      ));
}

add_tickets-ignored-IsMap :
    (new : Map Hash String) (spd : Stakepoold)
    → IsMap spd.ignored_low_fee_tickets_msa
    → IsMap (add_tickets new spd).ignored_low_fee_tickets_msa
unfolding add_tickets
add_tickets-ignored-IsMap [] spd h = h
add_tickets-ignored-IsMap ((k, m) ∷ new) spd h =
    add_tickets-ignored-IsMap new _ (delete-IsMap k spd.ignored_low_fee_tickets_msa h)

ignore_removed-IsMap :
    (new added ignored : Map Hash String) → IsMap ignored → IsMap (ignore_removed new added ignored)
unfolding ignore_removed
ignore_removed-IsMap new [] ignored h = h
ignore_removed-IsMap new ((k, m) ∷ added) ignored h = elim (Bool-cases (has k new)) [
  | inl kept ↦ rw kept (ignore_removed-IsMap new added ignored h)
  | inr gone ↦ rw gone (ignore_removed-IsMap new added (put k m ignored) (put-IsMap k m ignored h))
]

pub update_ticket_data-IsMap :
    (new : Map Hash String) (spd : Stakepoold)
    → IsMap spd.ignored_low_fee_tickets_msa
    → IsMap spd.live_tickets_msa
    → IsMap (update_ticket_data new spd).ignored_low_fee_tickets_msa
      × IsMap (update_ticket_data new spd).live_tickets_msa
unfolding update_ticket_data
update_ticket_data-IsMap new spd hi hl = (
  ignore_removed-IsMap new (add_tickets new spd).added_low_fee_tickets_msa _
      (add_tickets-ignored-IsMap new spd hi),
  rw add_tickets-live (put_all-IsMap new spd.live_tickets_msa hl),
)

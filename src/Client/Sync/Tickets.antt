-- ===== src/Client/Sync/Tickets.antt =====
-- syncTickets of stakepooldclient/stakepooldclient.go. A ticket hash is a string of bytes.
pub mod Complete
use dcrstakepool.Shared.{
  ℕ, ◌≡◌, ◌↔◌, subst, nat_beq, nat_beq_iff, Comparable, ◌==◌, Bool, true, false, ◌&&◌, List, [],
  ◌∷◌, Result, ok, err, if◌then◌else◌, arith,
}
use dcrstakepool.Shared.Map.{Map, put, has}
use dcrstakepool.Stakepoold.{Bytes}
use dcrstakepool.Client.Calls.{Conn, Call, continue, ◌>>=◌, pure, gather}
use dcrstakepool.Client.Backend.{Backend}

abbrev pub bytes_beq : Bytes → Bytes → Bool
bytes_beq [] [] = true
bytes_beq [] (y ∷ ys) = false
bytes_beq (x ∷ xs) [] = false
bytes_beq (x ∷ xs) (y ∷ ys) = nat_beq x y && bytes_beq xs ys

pub bytes_beq_iff : (xs ys : Bytes) → (bytes_beq xs ys ≡ true) ↔ (xs ≡ ys)
bytes_beq_iff xs ys = (to xs ys, from xs ys)
  where
    to : (xs ys : Bytes) → bytes_beq xs ys ≡ true → xs ≡ ys
    to [] [] h = ground arith
    to [] (y ∷ ys) h = absurd (ground arith)
    to (x ∷ xs) [] h = absurd (ground arith)
    to (x ∷ xs) (y ∷ ys) h = ground (arith, to xs ys)

    same : (xs : Bytes) → bytes_beq xs xs ≡ true
    same [] = ground arith
    same (x ∷ xs) = ground (arith, same xs)

    from : (xs ys : Bytes) → xs ≡ ys → bytes_beq xs ys ≡ true
    from xs ys e = subst (λ (z : Bytes). bytes_beq xs z ≡ true) e (same xs)

instance abbrev pub bytes_key : Comparable Bytes
bytes_key = record { equal = bytes_beq; equal_iff = bytes_beq_iff }

abbrev pub ByteSet : Type 0
ByteSet = Map Bytes (Unit {0})

unfoldable pub add_hashes : List Bytes → ByteSet → ByteSet
add_hashes [] s = s
add_hashes (ticket_hash ∷ hashes) s = add_hashes hashes (put ticket_hash tt s)

-- allTickets
unfoldable pub all_hashes : List (List Bytes) → ByteSet → ByteSet
all_hashes [] s = s
all_hashes (tickets ∷ replies) s = all_hashes replies (add_hashes tickets s)

module _ {W Info UserInfo : Type 0} (b : Backend W Info UserInfo) where
  -- for ticketHash := range allTickets { if !ok { AddMissingTicket } }
  unfoldable pub add_missing_tickets : Conn → ByteSet → ByteSet → Call W (Unit {0})
  add_missing_tickets conn known [] w = (ok tt, w)
  add_missing_tickets conn known ((ticket_hash, _) ∷ tickets) w = elim (has ticket_hash known) [
    | true ↦ add_missing_tickets conn known tickets w
    | false ↦
        let (r, w') = b.add_missing_ticket conn ticket_hash w in
        elim r [ err e ↦ (err e, w') | ok _ ↦ add_missing_tickets conn known tickets w' ]
  ]

  -- The loop over the connections, each with the tickets that it reported.
  unfoldable pub add_all_missing : ByteSet → List Conn → List (List Bytes) → Call W (Unit {0})
  add_all_missing tickets [] replies w = (ok tt, w)
  add_all_missing tickets (conn ∷ conns) [] w = (ok tt, w)
  add_all_missing tickets (conn ∷ conns) (reported ∷ replies) w =
      let (r, w') = add_missing_tickets conn (add_hashes reported []) tickets w in
      elim r [ err e ↦ (err e, w') | ok _ ↦ add_all_missing tickets conns replies w' ]

  unfoldable pub sync_tickets : List Conn → Call W (Unit {0})
  sync_tickets conns = do
    replies ← gather (λ conn. b.get_tickets conn true) conns
    add_all_missing (all_hashes replies []) conns replies

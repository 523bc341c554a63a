-- ===== src/Cluster/Chosen.antt =====
-- The low fee tickets of the database, as the instances read them.
use dcrstakepool.Shared.{
  ◌≡◌, refl, String, number_key, ◌==◌, if◌then◌else◌, Option, none, some, List, [], ◌∷◌, Result, ok,
  err, arith,
}
use dcrstakepool.Shared.Map.{Map, get, put, or_else, get-put}
use dcrstakepool.Stakepoold.{Hash}
use dcrstakepool.Rpc.Messages.{Chainhash}
use dcrstakepool.Rpc.Tickets.{read_tickets}
use dcrstakepool.Rpc.Tickets.RoundTrip.{ReadsBack}
use dcrstakepool.Client.Writes.{LowFeeTicket, db_ticket, db_tickets}

-- The map that the instances make of the tickets of the database.
abbrev pub chosen : Chainhash → List LowFeeTicket → Map Hash String
chosen c tickets = read_tickets c (db_tickets c tickets) []

abbrev address_for : Result Hash → Hash → String → Option String
address_for (err e) t address = none
address_for (ok hash) t address = if hash == t then some address else none

-- The address of the last ticket of the database whose hash is the text of `t`, if any.
abbrev pub last_address : Chainhash → Hash → List LowFeeTicket → Option String
last_address c t [] = none
last_address c t (ticket ∷ tickets) =
    or_else (last_address c t tickets)
      (address_for (c.new_hash_from_str ticket.ticket_hash) t ticket.ticket_address)

read-db_tickets :
    (c : Chainhash) (t : Hash)
    → ReadsBack c
    → (tickets : List LowFeeTicket) (m : Map Hash String)
    → get t (read_tickets c (db_tickets c tickets) m) ≡ or_else (last_address c t tickets) (get t m)
unfolding read_tickets db_tickets db_ticket
read-db_tickets c t back [] m = refl
read-db_tickets c t back (ticket ∷ tickets) m =
    parsed (c.new_hash_from_str ticket.ticket_hash) (λ m'. read-db_tickets c t back tickets m')
  where
    parsed :
        (x : Result Hash)
        → ((m' : Map Hash String)
            → get t (read_tickets c (db_tickets c tickets) m')
              ≡ or_else (last_address c t tickets) (get t m'))
        → get t (read_tickets c (db_ticket c x ticket.ticket_address (db_tickets c tickets)) m)
          ≡ or_else
              (or_else (last_address c t tickets) (address_for x t ticket.ticket_address))
              (get t m)
    parsed (err e) ih = ground (arith, ih m)
    parsed (ok hash) ih =
        rw (back hash, read_tickets)
          (ground
            (arith, ih (put hash ticket.ticket_address m), get-put hash t ticket.ticket_address m))

pub get-chosen :
    (c : Chainhash) (t : Hash) (tickets : List LowFeeTicket)
    → ReadsBack c
    → get t (chosen c tickets) ≡ last_address c t tickets
unfolding get
get-chosen c t tickets back = ground (arith, read-db_tickets c t back tickets [])

-- ===== src/Rpc/Tickets/RoundTrip.antt =====
-- Ticket lists of rpc/server/server.go as the front end reads them.
use dcrstakepool.Shared.{◌≡◌, refl, String, number_key, List, [], ◌∷◌, Result, ok, err, arith}
use dcrstakepool.Shared.Map.{Map, get, put, put_all, IsMap, get-put_all, put-IsMap}
use dcrstakepool.Stakepoold.{Hash}
use dcrstakepool.Rpc.Messages.{Ticket, Chainhash}
use dcrstakepool.Rpc.Tickets.{process_tickets, read_ticket, read_tickets, process_tickets_response}

-- A hash is read back from its own bytes.
abbrev pub ReadsBack : Chainhash → Type 0
ReadsBack c = (h : Hash) → c.new_hash (c.clone_bytes h) ≡ ok h

read-process_tickets :
    (c : Chainhash)
    → ReadsBack c
    → (m acc : Map Hash String) → read_tickets c (process_tickets c m) acc ≡ put_all m acc
unfolding read_tickets process_tickets put_all
read-process_tickets c back [] acc = refl
read-process_tickets c back ((t, a) ∷ m) acc =
    rw (back t, read_tickets) (read-process_tickets c back m (put t a acc))

-- The front end's map of a reply has the same entries as the map that stakepoold sent, in whatever
-- order the reply lists them.
pub get-process_tickets_response :
    (c : Chainhash) (m : Map Hash String)
    → ReadsBack c
    → IsMap m
    → (t : Hash) → get t (process_tickets_response c (process_tickets c m)) ≡ get t m
unfolding process_tickets_response get
get-process_tickets_response c m back h t =
    rw (read-process_tickets c back m []) (ground (arith, get-put_all t m [] h))

pub read_tickets-IsMap :
    (c : Chainhash) (tickets : List Ticket) (m : Map Hash String)
    → IsMap m
    → IsMap (read_tickets c tickets m)
unfolding read_tickets
read_tickets-IsMap c [] m h = h
read_tickets-IsMap c (ticket ∷ tickets) m h =
    read_tickets-IsMap c tickets _ (one (c.new_hash ticket.hash))
  where
    one : (r : Result Hash) → IsMap (read_ticket r ticket.address m)
    one (err e) = h
    one (ok hash) = put-IsMap hash ticket.address m h

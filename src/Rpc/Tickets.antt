-- ===== src/Rpc/Tickets.antt =====
-- The ticket calls: processTickets and the handlers over it in rpc/server/server.go, and
-- processTicketsResponse of stakepooldclient/stakepooldclient.go, which reads their replies.
pub mod RoundTrip
use dcrstakepool.Shared.{String, number_key, List, [], ◌∷◌, Result, ok, err}
use dcrstakepool.Shared.Map.{Map, put}
use dcrstakepool.Stakepoold.{Hash, Stakepoold}
use dcrstakepool.Stakepoold.Updates.{update_ticket_data}
use dcrstakepool.Rpc.Messages.{Ticket, Chainhash}

-- for tickethash, msa := range ticketsMSA { tickets = append(tickets, ...) }
unfoldable pub process_tickets : Chainhash → Map Hash String → List Ticket
process_tickets c [] = []
process_tickets c ((tickethash, msa) ∷ m) =
    record { address = msa; hash = c.clone_bytes tickethash } ∷ process_tickets c m

unfoldable pub get_added_low_fee_tickets : Chainhash → Stakepoold → List Ticket
get_added_low_fee_tickets c spd = process_tickets c spd.added_low_fee_tickets_msa

unfoldable pub get_ignored_low_fee_tickets : Chainhash → Stakepoold → List Ticket
get_ignored_low_fee_tickets c spd = process_tickets c spd.ignored_low_fee_tickets_msa

unfoldable pub get_live_tickets : Chainhash → Stakepoold → List Ticket
get_live_tickets c spd = process_tickets c spd.live_tickets_msa

-- A ticket whose hash does not parse is passed over.
read_ticket : Result Hash → String → Map Hash String → Map Hash String
read_ticket (err e) address m = m
read_ticket (ok hash) address m = put hash address m

-- The loop of processTicketsResponse, from the map that it has built so far.
unfoldable pub read_tickets : Chainhash → List Ticket → Map Hash String → Map Hash String
unfolding read_ticket
read_tickets c [] m = m
read_tickets c (ticket ∷ tickets) m =
    read_tickets c tickets (read_ticket (c.new_hash ticket.hash) ticket.address m)

unfoldable pub process_tickets_response : Chainhash → List Ticket → Map Hash String
process_tickets_response c tickets = read_tickets c tickets []

-- The server's SetAddedLowFeeTickets, whose loop is the same.
unfoldable pub set_added_low_fee_tickets : Chainhash → List Ticket → Stakepoold → Stakepoold
set_added_low_fee_tickets c tickets spd = update_ticket_data (read_tickets c tickets []) spd

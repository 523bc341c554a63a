-- ===== src/Stakepoold/Lookup.antt =====
-- getticket of backend/stakepoold/stakepool/stakepool.go: whose ticket is it?
pub mod Fields
use dcrstakepool.Shared.{
  String, text_key, Option, none, some, List, [], ◌∷◌, Result, ok, err, if◌then◌else◌,
}
use dcrstakepool.Shared.Map.{Map, has}
use dcrstakepool.Stakepoold.{
  UserVotingConfig, GetTransactionResult, Wallet, TicketType, new, spent_missed, unset,
  TicketMetadata,
}

-- for i := range res.Details { _, ok := spd.UserVotingConfig[...]; if ok { ...; break } }
unfoldable pub first_owned : Map String UserVotingConfig → List String → Option String
first_owned config [] = none
first_owned config (address ∷ rest) =
    if has address config then some address else first_owned config rest

-- The transaction is kept for a new ticket only, whose fee is to be checked.
kept_hex : TicketType → String → String → String
kept_hex new res_hex old = res_hex
kept_hex spent_missed res_hex old = old
kept_hex unset res_hex old = old

unfoldable pub found :
    Map String UserVotingConfig → TicketMetadata → Result GetTransactionResult → TicketMetadata
unfolding kept_hex
found config nt (err e) = nt
found config nt (ok res) = elim (first_owned config res.details) [
  | none ↦ nt
  | some address ↦ record nt { msa = address; hex = kept_hex nt.ticket_type res.hex nt.hex }
]

-- The goroutine's effect on the metadata of its ticket.
unfoldable pub getticket : Wallet → Map String UserVotingConfig → TicketMetadata → TicketMetadata
unfolding found
getticket wallet config nt = found config nt (wallet nt.ticket)

-- The address that the pool knows the ticket by, "" if it is not ours.
unfoldable pub owner : Map String UserVotingConfig → Result GetTransactionResult → String
owner config (err e) = ""
owner config (ok res) = elim (first_owned config res.details) [ none ↦ "" | some a ↦ a ]

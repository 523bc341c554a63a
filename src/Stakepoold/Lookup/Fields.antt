-- ===== src/Stakepoold/Lookup/Fields.antt =====
-- What getticket leaves in the metadata of its ticket.
use dcrstakepool.Shared.{◌≡◌, refl, String, Result, ok, err, arith}
use dcrstakepool.Shared.Map.{Map}
use dcrstakepool.Stakepoold.{UserVotingConfig, GetTransactionResult, Wallet, TicketMetadata}
use dcrstakepool.Stakepoold.Lookup.{found, getticket, owner}

module _ (config : Map String UserVotingConfig) (nt : TicketMetadata) where
  msa-found :
      (r : Result GetTransactionResult) → nt.msa ≡ "" → (found config nt r).msa ≡ owner config r
  unfolding found owner
  msa-found (err e) h = h
  msa-found (ok res) h = ground arith

  ticket-found : (r : Result GetTransactionResult) → (found config nt r).ticket ≡ nt.ticket
  unfolding found
  ticket-found (err e) = refl
  ticket-found (ok res) = ground arith

  spent-found : (r : Result GetTransactionResult) → (found config nt r).spent ≡ nt.spent
  unfolding found
  spent-found (err e) = refl
  spent-found (ok res) = ground arith

  err-found : (r : Result GetTransactionResult) → (found config nt r).err ≡ nt.err
  unfolding found
  err-found (err e) = refl
  err-found (ok res) = ground arith

  module _ (wallet : Wallet) where
    pub msa-getticket :
        nt.msa ≡ "" → (getticket wallet config nt).msa ≡ owner config (wallet nt.ticket)
    unfolding getticket
    msa-getticket = msa-found (wallet nt.ticket)

    pub ticket-getticket : (getticket wallet config nt).ticket ≡ nt.ticket
    unfolding getticket
    ticket-getticket = ticket-found (wallet nt.ticket)

    pub spent-getticket : (getticket wallet config nt).spent ≡ nt.spent
    unfolding getticket
    spent-getticket = spent-found (wallet nt.ticket)

    -- getticket reports no error: a failed lookup leaves a ticket that is not ours.
    pub err-getticket : (getticket wallet config nt).err ≡ nt.err
    unfolding getticket
    err-getticket = err-found (wallet nt.ticket)

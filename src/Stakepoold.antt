-- ===== src/Stakepoold.antt =====
-- backend/stakepoold/stakepool/stakepool.go: the state of stakepoold and the data it works on.
-- The operations are in the modules below. A hash is the number that its 32 bytes write, and an
-- int64, uint16 or uint32 is its bit pattern.
pub mod Fees
pub mod Lookup
pub mod NewTickets
pub mod Updates
pub mod SpentMissed
pub mod Winning
pub mod FeeAddresses
pub mod Reload
pub mod SaveFiles
pub mod Events
pub mod Tests
use dcrstakepool.Shared.{ℕ, String, Bool, false, Option, none, List, Result}
use dcrstakepool.Shared.Map.{Map}

abbrev pub Hash : Type 0
Hash = ℕ

abbrev pub Bytes : Type 0
Bytes = List ℕ

-- backend/stakepoold/userdata/userdata.go
pub record UserVotingConfig : Type 0 where
  pub userid : ℕ
  pub multi_sig_address : String
  pub vote_bits : ℕ
  pub vote_bits_version : ℕ

pub record VotingConfig : Type 0 where
  pub vote_bits : ℕ
  pub vote_version : ℕ
  pub vote_bits_extended : String

-- The fields that the operations read or write; `fee_addrs` is a Go map to `struct{}`.
pub record Stakepoold : Type 0 where
  pub added_low_fee_tickets_msa : Map Hash String
  pub ignored_low_fee_tickets_msa : Map Hash String
  pub live_tickets_msa : Map Hash String
  pub user_voting_config : Map String UserVotingConfig
  pub cold_wallet_ext_pub : String
  pub fee_addrs : Map String (Unit {0})
  pub voting_config : VotingConfig
  pub testing : Bool

-- wire.TxOut
pub record TxOut : Type 0 where
  pub value : ℕ
  pub pk_script : Bytes

-- wire.MsgTx; `tx_rest` is what the program passes on unread (version, inputs, expiry).
pub record MsgTx : Type 0 where
  pub tx_out : List TxOut
  pub tx_rest : Bytes

-- The functions of dcrd and of encoding/hex that stakepoold calls. `stake_pool_ticket_fee` has
-- the pool's fee rate and the network's parameters in it, which are constants of the process.
pub record Dcrd : Type 0 where
  pub addr_from_commitment : Bytes → Result String
  pub amount_from_commitment : Bytes → Result ℕ
  pub stake_pool_ticket_fee : ℕ → ℕ → ℕ → ℕ
  pub decode_hex : String → Result Bytes
  pub deserialize : Bytes → Result MsgTx

-- The fields of a wallet's gettransaction reply that stakepoold reads.
pub record GetTransactionResult : Type 0 where
  pub details : List String
  pub hex : String
  pub tx_id : String
  pub block_hash : String

-- dcrwallet's gettransaction, as it answers during one notification
abbrev pub Wallet : Type 0
Wallet = Hash → Result GetTransactionResult

pub data TicketType : Type 0 where
  new spent_missed unset : TicketType

-- ticketMetadata, without the durations, which are only logged
pub record TicketMetadata : Type 0 where
  pub block_hash : Hash
  pub block_height : ℕ
  pub msa : String
  pub ticket : Hash
  pub spent : Bool
  pub config : UserVotingConfig
  pub hex : String
  pub txid : Option Hash
  pub ticket_type : TicketType
  pub err : Option String

abbrev pub no_config : UserVotingConfig
no_config = record { userid = 0; multi_sig_address = ""; vote_bits = 0; vote_bits_version = 0 }

-- The zero value of the struct but for the ticket.
abbrev pub metadata : Hash → TicketMetadata
metadata ticket = record {
  block_hash = 0;
  block_height = 0;
  msa = "";
  ticket = ticket;
  spent = false;
  config = no_config;
  hex = "";
  txid = none;
  ticket_type = unset;
  err = none;
}

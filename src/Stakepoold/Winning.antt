-- ===== src/Stakepoold/Winning.antt =====
-- ProcessWinningTickets and vote of backend/stakepoold/stakepool/stakepool.go. The revocation of
-- expired tickets, which the handler starts at its end, is the wallet's and leaves no trace here.
pub mod Effects
use text.Mathlib.Text.{starts_with}
use dcrstakepool.Shared.{
  ℕ, ◌+◌, String, text_key, number_key, ◌==◌, Bool, true, false, not, Option, none, some, List, [],
  ◌∷◌, map, Result, ok, err, if◌then◌else◌,
}
use dcrstakepool.Shared.Map.{get}
use dcrstakepool.Stakepoold.{
  Hash, Bytes, UserVotingConfig, Stakepoold, MsgTx, Dcrd, TicketMetadata, metadata,
}

pub record WinningTicketsForBlock : Type 0 where
  pub block_hash : Hash
  pub block_height : ℕ
  pub winning_tickets : List Hash

-- dcrwallet's generatevote (block hash, height, ticket, vote bits, extended vote bits), which
-- answers with a transaction in hex, and dcrd's sendrawtransaction.
pub record Voter : Type 0 where
  pub generate_vote : Hash → ℕ → Hash → ℕ → String → Result String
  pub send_raw_transaction : MsgTx → Result Hash

-- The configuration that a ticket under the address `msa` is voted with.
chosen_config : Stakepoold → String → Option UserVotingConfig → UserVotingConfig
chosen_config spd msa none = record {
  userid = 0;
  multi_sig_address = msa;
  vote_bits = spd.voting_config.vote_bits;
  vote_bits_version = spd.voting_config.vote_version;
}
chosen_config spd msa (some vote_cfg) =
    if vote_cfg.vote_bits_version == spd.voting_config.vote_version
    then vote_cfg
    else record vote_cfg { vote_bits = spd.voting_config.vote_bits }

unfoldable pub vote_config : Stakepoold → String → UserVotingConfig
unfolding chosen_config
vote_config spd msa = chosen_config spd msa (get msa spd.user_voting_config)

abbrev pub winner : Stakepoold → Hash → String → TicketMetadata
winner spd ticket msa = record (metadata ticket) { msa = msa; config = vote_config spd msa }

-- Under test a winning ticket that is not live is a panic, `none`; otherwise it is passed over.
unfoldable pub winners : Stakepoold → List Hash → Option (List TicketMetadata)
winners spd [] = some []
winners spd (ticket ∷ tickets) =
    let rest = winners spd tickets in
    elim (get ticket spd.live_tickets_msa) [
      | none ↦ if spd.testing then none else rest
      | some msa ↦ elim rest [ none ↦ none | some ws ↦ some (winner spd ticket msa ∷ ws) ]
    ]

-- SendRawTransaction
transmit : Voter → MsgTx → TicketMetadata → TicketMetadata
transmit v tx w = elim (v.send_raw_transaction tx) [
  | err e ↦ record w { err = some e }
  | ok txid ↦ record w { txid = some txid }
]

-- hex.DecodeString, then newTx.FromBytes
send_vote : Dcrd → Voter → String → TicketMetadata → TicketMetadata
unfolding transmit
send_vote d v hex w = elim (d.decode_hex hex) [
  | err e ↦ record w { err = some e }
  | ok buf ↦ elim (d.deserialize buf) [
    | err e ↦ record w { err = some e }
    | ok tx ↦ transmit v tx w
  ]
]

-- An empty transaction ends the vote with no error.
unfoldable pub vote :
    Dcrd → Voter → Stakepoold → WinningTicketsForBlock → TicketMetadata → TicketMetadata
unfolding send_vote
vote d v spd wt w =
    elim (v.generate_vote wt.block_hash wt.block_height w.ticket w.config.vote_bits
      spd.voting_config.vote_bits_extended) [
        | err e ↦ record w { err = some e }
        | ok hex ↦ if hex == "" then w else send_vote d v hex w
      ]

-- The tickets with the outcome of their votes. Under test nothing is sent.
unfoldable pub process_winning_tickets :
    Dcrd → Voter → Stakepoold → WinningTicketsForBlock → Option (List TicketMetadata)
process_winning_tickets d v spd wt = elim (winners spd wt.winning_tickets) [
  | none ↦ none
  | some ws ↦ some (if spd.testing then ws else map (vote d v spd wt) ws)
]

pub record Counts : Type 0 where
  pub voted_count : ℕ
  pub dupe_count : ℕ
  pub error_count : ℕ

abbrev pub err_duplicate_vote : String
err_duplicate_vote = "-32603: already have transaction "

count_error : String → Counts → Counts
count_error e c =
    if starts_with e err_duplicate_vote
    then record c { dupe_count = c.dupe_count + 1 }
    else record c { error_count = c.error_count + 1 }

count_vote : TicketMetadata → Counts → Counts
unfolding count_error
count_vote w c = elim w.err [
  | none ↦ record c { voted_count = c.voted_count + 1 }
  | some e ↦ count_error e c
]

-- The counts that the handler logs.
unfoldable pub count_votes : List TicketMetadata → Counts → Counts
unfolding count_vote
count_votes [] c = c
count_votes (w ∷ ws) c = count_votes ws (count_vote w c)

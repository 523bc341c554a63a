-- ===== src/Stakepoold/Reload.antt =====
-- walletGetTickets of backend/stakepoold/rpcclient.go: the tickets of the pool, read from the wallet
-- when stakepoold starts. The wallet's replies come in any order; one that is an error is nil, `none`.
pub mod Cache
mod Tests
use dcrstakepool.Shared.{
  ℕ, ◌+◌, ◌%◌, ◌^◌, String, text_key, number_key, Bool, true, false, Option, none, some, List, [],
  ◌∷◌, Result, ok, err, if◌then◌else◌,
}
use dcrstakepool.Shared.Map.{Map, get, put, has}
use dcrstakepool.Stakepoold.{Hash, UserVotingConfig, Stakepoold, Dcrd, GetTransactionResult}
use dcrstakepool.Stakepoold.Fees.{evaluate_stake_pool_ticket, msg_tx_from_hex}
use dcrstakepool.Stakepoold.NewTickets.{int32}

-- The calls of dcrd: chainhash.NewHashFromStr, and GetBlockHeader with the height of its reply.
pub record Node : Type 0 where
  pub new_hash_from_str : String → Result Hash
  pub get_block_header : Hash → Result ℕ

-- The variables of the loop over the replies.
pub record Loaded : Type 0 where
  pub block_hash_to_height_cache : Map Hash ℕ
  pub ignored_low_fee_tickets : Map Hash String
  pub live_tickets : Map Hash String
  pub normal_fee : ℕ

-- if err != nil {ignored} else if ticketFeesValid {live} else {ignored}
unfoldable pub file_loaded : Hash → String → Result Bool → Loaded → Loaded
file_loaded hash msa (err e) l = record l {
  ignored_low_fee_tickets = put hash msa l.ignored_low_fee_tickets;
}
file_loaded hash msa (ok true) l = record l {
  normal_fee = l.normal_fee + 1;
  live_tickets = put hash msa l.live_tickets;
}
file_loaded hash msa (ok false) l = record l {
  ignored_low_fee_tickets = put hash msa l.ignored_low_fee_tickets;
}

-- The height of a block from the cache, or from dcrd and then into the cache.
unfoldable pub block_height_of : Node → Hash → Map Hash ℕ → Result (ℕ × Map Hash ℕ)
block_height_of node ticket_block_hash cache = elim (get ticket_block_hash cache) [
  | some height ↦ ok (height, cache)
  | none ↦ elim (node.get_block_header ticket_block_hash) [
    | err e ↦ err e
    | ok height ↦ ok (int32 height, put ticket_block_hash (int32 height) cache)
  ]
]

module _ (d : Dcrd) (node : Node) (spd : Stakepoold) where
  -- The check of a ticket that is not among the added ones; an error goes on to the next detail, `rest`.
  -- `none` is a panic.
  unfoldable pub check_loaded :
      GetTransactionResult → Hash → String → Loaded → Option Loaded → Option Loaded
  check_loaded gt hash msa l rest = elim (msg_tx_from_hex d gt.hex) [
    | err e ↦ rest
    | ok msg_tx ↦ elim (node.new_hash_from_str gt.block_hash) [
      | err e ↦ rest
      | ok ticket_block_hash ↦
          elim (block_height_of node ticket_block_hash l.block_hash_to_height_cache) [
            | err e ↦ rest
            | ok (ticket_block_height, cache) ↦
                elim (evaluate_stake_pool_ticket d spd msg_tx ticket_block_height) [
                  | none ↦ none
                  | some valid ↦
                      some (
                        file_loaded hash msa valid
                          (record l { block_hash_to_height_cache = cache }))
                ]
          ]
    ]
  ]

  unfoldable pub load_detail :
      GetTransactionResult → String → Loaded → Option Loaded → Option Loaded
  load_detail gt addr l rest = elim (get addr spd.user_voting_config) [
    | none ↦ rest
    | some config ↦ elim (node.new_hash_from_str gt.tx_id) [
      | err e ↦ rest
      | ok hash ↦
          if has hash spd.added_low_fee_tickets_msa
          then some (record l { live_tickets = put hash config.multi_sig_address l.live_tickets })
          else check_loaded gt hash config.multi_sig_address l rest
    ]
  ]

  -- for i := range gt.Details
  unfoldable pub load_details : GetTransactionResult → List String → Loaded → Option Loaded
  load_details gt [] l = some l
  load_details gt (addr ∷ details) l = load_detail gt addr l (load_details gt details l)

  -- for counter < len(tickets)
  unfoldable pub load_replies : List (Option GetTransactionResult) → Loaded → Option Loaded
  load_replies [] l = some l
  load_replies (none ∷ replies) l = load_replies replies l
  load_replies (some gt ∷ replies) l = elim (load_details gt gt.details l) [
    | none ↦ none
    | some l' ↦ load_replies replies l'
  ]

  abbrev pub nothing_loaded : Loaded
  nothing_loaded = record {
    block_hash_to_height_cache = [];
    ignored_low_fee_tickets = [];
    live_tickets = [];
    normal_fee = 0;
  }

  -- The two maps, ignored and live. `tickets` is the wallet's reply to GetTickets, and `replies` has what
  -- GetTransaction returns for each of them.
  unfoldable pub wallet_get_tickets :
      Result (List Hash)
      → List (Option GetTransactionResult)
      → Option (Result (Map Hash String × Map Hash String))
  wallet_get_tickets (err e) replies = some (err e)
  wallet_get_tickets (ok tickets) replies = elim (load_replies replies nothing_loaded) [
    | none ↦ none
    | some l ↦ some (ok (l.ignored_low_fee_tickets, l.live_tickets))
  ]

-- ===== src/Stakepoold/Reload/Cache.antt =====
-- walletGetTickets against a reading of each reply alone, with no cache.
use dcrstakepool.Shared.{
  ℕ, ◌≡◌, refl, sym, ap, ◌∙◌, String, text_key, number_key, nat_beq_iff, Bool, true, false, Option,
  none, some, List, [], ◌∷◌, Result, ok, err, if◌then◌else◌, inl, inr, Bool-cases,
}
use dcrstakepool.Shared.Map.{Map, get, put, has, get-put}
use dcrstakepool.Stakepoold.{Hash, UserVotingConfig, Stakepoold, Dcrd, MsgTx, GetTransactionResult}
use dcrstakepool.Stakepoold.Fees.{evaluate_stake_pool_ticket, msg_tx_from_hex}
use dcrstakepool.Stakepoold.NewTickets.{int32}
use dcrstakepool.Stakepoold.NewTickets.Verdict.{Verdict, skipped, ignored, live, fee_verdict}
use dcrstakepool.Stakepoold.Reload.{
  Node, Loaded, file_loaded, block_height_of, check_loaded, load_detail, load_details, load_replies,
  nothing_loaded, wallet_get_tickets,
}

-- Every height in the cache is the one that dcrd would report.
abbrev pub IsSound : Node → Map Hash ℕ → Type 0
IsSound node cache =
    (b : Hash) (h : ℕ)
    → get b cache ≡ some h
    → (height : ℕ) × (node.get_block_header b ≡ ok height) × (h ≡ int32 height)

-- The height without the cache.
abbrev header_height : Node → Hash → Result ℕ
header_height node b = elim (node.get_block_header b) [
  | err e ↦ err e
  | ok height ↦ ok (int32 height)
]

-- What dcrd would say, and a cache that is sound again.
abbrev Agrees : Node → Hash → Result (ℕ × Map Hash ℕ) → Type 0
Agrees node b (err e) = header_height node b ≡ err e
Agrees node b (ok (h, cache)) = (header_height node b ≡ ok h) × IsSound node cache

put-IsSound :
    (node : Node) (b : Hash) (height : ℕ) (cache : Map Hash ℕ)
    → IsSound node cache
    → node.get_block_header b ≡ ok height
    → IsSound node (put b (int32 height) cache)
put-IsSound node b height cache sound e k h there = elim (Bool-cases (number_key.equal b k)) [
  | inl same ↦
      let at_b : some (int32 height) ≡ some h =
        sym (
          get-put b k (int32 height) cache
          ∙ ap (λ t. if t then some (int32 height) else get k cache) same)
        ∙ there in
      let heights : int32 height ≡ h = cc in
      (height, ap node.get_block_header (sym ((nat_beq_iff b k).0 same)) ∙ e, sym heights)
  | inr differs ↦ sound k h (
      sym (
        get-put b k (int32 height) cache
        ∙ ap (λ t. if t then some (int32 height) else get k cache) differs)
      ∙ there)
]

block_height_of-Agrees :
    (node : Node) (b : Hash) (cache : Map Hash ℕ)
    → IsSound node cache
    → Agrees node b (block_height_of node b cache)
unfolding block_height_of
block_height_of-Agrees node b cache sound = cached (get b cache) (sound b)
  where
    asked :
        (r : Result ℕ)
        → node.get_block_header b ≡ r
        → Agrees node b
            (elim r [ err e ↦ err e | ok height ↦ ok (int32 height, put b (int32 height) cache) ])
    asked (err m) e = rw (header_height, e) refl
    asked (ok height) e = (rw (header_height, e) refl, put-IsSound node b height cache sound e)

    cached :
        (o : Option ℕ)
        → ((h : ℕ)
            → o ≡ some h
            → (height : ℕ) × (node.get_block_header b ≡ ok height) × (h ≡ int32 height))
        → Agrees node b (elim o [
          | some height ↦ ok (height, cache)
          | none ↦ elim (node.get_block_header b) [
            | err e ↦ err e
            | ok height ↦ ok (int32 height, put b (int32 height) cache)
          ]
        ])
    cached (some h) known =
        let (height, e, same) = known h refl in (rw (header_height, e) (ap ok (sym same)), sound)
    cached none known = asked (node.get_block_header b) refl

-- What a reply says of the tickets, if anything.
abbrev pub Reading : Type 0
Reading = Option (Hash × Verdict)

-- The ignored and the live tickets.
abbrev pub Tickets : Type 0
Tickets = Map Hash String × Map Hash String

abbrev pub apply_reading : Reading → Tickets → Tickets
apply_reading none s = s
apply_reading (some (hash, skipped)) s = s
apply_reading (some (hash, ignored msa)) s = (put hash msa s.0, s.1)
apply_reading (some (hash, live msa)) s = (s.0, put hash msa s.1)

abbrev pub read_as : Hash → Option Verdict → Option Reading
read_as hash none = none
read_as hash (some v) = some (some (hash, v))

abbrev tickets_of : Loaded → Tickets
tickets_of l = (l.ignored_low_fee_tickets, l.live_tickets)

module _ (d : Dcrd) (node : Node) (spd : Stakepoold) where
  abbrev pub read_check : GetTransactionResult → Hash → String → Option Reading → Option Reading
  read_check gt hash msa rest = elim (msg_tx_from_hex d gt.hex) [
    | err e ↦ rest
    | ok msg_tx ↦ elim (node.new_hash_from_str gt.block_hash) [
      | err e ↦ rest
      | ok b ↦ elim (header_height node b) [
        | err e ↦ rest
        | ok height ↦
            read_as hash (fee_verdict msa (evaluate_stake_pool_ticket d spd msg_tx height))
      ]
    ]
  ]

  abbrev pub read_detail : GetTransactionResult → String → Option Reading → Option Reading
  read_detail gt addr rest = elim (get addr spd.user_voting_config) [
    | none ↦ rest
    | some config ↦ elim (node.new_hash_from_str gt.tx_id) [
      | err e ↦ rest
      | ok hash ↦
          if has hash spd.added_low_fee_tickets_msa
          then some (some (hash, live config.multi_sig_address))
          else read_check gt hash config.multi_sig_address rest
    ]
  ]

  abbrev pub read_details : GetTransactionResult → List String → Option Reading
  read_details gt [] = some none
  read_details gt (addr ∷ details) = read_detail gt addr (read_details gt details)

  abbrev pub read_replies : List (Option GetTransactionResult) → Tickets → Option Tickets
  read_replies [] s = some s
  read_replies (none ∷ replies) s = read_replies replies s
  read_replies (some gt ∷ replies) s = elim (read_details gt gt.details) [
    | none ↦ none
    | some r ↦ read_replies replies (apply_reading r s)
  ]

  -- The loop did what the reading says, and its cache is sound.
  abbrev Follows : Loaded → Option Loaded → Option Reading → Type 0
  Follows l o none = o ≡ none
  Follows l o (some r) =
      (l' : Loaded) × (o ≡ some l')
      × (tickets_of l' ≡ apply_reading r (tickets_of l))
      × IsSound node l'.block_hash_to_height_cache

  file_loaded-Follows :
      (hash : Hash) (msa : String) (l : Loaded) (cache : Map Hash ℕ) (o : Option (Result Bool))
      → IsSound node cache
      → Follows l
          (elim o [
            | none ↦ none
            | some valid ↦
                some (file_loaded hash msa valid (record l { block_hash_to_height_cache = cache }))
          ])
          (read_as hash (fee_verdict msa o))
  unfolding file_loaded
  file_loaded-Follows hash msa l cache none sound = refl
  file_loaded-Follows hash msa l cache (some (err e)) sound = (_, refl, refl, sound)
  file_loaded-Follows hash msa l cache (some (ok true)) sound = (_, refl, refl, sound)
  file_loaded-Follows hash msa l cache (some (ok false)) sound = (_, refl, refl, sound)

  check_loaded-Follows :
      (gt : GetTransactionResult) (hash : Hash) (msa : String) (l : Loaded) (o : Option Loaded)
      (r : Option Reading)
      → IsSound node l.block_hash_to_height_cache
      → Follows l o r
      → Follows l (check_loaded d node spd gt hash msa l o) (read_check gt hash msa r)
  unfolding check_loaded
  check_loaded-Follows gt hash msa l o r sound f = parsed (msg_tx_from_hex d gt.hex)
    where
      height_known :
          (tx : MsgTx) (b : Hash) (h : Result (ℕ × Map Hash ℕ))
          → Agrees node b h
          → Follows l
              (elim h [
                | err e ↦ o
                | ok (height, cache) ↦ elim (evaluate_stake_pool_ticket d spd tx height) [
                  | none ↦ none
                  | some valid ↦
                      some (
                        file_loaded hash msa valid
                          (record l { block_hash_to_height_cache = cache }))
                ]
              ])
              (elim (header_height node b) [
                | err e ↦ r
                | ok height ↦
                    read_as hash (fee_verdict msa (evaluate_stake_pool_ticket d spd tx height))
              ])
      height_known tx b (err m) agrees = rw agrees f
      height_known tx b (ok (height, cache)) (agrees, sound') =
          rw agrees (
            file_loaded-Follows hash msa l cache (evaluate_stake_pool_ticket d spd tx height)
              sound')

      block_known :
          (tx : MsgTx) (x : Result Hash)
          → Follows l
              (elim x [
                | err e ↦ o
                | ok b ↦ elim (block_height_of node b l.block_hash_to_height_cache) [
                  | err e ↦ o
                  | ok (height, cache) ↦ elim (evaluate_stake_pool_ticket d spd tx height) [
                    | none ↦ none
                    | some valid ↦ some (
                        file_loaded hash msa valid
                          (record l { block_hash_to_height_cache = cache }))
                  ]
                ]
              ])
              (elim x [
                | err e ↦ r
                | ok b ↦ elim (header_height node b) [
                  | err e ↦ r
                  | ok height ↦
                      read_as hash (fee_verdict msa (evaluate_stake_pool_ticket d spd tx height))
                ]
              ])
      block_known tx (err m) = f
      block_known tx (ok b) =
          height_known tx b (block_height_of node b l.block_hash_to_height_cache)
            (block_height_of-Agrees node b l.block_hash_to_height_cache sound)

      parsed :
          (x : Result MsgTx)
          → Follows l
              (elim x [
                | err e ↦ o
                | ok tx ↦ elim (node.new_hash_from_str gt.block_hash) [
                  | err e ↦ o
                  | ok b ↦ elim (block_height_of node b l.block_hash_to_height_cache) [
                    | err e ↦ o
                    | ok (height, cache) ↦ elim (evaluate_stake_pool_ticket d spd tx height) [
                      | none ↦ none
                      | some valid ↦ some (
                          file_loaded hash msa valid
                            (record l { block_hash_to_height_cache = cache }))
                    ]
                  ]
                ]
              ])
              (elim x [
                | err e ↦ r
                | ok tx ↦ elim (node.new_hash_from_str gt.block_hash) [
                  | err e ↦ r
                  | ok b ↦ elim (header_height node b) [
                    | err e ↦ r
                    | ok height ↦
                        read_as hash (fee_verdict msa (evaluate_stake_pool_ticket d spd tx height))
                  ]
                ]
              ])
      parsed (err m) = f
      parsed (ok tx) = block_known tx (node.new_hash_from_str gt.block_hash)

  load_detail-Follows :
      (gt : GetTransactionResult) (addr : String) (l : Loaded) (o : Option Loaded)
      (r : Option Reading)
      → IsSound node l.block_hash_to_height_cache
      → Follows l o r
      → Follows l (load_detail d node spd gt addr l o) (read_detail gt addr r)
  unfolding load_detail
  load_detail-Follows gt addr l o r sound f = user_known (get addr spd.user_voting_config)
    where
      added_known :
          (hash : Hash) (msa : String) (t : Bool)
          → Follows l
              (if t
                then some (record l { live_tickets = put hash msa l.live_tickets })
                else check_loaded d node spd gt hash msa l o)
              (if t then some (some (hash, live msa)) else read_check gt hash msa r)
      added_known hash msa true = (_, refl, refl, sound)
      added_known hash msa false = check_loaded-Follows gt hash msa l o r sound f

      hash_known :
          (msa : String) (x : Result Hash)
          → Follows l
              (elim x [
                | err e ↦ o
                | ok hash ↦
                    if has hash spd.added_low_fee_tickets_msa
                    then some (record l { live_tickets = put hash msa l.live_tickets })
                    else check_loaded d node spd gt hash msa l o
              ])
              (elim x [
                | err e ↦ r
                | ok hash ↦
                    if has hash spd.added_low_fee_tickets_msa
                    then some (some (hash, live msa))
                    else read_check gt hash msa r
              ])
      hash_known msa (err m) = f
      hash_known msa (ok hash) = added_known hash msa (has hash spd.added_low_fee_tickets_msa)

      user_known :
          (x : Option UserVotingConfig)
          → Follows l
              (elim x [
                | none ↦ o
                | some config ↦ elim (node.new_hash_from_str gt.tx_id) [
                  | err e ↦ o
                  | ok hash ↦
                      if has hash spd.added_low_fee_tickets_msa
                      then some (record l {
                        live_tickets = put hash config.multi_sig_address l.live_tickets;
                      })
                      else check_loaded d node spd gt hash config.multi_sig_address l o
                ]
              ])
              (elim x [
                | none ↦ r
                | some config ↦ elim (node.new_hash_from_str gt.tx_id) [
                  | err e ↦ r
                  | ok hash ↦
                      if has hash spd.added_low_fee_tickets_msa
                      then some (some (hash, live config.multi_sig_address))
                      else read_check gt hash config.multi_sig_address r
                ]
              ])
      user_known none = f
      user_known (some config) =
          hash_known config.multi_sig_address (node.new_hash_from_str gt.tx_id)

  load_details-Follows :
      (gt : GetTransactionResult) (details : List String) (l : Loaded)
      → IsSound node l.block_hash_to_height_cache
      → Follows l (load_details d node spd gt details l) (read_details gt details)
  unfolding load_details
  load_details-Follows gt [] l sound = (l, refl, refl, sound)
  load_details-Follows gt (addr ∷ details) l sound =
      load_detail-Follows gt addr l (load_details d node spd gt details l) (read_details gt details)
        sound (load_details-Follows gt details l sound)

  abbrev tickets_if : Option Loaded → Option Tickets
  tickets_if none = none
  tickets_if (some l) = some (tickets_of l)

  load_replies-read :
      (replies : List (Option GetTransactionResult)) (l : Loaded)
      → IsSound node l.block_hash_to_height_cache
      → tickets_if (load_replies d node spd replies l) ≡ read_replies replies (tickets_of l)
  unfolding load_replies
  load_replies-read [] l sound = refl
  load_replies-read (none ∷ replies) l sound = load_replies-read replies l sound
  load_replies-read (some gt ∷ replies) l sound =
      followed (load_details d node spd gt gt.details l) (read_details gt gt.details)
        (load_details-Follows gt gt.details l sound)
        (λ l' sound'. load_replies-read replies l' sound')
    where
      followed :
          (o : Option Loaded) (r : Option Reading)
          → Follows l o r
          → ((l' : Loaded)
              → IsSound node l'.block_hash_to_height_cache
              → tickets_if (load_replies d node spd replies l')
                ≡ read_replies replies (tickets_of l'))
          → tickets_if (elim o [ none ↦ none | some l' ↦ load_replies d node spd replies l' ])
            ≡ (elim r [
              | none ↦ none
              | some r ↦ read_replies replies (apply_reading r (tickets_of l))
            ])
      followed o none e later = rw e refl
      followed o (some r) (l', e, same, sound') later = rw (e, ← same) (later l' sound')

  abbrev pub ok_if : Option Tickets → Option (Result Tickets)
  ok_if none = none
  ok_if (some s) = some (ok s)

  -- Whatever the order in which the wallet's replies come in, the two maps are those that one gets from
  -- reading each reply alone, with a block header from dcrd for every ticket.
  pub wallet_get_tickets-read :
      (tickets : List Hash) (replies : List (Option GetTransactionResult))
      → wallet_get_tickets d node spd (ok tickets) replies ≡ ok_if (read_replies replies ([], []))
  unfolding wallet_get_tickets
  wallet_get_tickets-read tickets replies =
      answered (load_replies d node spd replies (nothing_loaded d node spd))
      ∙ ap ok_if (
          load_replies-read replies (nothing_loaded d node spd)
            (λ b h there. absurd (unfold get in cc)))
    where
      answered :
          (o : Option Loaded)
          → (elim o [
            | none ↦ none
            | some l ↦ some (ok (l.ignored_low_fee_tickets, l.live_tickets))
          ])
            ≡ ok_if (tickets_if o)
      answered none = refl
      answered (some l) = refl

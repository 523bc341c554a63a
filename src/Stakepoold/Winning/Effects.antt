-- ===== src/Stakepoold/Winning/Effects.antt =====
-- Which tickets ProcessWinningTickets votes, with which bits, and what it counts.
use dcrstakepool.Shared.{
  ℕ, ◌+◌, ◌≡◌, ◌≢◌, refl, sym, ap, ◌∙◌, String, text_key, number_key, ◌==◌, Bool, true, false,
  Option, none, some, List, [], ◌∷◌, map, Result, ok, err, if◌then◌else◌, All, length, arith,
  Option-cases, inl, inr, ◌⊎◌,
}
use dcrstakepool.Shared.Map.{get, has}
use dcrstakepool.Stakepoold.{Hash, Bytes, UserVotingConfig, Stakepoold, MsgTx, Dcrd, TicketMetadata}
use dcrstakepool.Stakepoold.Winning.{
  WinningTicketsForBlock, Voter, chosen_config, vote_config, winner, winners, vote, transmit,
  send_vote, process_winning_tickets, Counts, count_vote, count_votes,
}

-- The winning tickets that stakepoold manages.
abbrev pub managed : Stakepoold → List Hash → List Hash
managed spd [] = []
managed spd (t ∷ ts) = if has t spd.live_tickets_msa then t ∷ managed spd ts else managed spd ts

module _ (d : Dcrd) (v : Voter) (spd : Stakepoold) (wt : WinningTicketsForBlock) where
  -- What the wallet answers to generatevote for this block, the ticket and its bits.
  abbrev generated : TicketMetadata → Result String
  generated w =
      v.generate_vote wt.block_hash wt.block_height w.ticket w.config.vote_bits
        spd.voting_config.vote_bits_extended

  -- The vote of the wallet was decoded and sent, and is the transaction `txid`.
  abbrev pub Sent : TicketMetadata → Hash → Type 0
  Sent w txid =
      (hex : String) × (buf : Bytes) × (tx : MsgTx) × (generated w ≡ ok hex)
      × (d.decode_hex hex ≡ ok buf)
      × (d.deserialize buf ≡ ok tx)
      × (v.send_raw_transaction tx ≡ ok txid)

  -- One of the four steps failed with `e`.
  abbrev pub Failed : TicketMetadata → String → Type 0
  Failed w e =
      (generated w ≡ err e)
      ⊎ ((hex : String) × (generated w ≡ ok hex)
          × ((d.decode_hex hex ≡ err e)
              ⊎ ((buf : Bytes) × (d.decode_hex hex ≡ ok buf)
                  × ((d.deserialize buf ≡ err e)
                      ⊎ ((tx : MsgTx) × (d.deserialize buf ≡ ok tx)
                          × (v.send_raw_transaction tx ≡ err e))))))

  -- The outcome that is recorded for a ticket: the transaction that was sent, or the error of the step that
  -- failed, or nothing where the wallet has answered with an empty vote.
  abbrev pub Outcome : TicketMetadata → Option Hash → Option String → Type 0
  Outcome w (some txid) none = Sent w txid
  Outcome w none (some e) = Failed w e
  Outcome w none none = generated w ≡ ok ""
  Outcome w (some txid) (some e) = ⊥

  -- A ticket is voted for its live address: with the user's bits where the user has chosen for the
  -- current vote version, and with the bits of the pool where the user is not known or has not.
  pub record Voted (w : TicketMetadata) : Type 0 where
    pub live : get w.ticket spd.live_tickets_msa ≡ some w.msa
    pub chosen :
        (cfg : UserVotingConfig)
        → get w.msa spd.user_voting_config ≡ some cfg
        → cfg.vote_bits_version ≡ spd.voting_config.vote_version
        → w.config ≡ cfg
    pub outdated :
        (cfg : UserVotingConfig)
        → get w.msa spd.user_voting_config ≡ some cfg
        → cfg.vote_bits_version ≢ spd.voting_config.vote_version
        → w.config ≡ record cfg { vote_bits = spd.voting_config.vote_bits }
    pub unknown :
        get w.msa spd.user_voting_config ≡ none
        → (w.config.vote_bits ≡ spd.voting_config.vote_bits)
          × (w.config.vote_bits_version ≡ spd.voting_config.vote_version)
          × (w.config.multi_sig_address ≡ w.msa)
    pub outcome : Outcome w w.txid w.err

  ended-Voted :
      (t : Hash) (msa : String) (txid : Option Hash) (e : Option String)
      → get t spd.live_tickets_msa ≡ some msa
      → Outcome (winner spd t msa) txid e
      → Voted (record (winner spd t msa) { txid = txid; err = e })
  unfolding vote_config
  ended-Voted t msa txid e live out = record {
    live = live;
    chosen = λ cfg known same. rw (known, chosen_config) (ground arith);
    outdated = λ cfg known differs. rw (known, chosen_config) (ground arith);
    unknown = λ missing. rw (missing, chosen_config) (refl, refl, refl);
    outcome = out;
  }

  vote-Voted :
      (t : Hash) (msa : String)
      → get t spd.live_tickets_msa ≡ some msa
      → Voted (vote d v spd wt (winner spd t msa))
  unfolding vote send_vote transmit
  vote-Voted t msa live = answered (generated (winner spd t msa)) refl
    where
      w : TicketMetadata
      w = winner spd t msa

      sent :
          (hex : String) (buf : Bytes) (tx : MsgTx)
          → generated w ≡ ok hex
          → d.decode_hex hex ≡ ok buf
          → d.deserialize buf ≡ ok tx
          → (x : Result Hash) → v.send_raw_transaction tx ≡ x
          → Voted (elim x [
            | err e ↦ record w { err = some e }
            | ok txid ↦ record w { txid = some txid }
          ])
      sent hex buf tx g h k (err e) l =
          ended-Voted t msa none (some e) live (inr (hex, g, inr (buf, h, inr (tx, k, l))))
      sent hex buf tx g h k (ok txid) l =
          ended-Voted t msa (some txid) none live (hex, buf, tx, g, h, k, l)

      read :
          (hex : String) (buf : Bytes)
          → generated w ≡ ok hex
          → d.decode_hex hex ≡ ok buf
          → (x : Result MsgTx) → d.deserialize buf ≡ x
          → Voted (elim x [ err e ↦ record w { err = some e } | ok tx ↦ transmit v tx w ])
      read hex buf g h (err e) k =
          ended-Voted t msa none (some e) live (inr (hex, g, inr (buf, h, inl k)))
      read hex buf g h (ok tx) k = sent hex buf tx g h k (v.send_raw_transaction tx) refl

      decoded :
          (hex : String)
          → generated w ≡ ok hex
          → (x : Result Bytes) → d.decode_hex hex ≡ x
          → Voted (elim x [
            | err e ↦ record w { err = some e }
            | ok buf ↦ elim (d.deserialize buf) [
              | err e ↦ record w { err = some e }
              | ok tx ↦ transmit v tx w
            ]
          ])
      decoded hex g (err e) h = ended-Voted t msa none (some e) live (inr (hex, g, inl h))
      decoded hex g (ok buf) h = read hex buf g h (d.deserialize buf) refl

      filled :
          (hex : String)
          → generated w ≡ ok hex
          → (empty : Bool) → (hex == "") ≡ empty
          → Voted (if empty then w else send_vote d v hex w)
      filled hex g true empty =
          ended-Voted t msa none none live (g ∙ ap ok ((text_key.equal_iff hex "").0 empty))
      filled hex g false present = decoded hex g (d.decode_hex hex) refl

      answered :
          (x : Result String)
          → generated w ≡ x
          → Voted (elim x [
            | err e ↦ record w { err = some e }
            | ok hex ↦ if hex == "" then w else send_vote d v hex w
          ])
      answered (err e) g = ended-Voted t msa none (some e) live (inl g)
      answered (ok hex) g = filled hex g (hex == "") refl

  managed-live :
      (t : Hash) (msa : String) (ts : List Hash)
      → get t spd.live_tickets_msa ≡ some msa
      → managed spd (t ∷ ts) ≡ t ∷ managed spd ts
  unfolding has
  managed-live t msa ts live = ground arith

  vote-ticket : (t : Hash) (msa : String) → (vote d v spd wt (winner spd t msa)).ticket ≡ t
  unfolding vote send_vote transmit
  vote-ticket t msa = ground arith

  winners-Voted :
      (ts : List Hash)
      → spd.testing ≡ false
      → (ws : List TicketMetadata) × (winners spd ts ≡ some ws)
        × (map (λ w. w.ticket) (map (vote d v spd wt) ws) ≡ managed spd ts)
        × All Voted (map (vote d v spd wt) ws)
  unfolding winners has
  winners-Voted [] real = ([], refl, refl, tt)
  winners-Voted (t ∷ ts) real =
      let (ws, done, same, all) = winners-Voted ts real in
      elim (Option-cases (get t spd.live_tickets_msa)) [
        | inl unmanaged ↦ (ws, rw (unmanaged, winners) (rw real done), ground arith, all)
        | inr (msa, live) ↦ (
          winner spd t msa ∷ ws,
          rw (live, winners) (rw done),
          ap (λ u. u ∷ map (λ w. w.ticket) (map (vote d v spd wt) ws)) (vote-ticket t msa)
              ∙ ap (λ us. t ∷ us) same
              ∙ sym (managed-live t msa ts live),
          (vote-Voted t msa live, all),
        )
      ]

  -- Outside of tests, when ProcessWinningTickets has waited for the votes, it has one outcome for each
  -- winning ticket that is live, in their order, and for no other. The ticket was voted for its live
  -- address, with the user's bits or those of the pool; the outcome is the id of the transaction that was
  -- generated for the block, the ticket and these bits and that was sent, or the error of the step that
  -- failed, or neither where the wallet answered with an empty vote.
  pub process_winning_tickets-Voted :
      spd.testing ≡ false
      → (ws : List TicketMetadata) × (process_winning_tickets d v spd wt ≡ some ws)
        × (map (λ w. w.ticket) ws ≡ managed spd wt.winning_tickets)
        × All Voted ws
  unfolding process_winning_tickets
  process_winning_tickets-Voted real =
      let (ws, done, same, all) = winners-Voted wt.winning_tickets real in
      (map (vote d v spd wt) ws, rw (done, process_winning_tickets) (rw real refl), same, all)

abbrev pub all_counts : Counts → ℕ
all_counts c = c.voted_count + c.dupe_count + c.error_count

count_vote_one : (w : TicketMetadata) (c : Counts) → all_counts (count_vote w c) ≡ all_counts c + 1
unfolding count_vote
count_vote_one w c = ground arith

-- Every ticket is counted once: as voted, as a duplicate or as an error.
pub count_votes-length :
    (ws : List TicketMetadata) (c : Counts)
    → all_counts (count_votes ws c) ≡ all_counts c + length ws
unfolding count_votes
count_votes-length [] c = omega arith
count_votes-length (w ∷ ws) c =
    omega (arith, count_votes-length ws (count_vote w c), count_vote_one w c)

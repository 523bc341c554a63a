-- ===== src/Stakepoold/Tests.antt =====
-- The theorems of Stakepoold at concrete inputs, and runs of the handlers.
use dcrstakepool.Shared.{
  ℕ, ◌≡◌, refl, String, text_key, number_key, ◌==◌, true, false, none, some, List, [], ◌∷◌, Result,
  ok, err, if◌then◌else◌, All, map,
}
use dcrstakepool.Shared.Map.{Map, get, has, put}
use dcrstakepool.Stakepoold.{
  Hash, Bytes, UserVotingConfig, Stakepoold, TxOut, MsgTx, Dcrd, GetTransactionResult, Wallet,
  TicketMetadata, metadata,
}
use dcrstakepool.Stakepoold.Fees.{
  evaluate_stake_pool_ticket, msg_tx_from_hex, sum_commitments, sum_values,
}
use dcrstakepool.Stakepoold.Fees.Sums.{odds, total, commitments, sum_commitments-total}
use dcrstakepool.Stakepoold.Fees.Acceptance.{Pays, accepted-Pays, Pays-accepted}
use dcrstakepool.Stakepoold.Lookup.{owner, first_owned, getticket}
use dcrstakepool.Stakepoold.NewTickets.{
  NewTicketsForBlock, Sorted, collect_new_tickets, store_new_tickets,
}
use dcrstakepool.Stakepoold.NewTickets.Verdict.{live, ignored, skipped}
use dcrstakepool.Stakepoold.NewTickets.Effects.{Files, collect-store-Files}
use dcrstakepool.Stakepoold.SpentMissed.{
  SpentMissedTicketsForBlock, collect_spent_missed, delete_spent_missed,
}
use dcrstakepool.Stakepoold.SpentMissed.Effects.{Removes, collect-delete-Removes}
use dcrstakepool.Stakepoold.Winning.{
  WinningTicketsForBlock, Voter, winners, winner, process_winning_tickets, Counts, count_votes,
}
use dcrstakepool.Stakepoold.Winning.Effects.{
  Voted, process_winning_tickets-Voted, all_counts, count_votes-length, managed,
}
use dcrstakepool.Stakepoold.Events.{
  Event, stores, deletes, sets_tickets, sets_users, run, IsWellFormed,
}
use dcrstakepool.Stakepoold.Events.Status.{status, status_run}
use dcrstakepool.Stakepoold.Events.Refinement.{status-run, gone_stays_gone}

-- A script's first number tells the amount that it commits to; script 0 is no commitment.
abbrev amount_of : Bytes → Result ℕ
amount_of [] = err "no commitment"
amount_of (n ∷ _) = ok n

abbrev pub dcrd : Dcrd
dcrd = record {
  addr_from_commitment = λ script. elim script [ [] ↦ err "no commitment" | n ∷ ns ↦ ok "DsFee" ];
  amount_from_commitment = amount_of;
  stake_pool_ticket_fee = λ price fees height. 5;
  decode_hex = λ hex. if hex == "paid" then ok (7 ∷ []) else ok (3 ∷ []);
  deserialize = λ bytes. ok (record {
    tx_out =
        record { value = 100; pk_script = [] }
        ∷ record { value = 0; pk_script = bytes }
        ∷ record { value = 0; pk_script = [] }
        ∷ record { value = 0; pk_script = 98 ∷ [] }
        ∷ [];
    tx_rest = [];
  });
}

abbrev user : UserVotingConfig
user = record { userid = 1; multi_sig_address = "Dc1"; vote_bits = 5; vote_bits_version = 8 }

abbrev pub pool : Stakepoold
pool = record {
  added_low_fee_tickets_msa = (30, "Dc1") ∷ [];
  ignored_low_fee_tickets_msa = (40, "Dc1") ∷ [];
  live_tickets_msa = (10, "Dc1") ∷ (20, "Dc2") ∷ (30, "Dc1") ∷ [];
  user_voting_config = ("Dc1", user) ∷ [];
  cold_wallet_ext_pub = "dpub";
  fee_addrs = ("DsFee", tt) ∷ [];
  voting_config = record { vote_bits = 1; vote_version = 8; vote_bits_extended = "08" };
  testing = false;
}

abbrev reply : String → String → Result GetTransactionResult
reply address hex =
    ok (record { details = "DsOther" ∷ address ∷ []; hex = hex; tx_id = ""; block_hash = "" })

-- Ticket 50 pays its fee, 60 does not, 70 is another pool's, and the rest are unknown to the wallet.
abbrev wallet : Wallet
wallet t =
    if t == 50
    then reply "Dc1" "paid"
    else if t == 60
    then reply "Dc1" "short"
    else if t == 70
    then reply "DsElse" "paid"
    else if t == 10
    then reply "Dc1" "paid"
    else err "-5: no information for transaction"

abbrev notification : NewTicketsForBlock
notification = record { block_hash = 9; block_height = 700; new_tickets = 50 ∷ 60 ∷ 70 ∷ 80 ∷ [] }

-- Every lookup reads the state of the start.
abbrev looked_up : Hash → Map String UserVotingConfig
looked_up t = pool.user_voting_config

collected_new :
    collect_new_tickets dcrd wallet looked_up pool notification
    ≡ some (record { ignored = (60, "Dc1") ∷ []; live = (50, "Dc1") ∷ [] })
unfolding collect_new_tickets getticket first_owned has get put evaluate_stake_pool_ticket
    sum_commitments sum_values msg_tx_from_hex
collected_new = refl

abbrev outs : List TxOut
outs = record { value = 100; pk_script = [] } ∷ record { value = 0; pk_script = 7 ∷ [] } ∷ []

sum_commitments-total_example :
    sum_commitments dcrd 0 outs 0 ≡ total 0 (commitments dcrd (odds outs))
sum_commitments-total_example = sum_commitments-total dcrd outs

abbrev ticket_out : TxOut
ticket_out = record { value = 100; pk_script = [] }

abbrev commitment_out : TxOut
commitment_out = record { value = 0; pk_script = 7 ∷ [] }

abbrev paid : MsgTx
paid = record { tx_out = ticket_out ∷ commitment_out ∷ []; tx_rest = [] }

paid_Pays : Pays dcrd pool ticket_out commitment_out (ticket_out ∷ commitment_out ∷ []) 700
unfolding commitments has get
paid_Pays = ("DsFee", 7 ∷ [], 7, refl, refl, refl, refl, refl)

Pays-accepted_example : evaluate_stake_pool_ticket dcrd pool paid 700 ≡ some (ok true)
Pays-accepted_example = Pays-accepted dcrd pool paid ticket_out commitment_out [] 700 refl paid_Pays

paid_accepted : evaluate_stake_pool_ticket dcrd pool paid 700 ≡ some (ok true)
unfolding evaluate_stake_pool_ticket sum_commitments sum_values has get
paid_accepted = refl

accepted-Pays_example :
    Pays dcrd pool ticket_out commitment_out (ticket_out ∷ commitment_out ∷ []) 700
accepted-Pays_example =
    accepted-Pays dcrd pool paid ticket_out commitment_out [] 700 refl paid_accepted

collect-store-Files_example :
    (s : Sorted) × (collect_new_tickets dcrd wallet looked_up pool notification ≡ some s)
    × ((before : Stakepoold)
        → Files dcrd wallet looked_up pool notification before (store_new_tickets s before))
unfolding owner first_owned has get evaluate_stake_pool_ticket sum_commitments sum_values
    msg_tx_from_hex
collect-store-Files_example =
    collect-store-Files dcrd wallet looked_up pool notification
      ((live "Dc1", refl), ((ignored "Dc1", refl), ((skipped, refl), ((skipped, refl), tt))))

abbrev spent : SpentMissedTicketsForBlock
spent = record { block_hash = 9; block_height = 700; sm_tickets = (10, true) ∷ (70, false) ∷ [] }

collect-delete-Removes_example :
    Removes wallet looked_up spent pool
      (delete_spent_missed (collect_spent_missed wallet looked_up spent) pool)
collect-delete-Removes_example = collect-delete-Removes wallet looked_up spent pool

abbrev new_added : Map Hash String
new_added = (40, "Dc1") ∷ []

abbrev block : WinningTicketsForBlock
block = record { block_hash = 9; block_height = 700; winning_tickets = 20 ∷ 99 ∷ 10 ∷ [] }

-- Ticket 10 is voted with its user's bits, ticket 20 with those of the pool.
winners_bits :
    winners pool (20 ∷ 99 ∷ 10 ∷ []) ≡ some (winner pool 20 "Dc2" ∷ winner pool 10 "Dc1" ∷ [])
unfolding winners get
winners_bits = refl

-- The wallet has no vote for ticket 20.
abbrev voter : Voter
voter = record {
  generate_vote = λ hash height ticket bits extended. if ticket == 20 then ok "" else ok "vote";
  send_raw_transaction = λ tx. ok 77;
}

process_winning_tickets-Voted_example :
    (ws : List TicketMetadata) × (process_winning_tickets dcrd voter pool block ≡ some ws)
    × (map (λ w. w.ticket) ws ≡ managed pool (20 ∷ 99 ∷ 10 ∷ []))
    × All (Voted dcrd voter pool block) ws
process_winning_tickets-Voted_example = process_winning_tickets-Voted dcrd voter pool block refl

abbrev no_counts : Counts
no_counts = record { voted_count = 0; dupe_count = 0; error_count = 0 }

count_votes-length_example :
    all_counts (
      count_votes
        (record (metadata 1) { err = some "-32603: already have transaction aa" } ∷ metadata 2 ∷ [])
        no_counts)
    ≡ 2
count_votes-length_example =
    count_votes-length
      (record (metadata 1) { err = some "-32603: already have transaction aa" } ∷ metadata 2 ∷ [])
      no_counts

pool-IsWellFormed : IsWellFormed pool
unfolding get
pool-IsWellFormed = record {
  added = (refl, tt);
  ignored = (refl, tt);
  live = (refl, (refl, (refl, tt)));
}

abbrev history : List Event
history =
    deletes (record { missedtickets = 20 ∷ []; spenttickets = 10 ∷ [] })
    ∷ sets_tickets new_added
    ∷ stores (record { ignored = (60, "Dc1") ∷ []; live = (50, "Dc1") ∷ [] })
    ∷ sets_users []
    ∷ []

status-run_example : status 40 (run history pool) ≡ status_run 40 history (status 40 pool)
unfolding get
status-run_example =
    status-run 40 history pool (tt, ((refl, tt), (((refl, tt), (refl, tt)), (tt, tt))))
      pool-IsWellFormed

gone_stays_gone_example :
    get 10 (run history (record pool { live_tickets_msa = [] })).live_tickets_msa ≡ none
unfolding get
gone_stays_gone_example =
    gone_stays_gone 10 history (record pool { live_tickets_msa = [] })
      (tt, ((refl, tt), (((refl, tt), (refl, tt)), (tt, tt))))
      (record { added = (refl, tt); ignored = (refl, tt); live = tt })
      (refl, (refl, (refl, (refl, tt)))) refl

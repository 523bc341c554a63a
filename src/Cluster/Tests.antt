-- ===== src/Cluster/Tests.antt =====
-- The theorems of Cluster at concrete inputs.
use dcrstakepool.Shared.{
  ℕ, ◌≡◌, refl, text_key, number_key, false, some, List, [], ◌∷◌, ok, inl, All,
}
use dcrstakepool.Shared.Map.{get, put}
use dcrstakepool.Stakepoold.{Hash, Stakepoold}
use dcrstakepool.Stakepoold.Updates.{update_ticket_data}
use dcrstakepool.Rpc.Tickets.{
  get_added_low_fee_tickets, set_added_low_fee_tickets, process_tickets, process_tickets_response,
  read_tickets,
}
use dcrstakepool.Client.Calls.{Conn, each, gather, first}
use dcrstakepool.Client.Reads.{connected, check_wallets}
use dcrstakepool.Client.Backend.{Backend}
use dcrstakepool.Client.Reads
use dcrstakepool.Client.Writes.{LowFeeTicket, User, db_tickets}
use dcrstakepool.Client.Writes
use dcrstakepool.Client.Tests.{one_byte, plain}
use dcrstakepool.Cluster.{delivered, reply_lost, Net, cluster, rpc, deliver}
use dcrstakepool.Cluster.Chosen.{last_address}
use dcrstakepool.Cluster.Tickets.{
  Proper, HasTickets, after_set, OldOrNew, set_added-everywhere, set_added-OldOrNew,
  set_added-get_added,
}
use dcrstakepool.Cluster.Prefs.{voting_config_of, set_user_voting_prefs-everywhere}

abbrev fresh : Stakepoold
fresh = record {
  added_low_fee_tickets_msa = (3, "Dc3") ∷ [];
  ignored_low_fee_tickets_msa = [];
  live_tickets_msa = (3, "Dc3") ∷ [];
  user_voting_config = [];
  cold_wallet_ext_pub = "dpub";
  fee_addrs = [];
  voting_config = record { vote_bits = 1; vote_version = 7; vote_bits_extended = "07" };
  testing = false;
}

-- Two calls arrive and the reply of the third is lost.
abbrev third_lost : Net
third_lost = record {
  servers = λ conn. fresh;
  deliveries = delivered ∷ delivered ∷ reply_lost ∷ [];
}

abbrev both : List Conn
both = 0 ∷ 1 ∷ []

abbrev low_fee : List LowFeeTicket
low_fee = record { ticket_address = "Dc5"; ticket_hash = "05" } ∷ []

abbrev others : Backend Net ℕ ℕ
others = plain

third_lost-Proper : Proper third_lost
unfolding get
third_lost-Proper k = (refl, tt)

-- The two writes arrive.
set_done :
    (Writes.set_added_low_fee_tickets (cluster one_byte others) both one_byte low_fee third_lost).0
    ≡ ok tt
unfolding Writes.set_added_low_fee_tickets cluster connected gather check_wallets each rpc deliver
set_done = refl

-- The first read is lost, and the second is answered by instance 1.
get_done :
    (Reads.get_added_low_fee_tickets
      (cluster one_byte others)
      both
      one_byte
      (after_set one_byte others low_fee both third_lost)).0
    ≡ ok ((5, "Dc5") ∷ [])
unfolding Writes.set_added_low_fee_tickets Reads.get_added_low_fee_tickets cluster connected gather
    check_wallets each rpc deliver first get_added_low_fee_tickets set_added_low_fee_tickets
    process_tickets process_tickets_response read_tickets db_tickets update_ticket_data put
get_done = refl

set_added-everywhere_example :
    All
      (λ k. HasTickets one_byte low_fee (
        (Writes.set_added_low_fee_tickets
            (cluster one_byte others)
            both
            one_byte
            low_fee
            third_lost).1.servers
          k))
      both
set_added-everywhere_example =
    set_added-everywhere one_byte others low_fee both third_lost (λ h. refl) (λ conn net k. refl)
      third_lost-Proper set_done

set_added-OldOrNew_example :
    OldOrNew one_byte others low_fee
      ((3, "Dc3") ∷ [])
      ((after_set one_byte others low_fee both third_lost).servers 1)
set_added-OldOrNew_example =
    set_added-OldOrNew one_byte others low_fee both third_lost 1 (λ conn net k. refl)

set_added-get_added_example : get {K = Hash} 5 ((5, "Dc5") ∷ []) ≡ last_address one_byte 5 low_fee
set_added-get_added_example =
    set_added-get_added one_byte others low_fee both third_lost ((5, "Dc5") ∷ []) (λ h. refl)
      (λ conn net k. refl) third_lost-Proper set_done get_done 5

abbrev alice : User
alice = record {
  multi_sig_address = "Dc1";
  multi_sig_script = "51";
  height_registered = 40;
  vote_bits = 5;
  vote_bits_version = 7;
}

prefs_done :
    (Writes.set_user_voting_prefs (cluster one_byte others) both ((1, alice) ∷ []) third_lost).0
    ≡ ok tt
unfolding Writes.set_user_voting_prefs cluster connected gather check_wallets each rpc deliver
prefs_done = refl

set_user_voting_prefs-everywhere_example :
    All
      (λ k.
        get "Dc1"
          ((Writes.set_user_voting_prefs
              (cluster one_byte others)
              both
              ((1, alice) ∷ [])
              third_lost).1.servers
            k).user_voting_config
        ≡ some (voting_config_of 1 alice))
      both
set_user_voting_prefs-everywhere_example =
    set_user_voting_prefs-everywhere one_byte others ((1, alice) ∷ []) both third_lost 1 alice
      (tt, tt) (inl (refl, refl)) prefs_done

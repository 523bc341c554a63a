-- ===== src/Cluster/Tickets.antt =====
-- The added low fee tickets, from the page of the administrator to every instance and back.
use dcrstakepool.Shared.{
  ◌≡◌, refl, sym, ap, subst, ◌∙◌, String, number_key, none, some, List, [], ok, err, inl, inr, ◌⊎◌,
  All, All-map, arith, Result-cases,
}
use dcrstakepool.Shared.Map.{Map, get, has, IsMap}
use dcrstakepool.Stakepoold.{Hash, Stakepoold}
use dcrstakepool.Stakepoold.Updates.{update_ticket_data}
use dcrstakepool.Stakepoold.Updates.Effects.{update_ticket_data-Replaces}
use dcrstakepool.Rpc.Messages.{Ticket, Chainhash}
use dcrstakepool.Rpc.Tickets.{
  process_tickets, process_tickets_response, get_added_low_fee_tickets, set_added_low_fee_tickets,
}
use dcrstakepool.Rpc.Tickets.RoundTrip.{ReadsBack, get-process_tickets_response, read_tickets-IsMap}
use dcrstakepool.Client.Calls.{Conn, Call, each, first}
use dcrstakepool.Client.Calls.Laws.{each_establishes, each_keeps, first_sound, gather_keeps}
use dcrstakepool.Client.Backend.{Backend}
use dcrstakepool.Client.Reads.{connected}
use dcrstakepool.Client.Reads.Agreement.{connected-state}
use dcrstakepool.Client.Reads
use dcrstakepool.Client.Writes.{LowFeeTicket, db_ticket, db_tickets}
use dcrstakepool.Client.Writes
use dcrstakepool.Cluster.{Net, rpc, cluster}
use dcrstakepool.Cluster.Chosen.{chosen, last_address, get-chosen}
use dcrstakepool.Cluster.OneCall.{rpc-ok, rpc_keeps}

-- The instance has exactly the tickets of the database as its added tickets, and votes each for its address.
abbrev pub HasTickets : Chainhash → List LowFeeTicket → Stakepoold → Type 0
HasTickets c tickets spd =
    ((t : Hash) → get t spd.added_low_fee_tickets_msa ≡ last_address c t tickets)
    × ((t : Hash) (msa : String)
        → last_address c t tickets ≡ some msa
        → (get t spd.live_tickets_msa ≡ some msa) × (get t spd.ignored_low_fee_tickets_msa ≡ none))

-- Every instance's added tickets list no key twice.
abbrev pub Proper : Net → Type 0
Proper net = (k : Conn) → IsMap (net.servers k).added_low_fee_tickets_msa

-- The instance has exactly these added tickets, and votes each for its address.
abbrev pub Has : Map Hash String → Stakepoold → Type 0
Has new spd =
    (spd.added_low_fee_tickets_msa ≡ new)
    × ((t : Hash) (msa : String)
        → get t new ≡ some msa
        → (get t spd.live_tickets_msa ≡ some msa) × (get t spd.ignored_low_fee_tickets_msa ≡ none))

Has-HasTickets :
    (c : Chainhash) (tickets : List LowFeeTicket) (spd : Stakepoold)
    → ReadsBack c
    → Has (chosen c tickets) spd
    → HasTickets c tickets spd
Has-HasTickets c tickets spd back (same, voted) = (
  λ t. ap (λ m. get t m) same ∙ get-chosen c t tickets back,
  λ t msa there. voted t msa (get-chosen c t tickets back ∙ there),
)

update_ticket_data-Has :
    (new : Map Hash String) (spd : Stakepoold)
    → IsMap new
    → IsMap spd.added_low_fee_tickets_msa
    → Has new (update_ticket_data new spd)
update_ticket_data-Has new spd h k =
    let r = update_ticket_data-Replaces new spd h k in
    (r.added, λ t msa there. (ground (arith, r.live t), unfold has in ground (arith, r.ignored t)))

module _ {Info UserInfo : Type 0} (c : Chainhash) (other : Backend Net Info UserInfo)
    (tickets : List LowFeeTicket) where
  chosen-IsMap : IsMap (chosen c tickets)
  chosen-IsMap = read_tickets-IsMap c (db_tickets c tickets) [] tt

  -- The call of the handler at one instance.
  abbrev set_call : Conn → Call Net (Unit {0})
  set_call conn = rpc conn (λ spd. (tt, set_added_low_fee_tickets c (db_tickets c tickets) spd))

  set_call-Proper : (conn : Conn) (net : Net) → Proper net → Proper (set_call conn net).1
  unfolding set_added_low_fee_tickets update_ticket_data
  set_call-Proper conn net h k =
      rpc_keeps conn _ (λ _ spd. IsMap spd.added_low_fee_tickets_msa) (λ spd _. chosen-IsMap) net k
        (h k)

  set_call-Has :
      (conn : Conn) (net : Net)
      → Proper net
      → (set_call conn net).0 ≡ ok tt
      → Has (chosen c tickets) ((set_call conn net).1.servers conn)
  unfolding set_added_low_fee_tickets
  set_call-Has conn net h done =
      subst (Has (chosen c tickets)) (sym (rpc-ok conn _ net tt done).1)
        (update_ticket_data-Has (chosen c tickets) (net.servers conn) chosen-IsMap (h conn))

  set_call_keeps :
      (k conn : Conn) (net : Net)
      → Proper net
      → Has (chosen c tickets) (net.servers k)
      → Has (chosen c tickets) ((set_call conn net).1.servers k)
  unfolding set_added_low_fee_tickets update_ticket_data
  set_call_keeps k conn net h has_it =
      (rpc_keeps conn _ (λ _ spd. IsMap spd.added_low_fee_tickets_msa × Has (chosen c tickets) spd)
        (λ spd q. (chosen-IsMap, update_ticket_data-Has (chosen c tickets) spd chosen-IsMap q.0))
        net k (h k, has_it)).1

  -- The connectivity check of the front end reads the instances and changes none.
  abbrev pub ReadsOnly : Type 0
  ReadsOnly =
      (conn : Conn) (net : Net) (k : Conn)
      → (other.wallet_info conn net).1.servers k ≡ net.servers k

  connected_keeps :
      (P : Conn → Stakepoold → Type 0)
      → ReadsOnly
      → (conns : List Conn) (net : Net) → ((k : Conn) → P k (net.servers k))
      → (k : Conn) → P k ((connected (cluster c other) conns net).1.servers k)
  unfolding cluster
  connected_keeps P reads conns net h k = rw (connected-state (cluster c other) conns net) (
      gather_keeps other.wallet_info (λ v. P k (v.servers k))
        (λ conn v q. subst (P k) (sym (reads conn v k)) q) conns net (h k))

  each-Has :
      (conns : List Conn) (net : Net)
      → Proper net
      → (each set_call conns net).0 ≡ ok tt
      → All (λ k. Has (chosen c tickets) ((each set_call conns net).1.servers k)) conns
  each-Has conns net =
      each_establishes set_call Proper (λ k v. Has (chosen c tickets) (v.servers k)) set_call-Proper
        set_call-Has set_call_keeps conns net

  set_added-Has :
      (conns : List Conn) (net : Net)
      → ReadsOnly
      → Proper net
      → (Writes.set_added_low_fee_tickets (cluster c other) conns c tickets net).0 ≡ ok tt
      → All
          (λ k.
            Has (chosen c tickets) (
              (Writes.set_added_low_fee_tickets (cluster c other) conns c tickets net).1.servers k))
          conns
  unfolding Writes.set_added_low_fee_tickets
  set_added-Has conns net reads proper h =
      elim (Result-cases (connected (cluster c other) conns net).0) [
        | inr (m, e) ↦ let clash : err m ≡ ok tt = rw e at h in absurd (cc)
        | inl (t, e) ↦ rw e (
            unfold cluster in
            each-Has conns (connected (cluster c other) conns net).1
              (connected_keeps (λ _ spd. IsMap spd.added_low_fee_tickets_msa) reads conns net
                proper)
              (rw e at h))
      ]

  -- If a hash is read back from its own bytes and the front end's SetAddedLowFeeTickets succeeds, every
  -- instance has exactly the tickets of the database whose hashes parse as its added tickets, each under the
  -- address of the last row with its hash, and each of them among its live and not among its ignored tickets.
  pub set_added-everywhere :
      (conns : List Conn) (net : Net)
      → ReadsBack c
      → ReadsOnly
      → Proper net
      → (Writes.set_added_low_fee_tickets (cluster c other) conns c tickets net).0 ≡ ok tt
      → All
          (λ k.
            HasTickets c tickets (
              (Writes.set_added_low_fee_tickets (cluster c other) conns c tickets net).1.servers k))
          conns
  set_added-everywhere conns net back reads proper h =
      All-map conns
        (λ k has_it.
          Has-HasTickets c tickets
            ((Writes.set_added_low_fee_tickets (cluster c other) conns c tickets net).1.servers k)
            back has_it)
        (set_added-Has conns net reads proper h)

  abbrev pub after_set : List Conn → Net → Net
  after_set conns net = (Writes.set_added_low_fee_tickets (cluster c other) conns c tickets net).1

  abbrev pub OldOrNew : Map Hash String → Stakepoold → Type 0
  OldOrNew old spd =
      (spd.added_low_fee_tickets_msa ≡ old) ⊎ (spd.added_low_fee_tickets_msa ≡ chosen c tickets)

  set_call-OldOrNew :
      (old : Map Hash String) (k conn : Conn) (net : Net)
      → OldOrNew old (net.servers k)
      → OldOrNew old ((set_call conn net).1.servers k)
  unfolding set_added_low_fee_tickets update_ticket_data
  set_call-OldOrNew old k conn net h =
      rpc_keeps conn _ (λ _ spd. OldOrNew old spd) (λ spd _. inr refl) net k h

  -- Whether it succeeds or fails, every instance has the added tickets of before or the new ones.
  pub set_added-OldOrNew :
      (conns : List Conn) (net : Net) (k : Conn)
      → ReadsOnly
      → OldOrNew (net.servers k).added_low_fee_tickets_msa ((after_set conns net).servers k)
  unfolding Writes.set_added_low_fee_tickets
  set_added-OldOrNew conns net k reads =
      let old : Map Hash String = (net.servers k).added_low_fee_tickets_msa in
      let checked =
        connected_keeps
          (λ j spd. spd.added_low_fee_tickets_msa ≡ (net.servers j).added_low_fee_tickets_msa) reads
          conns net (λ j. refl) k in
      elim (Result-cases (connected (cluster c other) conns net).0) [
        | inr (m, e) ↦ rw (after_set, e) (inl checked)
        | inl (t, e) ↦
            rw (after_set, e)
              (unfold cluster in
                each_keeps set_call (λ v. OldOrNew old (v.servers k)) (set_call-OldOrNew old k)
                  conns (connected (cluster c other) conns net).1 (inl checked))
      ]

  -- The call of GetAddedLowFeeTickets at one instance.
  abbrev get_call : Conn → Call Net (List Ticket)
  get_call conn = rpc conn (λ spd. (get_added_low_fee_tickets c spd, spd))

  -- The instances have the added tickets that they have in `before`.
  abbrev SameAdded : Net → Net → Type 0
  SameAdded before net =
      (k : Conn)
      → (net.servers k).added_low_fee_tickets_msa ≡ (before.servers k).added_low_fee_tickets_msa

  get_call-SameAdded :
      (before : Net) (conn : Conn) (net : Net)
      → SameAdded before net
      → SameAdded before (get_call conn net).1
  get_call-SameAdded before conn net i k =
      rpc_keeps conn _
        (λ j spd. spd.added_low_fee_tickets_msa ≡ (before.servers j).added_low_fee_tickets_msa)
        (λ spd q. q) net k (i k)

  -- An answer that reads as `new`.
  abbrev pub ReadsAs : Map Hash String → List Ticket → Type 0
  ReadsAs new reply = (t : Hash) → get t (process_tickets_response c reply) ≡ get t new

  get_call-ReadsAs :
      (new : Map Hash String) (conn : Conn) (net : Net) (reply : List Ticket)
      → ReadsBack c
      → IsMap new
      → (net.servers conn).added_low_fee_tickets_msa ≡ new
      → (get_call conn net).0 ≡ ok reply
      → ReadsAs new reply
  unfolding get_added_low_fee_tickets
  get_call-ReadsAs new conn net reply back proper e h t =
      let sent : reply ≡ process_tickets c new =
        (rpc-ok conn _ net reply h).0 ∙ ap (process_tickets c) e in
      rw sent (get-process_tickets_response c new back proper t)

  -- The front end that reads the added tickets after it has set them, over calls that may be lost, gets
  -- exactly the tickets of the database whose hashes parse, each under the address of the last row with its
  -- hash.
  pub set_added-get_added :
      (conns : List Conn) (net : Net) (m : Map Hash String)
      → ReadsBack c
      → ReadsOnly
      → Proper net
      → (Writes.set_added_low_fee_tickets (cluster c other) conns c tickets net).0 ≡ ok tt
      → (Reads.get_added_low_fee_tickets (cluster c other) conns c (after_set conns net)).0 ≡ ok m
      → (t : Hash) → get t m ≡ last_address c t tickets
  unfolding Reads.get_added_low_fee_tickets cluster
  set_added-get_added conns net m back reads proper h got t =
      let none_left : String = "GetAddedLowFeeTickets RPC failed on all stakepoold instances" in
      let after = after_set conns net in
      elim (Result-cases (first get_call none_left conns after).0) [
        | inr (e, failed) ↦ let clash : err e ≡ ok m = rw failed at got in absurd (cc)
        | inl (reply, answered) ↦
            let read : ok (process_tickets_response c reply) ≡ ok m = rw answered at got in
            let is_m : process_tickets_response c reply ≡ m = cc in
            let sound =
              All-map conns
                (λ k has_it v r i done.
                  get_call-ReadsAs (chosen c tickets) k v r back chosen-IsMap (i k ∙ has_it.0) done)
                (set_added-Has conns net reads proper h) in
            subst (λ (x : Map Hash String). get t x ≡ last_address c t tickets) is_m
              (first_sound get_call (SameAdded after) (ReadsAs (chosen c tickets))
                  (get_call-SameAdded after) none_left conns after reply sound (λ k. refl) answered
                  t
                ∙ get-chosen c t tickets back)
      ]

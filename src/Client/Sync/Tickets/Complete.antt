-- ===== src/Client/Sync/Tickets/Complete.antt =====
-- Which tickets syncTickets of stakepooldclient/stakepooldclient.go sends to each instance.
use dcrstakepool.Shared.{
  ◌≡◌, sym, subst, true, List, [], ◌∷◌, ok, err, inl, inr, ◌⊎◌, arith, Bool-cases, Result-cases,
}
use dcrstakepool.Shared.Map.{get, put, has, get-put}
use dcrstakepool.Stakepoold.{Bytes}
use dcrstakepool.Client.Calls.{Conn, gather}
use dcrstakepool.Client.Calls.Laws.{Answers, gather-Answers}
use dcrstakepool.Client.Backend.{Backend}
use dcrstakepool.Client.Sync.Tickets.{
  ByteSet, bytes_key, bytes_beq_iff, add_hashes, all_hashes, add_missing_tickets, add_all_missing,
  sync_tickets,
}

abbrev pub Reports : Bytes → List Bytes → Type 0
Reports h [] = ⊥
Reports h (x ∷ xs) = (h ≡ x) ⊎ Reports h xs

abbrev pub AnyReports : Bytes → List (List Bytes) → Type 0
AnyReports h [] = ⊥
AnyReports h (r ∷ rs) = Reports h r ⊎ AnyReports h rs

has-put_keep : (h k : Bytes) (s : ByteSet) → has h s ≡ true → has h (put k tt s) ≡ true
unfolding has
has-put_keep h k s q = ground (arith, get-put k h tt s)

has-put_self : (h : Bytes) (s : ByteSet) → has h (put h tt s) ≡ true
unfolding has
has-put_self h s = ground (arith, get-put h h tt s, bytes_beq_iff h h)

has-add_hashes_keep :
    (h : Bytes) (r : List Bytes) (s : ByteSet) → has h s ≡ true → has h (add_hashes r s) ≡ true
unfolding add_hashes
has-add_hashes_keep h [] s q = q
has-add_hashes_keep h (x ∷ r) s q = has-add_hashes_keep h r (put x tt s) (has-put_keep h x s q)

has-add_hashes :
    (h : Bytes) (r : List Bytes) (s : ByteSet) → Reports h r → has h (add_hashes r s) ≡ true
unfolding add_hashes
has-add_hashes h [] s q = elim q [ ]
has-add_hashes h (x ∷ r) s (inl e) =
    has-add_hashes_keep h r (put x tt s)
      (subst (λ (y : Bytes). has h (put y tt s) ≡ true) e (has-put_self h s))
has-add_hashes h (x ∷ r) s (inr q) = has-add_hashes h r (put x tt s) q

has-all_hashes_keep :
    (h : Bytes) (rs : List (List Bytes)) (s : ByteSet)
    → has h s ≡ true
    → has h (all_hashes rs s) ≡ true
unfolding all_hashes
has-all_hashes_keep h [] s q = q
has-all_hashes_keep h (r ∷ rs) s q =
    has-all_hashes_keep h rs (add_hashes r s) (has-add_hashes_keep h r s q)

has-all_hashes :
    (h : Bytes) (rs : List (List Bytes)) (s : ByteSet)
    → AnyReports h rs
    → has h (all_hashes rs s) ≡ true
unfolding all_hashes
has-all_hashes h [] s q = elim q [ ]
has-all_hashes h (r ∷ rs) s (inl q) =
    has-all_hashes_keep h rs (add_hashes r s) (has-add_hashes h r s q)
has-all_hashes h (r ∷ rs) s (inr q) = has-all_hashes h rs (add_hashes r s) q

-- What a set holds that was built from a reply, the reply reports.
Reports-has :
    (h : Bytes) (r : List Bytes) (s : ByteSet)
    → has h (add_hashes r s) ≡ true
    → Reports h r ⊎ (has h s ≡ true)
unfolding add_hashes
Reports-has h [] s q = inr q
Reports-has h (x ∷ r) s q = elim (Reports-has h r (put x tt s) q) [
  | inl there ↦ inl (inr there)
  | inr before ↦ elim (Bool-cases (bytes_key.equal x h)) [
    | inl same ↦ inl (inl (sym ((bytes_beq_iff x h).0 same)))
    | inr differs ↦ inr (unfold has in ground (arith, get-put x h tt s))
  ]
]

has-nil : (h : Bytes) → has {V = Unit {0}} h [] ≡ true → ⊥
unfolding has get
has-nil h q = ground arith

has-cons :
    (h t : Bytes) (u : Unit {0}) (s : ByteSet)
    → has h ((t, u) ∷ s) ≡ true
    → (t ≡ h) ⊎ (has h s ≡ true)
unfolding has get
has-cons h t u s q = elim (Bool-cases (bytes_key.equal t h)) [
  | inl same ↦ inl ((bytes_beq_iff t h).0 same)
  | inr differs ↦ inr (ground arith)
]

module _ {W Info UserInfo : Type 0} (b : Backend W Info UserInfo) where
  -- The instance reported the ticket, or has accepted it.
  abbrev pub Knows : Conn → List Bytes → Bytes → Type 0
  Knows conn reported h =
      Reports h reported ⊎ ((v : W) × ((b.add_missing_ticket conn h v).0 ≡ ok tt))

  -- One round that succeeds: the ticket is known, and the rest of the rounds succeed.
  add_missing_tickets-cons :
      (conn : Conn) (reported : List Bytes) (t : Bytes) (u : Unit {0}) (tickets : ByteSet) (w : W)
      → (add_missing_tickets b conn (add_hashes reported []) ((t, u) ∷ tickets) w).0 ≡ ok tt
      → Knows conn reported t
        × ((w' : W) × ((add_missing_tickets b conn (add_hashes reported []) tickets w').0 ≡ ok tt))
  unfolding add_missing_tickets
  add_missing_tickets-cons conn reported t u tickets w q =
      elim (Bool-cases (has t (add_hashes reported []))) [
        | inl there ↦ elim (Reports-has t reported [] there) [
          | inl reports ↦ (inl reports, (w, rw (there, add_missing_tickets) at q))
          | inr never ↦ absurd (has-nil t never)
        ]
        | inr lacks ↦ elim (Result-cases (b.add_missing_ticket conn t w).0) [
          | inl (a, e) ↦ (
            inr (w, e),
            ((b.add_missing_ticket conn t w).1, rw (lacks, e, add_missing_tickets) at q),
          )
          | inr (m, e) ↦
              let clash : err m ≡ ok tt = rw (lacks, e, add_missing_tickets) at q in absurd (cc)
        ]
      ]

  add_missing_tickets-Knows :
      (conn : Conn) (reported : List Bytes) (tickets : ByteSet) (w : W) (h : Bytes)
      → (add_missing_tickets b conn (add_hashes reported []) tickets w).0 ≡ ok tt
      → has h tickets ≡ true
      → Knows conn reported h
  add_missing_tickets-Knows conn reported [] w h q there = absurd (has-nil h there)
  add_missing_tickets-Knows conn reported ((t, u) ∷ tickets) w h q there =
      let (knows, (w', rest)) = add_missing_tickets-cons conn reported t u tickets w q in
      elim (has-cons h t u tickets there) [
        | inl same ↦ subst (Knows conn reported) same knows
        | inr later ↦ add_missing_tickets-Knows conn reported tickets w' h rest later
      ]

  -- For each connection and the tickets that it reported.
  abbrev pub AllKnow : Bytes → List Conn → List (List Bytes) → Type 0
  AllKnow h [] replies = Unit
  AllKnow h (conn ∷ conns) [] = Unit
  AllKnow h (conn ∷ conns) (reported ∷ replies) = Knows conn reported h × AllKnow h conns replies

  add_all_missing-AllKnow :
      (tickets : ByteSet) (conns : List Conn) (replies : List (List Bytes)) (w : W) (h : Bytes)
      → (add_all_missing b tickets conns replies w).0 ≡ ok tt
      → has h tickets ≡ true
      → AllKnow h conns replies
  unfolding add_all_missing
  add_all_missing-AllKnow tickets [] replies w h q there = tt
  add_all_missing-AllKnow tickets (conn ∷ conns) [] w h q there = tt
  add_all_missing-AllKnow tickets (conn ∷ conns) (reported ∷ replies) w h q there =
      elim (Result-cases (add_missing_tickets b conn (add_hashes reported []) tickets w).0) [
        | inl (a, e) ↦ (
          add_missing_tickets-Knows conn reported tickets w h e there,
          add_all_missing-AllKnow tickets conns replies
              (add_missing_tickets b conn (add_hashes reported []) tickets w).1 h
              (rw (e, add_all_missing) at q) there,
        )
        | inr (m, e) ↦ let clash : err m ≡ ok tt = rw (e, add_all_missing) at q in absurd (cc)
      ]

  -- If syncTickets succeeds, then every ticket that some instance reported was reported by each
  -- instance, or has been accepted by it.
  pub sync_tickets-AllKnow :
      (conns : List Conn) (w : W)
      → (sync_tickets b conns w).0 ≡ ok tt
      → (replies : List (List Bytes)) × Answers (λ conn. b.get_tickets conn true) conns replies
        × ((h : Bytes) → AnyReports h replies → AllKnow h conns replies)
  unfolding sync_tickets
  sync_tickets-AllKnow conns w q =
      elim (Result-cases (gather (λ conn. b.get_tickets conn true) conns w).0) [
        | inr (m, e) ↦ let clash : err m ≡ ok tt = rw e at q in absurd (cc)
        | inl (replies, e) ↦ (
          replies,
          gather-Answers (λ conn. b.get_tickets conn true) conns w replies e,
          λ h some_reports.
              add_all_missing-AllKnow (all_hashes replies []) conns replies
                (gather (λ conn. b.get_tickets conn true) conns w).1 h (rw e at q)
                (has-all_hashes h replies [] some_reports),
        )
      ]

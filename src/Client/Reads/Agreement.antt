-- ===== src/Client/Reads/Agreement.antt =====
-- The reads of stakepooldclient/stakepooldclient.go that compare the instances.
use dcrstakepool.Shared.{
  ◌≡◌, refl, ap, subst, String, text_key, ◌==◌, true, some, List, [], ◌∷◌, ok, err, inl, inr, All,
  All-map, eq_iff, Bool-cases, arith, Result-cases,
}
use dcrstakepool.Rpc.Messages.{WalletInfoResponse, ValidateAddressResponse}
use dcrstakepool.Client.Calls.{Conn, gather}
use dcrstakepool.Client.Calls.Laws.{Answers, gather-Answers, each-All}
use dcrstakepool.Client.Backend.{Backend}
use dcrstakepool.Client.Reads.{
  check_wallets, same_response, check_same, agreed, wallet_info, connected, validate_address,
  check_ext_pub, cross_check_cold_wallet_ext_pubs,
}

abbrev pub Ready : WalletInfoResponse → Type 0
Ready r = (r.daemon_connected ≡ true) × (r.unlocked ≡ true)

check_wallets-Ready : (rs : List WalletInfoResponse) → check_wallets rs ≡ ok tt → All Ready rs
unfolding check_wallets
check_wallets-Ready [] h = tt
check_wallets-Ready (r ∷ rs) h = ground (arith, check_wallets-Ready rs)

same_response-eq : (r v : ValidateAddressResponse) → same_response r v ≡ true → r ≡ v
unfolding same_response
same_response-eq r v h = ground (arith, eq_iff r.pub_key_addr v.pub_key_addr)

check_same-All :
    (v : ValidateAddressResponse) (rs : List ValidateAddressResponse)
    → check_same v rs ≡ true
    → All (λ r. r ≡ v) rs
unfolding check_same
check_same-All v [] h = tt
check_same-All v (r ∷ rs) h = elim (Bool-cases (same_response r v)) [
  | inl same ↦ (same_response-eq r v same, check_same-All v rs (ground arith))
  | inr differs ↦ absurd (ground arith)
]

agreed-All :
    (rs : List ValidateAddressResponse) (v : ValidateAddressResponse)
    → agreed rs ≡ ok (some v)
    → All (λ r. r ≡ v) rs
unfolding agreed
agreed-All [] v h = tt
agreed-All (r ∷ rs) v h = elim (Bool-cases (check_same r (r ∷ rs))) [
  | inl same ↦
      let picked : ok (some r) ≡ ok (some v) = rw same at h in
      let first_is : r ≡ v = cc in
      subst (λ (x : ValidateAddressResponse). All (λ y. y ≡ x) (r ∷ rs)) first_is
        (check_same-All r (r ∷ rs) same)
  | inr differs ↦ absurd (ground arith)
]

module _ {W Info UserInfo : Type 0} (b : Backend W Info UserInfo) (conns : List Conn) where
  -- The check changes what the calls change.
  pub connected-state : (w : W) → (connected b conns w).1 ≡ (gather b.wallet_info conns w).1
  unfolding connected wallet_info
  connected-state w = elim (Result-cases (gather b.wallet_info conns w).0) [
    | inl (rs, e) ↦ rw e refl
    | inr (m, e) ↦ rw e refl
  ]

  -- The connectivity check passes only if every instance has answered that its wallet is connected to
  -- dcrd and unlocked.
  pub connected-Ready :
      (w : W)
      → (connected b conns w).0 ≡ ok tt
      → (rs : List WalletInfoResponse) × Answers b.wallet_info conns rs × All Ready rs
  unfolding connected
  connected-Ready w h = elim (Result-cases (gather b.wallet_info conns w).0) [
    | inl (rs, e) ↦
        (rs, gather-Answers b.wallet_info conns w rs e, check_wallets-Ready rs (rw (e) at h))
    | inr (m, e) ↦ let clash = rw e at h in absurd (cc)
  ]

  -- An address is validated only if every instance has given the answer that is returned.
  pub validate_address-agrees :
      (addr : String) (w : W) (v : ValidateAddressResponse)
      → (validate_address b conns addr w).0 ≡ ok (some v)
      → (rs : List ValidateAddressResponse) × Answers
          (λ conn. b.validate_address conn addr)
          conns
          rs
        × All (λ r. r ≡ v) rs
  unfolding validate_address
  validate_address-agrees addr w v h =
      elim (Result-cases (gather (λ conn. b.validate_address conn addr) conns w).0) [
        | inl (rs, e) ↦ (
          rs,
          gather-Answers (λ conn. b.validate_address conn addr) conns w rs e,
          agreed-All rs v (rw e at h),
        )
        | inr (m, e) ↦ let clash = rw e at h in absurd (cc)
      ]

  -- The cross-check passes only if every instance has answered with the key of the front end.
  pub cross_check_agrees :
      (ext_pub : String) (w : W)
      → (cross_check_cold_wallet_ext_pubs b conns ext_pub w).0 ≡ ok tt
      → All (λ c. (v : W) × ((b.get_cold_wallet_ext_pub c v).0 ≡ ok ext_pub)) conns
  unfolding cross_check_cold_wallet_ext_pubs check_ext_pub
  cross_check_agrees ext_pub w h =
      All-map conns (λ c answered. theirs c answered)
        (each-All (check_ext_pub b conns ext_pub) conns w h)
    where
      theirs :
          (c : Conn)
          → ((v : W) × ((check_ext_pub b conns ext_pub c v).0 ≡ ok tt))
          → (v : W) × ((b.get_cold_wallet_ext_pub c v).0 ≡ ok ext_pub)
      theirs c (v, passed) = elim (Result-cases (b.get_cold_wallet_ext_pub c v).0) [
        | inr (m, e) ↦ let clash : err m ≡ ok tt = rw (e, check_ext_pub) at passed in absurd (cc)
        | inl (key, e) ↦ elim (Bool-cases (key == ext_pub)) [
          | inl same ↦ (v, rw e (ap ok ((eq_iff key ext_pub).0 same)))
          | inr differs ↦ absurd (ground arith)
        ]
      ]

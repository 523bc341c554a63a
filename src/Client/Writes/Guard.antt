-- ===== src/Client/Writes/Guard.antt =====
-- CreateMultisig of stakepooldclient/stakepooldclient.go: on what the instances agree.
use dcrstakepool.Shared.{
  ◌≡◌, refl, sym, ◌∙◌, subst, String, text_key, ◌==◌, eq_iff, true, some, List, [], ◌∷◌, ok, err,
  inl, inr, All, All-map, arith, Bool-cases, Result-cases,
}
use dcrstakepool.Rpc.Messages.{CreateMultisigResponse}
use dcrstakepool.Client.Calls.{Conn, Call, gather}
use dcrstakepool.Client.Calls.Laws.{Answers, gather-Answers}
use dcrstakepool.Client.Backend.{Backend}
use dcrstakepool.Client.Reads.{connected}
use dcrstakepool.Client.Writes.{same_scripts, agreed_multisig, create_multisig}

-- Every response has the redeem script of the one that is returned.
abbrev pub SameScript : CreateMultisigResponse → CreateMultisigResponse → Type 0
SameScript r s = s.redeem_script ≡ r.redeem_script

same_scripts-All :
    (r : CreateMultisigResponse) (rs : List CreateMultisigResponse)
    → same_scripts (r ∷ rs) ≡ true
    → All (SameScript r) rs
unfolding same_scripts
same_scripts-All r [] h = tt
same_scripts-All r (s ∷ rs) h = elim (Bool-cases (r.redeem_script == s.redeem_script)) [
  | inl same ↦
      let eq : r.redeem_script ≡ s.redeem_script =
        (eq_iff r.redeem_script s.redeem_script).0 same in
      (
        sym eq,
        All-map rs (λ x q. q ∙ sym eq) (same_scripts-All s rs (rw (same, same_scripts) at h)),
      )
  | inr differs ↦ absurd (ground arith)
]

agreed_multisig-All :
    (rs : List CreateMultisigResponse) (r : CreateMultisigResponse)
    → agreed_multisig rs ≡ ok (some r)
    → All (SameScript r) rs
unfolding agreed_multisig
agreed_multisig-All [] r h = tt
agreed_multisig-All (s ∷ rs) r h = elim (Bool-cases (same_scripts (s ∷ rs))) [
  | inl same ↦
      let picked : ok (some s) ≡ ok (some r) = rw same at h in
      let first_is : s ≡ r = cc in
      subst (λ (x : CreateMultisigResponse). All (SameScript x) (s ∷ rs)) first_is
        (refl, same_scripts-All s rs same)
  | inr differs ↦ absurd (ground arith)
]

module _ {W Info UserInfo : Type 0} (b : Backend W Info UserInfo) (conns : List Conn) where
  -- A multisig address is returned only if every instance has answered with its redeem script.
  pub create_multisig-agrees :
      (address : List String) (w : W) (r : CreateMultisigResponse)
      → (create_multisig b conns address w).0 ≡ ok (some r)
      → (rs : List CreateMultisigResponse) × Answers
          (λ conn. b.create_multisig conn address)
          conns
          rs
        × All (SameScript r) rs
  unfolding create_multisig
  create_multisig-agrees address w r h = elim (Result-cases (connected b conns w).0) [
    | inr (m, e) ↦ let clash : err m ≡ ok (some r) = rw e at h in absurd (cc)
    | inl (t, ready) ↦
        let v : W = (connected b conns w).1 in
        let call : Conn → Call W CreateMultisigResponse = λ conn. b.create_multisig conn address in
        elim (Result-cases (gather call conns v).0) [
          | inr (m, e) ↦ let clash : err m ≡ ok (some r) = rw (ready, e) at h in absurd (cc)
          | inl (rs, e) ↦
              (rs, gather-Answers call conns v rs e, agreed_multisig-All rs r (rw (ready, e) at h))
        ]
  ]

-- ===== src/Wallet/Addresses.antt =====
-- CreateMultisig and AddMissingTicket of backend/stakepoold/stakepool/stakepool.go.
use dcrstakepool.Shared.{◌≡◌, subst, String, List, [], ◌∷◌, Result, ok, err, inl, inr, Result-cases}
use dcrstakepool.Stakepoold.{Hash}
use dcrstakepool.Rpc.Messages.{CreateMultisigResponse, Chainhash}
use dcrstakepool.Rpc.Tickets.RoundTrip.{ReadsBack}
use dcrstakepool.Wallet.{Connections, TxRawResult, decode_all, create_multisig, add_missing_ticket}

-- Each address decodes to the one at its place.
abbrev pub Decodes : (String → Result String) → List String → List String → Type 0
Decodes decode [] [] = Unit
Decodes decode [] (d ∷ ds) = ⊥
Decodes decode (a ∷ addresses) [] = ⊥
Decodes decode (a ∷ addresses) (d ∷ ds) = (decode a ≡ ok d) × Decodes decode addresses ds

decode_all-Decodes :
    (decode : String → Result String) (addresses ds : List String)
    → decode_all decode addresses ≡ ok ds
    → Decodes decode addresses ds
unfolding decode_all
decode_all-Decodes decode [] ds h =
    let nothing : [] ≡ ds = cc in subst (Decodes decode []) nothing tt
decode_all-Decodes decode (a ∷ addresses) ds h = elim (Result-cases (decode a)) [
  | inr (m, e) ↦ let clash : err m ≡ ok ds = rw (e, decode_all) at h in absurd (cc)
  | inl (d, e) ↦ elim (Result-cases (decode_all decode addresses)) [
    | inr (m, e') ↦ let clash : err m ≡ ok ds = rw (e, decode_all, e') at h in absurd (cc)
    | inl (rest, e') ↦
        let same : ok (d ∷ rest) ≡ ok ds = rw (e, decode_all, e') at h in
        let items : d ∷ rest ≡ ds = cc in
        subst (Decodes decode (a ∷ addresses)) items
          (e, decode_all-Decodes decode addresses rest e')
  ]
]

module _ {W Info UserInfo : Type 0} (k : Connections W Info UserInfo) where
  -- A multisig address is a 1-of-n of all addresses of the request, decoded, in their order.
  pub create_multisig-Decodes :
      (addresses : List String) (w : W) (r : CreateMultisigResponse)
      → (create_multisig k addresses w).0 ≡ ok r
      → (ds : List String) × Decodes k.decode_address addresses ds
        × ((k.wallet_create_multisig 1 ds w).0 ≡ ok r)
  unfolding create_multisig
  create_multisig-Decodes addresses w r h =
      elim (Result-cases (decode_all k.decode_address addresses)) [
        | inr (m, e) ↦ let clash : err m ≡ ok r = rw e at h in absurd (cc)
        | inl (ds, e) ↦ (ds, decode_all-Decodes k.decode_address addresses ds e, rw e at h)
      ]

  -- A ticket as GetTickets sends it is added by AddMissingTicket under its hash: the wallet is given
  -- the block and the transaction that dcrd has for this hash.
  pub add_missing_ticket-hash :
      (c : Chainhash) (hash : Hash) (w v : W) (tx : TxRawResult)
      → ReadsBack c
      → k.get_raw_transaction_verbose hash w ≡ (ok tx, v)
      → add_missing_ticket k c (c.clone_bytes hash) w ≡ k.add_transaction tx.block_hash tx.hex v
  unfolding add_missing_ticket
  add_missing_ticket-hash c hash w v tx back h = rw (back hash, h)

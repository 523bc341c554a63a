-- ===== src/Accounts/Emails.antt =====
-- The ids and the emails of the users, and the rows that are inserted with new ones.
pub mod Updates
pub mod Queries
pub mod Handlers
pub mod Passwords
pub mod Visits
use dcrstakepool.Shared.{
  ℕ, ◌+◌, ◌<◌, ◌≡◌, refl, sym, ap, subst, ◌∙◌, String, nat_beq, nat_beq_iff, Bool, true, false,
  List, [], ◌∷◌, ◌++◌, Result, ok, err, if◌then◌else◌, map, All, All-map, Bool-cases, inl, inr,
  arith,
}
use dcrstakepool.Accounts.{User, Tables, Outside}
use dcrstakepool.Accounts.Queries.{rows_where, change_where, only_row, has_id, has_email}
use dcrstakepool.Accounts.Keys.{Key, key_of, Distinct, same_id, map-snoc, Distinct-snoc, All-snoc}

-- `same_text` is an equivalence.
pub record IsCollation (same_text : String → String → Bool) : Type 0 where
  pub symmetric : (a b : String) → same_text a b ≡ true → same_text b a ≡ true
  pub transitive :
      (a b c : String) → same_text a b ≡ true → same_text b c ≡ true → same_text a c ≡ true

-- The keys of the rows: ids below the next one, no id twice, and no email twice.
pub record IsWellFormed (same_text : String → String → Bool) (ks : List Key) (next : ℕ)
    : Type 0 where
  pub ids_below : All (λ k. k.0 < next) ks
  pub ids_distinct : Distinct same_id ks
  pub emails_distinct : Distinct (λ k l. same_text k.1 l.1) ks

module _ (same_text : String → String → Bool) (collation : IsCollation same_text) where
  false_of : (t : Bool) → (t ≡ true → true ≡ false) → t ≡ false
  false_of true h = h refl
  false_of false h = refl

  -- No other row has the text of a row.
  others_differ :
      (email : String) (k : Key) (ks : List Key)
      → same_text k.1 email ≡ true
      → All (λ l. same_text k.1 l.1 ≡ false) ks
      → All (λ l. same_text l.1 email ≡ false) ks
  others_differ email k ks this d =
      All-map ks
        (λ l differs. false_of (same_text l.1 email) (λ that.
          sym (collation.transitive k.1 email l.1 this (collation.symmetric l.1 email that))
          ∙ differs))
        d

  abbrev holds : String → User → Bool
  holds email user = same_text user.email email

  rows_where-no_other :
      (email : String) (us : List User)
      → All (λ l. same_text l.1 email ≡ false) (map key_of us)
      → rows_where (holds email) us ≡ []
  unfolding rows_where
  rows_where-no_other email [] h = refl
  rows_where-no_other email (u ∷ us) h =
      ap (λ t. if t then u ∷ rows_where (holds email) us else rows_where (holds email) us) h.0
      ∙ rows_where-no_other email us h.1

  -- If no email is there twice, SelectOne fails only for an email that no row has.
  pub only_row-free :
      (email m : String) (us : List User)
      → Distinct (λ k l. same_text k.1 l.1) (map key_of us)
      → only_row (rows_where (holds email) us) ≡ err m
      → All (λ l. same_text l.1 email ≡ false) (map key_of us)
  unfolding rows_where
  only_row-free email m [] d e = tt
  only_row-free email m (u ∷ us) d e =
      looked (same_text u.email email) refl e (only_row-free email m us d.1)
    where
      looked :
          (t : Bool)
          → same_text u.email email ≡ t
          → only_row (if t then u ∷ rows_where (holds email) us else rows_where (holds email) us)
            ≡ err m
          → (only_row (rows_where (holds email) us) ≡ err m
              → All (λ l. same_text l.1 email ≡ false) (map key_of us))
          → (same_text u.email email ≡ false)
            × All (λ l. same_text l.1 email ≡ false) (map key_of us)
      looked true at_u found later =
          let empty =
            rows_where-no_other email us
              (others_differ email (key_of u) (map key_of us) at_u d.0) in
          let clash : ok u ≡ err m = ap (λ rows. only_row (u ∷ rows)) (sym empty) ∙ found in
          absurd (cc)
      looked false at_u found later = (at_u, later found)

  -- A row with the next id and an email that no row has.
  pub insert-IsWellFormed :
      (us : List User) (next : ℕ) (u : User)
      → IsWellFormed same_text (map key_of us) next
      → u.id ≡ next
      → All (λ l. same_text l.1 u.email ≡ false) (map key_of us)
      → IsWellFormed same_text (map key_of (us ++ u ∷ [])) (next + 1)
  insert-IsWellFormed us next u wf at_next free =
      subst (λ ks. IsWellFormed same_text ks (next + 1)) (sym (map-snoc us u))
        (record {
          ids_below =
              All-snoc _ (map key_of us) (key_of u)
                (All-map (map key_of us) (λ k h. below k h) wf.ids_below) last;
          ids_distinct =
              Distinct-snoc same_id (map key_of us) (key_of u) wf.ids_distinct
                (All-map (map key_of us) (λ k h. other k h) wf.ids_below);
          emails_distinct = Distinct-snoc _ (map key_of us) (key_of u) wf.emails_distinct free;
        })
    where
      below : (k : Key) → k.0 < next → k.0 < next + 1
      below k h = omega arith

      last : u.id < next + 1
      last = omega arith

      other : (k : Key) → k.0 < next → same_id k (key_of u) ≡ false
      other k h = ground arith

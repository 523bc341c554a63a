-- ===== src/Accounts/Emails/Updates.antt =====
-- The updates of rows of Users, and the keys of the rows.
use dcrstakepool.Shared.{
  All-each, ℕ, ◌<◌, ◌≡◌, refl, sym, ap, subst, ◌∙◌, String, nat_beq, nat_beq_iff, Bool, true, false,
  List, [], ◌∷◌, ok, if◌then◌else◌, map, All, All-map,
}
use dcrstakepool.Accounts.{User}
use dcrstakepool.Accounts.Queries.{rows_where, change_where, only_row, has_id}
use dcrstakepool.Accounts.Keys.{Key, key_of, Distinct, same_id, change_where-keys, only_row-Unique}
use dcrstakepool.Accounts.Emails.{IsCollation, IsWellFormed}

abbrev set_key : ℕ → String → Key → Key
set_key id email k = if nat_beq k.0 id then (k.0, email) else k

set_key-id : (id : ℕ) (email : String) (k : Key) → (set_key id email k).0 ≡ k.0
set_key-id id email k = chosen (nat_beq k.0 id)
  where
    chosen : (t : Bool) → (if t then (k.0, email) else k).0 ≡ k.0
    chosen true = refl
    chosen false = refl

All-mapped :
    (P Q : Key → Type 0) (f : Key → Key) (ks : List Key)
    → ((k : Key) → P k → Q (f k))
    → All P ks
    → All Q (map f ks)
All-mapped P Q f [] h all = tt
All-mapped P Q f (k ∷ ks) h all = (h k all.0, All-mapped P Q f ks h all.1)

All-both :
    (P Q R : Key → Type 0) (ks : List Key)
    → ((k : Key) → P k → Q k → R k)
    → All P ks
    → All Q ks
    → All R ks
All-both P Q R [] h ps qs = tt
All-both P Q R (k ∷ ks) h ps qs = (h k ps.0 qs.0, All-both P Q R ks h ps.1 qs.1)

Distinct-mapped :
    (P : Key → Type 0) (same same' : Key → Key → Bool) (f : Key → Key) (ks : List Key)
    → ((k l : Key) → P k → P l → same k l ≡ false → same' k l ≡ false → same (f k) (f l) ≡ false)
    → All P ks
    → Distinct same ks
    → Distinct same' ks
    → Distinct same (map f ks)
Distinct-mapped P same same' f [] h ps d d' = tt
Distinct-mapped P same same' f (k ∷ ks) h ps d d' = (
  All-mapped (λ l. P l × ((same k l ≡ false) × (same' k l ≡ false))) (λ l. same (f k) l ≡ false) f
      ks (λ l both. h k l ps.0 both.0 both.1.0 both.1.1)
      (All-both P _ _ ks (λ l p rest. (p, rest)) ps.1
        (All-both (λ l. same k l ≡ false) (λ l. same' k l ≡ false) _ ks (λ l a b. (a, b)) d.0
          d'.0)),
  Distinct-mapped P same same' f ks h ps.1 d.1 d'.1,
)

set_email-keys :
    (id : ℕ) (email : String) (us : List User)
    → map key_of (change_where (has_id id) (λ user. record user { email = email }) us)
      ≡ map (set_key id email) (map key_of us)
unfolding change_where
set_email-keys id email [] = refl
set_email-keys id email (u ∷ us) =
    ap (λ l. l ∷ map key_of (change_where (has_id id) (λ user. record user { email = email }) us))
      (chosen (nat_beq u.id id))
    ∙ ap (λ l. set_key id email (key_of u) ∷ l) (set_email-keys id email us)
  where
    chosen :
        (t : Bool)
        → key_of (if t then record u { email = email } else u)
          ≡ (if t then (u.id, email) else key_of u)
    chosen true = refl
    chosen false = refl

module _ (same_text : String → String → Bool) (collation : IsCollation same_text) where
  set_key-differs :
      (id : ℕ) (email : String) (k l : Key)
      → same_text k.1 email ≡ false
      → same_text l.1 email ≡ false
      → same_text k.1 l.1 ≡ false
      → same_id k l ≡ false
      → same_text (set_key id email k).1 (set_key id email l).1 ≡ false
  set_key-differs id email k l free_k free_l differ ids =
      chosen (nat_beq k.0 id) (nat_beq l.0 id) refl refl
    where
      backwards : (t : Bool) → same_text email l.1 ≡ t → t ≡ false
      backwards true e = sym (collation.symmetric email l.1 e) ∙ free_l
      backwards false e = refl

      one_id : nat_beq k.0 id ≡ true → nat_beq l.0 id ≡ true → nat_beq k.0 l.0 ≡ true
      one_id e f =
          (nat_beq_iff k.0 l.0).1 ((nat_beq_iff k.0 id).0 e ∙ sym ((nat_beq_iff l.0 id).0 f))

      chosen :
          (t u : Bool)
          → nat_beq k.0 id ≡ t
          → nat_beq l.0 id ≡ u
          → same_text (if t then (k.0, email) else k).1 (if u then (l.0, email) else l).1 ≡ false
      chosen true true e f = let clash = one_id e f in absurd (cc)
      chosen true false e f = backwards (same_text email l.1) refl
      chosen false true e f = free_k
      chosen false false e f = differ

  -- A user gets an email that no row has.
  pub set_email-IsWellFormed :
      (id : ℕ) (email : String) (us : List User) (next : ℕ)
      → IsWellFormed same_text (map key_of us) next
      → All (λ l. same_text l.1 email ≡ false) (map key_of us)
      → IsWellFormed same_text
          (map key_of (change_where (has_id id) (λ user. record user { email = email }) us))
          next
  set_email-IsWellFormed id email us next wf free =
      subst (λ ks. IsWellFormed same_text ks next) (sym (set_email-keys id email us))
        (record {
          ids_below =
              All-mapped (λ k. k.0 < next) (λ k. k.0 < next) (set_key id email) (map key_of us)
                (λ k h. subst (λ n. n < next) (sym (set_key-id id email k)) h) wf.ids_below;
          ids_distinct =
              Distinct-mapped (λ _. Unit {0}) same_id same_id (set_key id email) (map key_of us)
                (λ k l _ _ differ _. ids k l differ) (All-each (map key_of us) (λ _. tt))
                wf.ids_distinct wf.ids_distinct;
          emails_distinct =
              Distinct-mapped (λ k. same_text k.1 email ≡ false) (λ k l. same_text k.1 l.1) same_id
                (set_key id email) (map key_of us)
                (λ k l a b differ other. set_key-differs id email k l a b differ other) free
                wf.emails_distinct wf.ids_distinct;
        })
    where
      ids :
          (k l : Key)
          → same_id k l ≡ false
          → same_id (set_key id email k) (set_key id email l) ≡ false
      ids k l differ =
          ap (λ n. nat_beq n (set_key id email l).0) (set_key-id id email k)
          ∙ ap (λ n. nat_beq k.0 n) (set_key-id id email l)
          ∙ differ

-- The row of an id takes the place of itself, with the same id and email.
pub update_user-keys :
    (id : ℕ) (us : List User) (user user' : User)
    → only_row (rows_where (has_id id) us) ≡ ok user
    → key_of user' ≡ key_of user
    → map key_of (change_where (has_id user'.id) (λ _. user') us) ≡ map key_of us
update_user-keys id us user user' found same =
    change_where-keys (has_id user'.id) (λ _. user') us
      (All-map us (λ v unique at_v. same ∙ ap key_of (sym (unique (at_id v at_v))))
        (only_row-Unique (has_id id) us user found).1)
  where
    at_id : (v : User) → nat_beq v.id user'.id ≡ true → nat_beq v.id id ≡ true
    at_id v at_v = (nat_beq_iff v.id id).1 (
        (nat_beq_iff v.id user'.id).0 at_v
        ∙ ap (λ k. k.0) same
        ∙ (nat_beq_iff user.id id).0 (only_row-Unique (has_id id) us user found).0)

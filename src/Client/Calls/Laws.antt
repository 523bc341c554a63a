-- ===== src/Client/Calls/Laws.antt =====
-- Rules for the loops over the connections.
use dcrstakepool.Shared.{
  ◌≡◌, refl, sym, ap, ◌∙◌, subst, String, List, [], ◌∷◌, Result, ok, err, ◌⊎◌, inl, inr, All,
  Result-cases,
}
use dcrstakepool.Client.Calls.{Conn, Call, each, gather, first, cons_result}

-- `conn` is one of the connections.
abbrev pub Among : Conn → List Conn → Type 0
Among conn [] = ⊥
Among conn (c ∷ cs) = (conn ≡ c) ⊎ Among conn cs

module _ {W : Type 0} (call : Conn → Call W (Unit {0})) where
  -- What every call keeps, the loop keeps, also where it fails.
  pub each_keeps :
      (P : W → Type 0)
      → ((c : Conn) (w : W) → P w → P (call c w).1)
      → (conns : List Conn) (w : W) → P w
      → P (each call conns w).1
  unfolding each
  each_keeps P keeps [] w h = h
  each_keeps P keeps (c ∷ cs) w h = elim (Result-cases (call c w).0) [
    | inl (a, e) ↦ rw (e, each) (each_keeps P keeps cs (call c w).1 (keeps c w h))
    | inr (m, e) ↦ rw (e, each) (keeps c w h)
  ]

  each-cons :
      (c : Conn) (cs : List Conn) (w : W)
      → (call c w).0 ≡ ok tt
      → each call (c ∷ cs) w ≡ each call cs (call c w).1
  unfolding each
  each-cons c cs w e = rw (e, each)

  -- If a successful call to `c` makes `Q c` true, and no call makes it false again, then it is true of
  -- every connection after a loop that succeeds; all this where `Inv` holds, which every call keeps.
  pub each_establishes :
      (Inv : W → Type 0) (Q : Conn → W → Type 0)
      → ((c : Conn) (w : W) → Inv w → Inv (call c w).1)
      → ((c : Conn) (w : W) → Inv w → (call c w).0 ≡ ok tt → Q c (call c w).1)
      → ((c d : Conn) (w : W) → Inv w → Q c w → Q c (call d w).1)
      → (conns : List Conn) (w : W) → Inv w
      → (each call conns w).0 ≡ ok tt
      → All (λ c. Q c (each call conns w).1) conns
  unfolding each
  each_establishes Inv Q inv makes keeps [] w i h = tt
  each_establishes Inv Q inv makes keeps (c ∷ cs) w i h = elim (Result-cases (call c w).0) [
    | inl (a, e) ↦
        let rest = rw (each-cons c cs w e) at h in
        let v = (call c w).1 in
        subst (λ (v : W). All (λ k. Q k v) (c ∷ cs)) (sym (ap (λ r. r.1) (each-cons c cs w e)))
          (
            (each_keeps (λ u. Inv u × Q c u) (λ d u q. (inv d u q.0, keeps c d u q.0 q.1)) cs v
                (inv c w i, makes c w i e)).1,
            each_establishes Inv Q inv makes keeps cs v (inv c w i) rest,
          )
    | inr (m, e) ↦ let failed : err m ≡ ok tt = rw (e, each) at h in absurd (cc)
  ]

module _ {W A : Type 0} (call : Conn → Call W A) where
  -- An answer of the loop has what the answers of its connections have, under an invariant that the
  -- calls keep.
  pub first_sound :
      (Inv : W → Type 0) (P : A → Type 0)
      → ((c : Conn) (w : W) → Inv w → Inv (call c w).1)
      → (m : String) (conns : List Conn) (w : W) (a : A)
      → All (λ c. (v : W) (r : A) → Inv v → (call c v).0 ≡ ok r → P r) conns
      → Inv w
      → (first call m conns w).0 ≡ ok a
      → P a
  unfolding first
  first_sound Inv P inv m [] w a sound i h = cc
  first_sound Inv P inv m (c ∷ cs) w a (here, sound) i h = elim (Result-cases (call c w).0) [
    | inl (b, e) ↦ let same : ok b ≡ ok a = rw (e, first) at h in here w a i (e ∙ same)
    | inr (n, e) ↦ first_sound Inv P inv m cs (call c w).1 a sound (inv c w i) (rw (e, first) at h)
  ]

  -- One connection that always answers is enough for an answer.
  pub first_total :
      (m : String) (conns : List Conn) (good : Conn)
      → Among good conns
      → ((w : W) → (a : A) × ((call good w).0 ≡ ok a))
      → (w : W) → (a : A) × ((first call m conns w).0 ≡ ok a)
  unfolding first
  first_total m [] good among answers w = absurd among
  first_total m (c ∷ cs) good among answers w = elim (Result-cases (call c w).0) [
    | inl (b, e) ↦ (b, rw (e, first))
    | inr (n, e) ↦ elim among [
      | inl here ↦
          let (a, yes_a) = answers w in
          let clash : err n ≡ ok a = sym e ∙ ap (λ k. (call k w).0) (sym here) ∙ yes_a in
          absurd (cc)
      | inr later ↦
          let (a, found) = first_total m cs good later answers (call c w).1 in
          (a, rw (e, first) found)
    ]
  ]

  cons_result-state : (a : A) (p : Result (List A) × W) → (cons_result a p).1 ≡ p.1
  cons_result-state a (ok as', w) = refl
  cons_result-state a (err e, w) = refl

  -- What every call keeps, the loop that gathers the responses keeps.
  pub gather_keeps :
      (P : W → Type 0)
      → ((c : Conn) (w : W) → P w → P (call c w).1)
      → (conns : List Conn) (w : W) → P w
      → P (gather call conns w).1
  unfolding gather
  gather_keeps P keeps [] w h = h
  gather_keeps P keeps (c ∷ cs) w h = elim (Result-cases (call c w).0) [
    | inr (m, e) ↦ rw (e, gather) (keeps c w h)
    | inl (a, e) ↦
        rw (e, gather, cons_result-state a (gather call cs (call c w).1))
          (gather_keeps P keeps cs (call c w).1 (keeps c w h))
  ]

  -- Each response of a loop that succeeds comes from its own connection, in their order.
  abbrev pub Answers : List Conn → List A → Type 0
  Answers [] [] = Unit
  Answers [] (a ∷ as') = ⊥
  Answers (c ∷ cs) [] = ⊥
  Answers (c ∷ cs) (a ∷ as') = ((w : W) × ((call c w).0 ≡ ok a)) × Answers cs as'

  pub gather-Answers :
      (conns : List Conn) (w : W) (as' : List A)
      → (gather call conns w).0 ≡ ok as'
      → Answers conns as'
  unfolding gather
  gather-Answers [] w [] h = tt
  gather-Answers [] w (a ∷ as') h = absurd (cc)
  gather-Answers (c ∷ cs) w as' h = elim (Result-cases (call c w).0) [
    | inr (n, e) ↦ let clash : err n ≡ ok as' = rw (e, gather) at h in absurd (cc)
    | inl (b, e) ↦ elim (Result-cases (gather call cs (call c w).1).0) [
      | inr (n, e') ↦ let clash : err n ≡ ok as' = rw (e, gather, e') at h in absurd (cc)
      | inl (bs, e') ↦
          let same : ok (b ∷ bs) ≡ ok as' = rw (e, gather, e') at h in
          let items : b ∷ bs ≡ as' = cc in
          subst (Answers (c ∷ cs)) items ((w, e), gather-Answers cs (call c w).1 bs e')
    ]
  ]

-- A loop that succeeds has made a successful call to every connection.
pub each-All :
    {W : Type 0} (call : Conn → Call W (Unit {0})) (conns : List Conn) (w : W)
    → (each call conns w).0 ≡ ok tt
    → All (λ c. (v : W) × ((call c v).0 ≡ ok tt)) conns
each-All call [] w h = tt
each-All call (c ∷ cs) w h = elim (Result-cases (call c w).0) [
  | inl (a, e) ↦ ((w, e), each-All call cs (call c w).1 (rw (each-cons call c cs w e) at h))
  | inr (m, e) ↦ let failed : err m ≡ ok tt = unfold each in rw (e, each) at h in absurd (cc)
]

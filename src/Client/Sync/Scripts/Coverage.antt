-- ===== src/Client/Sync/Scripts/Coverage.antt =====
-- Which scripts syncScripts of stakepooldclient/stakepooldclient.go sends to each instance.
use dcrstakepool.Shared.{
  ℕ, ◌^◌, ◌≤◌, ◌<◌, ◌≡◌, refl, sym, ap, subst, String, text_key, ◌==◌, if◌then◌else◌, true, false,
  List, [], ◌∷◌, ◌++◌, Result, ok, err, inl, inr, ◌⊎◌, All, All-map, Option, none, some, arith,
  Bool-cases, Result-cases,
}
use dcrstakepool.Shared.Map.{Map, get, has, put, or_else, get-put}
use dcrstakepool.Stakepoold.{Bytes}
use dcrstakepool.Client.Calls.{Conn, gather}
use dcrstakepool.Client.Calls.Laws.{Answers, gather-Answers}
use dcrstakepool.Client.Backend.{Backend}
use dcrstakepool.Client.Writes.{User}
use dcrstakepool.Client.Sync.Scripts.{
  ScriptHeight, minus_one, all_redeem_scripts, keep_known, known_scripts, Missing, add_missing,
  missing_scripts, nothing_missing, is_empty, import_missing, import_all, sync_scripts,
}

abbrev pub Listed : Bytes → List Bytes → Type 0
Listed s [] = ⊥
Listed s (x ∷ xs) = (s ≡ x) ⊎ Listed s xs

Listed-append_left : (s : Bytes) (xs ys : List Bytes) → Listed s xs → Listed s (xs ++ ys)
Listed-append_left s (x ∷ xs) ys (inl e) = inl e
Listed-append_left s (x ∷ xs) ys (inr h) = inr (Listed-append_left s xs ys h)
Listed-append_left s [] ys h = elim h [ ]

Listed-append_last : (s : Bytes) (xs : List Bytes) → Listed s (xs ++ s ∷ [])
Listed-append_last s [] = inl refl
Listed-append_last s (x ∷ xs) = inr (Listed-append_last s xs)

-- A height that is not negative.
abbrev pub IsHeight : ℕ → Type 0
IsHeight h = h < 2 ^ 63

-- The request has the script, and rescans from its height or from before.
abbrev pub Covers : Missing → ScriptHeight → Type 0
Covers m v = Listed v.script m.scripts × (m.earliest_height ≤ v.height)

-- A request under construction.
abbrev Sane : Missing → Type 0
Sane m = (m.earliest_height ≡ minus_one) ⊎ IsHeight m.earliest_height

add_missing-height :
    (v : ScriptHeight) (m : Missing)
    → IsHeight v.height
    → Sane m
    → IsHeight (add_missing v m).earliest_height × ((add_missing v m).earliest_height ≤ v.height)
unfolding add_missing
add_missing-height v m h (inl e) = ground arith
add_missing-height v m h (inr e) = ground arith

add_missing-le :
    (v : ScriptHeight) (m : Missing) (h : ℕ)
    → IsHeight v.height
    → IsHeight m.earliest_height
    → m.earliest_height ≤ h
    → (add_missing v m).earliest_height ≤ h
unfolding add_missing
add_missing-le v m h vh mh le = ground arith

add_missing-Listed : (v : ScriptHeight) (m : Missing) → Listed v.script (add_missing v m).scripts
unfolding add_missing
add_missing-Listed v m = Listed-append_last v.script m.scripts

add_missing-keeps :
    (v : ScriptHeight) (m : Missing) (s : Bytes)
    → Listed s m.scripts
    → Listed s (add_missing v m).scripts
unfolding add_missing
add_missing-keeps v m s h = Listed-append_left s m.scripts (v.script ∷ []) h

module _ (known : Map String ScriptHeight) where
  missing_scripts-there :
      (k : String) (v : ScriptHeight) (scripts : Map String ScriptHeight) (m : Missing)
      → has k known ≡ true
      → missing_scripts known ((k, v) ∷ scripts) m ≡ missing_scripts known scripts m
  unfolding missing_scripts
  missing_scripts-there k v scripts m e = rw (e, missing_scripts)

  missing_scripts-lacks :
      (k : String) (v : ScriptHeight) (scripts : Map String ScriptHeight) (m : Missing)
      → has k known ≡ false
      → missing_scripts known ((k, v) ∷ scripts) m ≡ missing_scripts known scripts (add_missing v m)
  unfolding missing_scripts
  missing_scripts-lacks k v scripts m e = rw (e, missing_scripts)

  missing_scripts-Covers :
      (scripts : Map String ScriptHeight) (m : Missing) (u : ScriptHeight)
      → All (λ e. IsHeight e.1.height) scripts
      → IsHeight m.earliest_height
      → Covers m u
      → Covers (missing_scripts known scripts m) u
  missing_scripts-Covers [] m u hs mh c = unfold missing_scripts in c
  missing_scripts-Covers ((k, v) ∷ scripts) m u (h, hs) mh c = elim (Bool-cases (has k known)) [
    | inl there ↦
        rw (missing_scripts-there k v scripts m there) (missing_scripts-Covers scripts m u hs mh c)
    | inr lacks ↦ rw (missing_scripts-lacks k v scripts m lacks) (
        missing_scripts-Covers scripts (add_missing v m) u hs (add_missing-height v m h (inr mh)).0
          (add_missing-keeps v m u.script c.0, add_missing-le v m u.height h mh c.1))
  ]

  -- What the request `r` must do for the scripts that are not known.
  abbrev CoversUnknown : Missing → Map String ScriptHeight → Type 0
  CoversUnknown r scripts = All (λ e. has e.0 known ≡ false → Covers r e.1) scripts

  missing_scripts-CoversUnknown :
      (scripts : Map String ScriptHeight) (m : Missing)
      → All (λ e. IsHeight e.1.height) scripts
      → Sane m
      → CoversUnknown (missing_scripts known scripts m) scripts
  missing_scripts-CoversUnknown [] m hs sane = tt
  missing_scripts-CoversUnknown ((k, v) ∷ scripts) m (h, hs) sane =
      elim (Bool-cases (has k known)) [
        | inl there ↦
            subst (λ (r : Missing). CoversUnknown r ((k, v) ∷ scripts))
              (sym (missing_scripts-there k v scripts m there))
              ((λ lacks. absurd (cc)), missing_scripts-CoversUnknown scripts m hs sane)
        | inr lacks ↦
            let (low, le) = add_missing-height v m h sane in
            subst (λ (r : Missing). CoversUnknown r ((k, v) ∷ scripts))
              (sym (missing_scripts-lacks k v scripts m lacks))
              (
                (λ _.
                    missing_scripts-Covers scripts (add_missing v m) v hs low
                      (add_missing-Listed v m, le)),
                missing_scripts-CoversUnknown scripts (add_missing v m) hs (inr low),
              )
      ]

-- An address is one of those that an instance has reported.
abbrev pub Reported : String → List String → Type 0
Reported k [] = ⊥
Reported k (address ∷ addresses) = (address ≡ k) ⊎ Reported k addresses

-- Nothing is known of a script whose address was not reported.
known_scripts-lacks :
    (scripts : Map String ScriptHeight) (k : String) (reported : List String)
    (m : Map String ScriptHeight)
    → ¬ Reported k reported
    → has k m ≡ false
    → has k (known_scripts scripts reported m) ≡ false
unfolding known_scripts has
known_scripts-lacks scripts k [] m absent h = h
known_scripts-lacks scripts k (address ∷ addresses) m absent h =
    known_scripts-lacks scripts k addresses (keep_known address (get address scripts) m)
      (λ later. absent (inr later)) (kept (get address scripts))
  where
    kept : (found : Option ScriptHeight) → has k (keep_known address found m) ≡ false
    kept none = h
    kept (some script) = ground (
      arith,
      get-put address k script m,
      text_key.equal_iff address k,
      λ (e : address ≡ k). absent (inl e),
    )

-- What a request must do for an instance that has reported these addresses: every script of the database whose
-- address is not among them is in the request, and none lies before the rescan.
abbrev pub CoversAll : Missing → List String → Map String ScriptHeight → Type 0
CoversAll r reported scripts = All (λ e. ¬ Reported e.0 reported → Covers r e.1) scripts

request-CoversAll :
    (scripts : Map String ScriptHeight) (reported : List String)
    → All (λ e. IsHeight e.1.height) scripts
    → CoversAll
        (missing_scripts (known_scripts scripts reported []) scripts nothing_missing)
        reported
        scripts
unfolding has
request-CoversAll scripts reported hs =
    All-map scripts
      (λ e covers absent. covers (known_scripts-lacks scripts e.0 reported [] absent refl))
      (missing_scripts-CoversUnknown (known_scripts scripts reported []) scripts nothing_missing hs
        (inl refl))

is_empty-eq : (ss : List Bytes) → is_empty ss ≡ true → ss ≡ []
is_empty-eq [] h = refl
is_empty-eq (s ∷ ss) h = absurd (cc)

-- The request that goes to an instance which has reported these addresses.
abbrev pub request : Map String ScriptHeight → List String → Missing
request scripts reported =
    missing_scripts (known_scripts scripts reported []) scripts nothing_missing

abbrev script_of_user : Result Bytes → ℕ → Option ScriptHeight
script_of_user (err e) height = none
script_of_user (ok script) height = some (record { script = script; height = height })

-- The decoded script and the height of the last user with this address.
abbrev pub last_script : (String → Result Bytes) → String → List User → Option ScriptHeight
last_script decode_hex k [] = none
last_script decode_hex k (u ∷ users) = or_else (last_script decode_hex k users) (
    if u.multi_sig_address == k
    then script_of_user (decode_hex u.multi_sig_script) u.height_registered
    else none)

all_redeem_scripts-last :
    (decode_hex : String → Result Bytes) (k : String) (users : List User)
    (m scripts : Map String ScriptHeight)
    → all_redeem_scripts decode_hex users m ≡ ok scripts
    → get k scripts ≡ or_else (last_script decode_hex k users) (get k m)
unfolding all_redeem_scripts
all_redeem_scripts-last decode_hex k [] m scripts h =
    let same : ok m ≡ ok scripts = h in let e : m ≡ scripts = cc in ap (λ x. get k x) (sym e)
all_redeem_scripts-last decode_hex k (u ∷ users) m scripts h =
    decoded (decode_hex u.multi_sig_script) h
      (λ m'. all_redeem_scripts-last decode_hex k users m' scripts)
  where
    decoded :
        (x : Result Bytes)
        → (elim x [
          | err e ↦ err e
          | ok script ↦
              all_redeem_scripts decode_hex users (
                put u.multi_sig_address
                  (record { script = script; height = u.height_registered })
                  m)
        ])
          ≡ ok scripts
        → ((m' : Map String ScriptHeight)
            → all_redeem_scripts decode_hex users m' ≡ ok scripts
            → get k scripts ≡ or_else (last_script decode_hex k users) (get k m'))
        → get k scripts
          ≡ or_else
              (or_else
                (last_script decode_hex k users)
                (if u.multi_sig_address == k then script_of_user x u.height_registered else none))
              (get k m)
    decoded (err e) fails ih = absurd (cc)
    decoded (ok script) reads ih = ground (
      arith,
      ih (put u.multi_sig_address (record { script = script; height = u.height_registered }) m)
          reads,
      get-put u.multi_sig_address k (record { script = script; height = u.height_registered }) m,
    )

module _ {W Info UserInfo : Type 0} (b : Backend W Info UserInfo) where
  -- The instance needed nothing, or has accepted the request.
  abbrev pub Accepted : Missing → Conn → Type 0
  Accepted r conn =
      (r.scripts ≡ [])
      ⊎ ((v : W) × ((b.import_missing_scripts conn r.scripts r.earliest_height v).0 ≡ ok tt))

  -- For each connection and what it reported.
  abbrev pub Synced : Map String ScriptHeight → List Conn → List (List String) → Type 0
  Synced scripts [] addresses = Unit
  Synced scripts (conn ∷ conns) [] = Unit
  Synced scripts (conn ∷ conns) (reported ∷ addresses) =
      (Accepted (request scripts reported) conn
        × CoversAll (request scripts reported) reported scripts)
      × Synced scripts conns addresses

  import_missing-Accepted :
      (m : Missing) (conn : Conn) (w : W) → (import_missing b m conn w).0 ≡ ok tt → Accepted m conn
  unfolding import_missing
  import_missing-Accepted m conn w h = elim (Bool-cases (is_empty m.scripts)) [
    | inl empty ↦ inl (is_empty-eq m.scripts empty)
    | inr some_left ↦ inr (w, rw some_left at h)
  ]

  import_all-Synced :
      (scripts : Map String ScriptHeight) (conns : List Conn) (addresses : List (List String))
      (w : W)
      → All (λ e. IsHeight e.1.height) scripts
      → (import_all b scripts conns addresses w).0 ≡ ok tt
      → Synced scripts conns addresses
  unfolding import_all
  import_all-Synced scripts [] addresses w hs h = tt
  import_all-Synced scripts (conn ∷ conns) [] w hs h = tt
  import_all-Synced scripts (conn ∷ conns) (reported ∷ addresses) w hs h =
      elim (Result-cases (import_missing b (request scripts reported) conn w).0) [
        | inr (m, e) ↦ let clash : err m ≡ ok tt = rw (e, import_all) at h in absurd (cc)
        | inl (t, e) ↦ (
          (
            import_missing-Accepted (request scripts reported) conn w e,
            request-CoversAll scripts reported hs,
          ),
          import_all-Synced scripts conns addresses
              (import_missing b (request scripts reported) conn w).1 hs (rw (e, import_all) at h),
        )
      ]

  -- The scripts of the database are for each address the script and the height of the last user who has it.
  -- After syncScripts, with no negative height among them, every instance has reported its
  -- imported addresses, and has accepted a request with every script of the database whose address it has
  -- not reported and a rescan from no later than the height of each, or no script is to be sent to it.
  pub sync_scripts-Synced :
      (conns : List Conn) (decode_hex : String → Result Bytes) (users : List User) (w : W)
      (scripts : Map String ScriptHeight)
      → all_redeem_scripts decode_hex users [] ≡ ok scripts
      → All (λ e. IsHeight e.1.height) scripts
      → (sync_scripts b conns decode_hex users w).0 ≡ ok tt
      → ((k : String) → get k scripts ≡ last_script decode_hex k users)
        × ((addresses : List (List String)) × Answers b.list_imported_addresses conns addresses
            × Synced scripts conns addresses)
  unfolding sync_scripts get
  sync_scripts-Synced conns decode_hex users w scripts read hs h = (
    λ k. ground (arith, all_redeem_scripts-last decode_hex k users [] scripts read),
    elim (Result-cases (gather b.list_imported_addresses conns w).0) [
      | inr (m, e) ↦ let clash : err m ≡ ok tt = rw (read, e) at h in absurd (cc)
      | inl (addresses, e) ↦ (
        addresses,
        gather-Answers b.list_imported_addresses conns w addresses e,
        import_all-Synced scripts conns addresses (gather b.list_imported_addresses conns w).1 hs
            (rw (read, e) at h),
      )
    ],
  )

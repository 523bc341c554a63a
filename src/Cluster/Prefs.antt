-- ===== src/Cluster/Prefs.antt =====
-- The voting preferences, from the users of the database to every instance.
use dcrstakepool.Shared.{
  ℕ, ◌≡◌, ◌≢◌, refl, ap, ◌∙◌, String, text_key, eq_iff, some, List, [], ◌∷◌, ok, err, inl, inr, ◌⊎◌,
  All, All-map, arith, Result-cases,
}
use dcrstakepool.Shared.Map.{Map, get, put, get-put}
use dcrstakepool.Stakepoold.{UserVotingConfig}
use dcrstakepool.Stakepoold.Updates.{update_user_data}
use dcrstakepool.Rpc.Messages.{Chainhash}
use dcrstakepool.Rpc.Prefs.{uint16, uint32, read_prefs, set_user_voting_prefs}
use dcrstakepool.Client.Calls.{Conn, Call, each}
use dcrstakepool.Client.Calls.Laws.{each_establishes}
use dcrstakepool.Client.Backend.{Backend}
use dcrstakepool.Client.Reads.{connected}
use dcrstakepool.Client.Writes.{User, db_prefs}
use dcrstakepool.Client.Writes
use dcrstakepool.Cluster.{Net, rpc, cluster}
use dcrstakepool.Cluster.OneCall.{rpc-ok, rpc_keeps}

abbrev pub IsUser : ℕ → User → Map ℕ User → Type 0
IsUser id u [] = ⊥
IsUser id u ((userid, user) ∷ users) = ((id ≡ userid) × (u ≡ user)) ⊎ IsUser id u users

abbrev pub NoOther : String → Map ℕ User → Type 0
NoOther address users = All (λ e. e.1.multi_sig_address ≢ address) users

-- No two users have the same multisig address.
abbrev pub DistinctAddresses : Map ℕ User → Type 0
DistinctAddresses [] = Unit
DistinctAddresses ((userid, user) ∷ users) =
    NoOther user.multi_sig_address users × DistinctAddresses users

-- What stakepoold is to keep of a user.
abbrev pub voting_config_of : ℕ → User → UserVotingConfig
voting_config_of id u = record {
  userid = id;
  multi_sig_address = u.multi_sig_address;
  vote_bits = uint16 u.vote_bits;
  vote_bits_version = uint32 u.vote_bits_version;
}

get-read_prefs_other :
    (a : String) (users : Map ℕ User) (m : Map String UserVotingConfig)
    → NoOther a users
    → get a (read_prefs (db_prefs users) m) ≡ get a m
unfolding read_prefs db_prefs
get-read_prefs_other a [] m h = refl
get-read_prefs_other a ((userid, user) ∷ users) m (h, hs) =
    get-read_prefs_other a users (put user.multi_sig_address (voting_config_of userid user) m) hs
    ∙ ground (
      arith,
      get-put user.multi_sig_address a (voting_config_of userid user) m,
      eq_iff user.multi_sig_address a,
    )

get-read_prefs :
    (id : ℕ) (u : User) (users : Map ℕ User) (m : Map String UserVotingConfig)
    → DistinctAddresses users
    → IsUser id u users
    → get u.multi_sig_address (read_prefs (db_prefs users) m) ≡ some (voting_config_of id u)
unfolding read_prefs db_prefs
get-read_prefs id u [] m d i = elim i [ ]
get-read_prefs id u ((userid, user) ∷ users) m (d, ds) (inl (same_id, same)) =
    rw (same_id, same)
      (get-read_prefs_other user.multi_sig_address users
          (put user.multi_sig_address (voting_config_of userid user) m) d
        ∙ ground (
          arith,
          get-put user.multi_sig_address user.multi_sig_address (voting_config_of userid user) m,
          eq_iff user.multi_sig_address user.multi_sig_address,
        ))
get-read_prefs id u ((userid, user) ∷ users) m (d, ds) (inr i) =
    get-read_prefs id u users (put user.multi_sig_address (voting_config_of userid user) m) ds i

module _ {Info UserInfo : Type 0} (c : Chainhash) (other : Backend Net Info UserInfo)
    (users : Map ℕ User) where
  abbrev set_call : Conn → Call Net (Unit {0})
  set_call conn = rpc conn (λ spd. (tt, set_user_voting_prefs (db_prefs users) spd))

  abbrev Set : Conn → Net → Type 0
  Set conn net = (net.servers conn).user_voting_config ≡ read_prefs (db_prefs users) []

  set_call-Set :
      (conn : Conn) (net : Net) → (set_call conn net).0 ≡ ok tt → Set conn (set_call conn net).1
  unfolding set_user_voting_prefs update_user_data
  set_call-Set conn net done = ap (λ spd. spd.user_voting_config) (rpc-ok conn _ net tt done).1

  set_call_keeps : (k conn : Conn) (net : Net) → Set k net → Set k (set_call conn net).1
  unfolding set_user_voting_prefs update_user_data
  set_call_keeps k conn net h =
      rpc_keeps conn _ (λ _ spd. spd.user_voting_config ≡ read_prefs (db_prefs users) [])
        (λ spd q. refl) net k h

  each-Set :
      (conns : List Conn) (net : Net)
      → (each set_call conns net).0 ≡ ok tt
      → All (λ k. Set k (each set_call conns net).1) conns
  each-Set conns net h =
      each_establishes set_call (λ _. Unit) Set (λ conn v i. i) (λ conn v i. set_call-Set conn v)
        (λ k conn v i. set_call_keeps k conn v) conns net tt h

  everywhere :
      (conns : List Conn) (net : Net)
      → (Writes.set_user_voting_prefs (cluster c other) conns users net).0 ≡ ok tt
      → All (λ k. Set k (Writes.set_user_voting_prefs (cluster c other) conns users net).1) conns
  unfolding Writes.set_user_voting_prefs
  everywhere conns net h = elim (Result-cases (connected (cluster c other) conns net).0) [
    | inr (m, e) ↦ let clash : err m ≡ ok tt = rw e at h in absurd (cc)
    | inl (t, e) ↦
        rw e
          (unfold cluster in each-Set conns (connected (cluster c other) conns net).1 (rw e at h))
  ]

  -- If the front end's SetUserVotingPrefs succeeds and no two users have the same multisig address,
  -- every instance has for each user's address the preferences of this user, the bits modulo 2^16 and
  -- their version modulo 2^32.
  pub set_user_voting_prefs-everywhere :
      (conns : List Conn) (net : Net) (id : ℕ) (u : User)
      → DistinctAddresses users
      → IsUser id u users
      → (Writes.set_user_voting_prefs (cluster c other) conns users net).0 ≡ ok tt
      → All
          (λ k.
            get u.multi_sig_address
              ((Writes.set_user_voting_prefs (cluster c other) conns users net).1.servers
                k).user_voting_config
            ≡ some (voting_config_of id u))
          conns
  set_user_voting_prefs-everywhere conns net id u distinct is_user h =
      All-map conns
        (λ k e. ap (get u.multi_sig_address) e ∙ get-read_prefs id u users [] distinct is_user)
        (everywhere conns net h)

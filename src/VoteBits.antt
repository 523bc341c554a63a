-- ===== src/VoteBits.antt =====
-- The vote bits of a user in controllers/main.go: IsValidVoteBits, choicesForAgendas, the bits that
-- VotingPost saves, and CheckAndResetUserVoteBits with the database functions that it calls.
pub mod Agendas
pub mod Keeps
pub mod Reset
pub mod Tests
use dcrstakepool.Shared.{
  ℕ, zero, suc, ◌+◌, nat_beq, number_key, String, text_key, ◌==◌, Bool, true, false, not, ◌||◌,
  Option, none, some, List, [], ◌∷◌, Result, ok, err, if◌then◌else◌,
}
use Prim.Native.Nat.{bit_and, bit_or, bit_xor}
use dcrstakepool.Shared.Map.{Map, put}
use dcrstakepool.Rpc.Prefs.{uint16, uint32}
use dcrstakepool.Client.Calls.{Call, continue, ◌>>=◌, ◌>>◌, pure}

-- chaincfg.Vote, the fields that are read; a choice is its bits.
pub record Vote : Type 0 where
  pub mask : ℕ
  pub choices : List ℕ

-- x &^ y
abbrev pub and_not : ℕ → ℕ → ℕ
and_not x y = bit_xor x (bit_and x y)

-- The two things that IsValidVoteBits takes from the choices of an agenda.
unfoldable pub use_choices : List ℕ → ℕ → ℕ
use_choices [] used_bits = used_bits
use_choices (bits ∷ choices) used_bits = use_choices choices (bit_or used_bits bits)

unfoldable pub matches : ℕ → List ℕ → Bool
matches masked [] = false
matches masked (bits ∷ choices) = nat_beq masked bits || matches masked choices

-- The loop over the deployments and the check after it.
unfoldable pub valid_choices : ℕ → List Vote → ℕ → Bool
valid_choices user_vote_bits [] used_bits = nat_beq (and_not user_vote_bits used_bits) 0
valid_choices user_vote_bits (d ∷ deployments) used_bits =
    let rest = valid_choices user_vote_bits deployments (use_choices d.choices used_bits) in
    if matches (bit_and user_vote_bits d.mask) d.choices then rest else false

unfoldable pub is_valid_vote_bits : List Vote → ℕ → Bool
is_valid_vote_bits deployments user_vote_bits =
    if nat_beq user_vote_bits 1
    then true
    else if nat_beq (bit_and user_vote_bits 1) 0
    then false
    else valid_choices user_vote_bits deployments 1

-- The loop over the choices of one agenda, from what it has selected so far.
unfoldable pub select_choice : ℕ → List ℕ → ℕ → ℕ
select_choice masked [] selected = selected
select_choice masked (bits ∷ choices) selected =
    select_choice masked choices (if nat_beq masked bits then bits else selected)

-- choicesSelected[i] for each i, in order
unfoldable pub choices_for_agendas : List Vote → ℕ → List ℕ
choices_for_agendas [] user_vote_bits = []
choices_for_agendas (d ∷ deployments) user_vote_bits =
    select_choice (bit_and user_vote_bits d.mask) d.choices 0
    ∷ choices_for_agendas deployments user_vote_bits

-- The loop of VotingPost over the values of the form, each as strconv.Atoi reads it; `none` is the
-- return with the flash "invalid agenda choice".
unfoldable pub generated_vote_bits : List (Result ℕ) → ℕ → Option ℕ
generated_vote_bits [] bits = some bits
generated_vote_bits (err e ∷ values) bits = none
generated_vote_bits (ok avi ∷ values) bits = generated_vote_bits values (bit_or bits (uint16 avi))

-- models.User, the fields that are read or written
pub record UserRow : Type 0 where
  pub id : ℕ
  pub multi_sig_address : String
  pub vote_bits : ℕ
  pub vote_bits_version : ℕ

-- The statements on the table of users.
pub record UserTable (W : Type 0) : Type 0 where
  pub select_one : ℕ → Call W UserRow
  pub update : UserRow → Call W (Unit {0})
  pub select_max : Call W ℕ

abbrev pub or_zero : {W : Type 0} → Result ℕ × W → ℕ × W
or_zero (ok n, w) = (n, w)
or_zero (err e, w) = (0, w)

abbrev pub default_vote_bits : ℕ
default_vote_bits = 1

module _ {W : Type 0} (t : UserTable W) where
  unfoldable pub get_user_max : W → ℕ × W
  get_user_max w = or_zero (t.select_max w)

  unfoldable pub update_vote_bits_by_id : ℕ → ℕ → Call W (Unit {0})
  update_vote_bits_by_id id vote_bits = do
    user ← t.select_one id
    t.update (record user { vote_bits = vote_bits })

  unfoldable pub update_vote_bits_version_by_id : ℕ → ℕ → Call W (Unit {0})
  update_vote_bits_version_by_id id vote_version = do
    user ← t.select_one id
    t.update (record user { vote_bits_version = vote_version })

  -- VotingPost from the parsed form on, for the user with this id; the result says whether the bits
  -- were saved.
  unfoldable pub voting_post : List Vote → ℕ → List (Result ℕ) → W → Bool × W
  voting_post deployments id values w = elim (generated_vote_bits values 1) [
    | none ↦ (false, w)
    | some bits ↦ elim (is_valid_vote_bits deployments bits) [
      | false ↦ (false, w)
      | true ↦
          let (r, w') = update_vote_bits_by_id id bits w in
          elim r [ err e ↦ (false, w') | ok _ ↦ (true, w') ]
    ]
  ]

  -- The second loop, from the map that it has built so far.
  unfoldable pub all_users : ℕ → ℕ → Map ℕ UserRow → W → Map ℕ UserRow × W
  all_users userid zero m w = (m, w)
  all_users userid (suc count) m w =
      let (r, w') = t.select_one userid w in
      elim r [
        | err e ↦ all_users (1 + userid) count m w'
        | ok user ↦
            all_users (1 + userid) count
              (if user.multi_sig_address == "" then m else put user.id user m) w'
      ]

  module _ (deployments : List Vote) (vote_version : ℕ) where
    -- What the first loop does with a user.
    unfoldable pub check_and_reset_user : ℕ → UserRow → Call W (Unit {0})
    check_and_reset_user userid user =
        if not (nat_beq (uint32 user.vote_bits_version) vote_version)
        then (update_vote_bits_version_by_id userid vote_version
            >> (if not (nat_beq (uint16 user.vote_bits) default_vote_bits)
                then update_vote_bits_by_id userid default_vote_bits
                else pure tt))
        else if not (is_valid_vote_bits deployments (uint16 user.vote_bits))
        then update_vote_bits_by_id userid default_vote_bits
        else pure tt

    -- `count` ids from `userid` on; an id that is not found is passed over.
    unfoldable pub check_and_reset_users : ℕ → ℕ → Call W (Unit {0})
    check_and_reset_users userid zero w = (ok tt, w)
    check_and_reset_users userid (suc count) w =
        let (r, w') = t.select_one userid w in
        elim r [
          | err e ↦ check_and_reset_users (1 + userid) count w'
          | ok user ↦
              (check_and_reset_user userid user >> check_and_reset_users (1 + userid) count) w'
        ]

    unfoldable pub check_and_reset_user_vote_bits : Call W (Map ℕ UserRow)
    check_and_reset_user_vote_bits w =
        let (user_max, w1) = get_user_max w in
        let (r, w2) = check_and_reset_users 1 user_max w1 in
        elim r [
          | err e ↦ (err e, w2)
          | ok _ ↦ let (users, w3) = all_users 1 user_max [] w2 in (ok users, w3)
        ]

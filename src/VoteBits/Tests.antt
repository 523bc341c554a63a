-- ===== src/VoteBits/Tests.antt =====
-- The theorems of VoteBits at concrete agendas.
use dcrstakepool.Shared.{
  ℕ, nat_beq, number_key, text_key, ◌≡◌, refl, String, Option, none, some, List, [], ◌∷◌, Result,
  ok, err, if◌then◌else◌, arith,
}
use dcrstakepool.Client.Calls.{pure}
use dcrstakepool.VoteBits.{
  Vote, use_choices, matches, valid_choices, is_valid_vote_bits, choices_for_agendas, UserRow,
  UserTable,
}
use dcrstakepool.VoteBits.Agendas.{masked_bits, choices_for_agendas-valid}

-- Abstain, no and yes, in two bits each.
abbrev two_agendas : List Vote
two_agendas =
    record { mask = 6; choices = 0 ∷ 2 ∷ 4 ∷ [] }
    ∷ record { mask = 24; choices = 0 ∷ 8 ∷ 16 ∷ [] }
    ∷ []

choices_for_agendas-valid_example : choices_for_agendas two_agendas 21 ≡ masked_bits two_agendas 21
unfolding is_valid_vote_bits valid_choices matches use_choices
choices_for_agendas-valid_example =
    choices_for_agendas-valid two_agendas 21 refl (λ e. absurd (omega arith))

-- A table of users as a function: the address, the bits and their version.
abbrev Prefs : Type 0
Prefs = String × ℕ × ℕ

abbrev row_of : ℕ → Option Prefs → Option UserRow
row_of id none = none
row_of id (some (a, b, v)) =
    some (record { id = id; multi_sig_address = a; vote_bits = b; vote_bits_version = v })

abbrev answer : ℕ → Option Prefs → (ℕ → Option Prefs) → Result UserRow × (ℕ → Option Prefs)
answer id none w = (err "no rows", w)
answer id (some (a, b, v)) w =
    (ok (record { id = id; multi_sig_address = a; vote_bits = b; vote_bits_version = v }), w)

abbrev prefs_of : UserRow → Prefs
prefs_of row = (row.multi_sig_address, row.vote_bits, row.vote_bits_version)

abbrev table : UserTable (ℕ → Option Prefs)
table = record {
  select_one = λ id w. answer id (w id) w;
  update = λ row w. (ok tt, λ i. if nat_beq i row.id then some (prefs_of row) else w i);
  select_max = pure 2;
}

-- User 1 has old preferences and user 2 is gone.
abbrev one_user : ℕ → Option Prefs
one_user id = if nat_beq id 1 then some ("Dc1", 5, 6) else none

abbrev reset_user : UserRow
reset_user = record { id = 1; multi_sig_address = "Dc1"; vote_bits = 1; vote_bits_version = 7 }

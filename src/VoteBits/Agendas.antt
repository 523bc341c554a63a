-- ===== src/VoteBits/Agendas.antt =====
-- IsValidVoteBits and choicesForAgendas of controllers/main.go, compared.
use dcrstakepool.Shared.{
  ℕ, nat_beq, nat_beq_iff, ◌≡◌, ◌≢◌, refl, ap, ◌∙◌, true, inl, inr, List, [], ◌∷◌, arith,
  Bool-cases, if◌then◌else◌,
}
use Prim.Native.Nat.{bit_and}
use dcrstakepool.VoteBits.{
  Vote, use_choices, matches, valid_choices, is_valid_vote_bits, select_choice, choices_for_agendas,
}

select_choice-here :
    (masked : ℕ) (choices : List ℕ) (selected : ℕ)
    → selected ≡ masked
    → select_choice masked choices selected ≡ masked
unfolding select_choice
select_choice-here masked [] selected h = h
select_choice-here masked (bits ∷ choices) selected h =
    select_choice-here masked choices (if nat_beq masked bits then bits else selected)
      (ground (arith, nat_beq_iff masked bits))

select_choice-matches :
    (masked : ℕ) (choices : List ℕ) (selected : ℕ)
    → matches masked choices ≡ true
    → select_choice masked choices selected ≡ masked
unfolding select_choice matches
select_choice-matches masked [] selected h = absurd (ground arith)
select_choice-matches masked (bits ∷ choices) selected h = elim (Bool-cases (nat_beq masked bits)) [
  | inl same ↦
      select_choice-here masked choices (if nat_beq masked bits then bits else selected)
        (ground (arith, nat_beq_iff masked bits))
  | inr differs ↦
      select_choice-matches masked choices (if nat_beq masked bits then bits else selected)
        (ground arith)
]

-- The bits of the vote under the mask of each agenda.
abbrev pub masked_bits : List Vote → ℕ → List ℕ
masked_bits [] bits = []
masked_bits (d ∷ deployments) bits = bit_and bits d.mask ∷ masked_bits deployments bits

valid_choices-selected :
    (bits : ℕ) (deployments : List Vote) (used : ℕ)
    → valid_choices bits deployments used ≡ true
    → choices_for_agendas deployments bits ≡ masked_bits deployments bits
unfolding valid_choices choices_for_agendas
valid_choices-selected bits [] used h = refl
valid_choices-selected bits (d ∷ deployments) used h =
    elim (Bool-cases (matches (bit_and bits d.mask) d.choices)) [
      | inl there ↦
          let here = select_choice-matches (bit_and bits d.mask) d.choices 0 there in
          let rest =
            valid_choices-selected bits deployments (use_choices d.choices used) (ground arith) in
          ap (λ b. b ∷ choices_for_agendas deployments bits) here
          ∙ ap (λ bs. bit_and bits d.mask ∷ bs) rest
      | inr missing ↦ absurd (ground arith)
    ]

-- If valid bits are more than the default, the voting page shows for each agenda the choice that the
-- bits make.
pub choices_for_agendas-valid :
    (deployments : List Vote) (bits : ℕ)
    → is_valid_vote_bits deployments bits ≡ true
    → bits ≢ 1
    → choices_for_agendas deployments bits ≡ masked_bits deployments bits
unfolding is_valid_vote_bits
choices_for_agendas-valid deployments bits h more =
    valid_choices-selected bits deployments 1
      (unfold is_valid_vote_bits in ground (arith, nat_beq_iff bits 1))

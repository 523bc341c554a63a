-- ===== src/VoteBits/Keeps.antt =====
-- What the statements of CheckAndResetUserVoteBits keep, the function keeps, also where it fails.
use dcrstakepool.Shared.{
  ℕ, zero, suc, ◌+◌, nat_beq, text_key, number_key, ◌==◌, Bool, true, false, not, List, [], Result,
  ok, err, if◌then◌else◌,
}
use dcrstakepool.Shared.Map.{Map, put}
use dcrstakepool.Rpc.Prefs.{uint16, uint32}
use dcrstakepool.Client.Calls.{Call, continue, ◌>>=◌, ◌>>◌, pure}
use dcrstakepool.VoteBits.{
  Vote, is_valid_vote_bits, UserRow, UserTable, or_zero, default_vote_bits, get_user_max,
  update_vote_bits_by_id, update_vote_bits_version_by_id, check_and_reset_user,
  check_and_reset_users, all_users, check_and_reset_user_vote_bits,
}

module _ {W : Type 0} (t : UserTable W) (Inv : W → Type 0)
    (selects : (id : ℕ) (w : W) → Inv w → Inv (t.select_one id w).1)
    (updates : (row : UserRow) (w : W) → Inv w → Inv (t.update row w).1)
    (maximum : (w : W) → Inv w → Inv (t.select_max w).1) where
  abbrev After : {A : Type 0} → A × W → Type 0
  After x = Inv x.1

  then_keeps :
      {A B : Type 0} (x : Result A × W) (f : A → Call W B)
      → Inv x.1
      → ((a : A) (w : W) → Inv w → Inv (f a w).1)
      → Inv (continue x.0 f x.1).1
  then_keeps (err e, w) f h next = h
  then_keeps (ok a, w) f h next = next a w h

  if_keeps :
      {A : Type 0} (c : Bool) (m n : Call W A)
      → ((w : W) → Inv w → Inv (m w).1)
      → ((w : W) → Inv w → Inv (n w).1)
      → (w : W) → Inv w
      → Inv ((if c then m else n) w).1
  if_keeps true m n h k w i = h w i
  if_keeps false m n h k w i = k w i

  change_keeps :
      (f : UserRow → UserRow) (id : ℕ) (w : W)
      → Inv w
      → Inv ((t.select_one id >>= λ user. t.update (f user)) w).1
  change_keeps f id w h =
      then_keeps (t.select_one id w) (λ user. t.update (f user)) (selects id w h)
        (λ user w'. updates (f user) w')

  set_bits_keeps : (id bits : ℕ) (w : W) → Inv w → Inv (update_vote_bits_by_id t id bits w).1
  unfolding update_vote_bits_by_id
  set_bits_keeps id bits w h = change_keeps (λ user. record user { vote_bits = bits }) id w h

  set_version_keeps :
      (id version : ℕ) (w : W) → Inv w → Inv (update_vote_bits_version_by_id t id version w).1
  unfolding update_vote_bits_version_by_id
  set_version_keeps id version w h =
      change_keeps (λ user. record user { vote_bits_version = version }) id w h

  all_users_keeps :
      (userid count : ℕ) (m : Map ℕ UserRow) (w : W) → Inv w → Inv (all_users t userid count m w).1
  unfolding all_users
  all_users_keeps userid zero m w h = h
  all_users_keeps userid (suc count) m w h =
      selected (t.select_one userid w) (selects userid w h) (all_users_keeps (1 + userid) count)
    where
      selected :
          (x : Result UserRow × W)
          → Inv x.1
          → ((m' : Map ℕ UserRow) (w' : W) → Inv w' → Inv (all_users t (1 + userid) count m' w').1)
          → After {A = Map ℕ UserRow} (elim x.0 [
            | err e ↦ all_users t (1 + userid) count m x.1
            | ok user ↦
                all_users t
                  (1 + userid)
                  count
                  (if user.multi_sig_address == "" then m else put user.id user m)
                  x.1
          ])
      selected (err e, w') i later = later m w' i
      selected (ok user, w') i later =
          later (if user.multi_sig_address == "" then m else put user.id user m) w' i

  module _ (deployments : List Vote) (vote_version : ℕ) where
    user_keeps :
        (userid : ℕ) (user : UserRow) (w : W)
        → Inv w
        → Inv (check_and_reset_user t deployments vote_version userid user w).1
    unfolding check_and_reset_user
    user_keeps userid user w h =
        if_keeps (not (nat_beq (uint32 user.vote_bits_version) vote_version)) _ _
          (λ w1 h1.
            then_keeps (update_vote_bits_version_by_id t userid vote_version w1)
              (λ _.
                if not (nat_beq (uint16 user.vote_bits) default_vote_bits)
                then update_vote_bits_by_id t userid default_vote_bits
                else pure tt)
              (set_version_keeps userid vote_version w1 h1)
              (λ _ w2 h2.
                if_keeps (not (nat_beq (uint16 user.vote_bits) default_vote_bits))
                  (update_vote_bits_by_id t userid default_vote_bits) (pure tt)
                  (set_bits_keeps userid default_vote_bits) (λ w3 h3. h3) w2 h2))
          (if_keeps (not (is_valid_vote_bits deployments (uint16 user.vote_bits)))
            (update_vote_bits_by_id t userid default_vote_bits) (pure tt)
            (set_bits_keeps userid default_vote_bits) (λ w1 h1. h1))
          w h

    users_keep :
        (userid count : ℕ) (w : W)
        → Inv w
        → Inv (check_and_reset_users t deployments vote_version userid count w).1
    unfolding check_and_reset_users
    users_keep userid zero w h = h
    users_keep userid (suc count) w h =
        selected (t.select_one userid w) (selects userid w h) (users_keep (1 + userid) count)
      where
        rest : Call W (Unit {0})
        rest = check_and_reset_users t deployments vote_version (1 + userid) count

        selected :
            (x : Result UserRow × W)
            → Inv x.1
            → ((w' : W) → Inv w' → Inv (rest w').1)
            → After {A = Result (Unit {0})} (elim x.0 [
              | err e ↦ rest x.1
              | ok user ↦ (check_and_reset_user t deployments vote_version userid user >> rest) x.1
            ])
        selected (err e, w') i later = later w' i
        selected (ok user, w') i later =
            then_keeps (check_and_reset_user t deployments vote_version userid user w') (λ _. rest)
              (user_keeps userid user w' i) (λ _ w'' j. later w'' j)

    pub check_and_reset_keeps :
        (w : W) → Inv w → Inv (check_and_reset_user_vote_bits t deployments vote_version w).1
    unfolding check_and_reset_user_vote_bits get_user_max
    check_and_reset_keeps w h =
        reset (or_zero (t.select_max w)) (zero_keeps (t.select_max w) (maximum w h))
      where
        zero_keeps : (x : Result ℕ × W) → Inv x.1 → Inv (or_zero x).1
        zero_keeps (ok n, w') i = i
        zero_keeps (err e, w') i = i

        listed :
            (n : ℕ) (x : Result (Unit {0}) × W)
            → Inv x.1
            → After {A = Result (Map ℕ UserRow)} (elim x.0 [
              | err e ↦ (err e, x.1)
              | ok _ ↦ let (users, w3) = all_users t 1 n [] x.1 in (ok users, w3)
            ])
        listed n (err e, w2) i = i
        listed n (ok _, w2) i = all_users_keeps 1 n [] w2 i

        reset :
            (x : ℕ × W)
            → Inv x.1
            → After {A = Result (Map ℕ UserRow)} (
                let (r, w2) = check_and_reset_users t deployments vote_version 1 x.0 x.1 in
                elim r [
                  | err e ↦ (err e, w2)
                  | ok _ ↦ let (users, w3) = all_users t 1 x.0 [] w2 in (ok users, w3)
                ])
        reset (n, w1) i =
            listed n (check_and_reset_users t deployments vote_version 1 n w1) (users_keep 1 n w1 i)

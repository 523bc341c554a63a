-- ===== src/Client/StakeInfo/Cache.antt =====
-- The cache of GetStakeInfo of stakepooldclient/stakepooldclient.go.
use dcrstakepool.Shared.{
  ℕ, ◌+◌, ◌≤◌, ◌<◌, ◌≡◌, refl, sym, ap, ◌∙◌, subst, String, true, some, List, Result, ok, err, inl,
  inr, arith, Bool-cases, ltb,
}
use dcrstakepool.Client.Calls.{Conn, first}
use dcrstakepool.Client.Backend.{Backend}
use dcrstakepool.Client.StakeInfo.{StakeInfoCache, cache_timer_stake_info, keep, get_stake_info}

ltb_of_less : (a b : ℕ) → a < b → ltb a b ≡ true
ltb_of_less a b h = ground arith

module _ {Info W : Type 0} (now : ℕ) (cache cache' : StakeInfoCache Info) (w w' : W) where
  keep-some :
      (r : Result Info) (info : Info)
      → keep now cache (r, w) ≡ (ok (some info), cache', w')
      → cache' ≡ record { info = some info; timer = now + cache_timer_stake_info }
  keep-some (err e) info h = cc
  keep-some (ok i) info h =
      let same : ok (some i) ≡ ok (some info) = ap (λ x. x.0) h in
      let infos : some i ≡ some info = cc in
      let kept : record { info = some i; timer = now + cache_timer_stake_info } ≡ cache' =
        ap (λ x. x.1) h in
      sym kept ∙ ap (λ o. record { info = o; timer = now + cache_timer_stake_info }) infos

  keep_err :
      (r : Result Info) (e : String) → keep now cache (r, w) ≡ (err e, cache', w') → cache' ≡ cache
  keep_err (err e) e' h = sym (ap (λ x. x.1) h)
  keep_err (ok i) e' h = let clash : ok (some i) ≡ err e' = ap (λ x. x.0) h in absurd (cc)

module _ {W Info UserInfo : Type 0} (b : Backend W Info UserInfo) (conns : List Conn) where
  expired :
      (now : ℕ) (cache : StakeInfoCache Info) (w : W)
      → cache.timer ≤ now
      → get_stake_info b conns now cache w
        ≡ keep now cache
            (first b.get_stake_info "GetStakeInfo RPC failed on all stakepoold instances" conns w)
  unfolding get_stake_info
  expired now cache w old = elim (Bool-cases (ltb now cache.timer)) [
    | inl fresh ↦ absurd (ground arith)
    | inr stale ↦ rw (stale) refl
  ]

  -- An answer at one time is the answer at every time up to five minutes later, with no call to any
  -- instance.
  pub get_stake_info_cached :
      (now later : ℕ) (cache cache' : StakeInfoCache Info) (w w' v : W) (info : Info)
      → cache.timer ≤ now
      → get_stake_info b conns now cache w ≡ (ok (some info), cache', w')
      → later < now + cache_timer_stake_info
      → get_stake_info b conns later cache' v ≡ (ok (some info), cache', v)
  unfolding get_stake_info
  get_stake_info_cached now later cache cache' w w' v info old h soon =
      let kept = keep-some now cache cache' _ w' _ info (sym (expired now cache w old) ∙ h) in
      subst (λ (c : StakeInfoCache Info). get_stake_info b conns later c v ≡ (ok (some info), c, v))
        (sym kept) (rw (ltb_of_less later _ soon) refl)

  -- A failure leaves the cache as it was.
  pub get_stake_info_failed :
      (now : ℕ) (cache cache' : StakeInfoCache Info) (w w' : W) (e : String)
      → get_stake_info b conns now cache w ≡ (err e, cache', w')
      → cache' ≡ cache
  unfolding get_stake_info
  get_stake_info_failed now cache cache' w w' e h = elim (Bool-cases (ltb now cache.timer)) [
    | inl fresh ↦ let clash : ok cache.info ≡ err e = ap (λ x. x.0) (rw (fresh) at h) in absurd (cc)
    | inr stale ↦ keep_err now cache cache' _ w' _ e (rw (stale) at h)
  ]

-- ===== src/Client/StakeInfo.antt =====
-- GetStakeInfo of stakepooldclient/stakepooldclient.go, with its cache. A time is a number of
-- nanoseconds. The method runs under its mutex, so a call is one step.
pub mod Cache
use dcrstakepool.Shared.{
  ℕ, ◌+◌, ◌*◌, ◌^◌, String, ltb, Option, none, some, List, Result, ok, err, if◌then◌else◌,
}
use dcrstakepool.Client.Calls.{Conn, Call, first}
use dcrstakepool.Client.Backend.{Backend}

-- cachedStakeInfo, nil at first, and cachedStakeInfoTimer
pub record StakeInfoCache (Info : Type 0) : Type 0 where
  pub info : Option Info
  pub timer : ℕ

-- 5 * time.Minute
abbrev pub cache_timer_stake_info : ℕ
cache_timer_stake_info = 5 * (60 * 10 ^ 9)

abbrev pub keep :
    {Info W : Type 0}
    → ℕ
    → StakeInfoCache Info
    → Result Info × W
    → Result (Option Info) × StakeInfoCache Info × W
keep now cache (err e, w) = (err e, cache, w)
keep now cache (ok info, w) =
    (ok (some info), record { info = some info; timer = now + cache_timer_stake_info }, w)

-- The result, the cache afterwards, and the state behind the connections.
unfoldable pub get_stake_info :
    {W Info UserInfo : Type 0}
    → Backend W Info UserInfo
    → List Conn
    → ℕ
    → StakeInfoCache Info
    → W
    → Result (Option Info) × StakeInfoCache Info × W
get_stake_info b conns now cache w =
    if ltb now cache.timer
    then (ok cache.info, cache, w)
    else keep now cache
        (first b.get_stake_info "GetStakeInfo RPC failed on all stakepoold instances" conns w)

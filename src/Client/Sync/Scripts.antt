-- ===== src/Client/Sync/Scripts.antt =====
-- syncScripts of stakepooldclient/stakepooldclient.go. A height is an int64 pattern, and -1 stands
-- for no height yet.
pub mod Coverage
use dcrstakepool.Shared.{
  ℕ, ◌+◌, ◌-◌, ◌^◌, String, text_key, ◌==◌, nat_beq, Bool, true, false, ◌||◌, List, [], ◌∷◌, ◌++◌,
  Option, none, some, Result, ok, err, if◌then◌else◌,
}
use dcrstakepool.Shared.Map.{Map, get, put, has}
use dcrstakepool.Stakepoold.{Bytes}
use dcrstakepool.Stakepoold.Fees.{two64, int64_lt}
use dcrstakepool.Client.Calls.{
  Conn, Call, continue, cons_result, ◌>>=◌, ◌>>◌, pure, lift, each, gather,
}
use dcrstakepool.Client.Backend.{Backend}
use dcrstakepool.Client.Writes.{User}

pub record ScriptHeight : Type 0 where
  pub script : Bytes
  pub height : ℕ

abbrev pub minus_one : ℕ
minus_one = two64 - 1

-- The scripts of the database, by address.
unfoldable pub all_redeem_scripts :
    (String → Result Bytes) → List User → Map String ScriptHeight → Result (Map String ScriptHeight)
all_redeem_scripts decode_hex [] m = ok m
all_redeem_scripts decode_hex (v ∷ users) m = elim (decode_hex v.multi_sig_script) [
  | err e ↦ err e
  | ok script ↦
      all_redeem_scripts decode_hex users
        (put v.multi_sig_address (record { script = script; height = v.height_registered }) m)
]

-- if script, ok := allRedeemScripts[address]; ok { redeemScriptsPerServer[i][address] = script }
keep_known : String → Option ScriptHeight → Map String ScriptHeight → Map String ScriptHeight
keep_known address none m = m
keep_known address (some script) m = put address script m

-- The scripts that an instance reports among those of the database.
unfoldable pub known_scripts :
    Map String ScriptHeight → List String → Map String ScriptHeight → Map String ScriptHeight
unfolding keep_known
known_scripts scripts [] m = m
known_scripts scripts (address ∷ addresses) m =
    known_scripts scripts addresses (keep_known address (get address scripts) m)

pub record Missing : Type 0 where
  pub scripts : List Bytes
  pub earliest_height : ℕ

-- earliestHeight == -1 || earliestHeight > v.Height
earlier : ℕ → ℕ → Bool
earlier height earliest = nat_beq earliest minus_one || int64_lt height earliest

unfoldable pub add_missing : ScriptHeight → Missing → Missing
unfolding earlier
add_missing v m = record {
  scripts = m.scripts ++ v.script ∷ [];
  earliest_height = if earlier v.height m.earliest_height then v.height else m.earliest_height;
}

-- for k, v := range allRedeemScripts
unfoldable pub missing_scripts :
    Map String ScriptHeight → Map String ScriptHeight → Missing → Missing
missing_scripts known [] m = m
missing_scripts known ((k, v) ∷ scripts) m =
    missing_scripts known scripts (if has k known then m else add_missing v m)

abbrev pub nothing_missing : Missing
nothing_missing = record { scripts = []; earliest_height = minus_one }

abbrev pub is_empty : List Bytes → Bool
is_empty [] = true
is_empty (s ∷ ss) = false

module _ {W Info UserInfo : Type 0} (b : Backend W Info UserInfo) where
  -- What one instance lacks is imported at once, with one rescan.
  unfoldable pub import_missing : Missing → Conn → Call W (Unit {0})
  import_missing m conn =
      if is_empty m.scripts
      then pure tt
      else b.import_missing_scripts conn m.scripts m.earliest_height

  -- The loop over the connections, each with the addresses that it reported.
  unfoldable pub import_all :
      Map String ScriptHeight → List Conn → List (List String) → Call W (Unit {0})
  unfolding import_missing
  import_all scripts [] addresses w = (ok tt, w)
  import_all scripts (conn ∷ conns) [] w = (ok tt, w)
  import_all scripts (conn ∷ conns) (reported ∷ addresses) w =
      let m = missing_scripts (known_scripts scripts reported []) scripts nothing_missing in
      let (r, w') = import_missing m conn w in
      elim r [ err e ↦ (err e, w') | ok _ ↦ import_all scripts conns addresses w' ]

  unfoldable pub sync_scripts : List Conn → (String → Result Bytes) → List User → Call W (Unit {0})
  sync_scripts conns decode_hex multi_sig_scripts = do
    scripts ← lift (all_redeem_scripts decode_hex multi_sig_scripts [])
    addresses ← gather b.list_imported_addresses conns
    import_all scripts conns addresses

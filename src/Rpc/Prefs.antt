-- ===== src/Rpc/Prefs.antt =====
-- SetUserVotingPrefs of backend/stakepoold/rpc/server/server.go.
use dcrstakepool.Shared.{ℕ, ◌%◌, ◌^◌, String, text_key, List, [], ◌∷◌}
use dcrstakepool.Shared.Map.{Map, put}
use dcrstakepool.Stakepoold.{UserVotingConfig, Stakepoold}
use dcrstakepool.Stakepoold.Updates.{update_user_data}
use dcrstakepool.Rpc.Messages.{UserVotingConfigEntry}

-- uint16(v) and uint32(v) of an int64
abbrev pub uint16 : ℕ → ℕ
uint16 v = v % 2 ^ 16

abbrev pub uint32 : ℕ → ℕ
uint32 v = v % 2 ^ 32

abbrev pub config_of : UserVotingConfigEntry → UserVotingConfig
config_of entry = record {
  userid = entry.user_id;
  multi_sig_address = entry.multi_sig_address;
  vote_bits = uint16 entry.vote_bits;
  vote_bits_version = uint32 entry.vote_bits_version;
}

unfoldable pub read_prefs :
    List UserVotingConfigEntry → Map String UserVotingConfig → Map String UserVotingConfig
read_prefs [] m = m
read_prefs (entry ∷ entries) m =
    read_prefs entries (put entry.multi_sig_address (config_of entry) m)

unfoldable pub set_user_voting_prefs : List UserVotingConfigEntry → Stakepoold → Stakepoold
set_user_voting_prefs entries spd = update_user_data (read_prefs entries []) spd

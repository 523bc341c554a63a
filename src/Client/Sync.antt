-- ===== src/Client/Sync.antt =====
-- SyncAll of stakepooldclient/stakepooldclient.go.
pub mod Scripts
pub mod Tickets
use dcrstakepool.Shared.{ℕ, String, List, Result}
use dcrstakepool.Stakepoold.{Bytes}
use dcrstakepool.Client.Calls.{Conn, Call, continue, ◌>>=◌, ◌>>◌, each}
use dcrstakepool.Client.Backend.{Backend}
use dcrstakepool.Client.Reads.{connected}
use dcrstakepool.Client.Writes.{User}
use Scripts.{sync_scripts}
use Tickets.{sync_tickets}

-- The account "default" and helpers.ExternalBranch
abbrev pub default_account_name : String
default_account_name = "default"

abbrev pub external_branch : ℕ
external_branch = 0

module _ {W Info UserInfo : Type 0} (b : Backend W Info UserInfo) (conns : List Conn) where
  unfoldable pub sync_watched_addresses : String → ℕ → ℕ → Call W (Unit {0})
  sync_watched_addresses account branch max_users =
      each (λ conn. b.account_sync_address_index conn account branch max_users) conns

  unfoldable pub sync_all : (String → Result Bytes) → List User → ℕ → Call W (Unit {0})
  sync_all decode_hex multi_sig_scripts max_users = do
    connected b conns
    sync_watched_addresses default_account_name external_branch max_users
    sync_scripts b conns decode_hex multi_sig_scripts
    sync_tickets b conns

-- ===== src/Client/Status.antt =====
-- BackendStatus of stakepooldclient/stakepooldclient.go: one line for each instance, whatever fails.
use dcrstakepool.Shared.{ℕ, String, Bool, Option, none, some, List, [], ◌∷◌, Result, ok, err}
use dcrstakepool.Rpc.Messages.{WalletInfoResponse}
use dcrstakepool.Client.Calls.{Conn}
use dcrstakepool.Client.Backend.{Backend}

-- connectivity.State; `other` is any other value.
pub data ConnState : Type 0 where
  idle shutdown ready connecting transient_failure other : ConnState

pub record WalletStatus : Type 0 where
  pub daemon_connected : Bool
  pub vote_version : ℕ
  pub unlocked : Bool
  pub voting : Bool

pub record BackendStatus : Type 0 where
  pub host : String
  pub rpc_status : String
  pub wallet_status : Option WalletStatus

unfoldable pub rpc_status_of : ConnState → String
rpc_status_of idle = "Idle"
rpc_status_of shutdown = "Shutdown"
rpc_status_of ready = "Ready"
rpc_status_of connecting = "Connecting"
rpc_status_of transient_failure = "TransientFailure"
rpc_status_of other = "Unknown"

wallet_status_of : Result WalletInfoResponse → Option WalletStatus
wallet_status_of (err e) = none
wallet_status_of (ok resp) = some (record {
  daemon_connected = resp.daemon_connected;
  vote_version = resp.vote_version;
  unlocked = resp.unlocked;
  voting = resp.voting;
})

-- `target` and `state` are conn.Target() and conn.GetState().
unfoldable pub backend_status :
    {W Info UserInfo : Type 0}
    → Backend W Info UserInfo
    → (Conn → String)
    → (Conn → ConnState)
    → List Conn
    → W
    → List BackendStatus × W
unfolding wallet_status_of
backend_status b target state [] w = ([], w)
backend_status b target state (conn ∷ conns) w =
    let (r, w') = b.wallet_info conn w in
    let (rest, v) = backend_status b target state conns w' in
    (
      record {
        host = target conn;
        rpc_status = rpc_status_of (state conn);
        wallet_status = wallet_status_of r;
      }
          ∷ rest,
      v,
    )

-- ===== src/Rpc/Messages.antt =====
-- The messages of backend/stakepoold/rpc/api.proto that carry state, and the functions of chainhash
-- that turn hashes into bytes and text.
use dcrstakepool.Shared.{ℕ, String, Bool, Result}
use dcrstakepool.Stakepoold.{Hash, Bytes}

pub record Ticket : Type 0 where
  pub address : String
  pub hash : Bytes

pub record UserVotingConfigEntry : Type 0 where
  pub user_id : ℕ
  pub multi_sig_address : String
  pub vote_bits : ℕ
  pub vote_bits_version : ℕ

pub record WalletInfoResponse : Type 0 where
  pub vote_version : ℕ
  pub daemon_connected : Bool
  pub unlocked : Bool
  pub voting : Bool

pub record ValidateAddressResponse : Type 0 where
  pub is_mine : Bool
  pub pub_key_addr : String

pub record CreateMultisigResponse : Type 0 where
  pub redeem_script : String
  pub address : String

-- chainhash.NewHash, Hash.CloneBytes and chainhash.NewHashFromStr
pub record Chainhash : Type 0 where
  pub new_hash : Bytes → Result Hash
  pub clone_bytes : Hash → Bytes
  pub new_hash_from_str : String → Result Hash

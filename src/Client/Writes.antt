-- ===== src/Client/Writes.antt =====
-- The methods of stakepooldManager that write to every instance: SetAddedLowFeeTickets,
-- SetUserVotingPrefs, CreateMultisig and ImportNewScript. Each first checks that every wallet is
-- connected and unlocked.
pub mod Guard
use dcrstakepool.Shared.{
  ℕ, String, text_key, ◌==◌, Bool, true, false, not, Option, none, some, List, [], ◌∷◌, Result, ok,
  err, if◌then◌else◌,
}
use dcrstakepool.Shared.Map.{Map}
use dcrstakepool.Stakepoold.{Hash, Bytes}
use dcrstakepool.Rpc.Messages.{Ticket, UserVotingConfigEntry, CreateMultisigResponse, Chainhash}
use dcrstakepool.Client.Calls.{Conn, Call, continue, ◌>>=◌, ◌>>◌, pure, fail, lift, each, gather}
use dcrstakepool.Client.Backend.{Backend}
use dcrstakepool.Client.Reads.{connected}

-- models.LowFeeTicket, the fields that are read
pub record LowFeeTicket : Type 0 where
  pub ticket_address : String
  pub ticket_hash : String

-- models.User, the fields that are read
pub record User : Type 0 where
  pub multi_sig_address : String
  pub multi_sig_script : String
  pub height_registered : ℕ
  pub vote_bits : ℕ
  pub vote_bits_version : ℕ

-- A ticket of the database whose hash does not parse is passed over.
unfoldable pub db_ticket : Chainhash → Result Hash → String → List Ticket → List Ticket
db_ticket c (err e) address rest = rest
db_ticket c (ok hash) address rest = record { address = address; hash = c.clone_bytes hash } ∷ rest

unfoldable pub db_tickets : Chainhash → List LowFeeTicket → List Ticket
unfolding db_ticket
db_tickets c [] = []
db_tickets c (t ∷ ts) =
    db_ticket c (c.new_hash_from_str t.ticket_hash) t.ticket_address (db_tickets c ts)

-- for userid, data := range dbUsers
unfoldable pub db_prefs : Map ℕ User → List UserVotingConfigEntry
db_prefs [] = []
db_prefs ((userid, user) ∷ users) =
    record {
      user_id = userid;
      multi_sig_address = user.multi_sig_address;
      vote_bits = user.vote_bits;
      vote_bits_version = user.vote_bits_version;
    }
    ∷ db_prefs users

-- Each script is compared with the next one.
unfoldable pub same_scripts : List CreateMultisigResponse → Bool
same_scripts [] = true
same_scripts (r ∷ []) = true
same_scripts (r ∷ s ∷ rest) =
    if r.redeem_script == s.redeem_script then same_scripts (s ∷ rest) else false

-- respPerServer[0], after the comparison; with no connection at all that is a panic, `none`.
unfoldable pub agreed_multisig :
    List CreateMultisigResponse → Result (Option CreateMultisigResponse)
agreed_multisig [] = ok none
agreed_multisig (r ∷ rest) =
    if same_scripts (r ∷ rest) then ok (some r) else err "non equivalent redeem script returned"

-- The height of the last instance; 0 if there is none.
unfoldable pub last_height : ℕ → List ℕ → ℕ
last_height height [] = height
last_height height (h ∷ heights) = last_height h heights

module _ {W Info UserInfo : Type 0} (b : Backend W Info UserInfo) (conns : List Conn) where
  unfoldable pub set_added_low_fee_tickets : Chainhash → List LowFeeTicket → Call W (Unit {0})
  set_added_low_fee_tickets c tickets = do
    connected b conns
    each (λ conn. b.set_added_low_fee_tickets conn (db_tickets c tickets)) conns

  unfoldable pub set_user_voting_prefs : Map ℕ User → Call W (Unit {0})
  set_user_voting_prefs users = do
    connected b conns
    each (λ conn. b.set_user_voting_prefs conn (db_prefs users)) conns

  unfoldable pub create_multisig : List String → Call W (Option CreateMultisigResponse)
  create_multisig address = do
    connected b conns
    responses ← gather (λ conn. b.create_multisig conn address) conns
    lift (agreed_multisig responses)

  unfoldable pub import_new_script : Bytes → Call W ℕ
  import_new_script script = do
    connected b conns
    heights ← gather (λ conn. b.import_new_script conn script) conns
    pure (last_height 0 heights)

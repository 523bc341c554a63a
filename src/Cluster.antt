-- ===== src/Cluster.antt =====
-- The front end of stakepooldclient/stakepooldclient.go over the handlers of
-- backend/stakepoold/rpc/server/server.go: a state for each instance, and a network that loses
-- requests and replies.
pub mod OneCall
pub mod Chosen
pub mod Tickets
pub mod Prefs
pub mod Tests
use dcrstakepool.Shared.{ℕ, nat_beq, Bool, String, List, [], ◌∷◌, Result, ok, err, if◌then◌else◌}
use dcrstakepool.Stakepoold.{Stakepoold}
use dcrstakepool.Rpc.Messages.{Ticket, Chainhash}
use dcrstakepool.Rpc.Tickets.{
  get_added_low_fee_tickets, get_ignored_low_fee_tickets, get_live_tickets,
  set_added_low_fee_tickets,
}
use dcrstakepool.Rpc.Prefs.{set_user_voting_prefs}
use dcrstakepool.Client.Calls.{Conn, Call}
use dcrstakepool.Client.Backend.{Backend}

-- What becomes of a gRPC call. A handler runs at most once, and a call that succeeds has run it.
pub data Delivery : Type 0 where
  delivered request_lost reply_lost : Delivery

-- The instances, and what becomes of the calls that follow; the later ones are delivered.
pub record Net : Type 0 where
  pub servers : Conn → Stakepoold
  pub deliveries : List Delivery

abbrev pub set_server : Conn → Stakepoold → Net → Net
set_server conn spd net = record net {
  servers = λ c. if nat_beq c conn then spd else net.servers c;
}

unfoldable pub deliver : {A : Type 0} → Delivery → Conn → (Stakepoold → A × Stakepoold) → Call Net A
deliver request_lost conn handler net = (err "unavailable", net)
deliver reply_lost conn handler net =
    (err "unavailable", set_server conn (handler (net.servers conn)).1 net)
deliver delivered conn handler net =
    (ok (handler (net.servers conn)).0, set_server conn (handler (net.servers conn)).1 net)

next_delivery : List Delivery → Delivery × List Delivery
next_delivery [] = (delivered, [])
next_delivery (d ∷ ds) = (d, ds)

unfoldable pub rpc : {A : Type 0} → Conn → (Stakepoold → A × Stakepoold) → Call Net A
unfolding next_delivery
rpc conn handler net =
    let (d, ds) = next_delivery net.deliveries in
    deliver d conn handler (record net { deliveries = ds })

-- The instances behind the calls that read or set the tickets and the preferences; the other calls
-- are those of `other`.
unfoldable pub cluster :
    {Info UserInfo : Type 0} → Chainhash → Backend Net Info UserInfo → Backend Net Info UserInfo
cluster c other = record other {
  get_added_low_fee_tickets = λ conn. rpc conn (λ spd. (get_added_low_fee_tickets c spd, spd));
  get_ignored_low_fee_tickets = λ conn. rpc conn (λ spd. (get_ignored_low_fee_tickets c spd, spd));
  get_live_tickets = λ conn. rpc conn (λ spd. (get_live_tickets c spd, spd));
  set_added_low_fee_tickets =
      λ conn tickets. rpc conn (λ spd. (tt, set_added_low_fee_tickets c tickets spd));
  set_user_voting_prefs = λ conn entries. rpc conn (λ spd. (tt, set_user_voting_prefs entries spd));
}

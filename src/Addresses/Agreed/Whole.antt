-- ===== src/Addresses/Agreed/Whole.antt =====
-- What AddressPost does to the users.
use dcrstakepool.Shared.{◌≡◌, refl, ℕ, String, List, ◌⊎◌}
use dcrstakepool.Client.Calls.{Conn}
use dcrstakepool.Client.Backend.{Backend}
use dcrstakepool.VoteBits.{Vote}
use dcrstakepool.Accounts.{Tables, Outside, IsOutside}
use dcrstakepool.Accounts.Requests.{WebSession}
use dcrstakepool.Addresses.{AddressConfig, address_post}
use dcrstakepool.Addresses.Agreed.{users_of, Apart, Agreed}
use dcrstakepool.Addresses.Agreed.Steps.{session_known}

module _ {W Info UserInfo K : Type 0} (b : Backend W Info UserInfo) (conns : List Conn)
    (o : Outside W) (deployments : List Vote) (vote_version : ℕ) (cfg : AddressConfig K)
    (tables : W → Tables) (laws : IsOutside o tables) where
  -- If a statement either fails and changes nothing or does what it says, and the calls of the instances do
  -- not write to the tables, AddressPost, StakepooldUpdateUsers included, leaves the ids, addresses, scripts
  -- and heights of the users, or the user of the session, who had no address, gets the valid address of the
  -- form; the key of the address that is derived from the voting key at the user's id, which every instance
  -- has said is the pool's; the script of both, with which every instance has answered and which every instance
  -- has imported; the height that the last of them answered; and the address that is derived from the fee key
  -- at the user's id.
  pub address_post-Agreed :
      Apart b conns o deployments vote_version cfg tables laws
      → (addr : String) (s : WebSession) (w : W)
      → (users_of b conns o deployments vote_version cfg tables laws
            (address_post b conns o deployments vote_version cfg addr s w).1
          ≡ users_of b conns o deployments vote_version cfg tables laws w)
        ⊎ Agreed b conns o deployments vote_version cfg tables laws addr s (tables w) (
            users_of b conns o deployments vote_version cfg tables laws
              (address_post b conns o deployments vote_version cfg addr s w).1)
  unfolding address_post
  address_post-Agreed apart addr s w =
      session_known b conns o deployments vote_version cfg tables laws apart addr s w s.user_id refl

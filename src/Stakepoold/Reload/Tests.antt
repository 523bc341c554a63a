-- ===== src/Stakepoold/Reload/Tests.antt =====
-- The theorem of Stakepoold.Reload at a concrete reply of the wallet.
use dcrstakepool.Shared.{◌≡◌, Option, none, some, List, [], ◌∷◌, ok}
use dcrstakepool.Stakepoold.{GetTransactionResult}
use dcrstakepool.Stakepoold.Reload.{Node, wallet_get_tickets}
use dcrstakepool.Stakepoold.Reload.Cache.{read_replies, ok_if, wallet_get_tickets-read}
use dcrstakepool.Stakepoold.Tests.{dcrd, pool}

abbrev node : Node
node = record { new_hash_from_str = λ s. ok 50; get_block_header = λ b. ok 1000 }

abbrev replies : List (Option GetTransactionResult)
replies =
    none
    ∷ some (record {
      details = "Dc9" ∷ "Dc1" ∷ [];
      tx_id = "ticket";
      hex = "paid";
      block_hash = "block";
    })
    ∷ []

wallet_get_tickets-read_example :
    wallet_get_tickets dcrd node pool (ok (49 ∷ 50 ∷ [])) replies
    ≡ ok_if dcrd node pool (read_replies dcrd node pool replies ([], []))
wallet_get_tickets-read_example = wallet_get_tickets-read dcrd node pool (49 ∷ 50 ∷ []) replies

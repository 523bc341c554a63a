-- ===== src/AdminTickets/Changes.antt =====
-- What AdminTicketsPost does to the table LowFeeTicket.
use dcrstakepool.Shared.{ℕ, ◌≡◌, String, number_key, some, List, ok, ◌⊎◌}
use dcrstakepool.Shared.Map.{Map}
use dcrstakepool.Stakepoold.{Hash}
use dcrstakepool.Rpc.Messages.{Chainhash}
use dcrstakepool.Client.Calls.{Conn}
use dcrstakepool.Client.Backend.{Backend}
use dcrstakepool.Client.Reads.{get_ignored_low_fee_tickets}
use dcrstakepool.Accounts.Requests.{WebSession}
use dcrstakepool.AdminTickets.{
  LowFeeTicket, TicketTable, AdminConfig, TicketsForm, decode_hash_list, with_texts,
  stakepoold_update_tickets,
}
use dcrstakepool.AdminTickets.Inserts.{IsTicketTable, Removed, Added, Among}

module _ {W Info UserInfo : Type 0} (b : Backend W Info UserInfo) (conns : List Conn)
    (c : Chainhash) (table : TicketTable W) (rows : W → List LowFeeTicket)
    (laws : IsTicketTable table rows) (cfg : AdminConfig) where
  -- The calls of the instances do not write to the table.
  abbrev pub Apart : Type 0
  Apart =
      ((w : W) → rows (get_ignored_low_fee_tickets b conns c w).1 ≡ rows w)
      × ((w : W) → rows (stakepoold_update_tickets b conns c table w).1 ≡ rows w)

  -- The user of the session is an administrator at an address of one.
  abbrev pub IsAdmin : WebSession → String → ℕ → Type 0
  IsAdmin s remote_ip user_id =
      (s.user_id ≡ some user_id)
      × Among remote_ip cfg.admin_ips
      × Among (cfg.itoa user_id) cfg.admin_user_ids

  -- What a request of an administrator does to the rows.
  abbrev pub Changed : TicketsForm → ℕ → W → List LowFeeTicket → Type 0
  Changed form user_id w after =
      ((form.action ≡ "add")
        × ((tickets : List String) × (hashes : List Hash) × (ignored : Map Hash String)
            × (form.tickets ≡ ok tickets)
            × (decode_hash_list c tickets ≡ ok hashes)
            × ((get_ignored_low_fee_tickets b conns c w).0 ≡ ok ignored)
            × Added user_id ignored (with_texts hashes tickets) (rows w) after))
      ⊎ ((form.action ≡ "remove")
          × ((tickets : List String) × (form.tickets ≡ ok tickets)
              × Removed table tickets (rows w) after))

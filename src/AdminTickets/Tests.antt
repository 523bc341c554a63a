-- ===== src/AdminTickets/Tests.antt =====
-- The theorem of AdminTickets for an administrator who adds a ticket.
use dcrstakepool.Shared.{
  ℕ, zero, suc, ◌≡◌, refl, text_key, ◌==◌, false, some, List, [], ◌∷◌, ◌++◌, ok,
}
use dcrstakepool.Shared.Map.{get, put}
use dcrstakepool.Client.Calls.{Conn, pure, gather, first, each}
use dcrstakepool.Client.Backend.{Backend}
use dcrstakepool.Client.Reads.{get_ignored_low_fee_tickets, connected, check_wallets}
use dcrstakepool.Client.Writes.{set_added_low_fee_tickets}
use dcrstakepool.Rpc.Tickets.{process_tickets_response, read_tickets}
use dcrstakepool.Client.Tests.{one_byte, plain}
use dcrstakepool.Accounts.Requests.{WebSession}
use dcrstakepool.AdminTickets.{
  LowFeeTicket, TicketTable, AdminConfig, TicketsForm, string_slice_contains, is_admin,
  decode_hash_list, with_texts, stakepoold_update_tickets, add_tickets, tickets_changed,
  admin_tickets_post,
}
use dcrstakepool.AdminTickets.Inserts.{without}

abbrev Rows : Type 0
Rows = List LowFeeTicket

abbrev instances : Backend Rows ℕ ℕ
instances = record plain {
  get_ignored_low_fee_tickets = λ conn. pure (record { address = "Dc5"; hash = 5 ∷ [] } ∷ []);
}

abbrev table : TicketTable Rows
table = record {
  get_votable_low_fee_tickets = λ rows. (ok rows, rows);
  insert_low_fee_ticket = λ t rows. (ok tt, rows ++ record t { id = 1 } ∷ []);
  same_text = λ x y. x == y;
  delete_where = λ condition rows. (ok tt, without condition rows);
}

abbrev config : AdminConfig
config = record {
  admin_ips = "127.0.0.1" ∷ [];
  admin_user_ids = "1" ∷ [];
  ticket_expiry_time = 100000000000;
  itoa = λ n. elim n [ zero ↦ "0" | suc _ ↦ "1" ];
}

abbrev form : TicketsForm
form = record {
  tickets = ok ("05" ∷ []);
  action = "add";
  remote_ip = "127.0.0.1";
  now = 5000000000;
}

abbrev admin : WebSession
admin = record { user_id = some 1; captcha_done = false; max_age_negative = false; flashes = [] }

abbrev one : List Conn
one = 0 ∷ []

-- One row is inserted.
added :
    (admin_tickets_post instances one one_byte table config form admin []).1
    ≡ record {
      id = 1;
      added_by_uid = 1;
      ticket_address = "Dc5";
      ticket_hash = "05";
      ticket_expiry = 0;
      voted = 0;
      created = 5;
      expires = 110;
    }
      ∷ []
unfolding admin_tickets_post is_admin string_slice_contains decode_hash_list with_texts add_tickets
    tickets_changed get_ignored_low_fee_tickets process_tickets_response read_tickets get put
    stakepoold_update_tickets set_added_low_fee_tickets connected gather check_wallets first each
added = refl

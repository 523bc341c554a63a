-- ===== src/AdminTickets.antt =====
-- AdminTicketsPost of controllers/main.go with isAdmin and StakepooldUpdateTickets: the administrator adds
-- and removes low fee tickets, and every stakepoold is told.
pub mod Inserts
pub mod Changes
pub mod Tests
use dcrstakepool.Shared.{
  ℕ, ◌+◌, ◌*◌, ◌/◌, String, text_key, number_key, ◌==◌, Bool, true, false, not, Option, none, some,
  List, [], ◌∷◌, Result, ok, err, if◌then◌else◌, map,
}
use dcrstakepool.Shared.Map.{Map, get}
use dcrstakepool.Stakepoold.{Hash}
use dcrstakepool.Rpc.Messages.{Chainhash}
use dcrstakepool.Client.Calls.{Conn, Call, continue, ◌>>=◌}
use dcrstakepool.Client.Backend.{Backend}
use dcrstakepool.Client.Reads.{get_ignored_low_fee_tickets}
use dcrstakepool.Client.Writes.{set_added_low_fee_tickets}
use dcrstakepool.Client.Writes
use dcrstakepool.Accounts.Requests.{WebSession, Answer, redirect, unauthorized, add_flash, unix}

-- models.LowFeeTicket
pub record LowFeeTicket : Type 0 where
  pub id : ℕ
  pub added_by_uid : ℕ
  pub ticket_address : String
  pub ticket_hash : String
  pub ticket_expiry : ℕ
  pub voted : ℕ
  pub created : ℕ
  pub expires : ℕ

-- MySQL on the table LowFeeTicket: the selection of the votable rows, gorp's Insert, and DELETE FROM LowFeeTicket
-- with a WHERE clause. `same_text` is the equality of texts in such a clause.
pub record TicketTable (W : Type 0) : Type 0 where
  pub same_text : String → String → Bool
  pub get_votable_low_fee_tickets : Call W (List LowFeeTicket)
  pub insert_low_fee_ticket : LowFeeTicket → Call W (Unit {0})
  pub delete_where : (LowFeeTicket → Bool) → Call W (Unit {0})

-- TicketHash IN (:Tickets)
unfoldable pub ticket_hash_in : {W : Type 0} → TicketTable W → List String → LowFeeTicket → Bool
ticket_hash_in table [] row = false
ticket_hash_in table (t ∷ tickets) row =
    if table.same_text row.ticket_hash t then true else ticket_hash_in table tickets row

-- The query of AdminTicketsPost for the action "remove"
abbrev pub delete_low_fee_tickets : {W : Type 0} → TicketTable W → List String → Call W (Unit {0})
delete_low_fee_tickets table ticket_list = table.delete_where (ticket_hash_in table ticket_list)

-- controllers.Config, with the expiry of a ticket in nanoseconds, and strconv.Itoa
pub record AdminConfig : Type 0 where
  pub admin_ips : List String
  pub admin_user_ids : List String
  pub ticket_expiry_time : ℕ
  pub itoa : ℕ → String

-- The request: tickets[] of the parsed form or its error, the action in lower case, the client's address,
-- and the time in nanoseconds, which stands during the request.
pub record TicketsForm : Type 0 where
  pub tickets : Result (List String)
  pub action : String
  pub remote_ip : String
  pub now : ℕ

unfoldable pub string_slice_contains : List String → String → Bool
string_slice_contains [] e = false
string_slice_contains (a ∷ s) e = if a == e then true else string_slice_contains s e

unfoldable pub is_admin : AdminConfig → WebSession → String → Bool
is_admin cfg s remote_ip = elim s.user_id [
  | none ↦ false
  | some user_id ↦
      if not (string_slice_contains cfg.admin_ips remote_ip)
      then false
      else string_slice_contains cfg.admin_user_ids (cfg.itoa user_id)
]

unfoldable pub decode_hash_list : Chainhash → List String → Result (List Hash)
decode_hash_list c [] = ok []
decode_hash_list c (s ∷ hash_list) = elim (c.new_hash_from_str s) [
  | err e ↦ err e
  | ok h ↦ elim (decode_hash_list c hash_list) [ err e ↦ err e | ok hashes ↦ ok (h ∷ hashes) ]
]

-- ticketHashes[i] with ticketList[i]
unfoldable pub with_texts : List Hash → List String → List (Hash × String)
with_texts [] texts = []
with_texts (h ∷ hashes) [] = []
with_texts (h ∷ hashes) (t ∷ texts) = (h, t) ∷ with_texts hashes texts

-- minutesUntilExpiryEstimate * 105 / 100 from now
abbrev pub calc_estimated_ticket_expiry : AdminConfig → ℕ → ℕ
calc_estimated_ticket_expiry cfg now = now + cfg.ticket_expiry_time * 105 / 100

abbrev pub new_low_fee_ticket : AdminConfig → ℕ → ℕ → String → String → LowFeeTicket
new_low_fee_ticket cfg user_id now msa t = record {
  id = 0;
  added_by_uid = user_id;
  ticket_address = msa;
  ticket_hash = t;
  ticket_expiry = 0;
  voted = 0;
  created = unix now;
  expires = unix (calc_estimated_ticket_expiry cfg now);
}

abbrev pub admin_error : {W : Type 0} → String → WebSession → W → Answer W
admin_error message s w = ((redirect "/admintickets", add_flash message "adminTicketsError" s), w)

module _ {W Info UserInfo : Type 0} (b : Backend W Info UserInfo) (conns : List Conn)
    (c : Chainhash) (table : TicketTable W) where
  unfoldable pub stakepoold_update_tickets : Call W (Unit {0})
  stakepoold_update_tickets = do
    tickets ← table.get_votable_low_fee_tickets
    set_added_low_fee_tickets b conns c (
        map (λ t. record { ticket_address = t.ticket_address; ticket_hash = t.ticket_hash })
          tickets)

  module _ (cfg : AdminConfig) where
    -- The flash, with its key, that the loop over the tickets to add returns with, if any. A flash with no
    -- key goes to the key "_flash".
    abbrev pub insert_next :
        Result (Unit {0}) × W → (W → Option (String × String) × W) → Option (String × String) × W
    insert_next (err e, w) next =
        (some ("Database error occurred while adding ticket", "adminTicketsError"), w)
    insert_next (ok _, w) next = next w

    abbrev pub add_if_ignored :
        ℕ
        → ℕ
        → String
        → W
        → (W → Option (String × String) × W)
        → Option String
        → Option (String × String) × W
    add_if_ignored user_id now t w next none = (some ("ticket is no longer present", "_flash"), w)
    add_if_ignored user_id now t w next (some msa) =
        insert_next (table.insert_low_fee_ticket (new_low_fee_ticket cfg user_id now msa t) w) next

    unfoldable pub add_tickets :
        ℕ → ℕ → Map Hash String → List (Hash × String) → W → Option (String × String) × W
    add_tickets user_id now ignored [] w = (none, w)
    add_tickets user_id now ignored ((tickethash, t) ∷ tickets) w =
        add_if_ignored user_id now t w (λ w'. add_tickets user_id now ignored tickets w')
          (get tickethash ignored)

    abbrev pub update_flashes : Result (Unit {0}) → WebSession → WebSession
    update_flashes (err e) s =
        add_flash "Successfully changed tickets" "adminTicketsSuccess"
          (add_flash "StakepooldUpdateAll error" "adminTicketsError" s)
    update_flashes (ok _) s = add_flash "Successfully changed tickets" "adminTicketsSuccess" s

    unfoldable pub tickets_changed : WebSession → W → Answer W
    tickets_changed s w =
        let (r, w') = stakepoold_update_tickets w in
        ((redirect "/admintickets", update_flashes r s), w')

    abbrev pub tickets_added : WebSession → Option (String × String) × W → Answer W
    tickets_added s (some (message, key), w) =
        ((redirect "/admintickets", add_flash message key s), w)
    tickets_added s (none, w) = tickets_changed s w

    abbrev pub add_if_known :
        ℕ
        → TicketsForm
        → List (Hash × String)
        → WebSession
        → Result (Map Hash String) × W
        → Answer W
    add_if_known user_id form tickets s (err e, w) = admin_error "GetIgnoredLowFeeTickets error" s w
    add_if_known user_id form tickets s (ok ignored, w) =
        tickets_added s (add_tickets user_id form.now ignored tickets w)

    abbrev pub tickets_removed : WebSession → Result (Unit {0}) × W → Answer W
    tickets_removed s (err e, w) = admin_error "failed to execute delete query" s w
    tickets_removed s (ok _, w) = tickets_changed s w

    abbrev pub act_on_tickets :
        ℕ → TicketsForm → List String → WebSession → W → Result (List Hash) → Answer W
    act_on_tickets user_id form ticket_list s w (err e) =
        admin_error "Invalid ticket in form data" s w
    act_on_tickets user_id form ticket_list s w (ok hashes) =
        if form.action == "add"
        then add_if_known user_id form (with_texts hashes ticket_list) s
            (get_ignored_low_fee_tickets b conns c w)
        else if form.action == "remove"
        then tickets_removed s (delete_low_fee_tickets table ticket_list w)
        else admin_error "invalid or unknown form action type" s w

    abbrev pub tickets_parsed : ℕ → TicketsForm → WebSession → W → Result (List String) → Answer W
    tickets_parsed user_id form s w (err e) = admin_error "unable to parse form" s w
    tickets_parsed user_id form s w (ok []) = admin_error "no tickets selected to modify" s w
    tickets_parsed user_id form s w (ok (t ∷ ticket_list)) =
        act_on_tickets user_id form (t ∷ ticket_list) s w (decode_hash_list c (t ∷ ticket_list))

    abbrev pub admin_if_known : TicketsForm → WebSession → W → Option ℕ → Answer W
    admin_if_known form s w none = ((unauthorized, s), w)
    admin_if_known form s w (some user_id) =
        if not (is_admin cfg s form.remote_ip)
        then ((unauthorized, s), w)
        else tickets_parsed user_id form s w form.tickets

    unfoldable pub admin_tickets_post : TicketsForm → WebSession → W → Answer W
    admin_tickets_post form s w = admin_if_known form s w s.user_id

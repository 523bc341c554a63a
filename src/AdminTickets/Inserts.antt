-- ===== src/AdminTickets/Inserts.antt =====
-- The table LowFeeTicket, and the rows that AdminTicketsPost inserts.
use dcrstakepool.Shared.{
  ℕ, ◌≡◌, refl, sym, ap, ◌∙◌, String, text_key, number_key, ◌==◌, Bool, true, false, Option, none,
  some, List, [], ◌∷◌, ◌++◌, Result, ok, err, if◌then◌else◌, ◌⊎◌, inl, inr,
}
use mathlib.Core.List.{append_assoc, append-nil}
use dcrstakepool.Shared.Map.{Map, get}
use dcrstakepool.Stakepoold.{Hash}
use dcrstakepool.Rpc.Messages.{Chainhash}
use dcrstakepool.Client.Calls.{Conn}
use dcrstakepool.Client.Backend.{Backend}
use dcrstakepool.AdminTickets.{
  LowFeeTicket, TicketTable, AdminConfig, string_slice_contains, ticket_hash_in, new_low_fee_ticket,
  insert_next, add_if_ignored, add_tickets,
}

-- The rows that do not satisfy a condition.
abbrev pub without : (LowFeeTicket → Bool) → List LowFeeTicket → List LowFeeTicket
without condition [] = []
without condition (row ∷ rows) =
    if condition row then without condition rows else row ∷ without condition rows

-- A statement fails and changes nothing, or does what it says.
pub record IsTicketTable {W : Type 0} (table : TicketTable W) (rows : W → List LowFeeTicket)
    : Type 0 where
  pub inserts :
      (t : LowFeeTicket) (w : W)
      → (((e : String) × ((table.insert_low_fee_ticket t w).0 ≡ err e))
          × (rows (table.insert_low_fee_ticket t w).1 ≡ rows w))
        ⊎ ((id : ℕ) × (rows (table.insert_low_fee_ticket t w).1
              ≡ rows w ++ record t { id = id } ∷ []))
  pub deletes :
      (condition : LowFeeTicket → Bool) (w : W)
      → (rows (table.delete_where condition w).1 ≡ rows w)
        ⊎ (rows (table.delete_where condition w).1 ≡ without condition (rows w))

-- The row has one of these hashes, up to the equality of the database.
abbrev pub Named : {W : Type 0} → TicketTable W → List String → LowFeeTicket → Type 0
Named table [] row = ⊥
Named table (t ∷ tickets) row = (table.same_text row.ticket_hash t ≡ true) ⊎ Named table tickets row

-- The rows after are those before, in their order, without those that have one of the hashes.
abbrev pub Removed :
    {W : Type 0} → TicketTable W → List String → List LowFeeTicket → List LowFeeTicket → Type 0
Removed table tickets [] after = after ≡ []
Removed table tickets (row ∷ rows) after =
    (Named table tickets row × Removed table tickets rows after)
    ⊎ (¬ Named table tickets row
        × ((rest : List LowFeeTicket) × (after ≡ row ∷ rest) × Removed table tickets rows rest))

ticket_hash_in-Named :
    {W : Type 0} (table : TicketTable W) (tickets : List String) (row : LowFeeTicket)
    → ((ticket_hash_in table tickets row ≡ true) × Named table tickets row)
      ⊎ ((ticket_hash_in table tickets row ≡ false) × ¬ Named table tickets row)
unfolding ticket_hash_in
ticket_hash_in-Named table [] row = inr (refl, λ n. n)
ticket_hash_in-Named {W} table (t ∷ tickets) row =
    met (table.same_text row.ticket_hash t) refl (ticket_hash_in-Named table tickets row)
  where
    In : Bool → Type 0
    In s =
        (((if s then true else ticket_hash_in table tickets row) ≡ true)
          × Named table (t ∷ tickets) row)
        ⊎ (((if s then true else ticket_hash_in table tickets row) ≡ false)
            × ¬ Named table (t ∷ tickets) row)

    neither :
        table.same_text row.ticket_hash t ≡ false
        → ¬ Named table tickets row
        → ¬ Named table (t ∷ tickets) row
    neither differs later (inl same) = absurd (cc)
    neither differs later (inr named) = later named

    met :
        (s : Bool)
        → table.same_text row.ticket_hash t ≡ s
        → ((ticket_hash_in table tickets row ≡ true) × Named table tickets row)
          ⊎ ((ticket_hash_in table tickets row ≡ false) × ¬ Named table tickets row)
        → In s
    met true same later = inl (refl, inl same)
    met false differs (inl (there, named)) = inl (there, inr named)
    met false differs (inr (absent, later)) = inr (absent, neither differs later)

pub without-Removed :
    {W : Type 0} (table : TicketTable W) (tickets : List String) (rows : List LowFeeTicket)
    → Removed table tickets rows (without (ticket_hash_in table tickets) rows)
without-Removed table tickets [] = refl
without-Removed {W} table tickets (row ∷ rows) =
    met (ticket_hash_in table tickets row) (ticket_hash_in-Named table tickets row)
      (without-Removed table tickets rows)
  where
    rest : List LowFeeTicket
    rest = without (ticket_hash_in table tickets) rows

    met :
        (s : Bool)
        → ((s ≡ true) × Named table tickets row) ⊎ ((s ≡ false) × ¬ Named table tickets row)
        → Removed table tickets rows rest
        → Removed table tickets (row ∷ rows) (if s then rest else row ∷ rest)
    met true (inl (there, named)) later = inl (named, later)
    met true (inr (absent, others)) later = absurd (cc)
    met false (inl (there, named)) later = absurd (cc)
    met false (inr (absent, others)) later = inr (others, (rest, refl, later))

-- New rows for the first of the tickets, in their order, each with the address that the ignored tickets
-- have for its hash.
abbrev pub Recorded : ℕ → Map Hash String → List (Hash × String) → List LowFeeTicket → Type 0
Recorded user_id ignored tickets [] = Unit
Recorded user_id ignored [] (row ∷ new) = ⊥
Recorded user_id ignored ((h, t) ∷ tickets) (row ∷ new) =
    (row.ticket_hash ≡ t)
    × (get h ignored ≡ some row.ticket_address)
    × (row.added_by_uid ≡ user_id)
    × (row.voted ≡ 0)
    × Recorded user_id ignored tickets new

-- A text is in the list.
abbrev pub Among : String → List String → Type 0
Among e [] = ⊥
Among e (a ∷ s) = (a ≡ e) ⊎ Among e s

pub string_slice_contains-Among :
    (s : List String) (e : String) → string_slice_contains s e ≡ true → Among e s
unfolding string_slice_contains
string_slice_contains-Among [] e h = absurd (cc)
string_slice_contains-Among (a ∷ s) e h = met (a == e) refl h (string_slice_contains-Among s e)
  where
    met :
        (t : Bool)
        → (a == e) ≡ t
        → (if t then true else string_slice_contains s e) ≡ true
        → (string_slice_contains s e ≡ true → Among e s)
        → (a ≡ e) ⊎ Among e s
    met true same h later = inl ((text_key.equal_iff a e).0 same)
    met false same h later = inr (later h)

-- The rows before, and new ones.
abbrev pub Added :
    ℕ → Map Hash String → List (Hash × String) → List LowFeeTicket → List LowFeeTicket → Type 0
Added user_id ignored tickets before after =
    (new : List LowFeeTicket) × (after ≡ before ++ new) × Recorded user_id ignored tickets new

module _ {W Info UserInfo : Type 0} (b : Backend W Info UserInfo) (conns : List Conn)
    (c : Chainhash) (table : TicketTable W) (rows : W → List LowFeeTicket)
    (laws : IsTicketTable table rows) (cfg : AdminConfig) where
  pub add_tickets-Added :
      (user_id now : ℕ) (ignored : Map Hash String) (tickets : List (Hash × String)) (w : W)
      → Added user_id ignored tickets
          (rows w)
          (rows (add_tickets b conns c table cfg user_id now ignored tickets w).1)
  unfolding add_tickets
  add_tickets-Added user_id now ignored [] w = ([], sym (append-nil (rows w)), tt)
  add_tickets-Added user_id now ignored ((h, t) ∷ tickets) w =
      known (get h ignored) refl (λ w'. add_tickets-Added user_id now ignored tickets w')
    where
      rest : W → Option (String × String) × W
      rest w' = add_tickets b conns c table cfg user_id now ignored tickets w'

      Later : Type 0
      Later = (w' : W) → Added user_id ignored tickets (rows w') (rows (rest w').1)

      After : List LowFeeTicket → Type 0
      After after = Added user_id ignored ((h, t) ∷ tickets) (rows w) after

      inserted :
          (msa : String)
          → get h ignored ≡ some msa
          → (x : Result (Unit {0}) × W)
          → (((e : String) × (x.0 ≡ err e)) × (rows x.1 ≡ rows w))
            ⊎ ((id : ℕ) × (rows x.1
                  ≡ rows w ++ record (new_low_fee_ticket cfg user_id now msa t) { id = id } ∷ []))
          → Later
          → After (rows (insert_next b conns c table cfg x rest).1)
      inserted msa there (err e, w') (inl (failed, same)) later =
          ([], same ∙ sym (append-nil (rows w)), tt)
      inserted msa there (err e, w') (inr (id, same)) later =
          (_, same, (refl, there, refl, refl, tt))
      inserted msa there (ok _, w') (inl ((e, failed), same)) later =
          let clash : ok tt ≡ err e = failed in absurd (cc)
      inserted msa there (ok _, w') (inr (id, same)) later =
          let (new, more, recorded) = later w' in
          (
            record (new_low_fee_ticket cfg user_id now msa t) { id = id } ∷ new,
            more ∙ ap (λ l. l ++ new) same ∙ append_assoc (rows w) _ new,
            (refl, there, refl, refl, recorded),
          )

      known :
          (o : Option String)
          → get h ignored ≡ o
          → Later
          → After (rows (add_if_ignored b conns c table cfg user_id now t w rest o).1)
      known none at_o later = ([], sym (append-nil (rows w)), tt)
      known (some msa) at_o later =
          inserted msa at_o
            (table.insert_low_fee_ticket (new_low_fee_ticket cfg user_id now msa t) w)
            (laws.inserts (new_low_fee_ticket cfg user_id now msa t) w) later

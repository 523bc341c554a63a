-- ===== src/Rpc/Tests.antt =====
-- The theorems of Rpc at concrete inputs.
use dcrstakepool.Shared.{◌≡◌, refl, String, number_key, [], ◌∷◌, ok, err}
use dcrstakepool.Shared.Map.{Map, get, has, IsMap}
use dcrstakepool.Stakepoold.{Hash}
use dcrstakepool.Rpc.Messages.{Chainhash}
use dcrstakepool.Rpc.Tickets.{process_tickets, process_tickets_response}
use dcrstakepool.Rpc.Tickets.RoundTrip.{get-process_tickets_response}

-- Hashes are one byte long.
abbrev one_byte : Chainhash
one_byte = record {
  new_hash = λ bytes. elim bytes [ [] ↦ err "too short" | n ∷ ns ↦ ok n ];
  clone_bytes = λ h. h ∷ [];
  new_hash_from_str = λ s. ok 5;
}

abbrev two_tickets : Map Hash String
two_tickets = (7, "Dc7") ∷ (9, "Dc9") ∷ []

two_tickets-IsMap : IsMap two_tickets
unfolding has get
two_tickets-IsMap = (refl, (refl, tt))

get-process_tickets_response_example :
    get 9 (process_tickets_response one_byte (process_tickets one_byte two_tickets))
    ≡ get 9 two_tickets
get-process_tickets_response_example =
    get-process_tickets_response one_byte two_tickets (λ h. refl) two_tickets-IsMap 9

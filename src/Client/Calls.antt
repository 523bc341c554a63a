-- ===== src/Client/Calls.antt =====
-- gRPC calls as actions on the state `W` behind the connections, and the three loops over the
-- connections that the manager is written with. A call that fails may have changed the state.
pub mod Laws
use dcrstakepool.Shared.{ℕ, String, List, [], ◌∷◌, Result, ok, err}

-- A connection is named by a number.
abbrev pub Conn : Type 0
Conn = ℕ

abbrev pub Call : Type 0 → Type 0 → Type 0
Call W A = W → Result A × W

-- Goes on with the result of a call, or returns its error.
abbrev pub continue : {W A B : Type 0} → Result A → (A → Call W B) → Call W B
continue (ok a) f w = f a w
continue (err e) f w = (err e, w)

infixl 5 ◌>>=◌ ◌>>◌
abbrev pub ◌>>=◌ : {W A B : Type 0} → Call W A → (A → Call W B) → Call W B
◌>>=◌ m f w = let (r, w') = m w in continue r f w'

abbrev pub ◌>>◌ : {W B : Type 0} → Call W (Unit {0}) → Call W B → Call W B
m >> k = m >>= λ _. k

abbrev pub pure : {W A : Type 0} → A → Call W A
pure a w = (ok a, w)

abbrev pub fail : {W A : Type 0} → String → Call W A
fail e w = (err e, w)

abbrev pub lift : {W A : Type 0} → Result A → Call W A
lift r w = (r, w)

-- for _, conn := range s.grpcConnections { ...; if err != nil { return err } }
unfoldable pub each : {W : Type 0} → (Conn → Call W (Unit {0})) → List Conn → Call W (Unit {0})
each call [] w = (ok tt, w)
each call (conn ∷ conns) w =
    let (r, w') = call conn w in elim r [ err e ↦ (err e, w') | ok _ ↦ each call conns w' ]

abbrev pub cons_result : {W A : Type 0} → A → Result (List A) × W → Result (List A) × W
cons_result a (ok as', w) = (ok (a ∷ as'), w)
cons_result a (err e, w) = (err e, w)

-- The same with the responses kept, in the order of the connections.
unfoldable pub gather : {W A : Type 0} → (Conn → Call W A) → List Conn → Call W (List A)
gather call [] w = (ok [], w)
gather call (conn ∷ conns) w =
    let (r, w') = call conn w in
    elim r [ err e ↦ (err e, w') | ok a ↦ cons_result a (gather call conns w') ]

-- for _, conn := range s.grpcConnections { ...; if err != nil { continue }; return resp, nil }
unfoldable pub first : {W A : Type 0} → (Conn → Call W A) → String → List Conn → Call W A
first call none_left [] w = (err none_left, w)
first call none_left (conn ∷ conns) w =
    let (r, w') = call conn w in
    elim r [ err e ↦ first call none_left conns w' | ok a ↦ (ok a, w') ]

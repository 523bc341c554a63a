-- ===== src/Cluster/OneCall.antt =====
-- What one call over the network does to the instances.
use dcrstakepool.Shared.{
  nat_beq, nat_beq_iff, ◌≡◌, refl, sym, ap, subst, ok, inl, inr, ◌⊎◌, Bool-cases, if◌then◌else◌,
}
use dcrstakepool.Stakepoold.{Stakepoold}
use dcrstakepool.Client.Calls.{Conn}
use dcrstakepool.Cluster.{
  Delivery, delivered, request_lost, reply_lost, Net, set_server, deliver, rpc, next_delivery,
}

set_server_self :
    (conn : Conn) (spd : Stakepoold) (net : Net) → (set_server conn spd net).servers conn ≡ spd
set_server_self conn spd net = rw ((nat_beq_iff conn conn).1 refl) refl

set_server-cases :
    (conn k : Conn) (spd : Stakepoold) (net : Net)
    → ((set_server conn spd net).servers k ≡ net.servers k)
      ⊎ ((conn ≡ k) × ((set_server conn spd net).servers k ≡ spd))
set_server-cases conn k spd net = elim (Bool-cases (nat_beq k conn)) [
  | inl same ↦
      inr (sym ((nat_beq_iff k conn).0 same), ap (λ t. if t then spd else net.servers k) same)
  | inr differs ↦ inl (ap (λ t. if t then spd else net.servers k) differs)
]

module _ {A : Type 0} (conn : Conn) (handler : Stakepoold → A × Stakepoold) where
  deliver-server :
      (d : Delivery) (net : Net) (k : Conn)
      → ((deliver d conn handler net).1.servers k ≡ net.servers k)
        ⊎ ((conn ≡ k) × ((deliver d conn handler net).1.servers k ≡ (handler (net.servers conn)).1))
  unfolding deliver
  deliver-server request_lost net k = inl refl
  deliver-server reply_lost net k = set_server-cases conn k (handler (net.servers conn)).1 net
  deliver-server delivered net k = set_server-cases conn k (handler (net.servers conn)).1 net

  deliver-ok :
      (d : Delivery) (net : Net) (a : A)
      → (deliver d conn handler net).0 ≡ ok a
      → (a ≡ (handler (net.servers conn)).0)
        × ((deliver d conn handler net).1.servers conn ≡ (handler (net.servers conn)).1)
  unfolding deliver
  deliver-ok request_lost net a h = absurd (cc)
  deliver-ok reply_lost net a h = absurd (cc)
  deliver-ok delivered net a h = (cc, set_server_self conn (handler (net.servers conn)).1 net)

  -- A call leaves an instance as it was, or it is a call of this instance and its handler has run.
  pub rpc-server :
      (net : Net) (k : Conn)
      → ((rpc conn handler net).1.servers k ≡ net.servers k)
        ⊎ ((conn ≡ k) × ((rpc conn handler net).1.servers k ≡ (handler (net.servers conn)).1))
  unfolding rpc
  rpc-server net k =
      deliver-server (next_delivery net.deliveries).0
        (record net { deliveries = (next_delivery net.deliveries).1 }) k

  -- A call that succeeds has run the handler on the instance it is for, and returns its reply.
  pub rpc-ok :
      (net : Net) (a : A)
      → (rpc conn handler net).0 ≡ ok a
      → (a ≡ (handler (net.servers conn)).0)
        × ((rpc conn handler net).1.servers conn ≡ (handler (net.servers conn)).1)
  unfolding rpc
  rpc-ok net a h =
      deliver-ok (next_delivery net.deliveries).0
        (record net { deliveries = (next_delivery net.deliveries).1 }) a h

  -- What the handler keeps on every instance, the call keeps.
  pub rpc_keeps :
      (P : Conn → Stakepoold → Type 0)
      → ((spd : Stakepoold) → P conn spd → P conn (handler spd).1)
      → (net : Net) (k : Conn) → P k (net.servers k)
      → P k ((rpc conn handler net).1.servers k)
  rpc_keeps P keeps net k h = elim (rpc-server net k) [
    | inl before ↦ subst (P k) (sym before) h
    | inr (here, after) ↦ subst (P k) (sym after) (
        subst (λ (c : Conn). P c (handler (net.servers conn)).1) here
          (keeps (net.servers conn) (subst (λ (c : Conn). P c (net.servers c)) (sym here) h)))
  ]

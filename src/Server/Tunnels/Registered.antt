-- ===== src/Server/Tunnels/Registered.antt =====
-- `register` of a new tunnel by `grantTunnel` of internal/server/connection.go.
use tunel.Prelude.{
  ℕ, suc, ◌+◌, ◌<◌, ◌≡◌, refl, Bool, true, false, Str, none, some, arith, nat_eq, ◌==◌, ==_iff,
  codes, Bool-cases, inl, inr, ◌⊎◌,
}
use tunel.Prelude.Map.{Map, get, put, delete, get-put, get-delete}
use tunel.Server.Tunnels.{
  Owner, tunnel, World, done, failed, tcp_name, udp_name, new_tunnel, in_use, register,
}

-- The world in which the tunnel is registered.
abbrev pub registered_world : World → Str → ℕ → Str → World
registered_world w proto port target = record w {
  next_id = w.next_id + 1;
  next_ref = suc w.next_ref;
  cells = put w.next_ref (new_tunnel w.next_id proto port target) w.cells;
  tunnels = put w.next_id w.next_ref w.tunnels;
  ports = put port w.next_ref w.ports;
}

abbrev pub IsTransport : Str → Type 0
IsTransport proto = (proto ≡ tcp_name) ⊎ (proto ≡ udp_name)

-- A port that is bound anew is the new tunnel's, or was bound before.
pub taken :
    (port p t ref : ℕ) (m : Map ℕ Owner)
    → get p (put port (tunnel ref) m) ≡ some (tunnel t)
    → ((p ≡ port) × (t ≡ ref) × (◌≡◌ {A = Bool} true true)) ⊎ (get p m ≡ some (tunnel t))
taken port p t ref m e = elim (Bool-cases (port == p)) [
  | inl hit ↦
      inl (ground (arith, ==_iff port p), ground (arith, get-put port p (tunnel ref) m), refl)
  | inr miss ↦ inr (ground (arith, get-put port p (tunnel ref) m))
]

pub delete-put {κ} :
    {V : Type κ} (k j : ℕ) (x : V) (m : Map ℕ V)
    → get k m ≡ none
    → get j (delete k (put k x m)) ≡ get j m
delete-put k j x m e = ground (arith, get-delete k j (put k x m), get-put k j x m, ==_iff k j)

pub register_new :
    (proto : Str) (port : ℕ) (target : Str) (w : World)
    → w.closed ≡ false
    → get port w.ports ≡ none
    → w.next_id < 65535
    → register proto port target w ≡ (registered_world w proto port target, done w.next_ref)
unfolding register
register_new proto port target w is_open new small = ground arith

pub register_closed :
    (proto : Str) (port : ℕ) (target : Str) (w : World)
    → w.closed ≡ true
    → register proto port target w ≡ (w, failed (codes "connection closing"))
unfolding register
register_closed proto port target w closing = ground arith

pub register-in_use :
    (proto : Str) (port : ℕ) (target : Str) (w : World) (other : ℕ)
    → w.closed ≡ false
    → get port w.ports ≡ some other
    → register proto port target w ≡ (w, failed (in_use port))
unfolding register
register-in_use proto port target w other is_open held = ground arith

-- ===== src/Server/Tunnels/Race.antt =====
-- A grant that the end of its connection overtakes: `grantTunnel` and `closeAll` of
-- internal/server/connection.go.
use tunel.Prelude.{
  ℕ, ◌<◌, ◌≡◌, refl, true, false, [], ◌∷◌, Str, none, some, arith, nat_eq, str_eq_iff, ◌==◌, ==_iff,
  Bool-cases, inl, inr,
}
use tunel.Prelude.Map.{Map, get, put, get-put_self}
use tunel.Protocol.Messages.{Control, encode}
use tunel.Server.Tunnels.{
  Tunnel, tunnel, World, tcp_name, new_tunnel, register, open_public, listen_tcp, close_public,
  close_each, close_all, open_and_acknowledge, acknowledge, unregister, granted_message,
}
use tunel.Server.Tunnels.Registered.{registered_world, register_new}
use tunel.Server.Tunnels.CloseAll.{
  close_each_keeps, close_public_cell, shut_down, close_all-close_each,
}

abbrev shut : Tunnel → Tunnel
shut tun = record tun { closed = true }

close_each_cell :
    (m : Map ℕ ℕ) (t : ℕ) (tun : Tunnel) (w : World)
    → get t w.cells ≡ some (shut tun)
    → get t (close_each m w).cells ≡ some (shut tun)
unfolding close_each
close_each_cell [] t tun w e = e
close_each_cell ((id, s) ∷ m) t tun w e =
    close_each_cell m t tun (close_public s w)
      (ground (arith, close_public_cell s t (shut tun) w e))

-- A tunnel in the list is closed by the loop.
close_each_shuts :
    (m : Map ℕ ℕ) (id t : ℕ) (tun : Tunnel) (w : World)
    → get id m ≡ some t
    → get t w.cells ≡ some tun
    → get t (close_each m w).cells ≡ some (shut tun)
unfolding close_each get
close_each_shuts [] id t tun w e here = cc
close_each_shuts ((j, s) ∷ m) id t tun w e here = elim (Bool-cases (j == id)) [
  | inl hit ↦
      close_each_cell m t tun (close_public s w)
        (ground (arith, close_public_cell s t tun w here, ==_iff s t))
  | inr miss ↦ elim (Bool-cases (s == t)) [
    | inl same ↦
        close_each_cell m t tun (close_public s w)
          (ground (arith, close_public_cell s t tun w here))
    | inr other ↦
        close_each_shuts m id t tun (close_public s w) (ground arith)
          (ground (arith, close_public_cell s t tun w here))
  ]
]

close_public_again :
    (t : ℕ) (tun : Tunnel) (w : World)
    → get t w.cells ≡ some tun
    → tun.closed ≡ true
    → close_public t w ≡ w
unfolding close_public
close_public_again t tun w here closed = ground arith

-- The tunnel that was closed before it listens, with its listener.
abbrev late_world : ℕ → Tunnel → World → World
late_world t tun w = record w {
  tcp = put tun.public_port (tunnel t) w.tcp;
  cells = put t (record (shut tun) { tcp_ln = true }) w.cells;
}

module _ (t id : ℕ) (tun : Tunnel) (control : Control) (w : World)
    (here : get t w.cells ≡ some (shut tun)) (proto : tun.proto ≡ tcp_name)
    (free : get tun.public_port w.tcp ≡ none) where
  open_late : open_public t w ≡ (late_world t tun w, true)
  unfolding open_public listen_tcp
  open_late = ground (arith, str_eq_iff tun.proto tcp_name)

  close_late : close_public t (late_world t tun w) ≡ late_world t tun w
  close_late =
      close_public_again t (record (shut tun) { tcp_ln = true }) (late_world t tun w)
        (get-put_self t (record (shut tun) { tcp_ln = true }) w.cells) refl

  acknowledge_late :
      ((acknowledge t id tun.public_port control (late_world t tun w)).0.tcp
        ≡ (late_world t tun w).tcp)
      × ((acknowledge t id tun.public_port control (late_world t tun w)).0.cells
          ≡ (late_world t tun w).cells)
  unfolding acknowledge unregister
  acknowledge_late = elim (Bool-cases (encode (granted_message w.conn_id id) control).1) [
    | inl sent ↦ rw sent (refl, refl)
    | inr lost ↦ rw (lost, close_late) (refl, refl)
  ]

  late_stays :
      (a : World)
      → (a.tcp ≡ (late_world t tun w).tcp) × (a.cells ≡ (late_world t tun w).cells)
      → get tun.public_port (close_public t a).tcp ≡ some (tunnel t)
  late_stays a (same_tcp, same_cells) =
      let cell : get t a.cells ≡ some (record (shut tun) { tcp_ln = true }) =
        rw same_cells (get-put_self t (record (shut tun) { tcp_ln = true }) w.cells) in
      rw (close_public_again t (record (shut tun) { tcp_ln = true }) a cell refl, same_tcp)
        (get-put_self tun.public_port (tunnel t) w.tcp)

  opens_for_good :
      get tun.public_port
        (close_public t (open_and_acknowledge t id tun.public_port control w).0).tcp
      ≡ some (tunnel t)
  unfolding open_and_acknowledge
  opens_for_good = rw open_late (
      late_stays (acknowledge t id tun.public_port control (late_world t tun w)).0 acknowledge_late)

-- If the connection ends after `grantTunnel` has registered a TCP tunnel and before it opens the port,
-- the port is opened all the same, and closing the tunnel then does nothing: the machine's port stays
-- bound to it, whether or not the acknowledgement is sent. The connection is open and both the
-- registry and the machine have the port free; the next id is below 65535.
pub grant_outlives_close_all :
    (w : World) (port : ℕ) (target : Str) (control : Control)
    → w.closed ≡ false
    → get port w.ports ≡ none
    → get port w.tcp ≡ none
    → w.next_id < 65535
    → get port
        (close_public w.next_ref
          (open_and_acknowledge w.next_ref w.next_id port control
            (close_all (register tcp_name port target w).0)).0).tcp
      ≡ some (tunnel w.next_ref)
grant_outlives_close_all w port target control is_open new free small =
    let r = registered_world w tcp_name port target in
    rw (register_new tcp_name port target w is_open new small, close_all-close_each r is_open)
      (opens_for_good w.next_ref w.next_id (new_tunnel w.next_id tcp_name port target) control
        (close_each r.tunnels (shut_down r))
        (close_each_shuts r.tunnels w.next_id w.next_ref (new_tunnel w.next_id tcp_name port target)
          (shut_down r) (get-put_self w.next_id w.next_ref w.tunnels)
          (get-put_self w.next_ref (new_tunnel w.next_id tcp_name port target) w.cells))
        refl ((close_each_keeps r.tunnels port (shut_down r)).0.0 free))

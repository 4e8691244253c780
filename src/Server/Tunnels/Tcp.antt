-- ===== src/Server/Tunnels/Tcp.antt =====
-- A new tunnel whose TCP listener is opened: `grantTunnel` of internal/server/connection.go.
use tunel.Prelude.{
  ℕ, ◌≡◌, refl, true, false, Str, none, some, arith, nat_eq, str_eq_iff, ==_iff, inl, inr,
}
use tunel.Prelude.Map.{get, put, delete, get-put, get-put_self}
use tunel.Server.Tunnels.{
  Tunnel, Owner, tunnel, World, tcp_name, new_tunnel, listen_tcp, open_public, close_public,
  unregister,
}
use tunel.Server.Tunnels.Registry.{IsValid, extended-IsValid, undone-IsValid}
use tunel.Server.Tunnels.Registered.{registered_world, taken, delete-put}

-- The tunnel with its TCP listener, and the world with both.
abbrev pub tcp_tunnel : World → ℕ → Str → Tunnel
tcp_tunnel w port target = record (new_tunnel w.next_id tcp_name port target) { tcp_ln = true }

abbrev pub tcp_world : World → ℕ → Str → World
tcp_world w port target = record (registered_world w tcp_name port target) {
  cells =
      put w.next_ref (tcp_tunnel w port target)
        (put w.next_ref (new_tunnel w.next_id tcp_name port target) w.cells);
  tcp = put port (tunnel w.next_ref) w.tcp;
}

-- The same when the tunnel has been closed and taken out.
abbrev pub tcp_undone : World → ℕ → Str → World
tcp_undone w port target = unregister w.next_id port (record (tcp_world w port target) {
  cells =
      put w.next_ref (record (tcp_tunnel w port target) { closed = true })
        (put w.next_ref (tcp_tunnel w port target)
          (put w.next_ref (new_tunnel w.next_id tcp_name port target) w.cells));
  tcp = delete port (put port (tunnel w.next_ref) w.tcp);
})

module _ (w : World) (port : ℕ) (target : Str) where
  pub open_tcp :
      get port w.tcp ≡ none
      → open_public w.next_ref (registered_world w tcp_name port target)
        ≡ (tcp_world w port target, true)
  unfolding open_public listen_tcp
  open_tcp e = ground (
    arith,
    get-put_self w.next_ref (new_tunnel w.next_id tcp_name port target) w.cells,
    str_eq_iff tcp_name tcp_name,
    str_eq_iff tcp_name tcp_name,
  )

  pub open_tcp_bound :
      (o : Owner)
      → get port w.tcp ≡ some o
      → open_public w.next_ref (registered_world w tcp_name port target)
        ≡ (registered_world w tcp_name port target, false)
  unfolding open_public listen_tcp
  open_tcp_bound o e = ground (
    arith,
    get-put_self w.next_ref (new_tunnel w.next_id tcp_name port target) w.cells,
    str_eq_iff tcp_name tcp_name,
    str_eq_iff tcp_name tcp_name,
  )

  pub close_tcp :
      unregister w.next_id port (close_public w.next_ref (tcp_world w port target))
      ≡ tcp_undone w port target
  unfolding close_public unregister
  close_tcp = ground (
    arith,
    get-put_self w.next_ref (tcp_tunnel w port target)
        (put w.next_ref (new_tunnel w.next_id tcp_name port target) w.cells),
  )

  pub tcp_world-IsValid :
      IsValid w
      → get port w.ports ≡ none
      → w.closed ≡ false
      → get port w.tcp ≡ none
      → IsValid (tcp_world w port target)
  tcp_world-IsValid v new is_open free =
      extended-IsValid w (tcp_world w port target) port (tcp_tunnel w port target) v new refl refl
        refl refl refl is_open
        (λ t. ground (
          arith,
          get-put w.next_ref t (tcp_tunnel w port target)
              (put w.next_ref (new_tunnel w.next_id tcp_name port target) w.cells),
          get-put w.next_ref t (new_tunnel w.next_id tcp_name port target) w.cells,
        ))
        (λ id. get-put w.next_id id w.next_ref w.tunnels) (λ p. get-put port p w.next_ref w.ports)
        (λ p o e. ground (arith, get-put port p (tunnel w.next_ref) w.tcp, ==_iff port p))
        (λ p o e. e) (λ p t e. taken port p t w.next_ref w.tcp e) (λ p t e. inr e)
        (inl (refl, get-put_self port (tunnel w.next_ref) w.tcp))

  pub tcp_undone-IsValid :
      IsValid w
      → get port w.ports ≡ none
      → get w.next_id w.tunnels ≡ none
      → get port w.tcp ≡ none
      → IsValid (tcp_undone w port target)
  unfolding unregister
  tcp_undone-IsValid v new new_id free =
      undone-IsValid w (tcp_undone w port target)
        (record (tcp_tunnel w port target) { closed = true }) v (omega arith) refl refl
        (λ t. ground (
          arith,
          get-put w.next_ref t (record (tcp_tunnel w port target) { closed = true })
              (put w.next_ref (tcp_tunnel w port target)
                (put w.next_ref (new_tunnel w.next_id tcp_name port target) w.cells)),
          get-put w.next_ref t (tcp_tunnel w port target)
              (put w.next_ref (new_tunnel w.next_id tcp_name port target) w.cells),
          get-put w.next_ref t (new_tunnel w.next_id tcp_name port target) w.cells,
        ))
        (λ id. delete-put w.next_id id w.next_ref w.tunnels new_id)
        (λ p. delete-put port p w.next_ref w.ports new)
        (λ p. delete-put port p (tunnel w.next_ref) w.tcp free) (λ p. refl)

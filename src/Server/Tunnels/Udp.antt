-- ===== src/Server/Tunnels/Udp.antt =====
-- A new tunnel whose UDP listener is opened: `grantTunnel` of internal/server/connection.go.
use tunel.Prelude.{
  ℕ, ◌≡◌, refl, true, false, Str, none, some, arith, nat_eq, str_eq_iff, ==_iff, inr,
}
use tunel.Prelude.Map.{get, put, delete, get-put, get-put_self}
use tunel.Server.Tunnels.{
  Tunnel, Owner, tunnel, World, tcp_name, udp_name, new_tunnel, listen_udp, open_public,
  close_public, unregister,
}
use tunel.Server.Tunnels.Registry.{IsValid, extended-IsValid, undone-IsValid}
use tunel.Server.Tunnels.Registered.{registered_world, taken, delete-put}

-- The tunnel with its UDP listener, and the world with both.
abbrev pub udp_tunnel : World → ℕ → Str → Tunnel
udp_tunnel w port target = record (new_tunnel w.next_id udp_name port target) { udp_ln = true }

abbrev pub udp_world : World → ℕ → Str → World
udp_world w port target = record (registered_world w udp_name port target) {
  cells =
      put w.next_ref (udp_tunnel w port target)
        (put w.next_ref (new_tunnel w.next_id udp_name port target) w.cells);
  udp = put port (tunnel w.next_ref) w.udp;
}

-- The same when the tunnel has been closed and taken out.
abbrev pub udp_undone : World → ℕ → Str → World
udp_undone w port target = unregister w.next_id port (record (udp_world w port target) {
  cells =
      put w.next_ref (record (udp_tunnel w port target) { closed = true })
        (put w.next_ref (udp_tunnel w port target)
          (put w.next_ref (new_tunnel w.next_id udp_name port target) w.cells));
  udp = delete port (put port (tunnel w.next_ref) w.udp);
})

module _ (w : World) (port : ℕ) (target : Str) where
  pub open_udp :
      get port w.udp ≡ none
      → open_public w.next_ref (registered_world w udp_name port target)
        ≡ (udp_world w port target, true)
  unfolding open_public listen_udp
  open_udp e = ground (
    arith,
    get-put_self w.next_ref (new_tunnel w.next_id udp_name port target) w.cells,
    str_eq_iff udp_name udp_name,
    str_eq_iff udp_name tcp_name,
  )

  pub open_udp_bound :
      (o : Owner)
      → get port w.udp ≡ some o
      → open_public w.next_ref (registered_world w udp_name port target)
        ≡ (registered_world w udp_name port target, false)
  unfolding open_public listen_udp
  open_udp_bound o e = ground (
    arith,
    get-put_self w.next_ref (new_tunnel w.next_id udp_name port target) w.cells,
    str_eq_iff udp_name udp_name,
    str_eq_iff udp_name tcp_name,
  )

  pub close_udp :
      unregister w.next_id port (close_public w.next_ref (udp_world w port target))
      ≡ udp_undone w port target
  unfolding close_public unregister
  close_udp = ground (
    arith,
    get-put_self w.next_ref (udp_tunnel w port target)
        (put w.next_ref (new_tunnel w.next_id udp_name port target) w.cells),
  )

  pub udp_world-IsValid :
      IsValid w
      → get port w.ports ≡ none
      → w.closed ≡ false
      → get port w.udp ≡ none
      → IsValid (udp_world w port target)
  udp_world-IsValid v new is_open free =
      extended-IsValid w (udp_world w port target) port (udp_tunnel w port target) v new refl refl
        refl refl refl is_open
        (λ t. ground (
          arith,
          get-put w.next_ref t (udp_tunnel w port target)
              (put w.next_ref (new_tunnel w.next_id udp_name port target) w.cells),
          get-put w.next_ref t (new_tunnel w.next_id udp_name port target) w.cells,
        ))
        (λ id. get-put w.next_id id w.next_ref w.tunnels) (λ p. get-put port p w.next_ref w.ports)
        (λ p o e. e)
        (λ p o e. ground (arith, get-put port p (tunnel w.next_ref) w.udp, ==_iff port p))
        (λ p t e. inr e) (λ p t e. taken port p t w.next_ref w.udp e)
        (inr (refl, get-put_self port (tunnel w.next_ref) w.udp))

  pub udp_undone-IsValid :
      IsValid w
      → get port w.ports ≡ none
      → get w.next_id w.tunnels ≡ none
      → get port w.udp ≡ none
      → IsValid (udp_undone w port target)
  unfolding unregister
  udp_undone-IsValid v new new_id free =
      undone-IsValid w (udp_undone w port target)
        (record (udp_tunnel w port target) { closed = true }) v (omega arith) refl refl
        (λ t. ground (
          arith,
          get-put w.next_ref t (record (udp_tunnel w port target) { closed = true })
              (put w.next_ref (udp_tunnel w port target)
                (put w.next_ref (new_tunnel w.next_id udp_name port target) w.cells)),
          get-put w.next_ref t (udp_tunnel w port target)
              (put w.next_ref (new_tunnel w.next_id udp_name port target) w.cells),
          get-put w.next_ref t (new_tunnel w.next_id udp_name port target) w.cells,
        ))
        (λ id. delete-put w.next_id id w.next_ref w.tunnels new_id)
        (λ p. delete-put port p w.next_ref w.ports new) (λ p. refl)
        (λ p. delete-put port p (tunnel w.next_ref) w.udp free)

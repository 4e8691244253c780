-- ===== src/Server/Dispatch/Soundness.antt =====
-- What the streams of a connection leave of the server: internal/server/connection.go.
use tunel.Prelude.{
  ℕ, zero, suc, ◌<◌, ◌≡◌, refl, false, List, ◌++◌, Option, none, some, ◌==◌, length, get_or,
  Bool-cases, Option-cases, inl, inr, ◌⊎◌,
}
use tunel.Protocol.Stream.{Error, Reader, Writer, Outcome, ok, err, read_full}
use tunel.Protocol.Packet.{packet_stream_magic, read_packet, max_packet_len}
use tunel.Protocol.Messages.{Control, MessageType}
use tunel.Server.Hub.{Hub, attach_packet_stream, read_loop, take_packet, release_peer}
use tunel.Server.Hub.Invariant.{
  IsValid, Result-cases, attach_packet_stream-IsValid, take_packet-IsValid, release_peer-IsValid,
}
use tunel.Server.Tunnels.CloseAll.{IsShutDown, close_all_frees}
use tunel.Server.Control.{Server, Opening}
use tunel.Server.Control.Session.{IsSound, HubIsValid, handle_control-IsSound}
use tunel.Server.Dispatch.{attach_and_read, handle_vpn_packets, handle_stream, finish}

Outcome-cases :
    {A : Type 0} (o : Outcome Reader A)
    → ((x : A) × (r : Reader) × (o ≡ ok x r)) ⊎ ((e : Error) × (r : Reader) × (o ≡ err e r))
Outcome-cases (ok x r) = inl (x, r, refl)
Outcome-cases (err e r) = inr (e, r, refl)

read_loop-IsValid :
    (fuel p : ℕ) (stream : Reader) (h : Hub) → IsValid h → IsValid (read_loop fuel p stream h).0
unfolding read_loop
read_loop-IsValid zero p stream h v = v
read_loop-IsValid (suc fuel) p stream h v =
    elim (Outcome-cases (read_packet max_packet_len stream)) [
      | inr (e, r, ended) ↦ rw (read_loop, ended) v
      | inl (pkt, r, got) ↦
          rw (read_loop, got)
            (elim (Bool-cases (length pkt == 0)) [
              | inl empty ↦ rw empty (read_loop-IsValid fuel p r h v)
              | inr full ↦
                  rw full (
                    read_loop-IsValid fuel p r (take_packet p pkt h)
                      (take_packet-IsValid p pkt h v))
            ])
    ]

attach_and_read-IsValid :
    (conn : ℕ) (r : Reader) (w : Writer) (hub : Hub)
    → IsValid hub
    → IsValid (attach_and_read conn r w hub)
unfolding attach_and_read
attach_and_read-IsValid conn r w hub v =
    let v' = attach_packet_stream-IsValid hub conn w v in
    elim (Result-cases (attach_packet_stream hub conn w).1) [
      | inl (e, refused) ↦ rw (attach_and_read, refused) v'
      | inr (p, attached) ↦
          rw (attach_and_read, attached)
            (read_loop-IsValid (suc (length r.pending)) p r (attach_packet_stream hub conn w).0 v')
    ]

HubIsValid-some : (o : Option Hub) (hub : Hub) → o ≡ some hub → HubIsValid o → IsValid hub
HubIsValid-some none hub e v = cc
HubIsValid-some (some h) hub e v = let same : h ≡ hub = cc in rw (← same) v

handle_vpn_packets-IsSound :
    (r : Reader) (w : Writer) (s : Server) → IsSound s → IsSound (handle_vpn_packets r w s)
unfolding handle_vpn_packets
handle_vpn_packets-IsSound r w s v = elim (Option-cases s.hub) [
  | inl off ↦ rw (handle_vpn_packets, off) v
  | inr (hub, on) ↦
      rw (handle_vpn_packets, on)
        (v.0, attach_and_read-IsValid s.conn r w hub (HubIsValid-some s.hub hub on v.1))
]

-- Any stream that a client opens, a control stream or a packet stream, and whatever comes on it, leaves
-- the registry of tunnels and the hub valid. An id below 65535 is next.
pub handle_stream-IsSound :
    (decode : List ℕ → Opening × List MessageType) (r : Reader) (w : Writer) (control : Control)
    (s : Server)
    → IsSound s
    → s.world.next_id < 65535
    → IsSound (handle_stream decode r w control s)
unfolding handle_stream
handle_stream-IsSound decode r w control s v small = elim (Outcome-cases (read_full 1 r)) [
  | inr (e, r', ended) ↦ rw (handle_stream, ended) v
  | inl (first, r', got) ↦
      rw (handle_stream, got)
        (elim (Bool-cases (get_or first 0 0 == packet_stream_magic)) [
          | inl packets ↦ rw packets (handle_vpn_packets-IsSound r' w s v)
          | inr other ↦
              let out = decode (first ++ r'.pending) in
              rw other (handle_control-IsSound out.0 out.1 control s v small)
        ])
]

-- When the session of an open connection ends, no listener of its tunnels is left, both maps are empty,
-- and the hub is valid.
pub finish_frees :
    (s : Server)
    → IsSound s
    → s.world.closed ≡ false
    → IsShutDown (finish s).world × HubIsValid (finish s).hub
unfolding finish
finish_frees s v is_open = (close_all_frees s.world v.0 is_open, released s.hub v.1)
  where
    released :
        (hub : Option Hub)
        → HubIsValid hub
        → HubIsValid (elim hub [ none ↦ none | some h ↦ some (release_peer h s.conn) ])
    released none u = tt
    released (some h) u = release_peer-IsValid h s.conn u

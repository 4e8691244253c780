-- ===== src/Client/Vpn/Ends.antt =====
-- How a VPN session of the client ends: `runOnceVPN`, `vpnControlReader` and `RunVPN` of
-- internal/client/vpn.go.
use tunel.Prelude.{
  Bool, Option, if◌then◌else◌, ◌↔◌, ◌<◌, ◌++◌, length, map, filled, ℕ, ◌≤◌, ◌≡◌, ◌≢◌, ◌⊎◌, inl, inr,
  refl, true, false, List, [], ◌∷◌, Str, some, arith, str_eq_iff, All,
}
use tunel.Protocol.Stream.{Writer, write_fits}
use tunel.Protocol.Packet.{write_packet_stream_magic}
use tunel.Protocol.Messages.{AuthOk, Control, encode}
use tunel.Client.Spec.{Config}
use tunel.Client.Run.{Turn, connecting, closed, returned, run_loop, round, retry, after}
use tunel.Client.Peers.{Peers, Signal, on_signal, on_signals}
use tunel.Client.Tunnels.{accepted}
use tunel.Client.P2p.{Manager}
use tunel.Server.Hub.ReadLoop.{packets, IsPacket}
use tunel.Client.Vpn.Pumps.{weight, HasNoConnection, IsQuiet, stream_to_tun_end, tun_to_stream_end}
use tunel.Client.Vpn.{
  Identity, Session, by_pump, stopped, session_end, serve_packets, on_vpn_reply, run_once_vpn,
  run_vpn, Pump, broken, packet, device_failed, Round, Tun, tun_to_stream, stream_to_tun,
  ControlRound, signal, other, vpn_control_reader,
}

-- The session comes up: the server answers with an address, the packet stream takes its first byte, and
-- the device opens and is configured.
abbrev pub IsUp : Session → Type 0
IsUp s =
    (control : Control) × (a : AuthOk) × (w : Writer) × (s.connects ≡ true)
    × (s.control ≡ some control)
    × (1 ≤ control.takes)
    × (s.reply ≡ accepted a)
    × (a.vpn_ip ≢ [])
    × (s.packets ≡ some w)
    × (1 ≤ w.quota)
    × (s.tun_opens ≡ true)
    × (s.tun_configures ≡ true)

run_once_vpn_up :
    (token : Str) (i : Identity) (s : Session)
    → IsUp s
    → run_once_vpn token i s ≡ session_end s.ends s.cancelled
unfolding run_once_vpn on_vpn_reply serve_packets write_packet_stream_magic encode
run_once_vpn_up token i s (control, a, w, c, o, room, r, ip, p, room', t, t') =
    ground (arith, str_eq_iff a.vpn_ip [], write_fits (154 ∷ []) w)

-- The round with a session, by how the loop that returned first has returned.
abbrev pub turn_of : Str → Identity → Session → Pump → Turn → Turn
turn_of token i s p t = record t { attempt = run_once_vpn token i (record s { ends = by_pump p }) }

first_turn :
    (beyond : ℕ) (cfg : Config) (i : Identity) (s : Session) (p : Pump) (t : Turn)
    (turns : List Turn)
    → IsUp s
    → t.cancelled_before ≡ false
    → run_vpn beyond cfg (turn_of cfg.token i s p t ∷ turns)
      ≡ after (connecting 1) (
          round beyond cfg.max_attempts 1
            (record t { attempt = session_end (by_pump p) s.cancelled })
            (run_loop beyond cfg.max_attempts 1 turns))
unfolding run_vpn run_loop
first_turn beyond cfg i s p t turns up before =
    let is = run_once_vpn_up cfg.token i (record s { ends = by_pump p }) up in rw (before, is) refl

stopped_first :
    (beyond : ℕ) (cfg : Config) (i : Identity) (s : Session) (t : Turn) (turns : List Turn)
    → IsUp s
    → t.cancelled_before ≡ false
    → run_vpn beyond cfg (turn_of cfg.token i s stopped t ∷ turns)
      ≡ (connecting 1 ∷ closed ∷ [], returned)
unfolding round session_end
stopped_first beyond cfg i s t turns up before =
    rw (first_turn beyond cfg i s stopped t turns up before) refl

broken_first :
    (beyond : ℕ) (cfg : Config) (i : Identity) (s : Session) (t : Turn) (turns : List Turn)
    → IsUp s
    → s.cancelled ≡ false
    → t.cancelled_before ≡ false
    → run_vpn beyond cfg (turn_of cfg.token i s broken t ∷ turns)
      ≢ (connecting 1 ∷ closed ∷ [], returned)
unfolding round session_end retry
broken_first beyond cfg i s t turns up running before e =
    let first = first_turn beyond cfg i s broken t turns up before in ground arith

-- A VPN session that is up, with no cancelled context, in which the packets `given` have come from the
-- server and `taken` from the device. If the packet stream then ends, `RunVPN` returns at once and without an
-- error, not connecting again, exactly if the server has closed the stream and the transport has not failed;
-- and if the device fails, it does so too. The packets are of at most 65535 bytes and there are no direct
-- connections; the loop to the device has a round for each packet and one more, and the device and the
-- stream take what they are given.
pub run_vpn_gives_up :
    (beyond : ℕ) (cfg : Config) (i : Identity) (s : Session) (t : Turn) (turns : List Turn)
    (given taken : List (List ℕ)) (lost : Bool) (rounds : List Round) (d : Tun) (m : Option Manager)
    (w : Writer)
    → IsUp s
    → s.cancelled ≡ false
    → t.cancelled_before ≡ false
    → All IsPacket given
    → All IsPacket taken
    → All IsQuiet rounds
    → length given < length rounds
    → length (filled given) ≤ d.takes
    → HasNoConnection m
    → weight (filled taken) ≤ w.quota
    → let by_stream =
        (stream_to_tun rounds (record { pending = packets given; broken = lost }) d).1 in
      let by_device = (tun_to_stream (map packet taken ++ (device_failed ∷ [])) m w).2 in
      ((run_vpn beyond cfg (turn_of cfg.token i s by_stream t ∷ turns)
          ≡ (connecting 1 ∷ closed ∷ [], returned))
        ↔ (lost ≡ false))
      × (run_vpn beyond cfg (turn_of cfg.token i s by_device t ∷ turns)
          ≡ (connecting 1 ∷ closed ∷ [], returned))
run_vpn_gives_up beyond cfg i s t turns given taken lost rounds d m w up running before short short'
      quiet lt room alone room' =
    rw
      (
        stream_to_tun_end given rounds d lost short quiet lt room,
        tun_to_stream_end taken m w alone short' room',
      )
      (by_end lost, stopped_first beyond cfg i s t turns up before)
  where
    by_end :
        (lost : Bool)
        → (run_vpn beyond cfg (turn_of cfg.token i s (if lost then broken else stopped) t ∷ turns)
            ≡ (connecting 1 ∷ closed ∷ [], returned))
          ↔ (lost ≡ false)
    by_end true = (
      (λ e. absurd (broken_first beyond cfg i s t turns up running before e)),
      λ e. absurd (cc e),
    )
    by_end false = ((λ e. refl), λ e. stopped_first beyond cfg i s t turns up before)

-- The signals among the arrivals.
abbrev pub signals : List ControlRound → List Signal
signals [] = []
signals (t ∷ rounds) = elim t.arrival [ signal s ↦ s ∷ signals rounds | a ↦ signals rounds ]

abbrev pub IsFrame : ControlRound → Type 0
IsFrame t =
    (t.cancelled ≡ false)
    × (t.ticked ≡ false)
    × (((s : Signal) × (t.arrival ≡ signal s)) ⊎ (t.arrival ≡ other))

-- While the stream lasts, the peers are those that the signals leave, in their order.
pub vpn_control_reader-on_signals :
    (rounds : List ControlRound) (control : Control) (peers : Peers)
    → All IsFrame rounds
    → (vpn_control_reader rounds control peers).1 ≡ on_signals (signals rounds) peers
unfolding vpn_control_reader on_signals
vpn_control_reader-on_signals [] control peers all = refl
vpn_control_reader-on_signals (t ∷ rounds) control peers ((c, k, inl (s, e)), all) =
    ground (arith, vpn_control_reader-on_signals rounds control (on_signal s peers) all)
vpn_control_reader-on_signals (t ∷ rounds) control peers ((c, k, inr e), all) =
    ground (arith, vpn_control_reader-on_signals rounds control peers all)

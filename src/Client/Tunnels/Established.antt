-- ===== src/Client/Tunnels/Established.antt =====
-- How a session of the client comes to its tunnels, and how it ends: `setupTunnel` and `runOnce` of
-- internal/client/client.go.
use tunel.Prelude.{
  ◌-◌, ◌≤◌, ◌≡◌, ◌↔◌, refl, Bool, true, List, [], ◌∷◌, ◌++◌, Str, Option, some, none, arith, nat_eq,
  All,
}
use tunel.Prelude.Map.{put}
use tunel.Protocol.Messages.{AuthOk, Control, auth, encode}
use tunel.Client.Run.{ended}
use tunel.Client.Spec.{TunnelSpec}
use tunel.Client.Tunnels.{
  Session, Reply, accepted, Setup, auth_of, remote_tunnel, on_reply, setup_tunnel, setup_all,
  run_once,
}

-- The stream opens and takes the request, and the server grants the tunnel.
abbrev pub Grants : Option Control → Reply → Type 0
Grants opened reply =
    (control : Control) × (a : AuthOk) × (opened ≡ some control)
    × (1 ≤ control.takes)
    × (reply ≡ accepted a)

abbrev pub IsGranted : Setup → Type 0
IsGranted u = Grants u.opened u.reply

-- A tunnel that is granted is registered under its id, and the request is on its stream.
pub setup_tunnel_granted :
    (token : Str) (t : TunnelSpec) (control : Control) (a : AuthOk) (s : Session)
    → 1 ≤ control.takes
    → setup_tunnel token t (some control) (accepted a) s ≡ (
      put a.tunnel_id (remote_tunnel t) s,
      some (record {
        sent = control.sent ++ (auth (auth_of token t) ∷ []);
        takes = control.takes - 1;
      }),
      none,
    )
unfolding setup_tunnel on_reply encode
setup_tunnel_granted token t control a s room = ground arith

setup_tunnel_errors :
    (token : Str) (t : TunnelSpec) (opened : Option Control) (reply : Reply) (s : Session)
    → ((setup_tunnel token t opened reply s).2 ≡ none) ↔ Grants opened reply
unfolding setup_tunnel on_reply encode
setup_tunnel_errors token t none reply s = ((λ e. cc), λ (c, a, opens, room, is). cc)
setup_tunnel_errors token t (some control) (accepted a) s =
    ((λ e. (control, a, refl, ground arith, refl)), λ (c, b, opens, room, is). ground arith)
setup_tunnel_errors token t (some control) reply s =
    ((λ e. absurd (ground arith)), λ (c, a, opens, room, is). cc)

setup_all_errors :
    (token : Str) (us : List Setup) (s : Session)
    → ((setup_all token us s).1 ≡ []) ↔ All IsGranted us
unfolding setup_all
setup_all_errors token [] s = ((λ _. tt), λ _. refl)
setup_all_errors token (u ∷ us) s = ground (
  arith,
  setup_tunnel_errors token u.spec u.opened u.reply s,
  setup_all_errors token us (setup_tunnel token u.spec u.opened u.reply s).0,
)

-- A session ends without an error exactly if the server was reached, every tunnel was granted, and then
-- the context was cancelled: the end of the session itself is always an error.
pub run_once_ended_iff :
    (connects : Bool) (token : Str) (us : List Setup) (cancelled : Bool)
    → ((run_once connects token us cancelled).1 ≡ ended)
      ↔ ((connects ≡ true) × All IsGranted us × (cancelled ≡ true))
unfolding run_once
run_once_ended_iff connects token us cancelled = ground (arith, setup_all_errors token us [])

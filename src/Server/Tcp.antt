-- ===== src/Server/Tcp.antt =====
-- The data path of a TCP tunnel: `handleTCPConn`, `addrFor` and `itoa` of internal/server/tunnel.go.
pub mod Text
pub mod Cut
use tunel.Prelude.{
  ℕ, zero, suc, ◌+◌, ◌-◌, ◌/◌, ◌%◌, ◌^◌, Bool, true, false, List, [], ◌∷◌, ◌++◌, Str, ℤ, pos,
  negsuc, Option, none, some, codes, if◌then◌else◌, ◌==◌, ltb, ◌||◌,
}
use tunel.Protocol.Stream.{Writer, Outcome, ok, err, write}
use tunel.Protocol.Framing.{write_tunnel_id}
use tunel.Protocol.Duplex.{Event, gives, ends, stream, socket}

-- `io.Copy` to a stream, its error dropped: what fitted has gone there.
unfoldable pub copy_to : List ℕ → Writer → Writer
copy_to xs w = elim (write xs w) [ ok _ w' ↦ w' | err e w' ↦ w' ]

-- `handleTCPConn` from the public connection to the data stream, if `Open` gives one: `none` if the
-- public connection is dropped at once.
unfoldable pub handle_tcp_conn : ℕ → List ℕ → Option Writer → Option Writer
handle_tcp_conn id incoming none = none
handle_tcp_conn id incoming (some w) = elim (write_tunnel_id id w) [
  | err e w' ↦ none
  | ok _ w' ↦ some (copy_to incoming w')
]

-- The two copies of `handleTCPConn` behind the tunnel id. The one from the stream runs in the handler itself:
-- when it ends, the handler returns and closes both sides.
pub record Relay : Type 0 where
  pub to_public : List ℕ
  pub to_stream : List ℕ
  pub public_done : Bool
  pub returned : Bool

unfoldable pub relay_step : Event → Relay → Relay
relay_step (gives stream xs) r =
    if r.returned then r else record r { to_public = r.to_public ++ xs }
relay_step (gives socket xs) r =
    if r.returned || r.public_done then r else record r { to_stream = r.to_stream ++ xs }
relay_step (ends stream) r = record r { returned = true }
relay_step (ends socket) r = record r { public_done = true }

unfoldable pub relay_all : List Event → Relay → Relay
relay_all [] r = r
relay_all (e ∷ es) r = relay_all es (relay_step e r)

abbrev pub fresh : Relay
fresh = record { to_public = []; to_stream = []; public_done = false; returned = false }

-- The loop of `itoa` over a positive number: the digits in front of `acc`, in a buffer of `room` bytes
-- that is filled from its end.
unfoldable pub itoa_loop : ℕ → ℕ → Str → Str
itoa_loop zero n acc = acc
itoa_loop (suc room) n acc =
    let rest = itoa_loop room (n / 10) ((b'0' + n % 10) ∷ acc) in if ltb 0 n then rest else acc

-- `itoa` of an int of 64 bits. `-n` of the least one is itself, which is not positive, so that the loop
-- makes no round.
unfoldable pub itoa : ℤ → Str
itoa (pos n) = if n == 0 then b'0' ∷ [] else itoa_loop 20 n []
itoa (negsuc n) = b'-' ∷ (if n == 2 ^ 63 - 1 then [] else itoa_loop 20 (n + 1) [])

unfoldable pub addr_for : ℤ → Str
addr_for port = codes "0.0.0.0:" ++ itoa port

-- ===== src/Client/Pipe.antt =====
-- `pipeBoth` of internal/client/tunnel.go, from the data stream to the local service and back.
pub mod Both
use tunel.Prelude.{Bool, true, false, List, [], ◌∷◌, ◌++◌, ℕ, if◌then◌else◌, ◌&&◌}
use tunel.Protocol.Duplex.{Event, gives, ends, stream, socket}

-- What each side was given, and which of the two copies is done. A copy that is done closes the other
-- side for writing, if that side has a way to.
pub record Pipe : Type 0 where
  pub to_socket : List ℕ
  pub to_stream : List ℕ
  pub stream_done : Bool
  pub socket_done : Bool

unfoldable pub pipe_step : Event → Pipe → Pipe
pipe_step (gives stream xs) p =
    if p.stream_done then p else record p { to_socket = p.to_socket ++ xs }
pipe_step (gives socket xs) p =
    if p.socket_done then p else record p { to_stream = p.to_stream ++ xs }
pipe_step (ends stream) p = record p { stream_done = true }
pipe_step (ends socket) p = record p { socket_done = true }

unfoldable pub pipe_both : List Event → Pipe → Pipe
pipe_both [] p = p
pipe_both (e ∷ es) p = pipe_both es (pipe_step e p)

-- `wg.Wait` has found both copies done, and both sides are closed.
unfoldable pub has_returned : Pipe → Bool
has_returned p = p.stream_done && p.socket_done

abbrev pub fresh : Pipe
fresh = record { to_socket = []; to_stream = []; stream_done = false; socket_done = false }

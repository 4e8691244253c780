-- ===== src/Client/Pipe/Both.antt =====
-- What `pipeBoth` of internal/client/tunnel.go carries.
use tunel.Prelude.{
  ◌≡◌, refl, true, List, [], ◌∷◌, ◌++◌, arith, if◌then◌else◌, ◌&&◌, append_assoc, append-nil,
}
use tunel.Protocol.Duplex.{Event, gives, ends, stream, socket, sent, has_ended}
use tunel.Client.Pipe.{Pipe, pipe_step, pipe_both, has_returned, fresh}

-- The copies that are still going on take what their side gives from here on.
abbrev carried : Pipe → List Event → Pipe
carried p es = record {
  to_socket = p.to_socket ++ (if p.stream_done then [] else sent stream es);
  to_stream = p.to_stream ++ (if p.socket_done then [] else sent socket es);
  stream_done = if p.stream_done then true else has_ended stream es;
  socket_done = if p.socket_done then true else has_ended socket es;
}

pipe_both-carried : (es : List Event) (p : Pipe) → pipe_both es p ≡ carried p es
unfolding pipe_both pipe_step sent has_ended
pipe_both-carried [] p = ground (arith, append-nil p.to_socket, append-nil p.to_stream)
pipe_both-carried (gives stream xs ∷ es) p = ground (
  arith,
  pipe_both-carried es (pipe_step (gives stream xs) p),
  append_assoc p.to_socket xs (sent stream es),
)
pipe_both-carried (gives socket xs ∷ es) p = ground (
  arith,
  pipe_both-carried es (pipe_step (gives socket xs) p),
  append_assoc p.to_stream xs (sent socket es),
)
pipe_both-carried (ends stream ∷ es) p =
    ground (arith, pipe_both-carried es (pipe_step (ends stream) p), append-nil p.to_socket)
pipe_both-carried (ends socket ∷ es) p =
    ground (arith, pipe_both-carried es (pipe_step (ends socket) p), append-nil p.to_stream)

-- In whatever order the two sides give bytes and end, each is given exactly what the other gives before its
-- own end, and `pipeBoth` returns exactly when both have ended.
pub pipe_both-sent :
    (es : List Event)
    → ((pipe_both es fresh).to_socket ≡ sent stream es)
      × ((pipe_both es fresh).to_stream ≡ sent socket es)
      × (has_returned (pipe_both es fresh) ≡ has_ended stream es && has_ended socket es)
unfolding has_returned
pipe_both-sent es = rw (pipe_both-carried es fresh) (refl, refl, refl)

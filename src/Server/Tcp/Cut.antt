-- ===== src/Server/Tcp/Cut.antt =====
-- What `handleTCPConn` of internal/server/tunnel.go carries, beside `pipeBoth` of the client.
use tunel.Prelude.{
  ◌≡◌, refl, true, List, [], ◌∷◌, ◌++◌, arith, if◌then◌else◌, append_assoc, append-nil,
}
use tunel.Protocol.Duplex.{Event, gives, ends, stream, socket, sent, has_ended, until_end}
use tunel.Client.Pipe.{pipe_both}
use tunel.Client.Pipe
use tunel.Client.Pipe.Both.{pipe_both-sent}
use tunel.Server.Tcp.{Relay, relay_step, relay_all, fresh}

-- What is carried from here on while the handler runs.
abbrev carried : Relay → List Event → Relay
carried r es =
    if r.returned
    then record r { public_done = if r.public_done then true else has_ended socket es }
    else record {
      to_public = r.to_public ++ sent stream es;
      to_stream = r.to_stream ++ (if r.public_done then [] else sent socket (until_end es));
      public_done = if r.public_done then true else has_ended socket es;
      returned = has_ended stream es;
    }

relay_all-carried : (es : List Event) (r : Relay) → relay_all es r ≡ carried r es
unfolding relay_all relay_step sent has_ended until_end
relay_all-carried [] r = ground (arith, append-nil r.to_public, append-nil r.to_stream)
relay_all-carried (gives stream xs ∷ es) r = ground (
  arith,
  relay_all-carried es (relay_step (gives stream xs) r),
  append_assoc r.to_public xs (sent stream es),
)
relay_all-carried (gives socket xs ∷ es) r = ground (
  arith,
  relay_all-carried es (relay_step (gives socket xs) r),
  append_assoc r.to_stream xs (sent socket (until_end es)),
)
relay_all-carried (ends stream ∷ es) r = ground (
  arith,
  relay_all-carried es (relay_step (ends stream) r),
  append-nil r.to_public,
  append-nil r.to_stream,
)
relay_all-carried (ends socket ∷ es) r =
    ground (arith, relay_all-carried es (relay_step (ends socket) r), append-nil r.to_stream)

-- In whatever order the two sides give bytes and end, the public connection is given exactly what `pipeBoth`
-- would give it, which is what the stream gives before its end. But the stream is given only what `pipeBoth`
-- gives it of the events up to that end: there the handler returns, and what the public connection gives
-- later is lost.
pub relay_all-pipe_both :
    (es : List Event)
    → ((relay_all es fresh).to_public ≡ (pipe_both es Pipe.fresh).to_socket)
      × ((relay_all es fresh).to_public ≡ sent stream es)
      × ((relay_all es fresh).to_stream ≡ (pipe_both (until_end es) Pipe.fresh).to_stream)
      × ((relay_all es fresh).returned ≡ has_ended stream es)
relay_all-pipe_both es =
    let (whole, _, _) = pipe_both-sent es in
    let (_, cut, _) = pipe_both-sent (until_end es) in
    rw (relay_all-carried es fresh, whole, cut) (refl, refl, refl, refl)

-- ===== src/Tests/Protocol.antt =====
-- Frames and packets at which the theorems on internal/protocol apply.
use tunel.Prelude.{false, [], ◌∷◌, arith}
use tunel.Protocol.Framing.{datagram}
use tunel.Protocol.Framing.RoundTrip.{Refused, read_frame_cut}

read_frame_cut_example : Refused (datagram (1 ∷ 2 ∷ 3 ∷ [])) 4 false
read_frame_cut_example =
    read_frame_cut (datagram (1 ∷ 2 ∷ 3 ∷ [])) 4 false (omega arith) (omega arith)

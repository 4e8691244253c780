-- ===== src/Tests/Udp.antt =====
-- A UDP tunnel with one public peer, at which the theorems on internal/server/udp.go apply.
use tunel.Prelude.{
  ◌≡◌, refl, false, List, [], ◌∷◌, Str, str_eq, codes, some, arith, nat_eq, string_eq, str_eq_iff,
}
use tunel.Prelude.Map.{get}
use tunel.Protocol.Framing.{Frame, hello, datagram}
use tunel.Server.Udp.{Side, serve_datagram, pump_udp_back, evict_udp}
use tunel.Server.Udp.Delivery.{frames_bytes, sent, pump_udp_back-delivered}
use tunel.Server.Udp.Table.{IsValid, serve_datagram-IsValid}

abbrev known : Str
known = codes "1.2.3.4:5"

abbrev unknown : Str
unknown = codes "6.7.8.9:10"

abbrev side : Side
side = record {
  id = 258;
  peers = (known, 0) ∷ [];
  next = 1;
  cells =
      (0, record { addr = known; stream = record { written = []; quota = 9 }; closed = false })
      ∷ [];
  outgoing = [];
  takes = 7;
}

side-IsValid : IsValid side
unfolding get str_eq
side-IsValid = record {
  unused = λ p le. ground arith;
  live = λ key p e.
      let here : 0 ≡ p = ground arith in
      let at : known ≡ key = ground (arith, str_eq_iff known key) in
      rw (← here, ← at)
        (
          record { addr = known; stream = record { written = []; quota = 9 }; closed = false },
          refl,
          refl,
          refl,
        );
}

serve_datagram-IsValid_example :
    IsValid (serve_datagram unknown (1 ∷ []) (some (record { written = []; quota = 3 })) side)
serve_datagram-IsValid_example =
    serve_datagram-IsValid unknown (1 ∷ []) (some (record { written = []; quota = 3 })) side
      side-IsValid

abbrev answers : List Frame
answers = datagram (1 ∷ 2 ∷ []) ∷ hello unknown ∷ datagram [] ∷ datagram (3 ∷ []) ∷ []

pump_udp_back-delivered_example :
    pump_udp_back 5 known 0 (record { pending = frames_bytes answers; broken = false }) side
    ≡ evict_udp known 0 (sent known answers side)
pump_udp_back-delivered_example =
    pump_udp_back-delivered answers 5 0 known false side (ground arith) (omega arith) (omega arith)

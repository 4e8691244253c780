-- ===== src/Client/P2p/Hello.antt =====
-- The hello of a direct connection: `writeHello`, `readHello` and `handleIncoming` of
-- internal/client/quic.go.
use tunel.Prelude.{
  ℕ, ◌+◌, ◌-◌, ◌/◌, ◌%◌, ◌≤◌, ◌<◌, ◌≡◌, ◌≢◌, refl, Bool, List, [], ◌∷◌, ◌++◌, Str, none, arith,
  string_eq, str_eq_iff, length, take, length-append, take-append, drop-append, ap,
}
use tunel.Prelude.Map.{get, get-put, get-put_self}
use tunel.Protocol.Stream.{Reader, Writer, ok, read_full-append, write_fits}
use tunel.Client.P2p.{
  write_frame, read_frame, write_hello, parse_hello, read_hello, Manager, Conn, register,
  handle_incoming, writer_of,
}

abbrev hello_data : Str → Str → List ℕ
hello_data peer_ip my_ip = length peer_ip ∷ length my_ip ∷ (peer_ip ++ my_ip)

-- A hello on the stream.
abbrev pub hello_bytes : Str → Str → List ℕ
hello_bytes peer_ip my_ip =
    (2 + length peer_ip + length my_ip) / 256
    ∷ (2 + length peer_ip + length my_ip) % 256
    ∷ hello_data peer_ip my_ip

take-whole {ℓ} : {A : Type ℓ} (xs : List A) → take (length xs) xs ≡ xs
take-whole [] = refl
take-whole (x ∷ xs) = ap (◌∷◌ x) (take-whole xs)

module _ (peer_ip my_ip : Str) (short : length peer_ip < 256) (short' : length my_ip < 256)
    (fits : length peer_ip + length my_ip ≤ 510) where
  write_hello-hello_bytes :
      (w : Writer)
      → 4 + length peer_ip + length my_ip ≤ w.quota
      → write_hello peer_ip my_ip w
        ≡ ok tt (record {
          written = w.written ++ hello_bytes peer_ip my_ip;
          quota = w.quota - (4 + length peer_ip + length my_ip);
        })
  unfolding write_hello write_frame
  write_hello-hello_bytes w room =
      ground (arith, write_fits (hello_bytes peer_ip my_ip) w, length-append peer_ip my_ip)

  parse_hello-hello_data :
      (r : Reader) → parse_hello (hello_data peer_ip my_ip) r ≡ ok (peer_ip, my_ip) r
  unfolding parse_hello
  parse_hello-hello_data r = ground (
    arith,
    length-append peer_ip my_ip,
    take-append peer_ip my_ip,
    drop-append peer_ip my_ip,
    take-whole my_ip,
  )

  read_hello-hello_bytes :
      (rest : List ℕ) (broken : Bool)
      → read_hello (record { pending = hello_bytes peer_ip my_ip ++ rest; broken = broken })
        ≡ ok (peer_ip, my_ip) (record { pending = rest; broken = broken })
  unfolding read_hello read_frame
  read_hello-hello_bytes rest broken = ground (
    arith,
    length-append peer_ip my_ip,
    read_full-append
        ((2 + length peer_ip + length my_ip) / 256 ∷ (2 + length peer_ip + length my_ip) % 256 ∷ [])
        (hello_data peer_ip my_ip ++ rest) broken,
    read_full-append (hello_data peer_ip my_ip) rest broken,
    parse_hello-hello_data (record { pending = rest; broken = broken }),
  )

-- A hello that a peer writes is read at the other end as its two addresses, and what follows is still
-- to come. The addresses have less than 256 bytes each and 510 together, and the stream takes them.
pub read_hello-write_hello :
    (peer_ip my_ip : Str) (w : Writer) (rest : List ℕ) (broken : Bool)
    → w.written ≡ []
    → length peer_ip < 256
    → length my_ip < 256
    → length peer_ip + length my_ip ≤ 510
    → 4 + length peer_ip + length my_ip ≤ w.quota
    → read_hello (record {
      pending = (writer_of (write_hello peer_ip my_ip w)).written ++ rest;
      broken = broken;
    })
      ≡ ok (peer_ip, my_ip) (record { pending = rest; broken = broken })
read_hello-write_hello peer_ip my_ip w rest broken new short short' fits room =
    rw (write_hello-hello_bytes peer_ip my_ip short short' fits w room, new)
      (read_hello-hello_bytes peer_ip my_ip short short' fits rest broken)

-- The connection of a dialler that reaches `own` is filed under `own`, and the dialler has no new entry.
abbrev pub IsFiledUnder : Str → Str → List ℕ → Bool → Writer → Manager → Type 0
IsFiledUnder own dialler rest broken w m =
    (get own
        (handle_incoming (record { pending = hello_bytes own dialler ++ rest; broken = broken }) w
          m).conns
      ≢ none)
    × (get dialler
          (handle_incoming (record { pending = hello_bytes own dialler ++ rest; broken = broken }) w
            m).conns
        ≡ get dialler m.conns)

-- A peer that is dialled files the connection under its own address, since that is what the dialler's
-- hello begins with, and not under the dialler's, whose entry stays as it was. The two addresses
-- differ, and have less than 256 bytes each and 510 together.
pub handle_incoming_own_address :
    (dialler : Str) (m : Manager) (w : Writer) (rest : List ℕ) (broken : Bool)
    → length m.my_vpn_ip < 256
    → length dialler < 256
    → length m.my_vpn_ip + length dialler ≤ 510
    → dialler ≢ m.my_vpn_ip
    → IsFiledUnder m.my_vpn_ip dialler rest broken w m
unfolding handle_incoming register
handle_incoming_own_address dialler m w rest broken short short' fits other =
    let conn : Conn = record { stream = writer_of (write_hello m.my_vpn_ip m.my_vpn_ip w) } in
    rw (handle_incoming, read_hello-hello_bytes m.my_vpn_ip dialler short short' fits rest broken)
      (
        (λ e. cc (get-put_self m.my_vpn_ip conn m.conns, e)),
        ground (arith, get-put m.my_vpn_ip dialler conn m.conns, str_eq_iff m.my_vpn_ip dialler),
      )

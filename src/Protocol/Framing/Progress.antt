-- ===== src/Protocol/Framing/Progress.antt =====
-- What `ReadFrame` of internal/protocol/framing.go takes off the stream.
use tunel.Prelude.{ℕ, suc, ◌≤◌, ◌≡◌, List, arith, inl, inr, length, get_or}
use tunel.Protocol.Stream.{Reader, Outcome-cases, ok, read_full, read_full_ok, get_uint16}
use tunel.Protocol.Framing.{Frame, read_hello_body, read_datagram_body, read_frame}

read_full_le :
    (n : ℕ) (r r' : Reader) (xs : List ℕ)
    → read_full n r ≡ ok xs r'
    → length r'.pending ≤ length r.pending
read_full_le n r r' xs e = let (took, _, _) = read_full_ok n r r' xs e in omega arith

read_hello_body_le :
    (r r' : Reader) (f : Frame) → read_hello_body r ≡ ok f r' → length r'.pending ≤ length r.pending
unfolding read_hello_body
read_hello_body_le r r' f e = elim (Outcome-cases (read_full 1 r)) [
  | inl (len, s, e') ↦ elim (Outcome-cases (read_full (get_or len 0 0) s)) [
    | inl (peer, s', e'') ↦
        ground (arith, read_full_le 1 r s len e', read_full_le (get_or len 0 0) s s' peer e'')
    | inr (x, s', e'') ↦ ground arith
  ]
  | inr (x, s, e') ↦ ground arith
]

read_datagram_body_le :
    (r r' : Reader) (f : Frame)
    → read_datagram_body r ≡ ok f r'
    → length r'.pending ≤ length r.pending
unfolding read_datagram_body
read_datagram_body_le r r' f e = elim (Outcome-cases (read_full 2 r)) [
  | inl (len, s, e') ↦ elim (Outcome-cases (read_full (get_uint16 len) s)) [
    | inl (payload, s', e'') ↦
        ground (arith, read_full_le 2 r s len e', read_full_le (get_uint16 len) s s' payload e'')
    | inr (x, s', e'') ↦ ground arith
  ]
  | inr (x, s, e') ↦ ground arith
]

-- A frame that is read has taken a byte at least.
pub read_frame_shrinks :
    (r r' : Reader) (f : Frame)
    → read_frame r ≡ ok f r'
    → suc (length r'.pending) ≤ length r.pending
unfolding read_frame
read_frame_shrinks r r' f e = elim (Outcome-cases (read_full 1 r)) [
  | inl (hdr, s, e') ↦
      let (took, _, _) = read_full_ok 1 r s hdr e' in
      ground (arith, read_hello_body_le s r' f, read_datagram_body_le s r' f)
  | inr (x, s, e') ↦ ground arith
]

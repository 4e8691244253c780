-- ===== src/Protocol/Stream.antt =====
-- The io.Reader and io.Writer that internal/protocol reads from and writes to. A reader is the bytes
-- that are still to come and how the stream ends; a writer is the bytes that it has accepted and how
-- many more it takes before it fails. A read or a write returns its result with the new state.
use tunel.Prelude.{
  ℕ, ◌+◌, ◌-◌, ◌*◌, ◌/◌, ◌%◌, ◌≤◌, ◌<◌, ◌≡◌, Bool, true, false, List, [], ◌∷◌, ◌++◌, arith, leb,
  if◌then◌else◌, length, take, drop, length-append, take-append, drop-append, length-drop,
  length-take_le, leb→le, ◌⊎◌, inl, inr, refl,
}

-- `eof`, `unexpected_eof`, a transport's error, a writer's error, the errors of the package, and those
-- of the hello of internal/client/quic.go.
pub data Error : Type 0 where
  eof unexpected_eof transport write_failed : Error
  hello_too_long datagram_too_long : ℕ → Error
  expected_hello unknown_frame datagram_exceeds_max : ℕ → Error
  bad_magic packet_too_long packet_exceeds_buffer : Error
  p2p_hello_too_short p2p_hello_mismatch : Error

pub record Reader : Type 0 where
  pub pending : List ℕ
  -- The stream ends by a transport error, and not by a clean close.
  pub broken : Bool

pub record Writer : Type 0 where
  pub written : List ℕ
  pub quota : ℕ

pub data Outcome {ℓ} (S : Type 0) (A : Type ℓ) : Type ℓ where
  ok : A → S → Outcome S A
  err : Error → S → Outcome S A

abbrev pub M {ℓ} : Type 0 → Type ℓ → Type ℓ
M S A = S → Outcome S A

infixl 5 ◌>>=◌ ◌>>◌
abbrev pub ◌>>=◌ {ℓ κ} : {S : Type 0} {A : Type ℓ} {B : Type κ} → M S A → (A → M S B) → M S B
◌>>=◌ m f s = elim (m s) [ ok a s' ↦ f a s' | err e s' ↦ err e s' ]

abbrev pub ◌>>◌ {ℓ κ} : {S : Type 0} {A : Type ℓ} {B : Type κ} → M S A → M S B → M S B
m >> k = m >>= λ _. k

abbrev pub pure {ℓ} : {S : Type 0} {A : Type ℓ} → A → M S A
pure a s = ok a s

abbrev pub throw {ℓ} : {S : Type 0} {A : Type ℓ} → Error → M S A
throw e s = err e s

-- `io.ReadFull`: all of the `n` bytes; at the end of the stream `eof` if there was none of them and
-- `unexpected_eof` if there were some.
short_read : Reader → Error
short_read r = if r.broken then transport else elim r.pending [ [] ↦ eof | x ∷ xs ↦ unexpected_eof ]

unfoldable pub read_full : ℕ → M Reader (List ℕ)
unfolding short_read
read_full n r =
    if leb n (length r.pending)
    then ok (take n r.pending) (record r { pending = drop n r.pending })
    else err (short_read r) (record r { pending = [] })

-- `w.Write`: a write that fails has passed on what fitted.
unfoldable pub write : List ℕ → M Writer (Unit {0})
write xs w =
    if leb (length xs) w.quota
    then ok tt (record { written = w.written ++ xs; quota = w.quota - length xs })
    else err write_failed (record { written = w.written ++ take w.quota xs; quota = 0 })

abbrev pub IsByte : ℕ → Type 0
IsByte b = b < 256

-- `byte(n)`, `uint16(n)`, and the two bytes of `binary.BigEndian.PutUint16`.
abbrev pub byte : ℕ → ℕ
byte n = n % 256

abbrev pub uint16 : ℕ → ℕ
uint16 n = n % 65536

abbrev pub put_uint16 : ℕ → List ℕ
put_uint16 n = byte (n / 256) ∷ byte n ∷ []

-- `binary.BigEndian.Uint16` of the first two bytes.
abbrev pub get_uint16 : List ℕ → ℕ
get_uint16 [] = 0
get_uint16 (hi ∷ []) = 0
get_uint16 (hi ∷ lo ∷ rest) = hi * 256 + lo

pub get_uint16-put_uint16 : (n : ℕ) → n < 65536 → get_uint16 (put_uint16 n) ≡ n
get_uint16-put_uint16 n h = omega arith

-- A reader that holds `xs` and then `rest` hands over `xs`.
pub read_full-append :
    (xs rest : List ℕ) (broken : Bool)
    → read_full (length xs) (record { pending = xs ++ rest; broken = broken })
      ≡ ok xs (record { pending = rest; broken = broken })
unfolding read_full
read_full-append xs rest broken =
    ground (arith, length-append xs rest, take-append xs rest, drop-append xs rest)

-- A read past the end is refused, by `eof`, `unexpected_eof` or the transport's error.
abbrev pub IsReadError : Error → Type 0
IsReadError eof = Unit {0}
IsReadError unexpected_eof = Unit {0}
IsReadError transport = Unit {0}
IsReadError _ = ⊥

pub read_full_short :
    (n : ℕ) (r : Reader)
    → length r.pending < n
    → (e : Error) × (read_full n r ≡ err e (record r { pending = [] })) × IsReadError e
unfolding read_full
read_full_short n r h = (short_read r, ground arith, short r.broken r.pending)
  where
    short :
        (b : Bool) (xs : List ℕ) → IsReadError (short_read (record { pending = xs; broken = b }))
    short true xs = tt
    short false [] = tt
    short false (x ∷ xs) = tt

pub write_fits :
    (xs : List ℕ) (w : Writer)
    → length xs ≤ w.quota
    → write xs w ≡ ok tt (record { written = w.written ++ xs; quota = w.quota - length xs })
unfolding write
write_fits xs w h = ground arith

-- A read that succeeds has taken its bytes off the front of the stream.
pub read_full_ok :
    (n : ℕ) (r r' : Reader) (xs : List ℕ)
    → read_full n r ≡ ok xs r'
    → (n + length r'.pending ≡ length r.pending) × (length xs ≡ n) × (r'.broken ≡ r.broken)
unfolding read_full
read_full_ok n r r' xs e =
    ground (arith, length-drop n r.pending, length-take_le n r.pending, leb→le n (length r.pending))

-- A split on the result of a read or a write.
pub Outcome-cases {ℓ} :
    {S : Type 0} {A : Type ℓ} (o : Outcome S A)
    → ((a : A) × (s : S) × (o ≡ ok a s)) ⊎ ((e : Error) × (s : S) × (o ≡ err e s))
Outcome-cases (ok a s) = inl (a, s, refl)
Outcome-cases (err e s) = inr (e, s, refl)

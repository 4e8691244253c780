-- ===== src/Server/Tcp/Text.antt =====
-- The text of a number: `itoa` of internal/server/tunnel.go against the decimal digits.
use tunel.Prelude.{
  ℕ, zero, suc, ◌+◌, ◌-◌, ◌/◌, ◌%◌, ◌*◌, ◌^◌, ◌≤◌, ◌<◌, ◌≡◌, ◌≢◌, refl, [], ◌∷◌, Str, pos, negsuc,
  arith, digits_onto, decimal,
}
use tunel.Server.Tcp.{itoa_loop, itoa}

-- The least number with more than `room` digits.
abbrev capacity : ℕ → ℕ
capacity zero = 1
capacity (suc room) = 10 * capacity room

-- With room for the digits, the loop writes those of the decimal text.
itoa_loop-digits_onto :
    (room fuel n : ℕ) (s : Str)
    → n < capacity room
    → n ≤ fuel
    → itoa_loop room n s ≡ digits_onto fuel n s
unfolding itoa_loop digits_onto
itoa_loop-digits_onto zero zero n s small enough = refl
itoa_loop-digits_onto zero (suc fuel) n s small enough = ground arith
itoa_loop-digits_onto (suc room) zero n s small enough = ground arith
itoa_loop-digits_onto (suc room) (suc fuel) n s small enough = ground (
  arith,
  itoa_loop-digits_onto room fuel (n / 10) ((b'0' + n % 10) ∷ s) (omega arith) (omega arith),
)

-- `itoa` gives the decimal text of every int, with a minus sign in front of a negative one, as
-- `strconv.Itoa` does; only of the least int of 64 bits it leaves the digits out.
pub itoa-decimal :
    (n : ℕ)
    → n < 2 ^ 63
    → (itoa (pos n) ≡ decimal n)
      × (n ≢ 2 ^ 63 - 1 → itoa (negsuc n) ≡ b'-' ∷ decimal (n + 1))
      × (itoa (negsuc (2 ^ 63 - 1)) ≡ b'-' ∷ [])
unfolding itoa decimal
itoa-decimal n small = (
  ground (arith, itoa_loop-digits_onto 20 n n [] (omega arith) (omega arith)),
  (λ inner.
      ground (arith, itoa_loop-digits_onto 20 (n + 1) (n + 1) [] (omega arith) (omega arith))),
  refl,
)

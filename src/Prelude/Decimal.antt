-- ===== src/Prelude/Decimal.antt =====
-- Decimal text: what `strconv.Itoa` and `net.IP.String` print, and what `strconv.Atoi` reads.
use tunel.Prelude.Tests.{Str, leb, ◌==◌, if◌then◌else◌}
use tunel.Prelude.Lists.{All}
use Prim.Native.Nat.{ℕ, zero, suc, ◌+◌, ◌-◌, ◌*◌, ◌/◌, ◌%◌, ◌≤◌}
use mathlib.Core.Path.{◌≡◌, ap}
use mathlib.Core.Logic.{◌≢◌}
use mathlib.Core.Bool.{◌&&◌}
use mathlib.Core.List.{[], ◌∷◌}
use mathlib.Core.Option.{Option, none, some}
use native.Mathlib.Omega.{arith}

-- The digits of `n` before `acc`, for a number of at most `fuel` digits.
unfoldable pub digits_onto : ℕ → ℕ → Str → Str
digits_onto zero n acc = acc
digits_onto (suc fuel) n acc =
    let rest = digits_onto fuel (n / 10) ((b'0' + n % 10) ∷ acc) in if n == 0 then acc else rest

-- A number has no more digits than itself.
unfoldable pub decimal : ℕ → Str
unfolding digits_onto
decimal n = if n == 0 then b'0' ∷ [] else digits_onto n n []

-- The value of decimal digits after `acc`.
unfoldable pub value_onto : ℕ → Str → Option ℕ
value_onto acc [] = some acc
value_onto acc (c ∷ s) =
    let rest = value_onto (acc * 10 + (c - b'0')) s in
    if leb b'0' c && leb c b'9' then rest else none

value_onto-digits_onto :
    (fuel n : ℕ) (s : Str) → n ≤ fuel → value_onto 0 (digits_onto fuel n s) ≡ value_onto n s
unfolding digits_onto value_onto
value_onto-digits_onto zero n s h = ap (λ k. value_onto k s) (omega arith)
value_onto-digits_onto (suc fuel) n s h =
    let whole : n / 10 * 10 + (b'0' + n % 10 - b'0') ≡ n = omega arith in
    ground (
      arith,
      value_onto-digits_onto fuel (n / 10) ((b'0' + n % 10) ∷ s) (omega arith),
      ap (λ k. value_onto k s) whole,
    )

-- A decimal text is read back as the number that it was printed for.
pub value_onto-decimal : (n : ℕ) → value_onto 0 (decimal n) ≡ some n
unfolding decimal value_onto
value_onto-decimal n = ground (arith, value_onto-digits_onto n n [] (omega arith))

-- So two numbers with one text are equal.
pub decimal_injective : (m n : ℕ) → decimal m ≡ decimal n → m ≡ n
decimal_injective m n e = cc (value_onto-decimal m, value_onto-decimal n)

abbrev pub IsDigit : ℕ → Type 0
IsDigit c = (b'0' ≤ c) × (c ≤ b'9')

digits_onto-IsDigit : (fuel n : ℕ) (s : Str) → All IsDigit s → All IsDigit (digits_onto fuel n s)
unfolding digits_onto
digits_onto-IsDigit zero n s h = h
digits_onto-IsDigit (suc fuel) n s h =
    ground (arith, digits_onto-IsDigit fuel (n / 10) ((b'0' + n % 10) ∷ s) (omega arith, h))

-- A decimal text has digits only.
pub decimal-IsDigit : (n : ℕ) → All IsDigit (decimal n)
unfolding decimal
decimal-IsDigit n = ground (arith, digits_onto-IsDigit n n [] tt)

-- A decimal text is not empty.
pub decimal-full : (n : ℕ) → decimal n ≢ []
unfolding decimal value_onto
decimal-full zero e = cc
decimal-full (suc n) e = cc (value_onto-decimal (suc n), ap (value_onto 0) e)

-- ===== src/Client/Run/Backoff.antt =====
-- The waits of the reconnection loop: `backoff` of internal/client/client.go.
use tunel.Prelude.{ℕ, ◌-◌, ◌*◌, ◌^◌, ◌≤◌, ◌≡◌, pos, arith, ◌⊎◌}
use Prim.Native.Nat.{min}
use native.Mathlib.Nat.{pow-le-pow_right}
use tunel.Client.Run.{backoff}

-- For the first 34 attempts the wait doubles from one second and then stays at 30.
pub backoff_doubles :
    (beyond attempt : ℕ)
    → 1 ≤ attempt
    → attempt ≤ 34
    → backoff beyond attempt ≡ pos (min (2 ^ (attempt - 1)) 30 * 1000000000)
unfolding backoff
backoff_doubles beyond attempt low high =
    let big : 2 ^ (attempt - 1) ≤ 2 ^ 33 =
      pow-le-pow_right (omega arith) {i = attempt - 1} {j = 33} (omega arith) in
    ground arith

-- From the 56th attempt to the 63rd the multiplication wraps around to no wait at all.
pub backoff_vanishes :
    (beyond attempt : ℕ) → 56 ≤ attempt → attempt ≤ 63 → backoff beyond attempt ≡ pos 0
unfolding backoff
backoff_vanishes beyond attempt low high =
    let cases : (attempt ≡ 56)
        ⊎ ((attempt ≡ 57)
            ⊎ ((attempt ≡ 58)
                ⊎ ((attempt ≡ 59)
                    ⊎ ((attempt ≡ 60) ⊎ ((attempt ≡ 61) ⊎ ((attempt ≡ 62) ⊎ (attempt ≡ 63))))))) =
      ground arith in
    ground arith

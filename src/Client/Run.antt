-- ===== src/Client/Run.antt =====
-- The reconnection loop: `Run` and `backoff` of internal/client/client.go.
pub mod Backoff
pub mod Attempts
use tunel.Prelude.{
  ℕ, zero, suc, ◌+◌, ◌-◌, ◌*◌, ◌%◌, ◌^◌, ◌<◌, Bool, true, false, List, [], ◌∷◌, ℤ, pos, negsuc,
  if◌then◌else◌, ltb, leb, ◌&&◌, not,
}
use tunel.Client.Spec.{Config, validate_tunnels}

-- An int64 from its bit pattern.
abbrev pub signed64 : ℕ → ℤ
signed64 u = if ltb u (2 ^ 63) then pos u else negsuc (2 ^ 64 - 1 - u)

abbrev pub second : ℕ
second = 1000000000

-- 30 seconds at most.
abbrev pub cap : ℤ → ℤ
cap (negsuc n) = negsuc n
cap (pos n) = if ltb (30 * second) n then pos (30 * second) else pos n

-- The nanoseconds of `backoff` for an attempt from 1 on. From attempt 64 on, `math.Pow` gives more than
-- an int64 holds, and what the conversion gives then is left to the machine: `beyond` is its pattern.
unfoldable pub backoff : ℕ → ℕ → ℤ
backoff beyond attempt =
    cap (signed64 ((if leb attempt 63 then 2 ^ (attempt - 1) else beyond) * second % 2 ^ 64))

-- What `runOnce` returns: no error, a refusal by the server, or any other error.
pub data Attempt : Type 0 where
  ended rejected lost : Attempt

-- One round of the loop as its surroundings decide it: whether the context is cancelled before it,
-- how the attempt ends, and whether the context is cancelled during it and while the loop waits.
pub record Turn : Type 0 where
  pub cancelled_before : Bool
  pub attempt : Attempt
  pub cancelled_during : Bool
  pub cancelled_waiting : Bool

pub data Event : Type 0 where
  connecting : ℕ → Event
  stopped closed refused : Event
  gave_up : ℕ → Event
  reconnecting : ℤ → ℕ → Event

-- How the loop ends; `running` if the rounds that are given do not end it.
pub data Ending : Type 0 where
  running : ℕ → Ending
  returned : Ending
  refusal : Ending
  exhausted : ℕ → Ending
  no_tunnels : Ending

abbrev pub Trace : Type 0
Trace = List Event × Ending

abbrev pub after : Event → Trace → Trace
after e (events, ending) = (e ∷ events, ending)

-- A `MaxAttempts` that is not positive sets no limit.
abbrev pub is_last : ℤ → ℕ → Bool
is_last (negsuc m) attempt = false
is_last (pos m) attempt = ltb 0 m && leb m attempt

-- What follows a lost attempt, with the rounds behind it.
unfoldable pub retry : ℕ → ℤ → ℕ → Bool → Trace → Trace
retry beyond limit attempt cancelled later =
    if is_last limit attempt
    then (gave_up attempt ∷ [], exhausted attempt)
    else after (reconnecting (backoff beyond attempt) attempt)
        (if cancelled then (stopped ∷ [], returned) else later)

-- One round from its attempt on.
unfoldable pub round : ℕ → ℤ → ℕ → Turn → Trace → Trace
round beyond limit attempt t later = elim t.attempt [
  | ended ↦ (closed ∷ [], returned)
  | rejected ↦ if t.cancelled_during then (stopped ∷ [], returned) else (refused ∷ [], refusal)
  | lost ↦
      if t.cancelled_during
      then (stopped ∷ [], returned)
      else retry beyond limit attempt t.cancelled_waiting later
]

-- The loop, after `attempt` attempts. The events are those of `Run` itself.
unfoldable pub run_loop : ℕ → ℤ → ℕ → List Turn → Trace
run_loop beyond limit attempt [] = ([], running attempt)
run_loop beyond limit attempt (t ∷ turns) =
    let later = run_loop beyond limit (suc attempt) turns in
    if t.cancelled_before
    then (stopped ∷ [], returned)
    else after (connecting (suc attempt)) (round beyond limit (suc attempt) t later)

unfoldable pub run : ℕ → Config → List Turn → Trace
run beyond cfg turns =
    if validate_tunnels cfg then run_loop beyond cfg.max_attempts 0 turns else ([], no_tunnels)

-- ===== src/Server/Life.antt =====
-- How the server runs and ends: `Run` and `handleConnection` of internal/server/server.go, with `run` and
-- `reaper` of internal/server/connection.go. What happens is given as a list of events.
pub mod Shutdown
use tunel.Prelude.{
  ℕ, suc, Bool, true, false, List, [], ◌∷◌, Option, none, some, if◌then◌else◌, nat_eq, ◌==◌, not,
  ◌&&◌,
}
use tunel.Prelude.Map.{Map, get, put, delete}

-- The connections whose `handleConnection` has not returned, each with the `closed` that `closeAll` sets.
pub record Life : Type 0 where
  pub listening : Bool
  pub cancelled : Bool
  pub sessions : Map ℕ Bool
  pub next : ℕ

-- A client connects; the context is cancelled; `Run` finds it cancelled; `Accept` fails; the reaper of a
-- connection finds the context cancelled; the session of a connection ends, so that its `Accept` fails.
pub data Event : Type 0 where
  connected cancel stopped accept_failed : Event
  reaped ended : ℕ → Event

abbrev pub close_at : ℕ → Map ℕ Bool → Map ℕ Bool
close_at id m = elim (get id m) [ none ↦ m | some closed ↦ put id true m ]

unfoldable pub step : Event → Life → Life
step connected s =
    if s.listening
    then record s { sessions = put s.next false s.sessions; next = suc s.next }
    else s
step cancel s = record s { cancelled = true }
step stopped s = if s.cancelled then record s { listening = false } else s
step accept_failed s = record s { listening = false }
step (reaped id) s = if s.cancelled then record s { sessions = close_at id s.sessions } else s
step (ended id) s = record s { sessions = delete id s.sessions }

unfoldable pub live : List Event → Life → Life
live [] s = s
live (e ∷ es) s = live es (step e s)

abbrev is_empty : Map ℕ Bool → Bool
is_empty [] = true
is_empty (c ∷ m) = false

-- `Run` has returned: it has left its `select`, and the deferred `wg.Wait` has found no connection left.
unfoldable pub has_returned : Life → Bool
has_returned s = not s.listening && is_empty s.sessions

-- ===== src/Client/Run/Attempts.antt =====
-- How many attempts the reconnection loop makes: `Run` of internal/client/client.go.
use tunel.Prelude.{
  ℕ, suc, ◌+◌, ◌≤◌, ◌<◌, ◌≡◌, ◌≢◌, true, false, List, [], ◌∷◌, ℤ, pos, negsuc, arith, length, All,
  Bool-cases, inl, inr, ◌⊎◌,
}
use tunel.Client.Spec.{Config, validate_tunnels}
use tunel.Client.Run.{
  Event, connecting, exhausted, Turn, run, lost, is_last, retry, round, run_loop,
}

abbrev pub connections : List Event → ℕ
connections [] = 0
connections (connecting n ∷ events) = suc (connections events)
connections (event ∷ events) = connections events

-- With a limit of `m`, and `attempt` attempts made, the loop makes no more than are left.
run_loop_bound :
    (beyond m attempt : ℕ) (turns : List Turn)
    → attempt < suc m
    → connections (run_loop beyond (pos (suc m)) attempt turns).0 + attempt ≤ suc m
unfolding run_loop round retry
run_loop_bound beyond m attempt [] small = omega arith
run_loop_bound beyond m attempt (t ∷ turns) small =
    elim (Bool-cases (is_last (pos (suc m)) (suc attempt))) [
      | inl last ↦ ground arith
      | inr more ↦ ground (arith, run_loop_bound beyond m (suc attempt) turns (ground arith))
    ]

-- The attempt is lost and nobody cancels.
abbrev IsLost : Turn → Type 0
IsLost t =
    (t.cancelled_before ≡ false)
    × (t.attempt ≡ lost)
    × (t.cancelled_during ≡ false)
    × (t.cancelled_waiting ≡ false)

run_loop_exhausts :
    (beyond m attempt : ℕ) (turns : List Turn)
    → attempt < suc m
    → suc m ≤ attempt + length turns
    → All IsLost turns
    → ((run_loop beyond (pos (suc m)) attempt turns).1 ≡ exhausted (suc m))
      × (connections (run_loop beyond (pos (suc m)) attempt turns).0 + attempt ≡ suc m)
unfolding run_loop round retry
run_loop_exhausts beyond m attempt [] small enough all = absurd (omega arith)
run_loop_exhausts beyond m attempt (t ∷ turns) small enough
      ((before, failing, during, waiting), all) =
    elim (Bool-cases (is_last (pos (suc m)) (suc attempt))) [
      | inl last ↦ ground arith
      | inr more ↦
          ground
            (arith, run_loop_exhausts beyond m (suc attempt) turns (ground arith) (omega arith) all)
    ]

-- With a limit, `Run` makes no more attempts than it, whatever happens.
pub run_bounded :
    (beyond m : ℕ) (cfg : Config) (turns : List Turn)
    → cfg.max_attempts ≡ pos (suc m)
    → connections (run beyond cfg turns).0 ≤ suc m
unfolding run
run_bounded beyond m cfg turns limit = elim (Bool-cases (validate_tunnels cfg)) [
  | inl valid ↦
      rw (run, valid, limit) (omega (arith, run_loop_bound beyond m 0 turns (omega arith)))
  | inr bare ↦ rw (run, bare) (omega arith)
]

-- If as many attempts are lost as the limit says, and nobody cancels, `Run` gives up with the error
-- that says so, after exactly that many attempts.
pub run_exhausts :
    (beyond m : ℕ) (cfg : Config) (turns : List Turn)
    → cfg.max_attempts ≡ pos (suc m)
    → validate_tunnels cfg ≡ true
    → suc m ≤ length turns
    → All IsLost turns
    → ((run beyond cfg turns).1 ≡ exhausted (suc m))
      × (connections (run beyond cfg turns).0 ≡ suc m)
unfolding run
run_exhausts beyond m cfg turns limit valid enough all =
    let (ending, count) = run_loop_exhausts beyond m 0 turns (omega arith) (omega arith) all in
    rw (run, valid, limit) (ending, omega arith)

run_loop_endless :
    (beyond n attempt : ℕ) (limit : ℤ) (turns : List Turn)
    → (limit ≡ pos 0) ⊎ ((k : ℕ) × (limit ≡ negsuc k))
    → (run_loop beyond limit attempt turns).1 ≢ exhausted n
unfolding run_loop round retry
run_loop_endless beyond n attempt limit [] free e = cc
run_loop_endless beyond n attempt limit (t ∷ turns) free e =
    ground (arith, run_loop_endless beyond n (suc attempt) limit turns free)

-- Without a limit, `Run` never gives up.
pub run_endless :
    (beyond n : ℕ) (cfg : Config) (turns : List Turn)
    → (cfg.max_attempts ≡ pos 0) ⊎ ((k : ℕ) × (cfg.max_attempts ≡ negsuc k))
    → (run beyond cfg turns).1 ≢ exhausted n
unfolding run
run_endless beyond n cfg turns free =
    ground (arith, run_loop_endless beyond n 0 cfg.max_attempts turns free)

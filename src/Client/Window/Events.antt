-- ===== src/Client/Window/Events.antt =====
-- The events of the graphical client between two ticks of its timer: cmd/tunelc/gui.go.
use tunel.Prelude.{
  ℕ, zero, suc, ◌+◌, ◌≡◌, List, [], ◌∷◌, ◌++◌, arith, length, length-append, take, append_assoc,
  append-nil, ap, sym,
}
use tunel.Client.Window.{UiEvent, emit, tick, Panel}

abbrev pub emit_all : List UiEvent → List UiEvent → List UiEvent
emit_all [] pending = pending
emit_all (e ∷ es) pending = emit_all es (emit e pending)

-- With room for `k` events, the first `k` are taken.
emit_all-take :
    (k : ℕ) (es pending : List UiEvent)
    → length pending + k ≡ 256
    → emit_all es pending ≡ pending ++ take k es
unfolding emit
emit_all-take zero [] pending room = sym (append-nil pending)
emit_all-take zero (e ∷ es) pending room = ground (arith, emit_all-take zero es pending room)
emit_all-take (suc k) [] pending room = sym (append-nil pending)
emit_all-take (suc k) (e ∷ es) pending room = ground (
  arith,
  emit_all-take k es (pending ++ (e ∷ [])) (omega (arith, length-append pending (e ∷ []))),
  append_assoc pending (e ∷ []) (take k es),
)

-- Of the events between two ticks the first 256 are shown, and the others are lost.
pub tick-emit_all : (es : List UiEvent) (p : Panel) → tick (emit_all es []) p ≡ tick (take 256 es) p
tick-emit_all es p = ap (λ pending. tick pending p) (emit_all-take 256 es [] (omega arith))

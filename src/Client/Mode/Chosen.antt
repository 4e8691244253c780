-- ===== src/Client/Mode/Chosen.antt =====
-- When tunelc opens its window: cmd/tunelc/main.go.
use mathlib.Core.List.{Memᴰ}
use tunel.Prelude.{
  Bool, true, false, List, [], ◌∷◌, Str, none, some, arith, ◌≡◌, ◌↔◌, ◌⊎◌, inl, inr, refl,
  if◌then◌else◌, ◌&&◌, ◌||◌, Bool-cases,
}
use tunel.Client.Mode.{RunMode, cli, gui, is_gui_arg, has_gui_arg, no_args, choose, run}

-- Some argument asks for the window.
abbrev pub Asks : List Str → Type 0
Asks args = (a : Str) × Memᴰ a args × (is_gui_arg a ≡ true)

has_gui_arg→Asks : (args : List Str) → has_gui_arg args ≡ true → Asks args
unfolding has_gui_arg
has_gui_arg→Asks [] e = absurd (ground arith)
has_gui_arg→Asks (a ∷ args) e = elim (Bool-cases (is_gui_arg a)) [
  | inl hit ↦ (a, Memᴰ.head refl, hit)
  | inr miss ↦
      let (b, there, asks) = has_gui_arg→Asks args (ground arith) in (b, Memᴰ.tail there, asks)
]

Asks→has_gui_arg :
    (args : List Str) (a : Str) → Memᴰ a args → is_gui_arg a ≡ true → has_gui_arg args ≡ true
unfolding has_gui_arg
Asks→has_gui_arg [] a h asks = elim h [ ]
Asks→has_gui_arg (b ∷ args) a (Memᴰ.head e) asks = rw (← e, asks) refl
Asks→has_gui_arg (b ∷ args) a (Memᴰ.tail h) asks = ground (arith, Asks→has_gui_arg args a h asks)

no_args_iff : (args : List Str) → (no_args args ≡ true) ↔ (args ≡ [])
no_args_iff [] = ((λ _. refl), λ _. refl)
no_args_iff (a ∷ args) = ((λ e. absurd (cc e)), λ e. absurd (cc e))

module _ {A B : Type 0} (available asks bare : Bool) (asked : (asks ≡ true) ↔ A)
    (empty : (bare ≡ true) ↔ B) where
  unfoldable chosen : RunMode
  chosen = if asks || (bare && available) then gui else cli

  chosen_gui : (run available chosen ≡ some gui) ↔ ((available ≡ true) × (A ⊎ B))
  unfolding run chosen
  chosen_gui = ground (arith, asked, empty)

  chosen-none : (run available chosen ≡ none) ↔ ((available ≡ false) × A)
  unfolding run chosen
  chosen-none = ground (arith, asked, empty)

-- The window opens exactly if it is compiled in, and an argument asks for it or there is no argument; and
-- `run` fails exactly if it is not compiled in and an argument asks for it.
pub run_gui_iff :
    (available : Bool) (args : List Str)
    → ((run available (choose available args) ≡ some gui)
        ↔ ((available ≡ true) × (Asks args ⊎ (args ≡ []))))
      × ((run available (choose available args) ≡ none) ↔ ((available ≡ false) × Asks args))
unfolding choose chosen
run_gui_iff available args =
    let asked : (has_gui_arg args ≡ true) ↔ Asks args =
      (has_gui_arg→Asks args, λ (a, there, asks). Asks→has_gui_arg args a there asks) in
    (
      chosen_gui available (has_gui_arg args) (no_args args) asked (no_args_iff args),
      chosen-none available (has_gui_arg args) (no_args args) asked (no_args_iff args),
    )

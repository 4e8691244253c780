-- ===== src/Client/Mode.antt =====
-- How tunelc chooses between its command line and its window: cmd/tunelc/main.go, dispatch_nogui.go and the
-- start of gui.go. The arguments are those behind the name of the program.
pub mod Chosen
use tunel.Prelude.{
  Bool, true, false, List, [], ◌∷◌, Str, Option, none, some, ℕ, codes, if◌then◌else◌, str_eq, ◌&&◌,
  ◌||◌, ◌==◌,
}

pub data RunMode : Type 0 where
  cli gui : RunMode

-- `strings.HasPrefix`.
unfoldable pub has_prefix : Str → Str → Bool
has_prefix s [] = true
has_prefix [] (p ∷ ps) = false
has_prefix (c ∷ s) (p ∷ ps) = c == p && has_prefix s ps

abbrev pub is_gui_arg : Str → Bool
is_gui_arg a =
    str_eq a (codes "--gui") || (str_eq a (codes "-gui") || has_prefix a (codes "--gui="))

unfoldable pub has_gui_arg : List Str → Bool
has_gui_arg [] = false
has_gui_arg (a ∷ args) = is_gui_arg a || has_gui_arg args

unfoldable pub has_arg : Str → List Str → Bool
has_arg arg [] = false
has_arg arg (a ∷ args) = str_eq a arg || has_arg arg args

abbrev pub no_args : List Str → Bool
no_args [] = true
no_args (a ∷ args) = false

-- The mode of `main`, by whether the window is compiled in.
unfoldable pub choose : Bool → List Str → RunMode
choose available args = if has_gui_arg args || (no_args args && available) then gui else cli

-- Whether `main` opens a console.
unfoldable pub opens_console : Bool → List Str → Bool
opens_console available args = elim (choose available args) [
  | cli ↦ false
  | gui ↦ has_arg (codes "--debug") args
]

-- What `run` starts: `none` is the error of a program with no window.
unfoldable pub run : Bool → RunMode → Option RunMode
run available cli = some cli
run available gui = if available then some gui else none

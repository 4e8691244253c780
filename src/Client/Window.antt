-- ===== src/Client/Window.antt =====
-- The connect and disconnect buttons of the graphical client, the events that reach its log, and its status
-- line: `doConnect`, `doDisconnect`, `appendLog`, `emitStatus` and `applyStatus` of cmd/tunelc/gui.go, and
-- `String` of internal/client/state.go.
pub mod Buttons
pub mod Events
use tunel.Prelude.{
  ℕ, zero, suc, ◌<◌, ◌≡◌, Bool, true, false, List, [], ◌∷◌, ◌++◌, Str, Option, none, some, codes,
  arith, if◌then◌else◌, ltb, length, nat_eq, str_eq,
}
use tunel.Prelude.Map.{Map, get, put, delete}

-- A session of a client that runs in a goroutine: true if its context has been cancelled.
pub record Window : Type 0 where
  pub cancel : Option ℕ
  pub running : Map ℕ Bool
  pub next : ℕ
  pub can_connect : Bool
  pub can_disconnect : Bool

-- `cancel()` of the context of a session; a session that has ended is not there any more.
abbrev pub cancel_session : ℕ → Map ℕ Bool → Map ℕ Bool
cancel_session id running = elim (get id running) [
  | none ↦ running
  | some cancelled ↦ put id true running
]

unfoldable pub do_disconnect : Window → Window
do_disconnect w = record w {
  running = elim w.cancel [ none ↦ w.running | some id ↦ cancel_session id w.running ];
  cancel = none;
  can_connect = true;
  can_disconnect = false;
}

-- `doConnect` behind its checks of the rows: true if `client.New` accepts the configuration.
unfoldable pub do_connect : Bool → Window → Window
do_connect accepted w =
    if accepted
    then record w {
      cancel = some w.next;
      running = put w.next false w.running;
      next = suc w.next;
      can_connect = false;
      can_disconnect = true;
    }
    else record w {
      cancel = some w.next;
      next = suc w.next;
      can_connect = true;
      can_disconnect = false;
    }

-- The end of the goroutine of a session.
unfoldable pub on_ended : ℕ → Window → Window
on_ended id w = record w {
  running = delete id w.running;
  can_connect = true;
  can_disconnect = false;
}

-- What can happen: a tap on a button that is enabled, the end of a session, and the close of the window,
-- which disconnects.
pub data Step (w : Window) : Window → Type 0 where
  connect : (accepted : Bool) → w.can_connect ≡ true → Step w (do_connect accepted w)
  disconnect : w.can_disconnect ≡ true → Step w (do_disconnect w)
  finished :
      (id : ℕ) (cancelled : Bool) → get id w.running ≡ some cancelled → Step w (on_ended id w)
  close : Step w (do_disconnect w)

pub data Reach (w : Window) : Window → Type 0 where
  here : Reach w w
  next : {u v : Window} → Reach w u → Step u v → Reach w v

abbrev pub first_window : Window
first_window = record {
  cancel = none;
  running = [];
  next = 0;
  can_connect = true;
  can_disconnect = false;
}

-- The states of a client, as an int.
pub data State : Type 0 where
  idle connecting connected reconnecting error stopped : State
  other : ℕ → State

unfoldable pub state_text : State → Str
state_text idle = codes "idle"
state_text connecting = codes "connecting"
state_text connected = codes "connected"
state_text reconnecting = codes "reconnecting"
state_text error = codes "error"
state_text stopped = codes "stopped"
state_text (other n) = codes "unknown"

pub data Importance : Type 0 where
  low warning success danger : Importance

-- The importance of the dot and the label of the text.
unfoldable pub status_of : State → Importance × Str
status_of idle = (low, codes "Inactivo")
status_of connecting = (warning, codes "Conectando")
status_of connected = (success, codes "Conectado")
status_of reconnecting = (warning, codes "Reconectando")
status_of error = (danger, codes "Error")
status_of stopped = (low, codes "Detenido")
status_of (other n) = (low, state_text (other n))

-- A status of a message; the dash between is three bytes.
unfoldable pub apply_status : State → Str → Importance × Str
apply_status s msg = ((status_of s).0, (status_of s).1 ++ (32 ∷ 226 ∷ 128 ∷ 148 ∷ 32 ∷ msg))

-- An event: a line of the log, or a status.
pub data UiEvent : Type 0 where
  line : Str → UiEvent
  status : State → Str → UiEvent

-- `appendLog` and `emitStatus`: what the channel of 256 has no room for is dropped.
unfoldable pub emit : UiEvent → List UiEvent → List UiEvent
emit e pending = if ltb (length pending) 256 then pending ++ (e ∷ []) else pending

pub record Panel : Type 0 where
  pub log : Str
  pub shown : Option (Importance × Str)

-- A line goes behind the others, and one with no text is passed over.
unfoldable pub show : UiEvent → Panel → Panel
show (line []) p = p
show (line (c ∷ s)) p = record p {
  log = (if str_eq p.log [] then [] else p.log ++ (10 ∷ [])) ++ (c ∷ s);
}
show (status s msg) p = record p { shown = some (apply_status s msg) }

-- A tick of the timer: all that is pending is shown.
unfoldable pub tick : List UiEvent → Panel → Panel
tick [] p = p
tick (e ∷ pending) p = tick pending (show e p)

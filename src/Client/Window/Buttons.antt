-- ===== src/Client/Window/Buttons.antt =====
-- The two buttons of the graphical client: cmd/tunelc/gui.go.
use tunel.Prelude.{ℕ, suc, ◌≡◌, refl, Bool, true, false, some, arith, nat_eq, not, ==_iff}
use tunel.Prelude.Map.{Map, get, put, delete, get-put, get-delete, get-put_self}
use tunel.Client.Window.{
  Window, cancel_session, do_connect, do_disconnect, on_ended, Step, connect, disconnect, finished,
  close, Reach, here, next, first_window,
}

Step-one_button : {v w : Window} → Step v w → w.can_disconnect ≡ not w.can_connect
unfolding do_connect do_disconnect on_ended
Step-one_button (connect true enabled) = refl
Step-one_button (connect false enabled) = refl
Step-one_button (disconnect enabled) = refl
Step-one_button (finished id cancelled there) = refl
Step-one_button close = refl

-- Whatever has happened, one of the two buttons is enabled and the other is not.
pub Reach-one_button : {w : Window} → Reach first_window w → w.can_disconnect ≡ not w.can_connect
Reach-one_button here = refl
Reach-one_button (next r step) = Step-one_button step

-- What the user sees when a session runs that cannot be ended: it is not cancelled, the disconnect button
-- is off, and the connect button is on.
abbrev pub IsOutOfReach : ℕ → Window → Type 0
IsOutOfReach id w =
    (get id w.running ≡ some false) × (w.can_disconnect ≡ false) × (w.can_connect ≡ true)

-- The window after connecting, disconnecting, and connecting again, when the first of the two sessions
-- comes to its end only then.
abbrev pub reconnected : Window → Window
reconnected w = on_ended w.next (do_connect true (do_disconnect (do_connect true w)))

module _ (n : ℕ) (m : Map ℕ Bool) where
  cancel_put : cancel_session n (put n false m) ≡ put n true (put n false m)
  cancel_put = ground (arith, get-put_self n false m)

  -- The sessions when the second one has started, and when the first one has ended.
  abbrev both : Map ℕ Bool
  both = put (suc n) false (put n true (put n false m))

  first_cancelled : get n both ≡ some true
  first_cancelled = ground (
    arith,
    get-put (suc n) n false (put n true (put n false m)),
    get-put_self n true (put n false m),
    ==_iff (suc n) n,
  )

  second_runs : get (suc n) (delete n both) ≡ some false
  second_runs = ground (
    arith,
    get-delete n (suc n) both,
    get-put_self (suc n) false (put n true (put n false m)),
    ==_iff n (suc n),
  )

  third_cancelled :
      get (suc n) (cancel_session (suc (suc n)) (put (suc (suc n)) false (delete n both)))
      ≡ some false
  third_cancelled = ground (
    arith,
    get-put_self (suc (suc n)) false (delete n both),
    get-put (suc (suc n)) (suc n) true (put (suc (suc n)) false (delete n both)),
    get-put (suc (suc n)) (suc n) false (delete n both),
    second_runs,
    ==_iff (suc (suc n)) (suc n),
  )

-- If a session ends only after the user has disconnected it and connected again, its end disables the
-- disconnect button although the new session runs and is not cancelled; and if the user then connects a
-- third time and disconnects, the second session is still not cancelled.
pub reconnected-IsOutOfReach :
    (w : Window)
    → w.can_connect ≡ true
    → Reach w (reconnected w)
      × IsOutOfReach (suc w.next) (reconnected w)
      × (get (suc w.next) (do_disconnect (do_connect true (reconnected w))).running ≡ some false)
unfolding do_connect do_disconnect on_ended
reconnected-IsOutOfReach w enabled = (
  next (next (next (next here (connect true enabled)) (disconnect refl)) (connect true refl))
      (finished w.next true (rw (cancel_put w.next w.running) (first_cancelled w.next w.running))),
  (rw (cancel_put w.next w.running) (second_runs w.next w.running), refl, refl),
  rw (cancel_put w.next w.running) (third_cancelled w.next w.running),
)

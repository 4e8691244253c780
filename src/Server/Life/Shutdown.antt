-- ===== src/Server/Life/Shutdown.antt =====
-- What a cancelled server still waits for: internal/server/server.go and connection.go.
use tunel.Prelude.{
  ℕ, Bool-cases, ◌==◌, ◌≡◌, ◌≢◌, ◌⊎◌, inl, inr, Bool, true, false, List, [], ◌∷◌, ◌↔◌, ◌∙◌, refl,
  none, some, arith, nat_eq, All, ==_iff, ap,
}
use tunel.Prelude.Map.{Map, get, put, get-put, get-put_self, get-delete}
use tunel.Server.Life.{
  Life, Event, connected, cancel, stopped, accept_failed, reaped, ended, step, live, has_returned,
}

-- The event is not the end of this session.
abbrev pub GoesOn : ℕ → Event → Type 0
GoesOn id e = e ≢ ended id

-- The session ends by one of the events.
abbrev pub Ends : ℕ → List Event → Type 0
Ends id [] = ⊥
Ends id (e ∷ es) = (e ≡ ended id) ⊎ Ends id es

-- Each of the sessions ends by one of the events.
abbrev pub AllEnd : List Event → Map ℕ Bool → Type 0
AllEnd es [] = Unit {0}
AllEnd es ((id, closed) ∷ m) = Ends id es × AllEnd es m

abbrev IsStopped : Life → Type 0
IsStopped s = (s.listening ≡ false) × (s.cancelled ≡ true)

same_or_other : (j id : ℕ) → (j ≡ id) ⊎ (j ≢ id)
same_or_other j id = omega arith

step-IsStopped :
    (e : Event) (s : Life) → IsStopped s → IsStopped (step e s) × ((step e s).next ≡ s.next)
unfolding step
step-IsStopped connected s off = ground arith
step-IsStopped cancel s off = ground arith
step-IsStopped stopped s off = ground arith
step-IsStopped accept_failed s off = ground arith
step-IsStopped (reaped j) s off = ground arith
step-IsStopped (ended j) s off = ground arith

-- A stopped server loses a session by its end alone.
step-none :
    (e : Event) (s : Life) (id : ℕ)
    → IsStopped s
    → (get id (step e s).sessions ≡ none) ↔ ((get id s.sessions ≡ none) ⊎ (e ≡ ended id))
unfolding step
step-none connected s id off = (λ g. inl (ground arith), λ h. ground arith)
step-none cancel s id off = (λ g. inl (ground arith), λ h. ground arith)
step-none stopped s id off = (λ g. inl (ground arith), λ h. ground arith)
step-none accept_failed s id off = (λ g. inl (ground arith), λ h. ground arith)
step-none (reaped j) s id off = ground (arith, get-put j id true s.sessions, ==_iff j id)
step-none (ended j) s id off = ground (arith, get-delete j id s.sessions, ==_iff j id)

live-IsStopped :
    (es : List Event) (s : Life)
    → IsStopped s
    → ((live es s).listening ≡ false) × ((live es s).next ≡ s.next)
unfolding live
live-IsStopped [] s off = (off.0, refl)
live-IsStopped (e ∷ es) s off =
    let (off', same) = step-IsStopped e s off in
    let (shut, same') = live-IsStopped es (step e s) off' in (shut, same' ∙ same)

live-none :
    (es : List Event) (s : Life) (id : ℕ)
    → IsStopped s
    → (get id (live es s).sessions ≡ none) ↔ ((get id s.sessions ≡ none) ⊎ Ends id es)
unfolding live
live-none [] s id off = (inl, λ h. elim h [ inl g ↦ g | inr bad ↦ elim bad [ ] ])
live-none (e ∷ es) s id off =
    let (off', same) = step-IsStopped e s off in
    ground (arith, live-none es (step e s) id off', step-none e s id off)

none_all : (m : Map ℕ Bool) → ((id : ℕ) → get id m ≡ none) → m ≡ []
unfolding get
none_all [] gone = refl
none_all ((id, closed) ∷ m) gone = let here = gone id in absurd (ground (arith, ==_iff id id))

AllEnd→ : (es : List Event) (m : Map ℕ Bool) (id : ℕ) → AllEnd es m → (get id m ≡ none) ⊎ Ends id es
unfolding get
AllEnd→ es [] id all = inl refl
AllEnd→ es ((j, closed) ∷ m) id (here, all) = elim (same_or_other j id) [
  | inl same ↦ inr (rw (← same) here)
  | inr other ↦ ground (arith, AllEnd→ es m id all, ==_iff j id)
]

AllEnd← :
    (es : List Event) (m : Map ℕ Bool) → ((id : ℕ) → (get id m ≡ none) ⊎ Ends id es) → AllEnd es m
unfolding get
AllEnd← es [] all = tt
AllEnd← es ((j, closed) ∷ m) all = (
  elim (all j) [ inl gone ↦ absurd (ground (arith, ==_iff j j)) | inr ends ↦ ends ],
  AllEnd← es m (λ id. elim (same_or_other j id) [
    | inl same ↦ elim (all id) [
      | inl gone ↦ absurd (ground (arith, ==_iff j id))
      | inr ends ↦ inr ends
    ]
    | inr other ↦ ground (arith, all id, ==_iff j id)
  ]),
)

returned_iff :
    (es : List Event) (s : Life)
    → IsStopped s
    → (has_returned (live es s) ≡ true) ↔ AllEnd es s.sessions
unfolding has_returned get
returned_iff es s off =
    let shut = (live-IsStopped es s off).0 in
    (
      (λ back. AllEnd← es s.sessions (λ id. (live-none es s id off).0 (gone (live es s) id back))),
      (λ all.
          let bare =
            none_all (live es s).sessions
              (λ id. (live-none es s id off).1 (AllEnd→ es s.sessions id all)) in
          rw (shut, bare) refl),
    )
  where
    gone : (s : Life) (id : ℕ) → has_returned s ≡ true → get id s.sessions ≡ none
    gone s id back =
        elim s.sessions as (λ m. m ≡ s.sessions → get id m ≡ none) [
          | [] ↦ λ e. refl
          | c ∷ m ↦ λ e. absurd (ground arith)
        ]
          refl

step-closed :
    (e : Event) (s : Life) (id : ℕ)
    → IsStopped s
    → GoesOn id e
    → get id s.sessions ≡ some true
    → get id (step e s).sessions ≡ some true
unfolding step
step-closed connected s id off on shut = ground arith
step-closed cancel s id off on shut = shut
step-closed stopped s id off on shut = ground arith
step-closed accept_failed s id off on shut = shut
step-closed (reaped j) s id off on shut = ground (arith, get-put j id true s.sessions, ==_iff j id)
step-closed (ended j) s id off on shut = elim (same_or_other j id) [
  | inl same ↦ absurd (on (ap ended same))
  | inr other ↦ ground (arith, get-delete j id s.sessions, ==_iff j id)
]

live-closed :
    (es : List Event) (s : Life) (id : ℕ)
    → IsStopped s
    → get id s.sessions ≡ some true
    → All (GoesOn id) es
    → get id (live es s).sessions ≡ some true
unfolding live
live-closed [] s id off shut all = shut
live-closed (e ∷ es) s id off shut (on, all) =
    live-closed es (step e s) id (step-IsStopped e s off).0 (step-closed e s id off on shut) all

goes_on : (es : List Event) (id : ℕ) → ¬ Ends id es → All (GoesOn id) es
goes_on [] id lasts = tt
goes_on (e ∷ es) id lasts = ((λ same. lasts (inl same)), goes_on es id (λ later. lasts (inr later)))

closed_iff :
    (es : List Event) (s : Life) (id : ℕ)
    → IsStopped s
    → get id s.sessions ≡ some true
    → (get id (live es s).sessions ≡ some true) ↔ All (GoesOn id) es
closed_iff es s id off shut = (
  (λ kept. goes_on es id (λ ends. cc ((live-none es s id off).1 (inr ends), kept))),
  live-closed es s id off shut,
)

AllEnd-put :
    (es : List Event) (m : Map ℕ Bool) (id : ℕ) (closed closed' : Bool)
    → get id m ≡ some closed
    → AllEnd es (put id closed' m) ↔ AllEnd es m
unfolding get put
AllEnd-put es [] id closed closed' there = absurd (cc there)
AllEnd-put es ((j, c) ∷ m) id closed closed' there = elim (Bool-cases (j == id)) [
  | inl hit ↦ let same : j ≡ id = (==_iff j id).0 hit in rw (hit, same) ((λ all. all), λ all. all)
  | inr miss ↦
      let rest = AllEnd-put es m id closed closed' (ground arith) in
      rw miss ((λ all. (all.0, rest.0 all.1)), λ all. (all.0, rest.1 all.1))
]

abbrev shut_down : ℕ → Life → Life
shut_down id s = record {
  listening = false;
  cancelled = true;
  sessions = put id true s.sessions;
  next = s.next;
}

step-shut_down :
    (s : Life) (id : ℕ) (closed : Bool)
    → get id s.sessions ≡ some closed
    → step (reaped id) (step stopped (step cancel s)) ≡ shut_down id s
unfolding step
step-shut_down s id closed there = ground arith

live-shut_down :
    (es : List Event) (s : Life) (id : ℕ) (closed : Bool)
    → get id s.sessions ≡ some closed
    → live (cancel ∷ stopped ∷ reaped id ∷ es) s ≡ live es (shut_down id s)
unfolding live
live-shut_down es s id closed there = ap (live es) (step-shut_down s id closed there)

-- Once the server is cancelled, has stopped listening, and the reaper of a connection has run, then whatever
-- happens: it does not listen any more and takes no new connection; the session of that connection is still
-- there, with its tunnels closed, exactly as long as it has not ended; and `Run` has returned exactly if the
-- sessions of all the connections that were there have ended.
pub cancelled_waits :
    (es : List Event) (s : Life) (id : ℕ) (closed : Bool)
    → get id s.sessions ≡ some closed
    → let s' = live (cancel ∷ stopped ∷ reaped id ∷ es) s in
      (s'.listening ≡ false)
      × (s'.next ≡ s.next)
      × ((get id s'.sessions ≡ some true) ↔ All (GoesOn id) es)
      × ((has_returned s' ≡ true) ↔ AllEnd es s.sessions)
cancelled_waits es s id closed there =
    let shut = shut_down id s in
    let off : IsStopped shut = (refl, refl) in
    let (silent, same) = live-IsStopped es shut off in
    let back = returned_iff es shut off in
    let kept = AllEnd-put es s.sessions id closed true there in
    rw (live-shut_down es s id closed there) (
      silent,
      same,
      closed_iff es shut id off (get-put_self id true s.sessions),
      ((λ r. kept.0 (back.0 r)), λ all. back.1 (kept.1 all)),
    )

-- ===== src/Client/Links/Reaped.antt =====
-- Which direct connections the reaper leaves: `reapLoop` of internal/client/quic.go.
use tunel.Prelude.{
  ◌↔◌, ◌⊎◌, ℕ, ◌-◌, ◌≤◌, ◌<◌, ◌≡◌, ◌≢◌, refl, true, false, Bool, List, [], ◌∷◌, Str, none, some,
  arith, string_eq, str_eq_iff, if◌then◌else◌, inl, inr, sym, ◌∙◌,
}
use tunel.Prelude.Map.{Map, get, put, Distinct, put-Distinct, get-put_self, get-delete}
use tunel.Client.P2p.{Manager, evict, route}
use tunel.Client.P2p.Routing.{route_sends}
use tunel.Client.Links.{idle_limit, Timed, is_idle, reap_each, reap, route_at}

-- Whether an address is among those that are reaped.
abbrev doomed : ℕ → Str → Map Str ℕ → Bool
doomed now ip seen = elim (get ip seen) [ none ↦ false | some t ↦ is_idle now t ]

reap_each-get :
    (now : ℕ) (ip : Str) (seen : Map Str ℕ) (t : Timed)
    → Distinct seen
    → get ip (reap_each now seen t).manager.conns
      ≡ (if doomed now ip seen then none else get ip t.manager.conns)
unfolding reap_each evict get
reap_each-get now ip [] t d = refl
reap_each-get now ip ((j, s) ∷ seen) t (once, d) = ground (
  arith,
  str_eq_iff j ip,
  get-delete j ip (reap_each now seen t).manager.conns,
  reap_each-get now ip seen t d,
)

reap_each-seen :
    (now : ℕ) (ip : Str) (seen : Map Str ℕ) (t : Timed)
    → Distinct seen
    → get ip (reap_each now seen t).seen ≡ (if doomed now ip seen then none else get ip t.seen)
unfolding reap_each get
reap_each-seen now ip [] t d = refl
reap_each-seen now ip ((j, s) ∷ seen) t (once, d) = ground (
  arith,
  str_eq_iff j ip,
  get-delete j ip (reap_each now seen t).seen,
  reap_each-seen now ip seen t d,
)

-- What the reaper leaves of the connection to an address.
abbrev pub IsReaped : ℕ → Timed → Str → Type 0
IsReaped now t ip =
    ((s : ℕ)
      → get ip t.seen ≡ some s
      → is_idle now s ≡ true
      → get ip (reap now t).manager.conns ≡ none)
    × ((s : ℕ)
        → get ip t.seen ≡ some s
        → is_idle now s ≡ false
        → (get ip (reap now t).manager.conns ≡ get ip t.manager.conns)
          × (get ip (reap now t).seen ≡ some s))

reap-IsReaped : (now : ℕ) (t : Timed) (ip : Str) → Distinct t.seen → IsReaped now t ip
unfolding reap
reap-IsReaped now t ip d = (
  (λ s at idle. ground (arith, reap_each-get now ip t.seen t d)),
  λ s at fresh. (
    ground (arith, reap_each-get now ip t.seen t d),
    ground (arith, reap_each-seen now ip t.seen t d),
  ),
)

le_lt_cases : (n k : ℕ) → (n ≤ k) ⊎ (k < n)
le_lt_cases n k = omega arith

-- A packet that is taken leaves a connection.
taken_connects :
    (ip : Str) (pkt : List ℕ) (m : Manager)
    → (route ip pkt m).1 ≡ true
    → get ip (route ip pkt m).0.conns ≢ none
taken_connects ip pkt m taken e = elim (route_sends ip pkt m).0 [
  | inl (_, (c, here, there)) ↦ cc
  | inr (refused, _) ↦ cc
]

-- A direct connection over which a packet is sent at some time is gone when the reaper runs later exactly
-- if more than 90 seconds have passed.
pub reap-route_at :
    (now later : ℕ) (ip : Str) (pkt : List ℕ) (t : Timed)
    → Distinct t.seen
    → (route_at now ip pkt t).1 ≡ true
    → (get ip (reap later (route_at now ip pkt t).0).manager.conns ≡ none)
      ↔ (idle_limit < later - now)
unfolding route_at
reap-route_at now later ip pkt t d sent =
    let t' : Timed = record { manager = (route ip pkt t.manager).0; seen = put ip now t.seen } in
    let reaped = reap-IsReaped later t' ip (put-Distinct ip now t.seen d) in
    let at = get-put_self ip now t.seen in
    rw sent (
      (λ gone. elim (le_lt_cases (later - now) idle_limit) [
        | inl fresh ↦
            absurd (
              taken_connects ip pkt t.manager sent
                (sym ((reaped.1 now at (ground arith)).0) ∙ gone))
        | inr idle ↦ idle
      ]),
      λ idle. reaped.0 now at (ground arith),
    )

-- ===== src/Config/Allowed.antt =====
-- What a list of ports allows: `ParseAllowedPorts` of internal/config/config.go and `portAllowed` of
-- internal/server/server.go.
use tunel.Prelude.{
  ℕ, ◌≡◌, ◌↔◌, ◌⊎◌, inl, inr, refl, true, List, [], ◌∷◌, Str, some, arith, All, map, ◌==◌, ==_iff,
  Option-cases, Bool-cases, ap, ◌∙◌,
}
use tunel.Config.{
  split_commas, part_port, ports_of, parse_allowed_ports, scan_positive, trim_space, trim_left,
  trim_right,
}
use tunel.Config.Written.{
  Entry, written, IsWritten, listed, Offers, IsUnread, part_port-Offers, part_port-IsUnread,
  split_commas-listed,
}
use tunel.Server.Control.{has_port, port_allowed}

-- Some entry offers the port.
abbrev pub Names : ℕ → List Entry → Type 0
Names port [] = ⊥
Names port (e ∷ es) = Offers e port ⊎ Names port es

has_port→Names :
    (port : ℕ) (es : List Entry)
    → All IsWritten es
    → has_port port (ports_of (map written es)) ≡ true
    → Names port es
unfolding has_port ports_of
has_port→Names port [] all there = cc
has_port→Names port (e ∷ es) (h, all) there = elim (Option-cases (part_port (written e))) [
  | inl unread ↦ inr (has_port→Names port es all (ground arith))
  | inr (n, read) ↦ elim (Bool-cases (n == port)) [
    | inl hit ↦ inl ((part_port-Offers e port h).0 (read ∙ ap some ((==_iff n port).0 hit)))
    | inr miss ↦ inr (has_port→Names port es all (ground arith))
  ]
]

Names→has_port :
    (port : ℕ) (es : List Entry)
    → All IsWritten es
    → Names port es
    → has_port port (ports_of (map written es)) ≡ true
unfolding has_port ports_of
Names→has_port port [] all named = elim named [ ]
Names→has_port port (e ∷ es) (h, all) (inl offered) =
    let read = (part_port-Offers e port h).1 offered in ground (arith, ==_iff port port)
Names→has_port port (e ∷ es) (h, all) (inr named) = ground (arith, Names→has_port port es all named)

ports_of-IsUnread :
    (es : List Entry) → All IsWritten es → (ports_of (map written es) ≡ []) ↔ All IsUnread es
unfolding ports_of
ports_of-IsUnread [] all = ((λ _. tt), λ _. refl)
ports_of-IsUnread (e ∷ es) (h, all) =
    let rest = ports_of-IsUnread es all in
    let this = part_port-IsUnread e h in
    elim (Option-cases (part_port (written e))) [
      | inl unread ↦
          rw (ports_of, unread)
            ((λ bare. (this.0 unread, rest.0 bare)), λ all_unread. rest.1 all_unread.1)
      | inr (n, read) ↦
          rw (ports_of, read)
            ((λ bare. absurd (cc bare)), λ all_unread. absurd (cc (this.1 all_unread.0, read)))
    ]

port_allowed_list :
    (token : Str) (ports : List ℕ) (port : ℕ)
    → (port_allowed (record { token = token; allowed_ports = ports }) port ≡ true)
      ↔ ((ports ≡ []) ⊎ (has_port port ports ≡ true))
unfolding port_allowed
port_allowed_list token [] port = ((λ _. inl refl), λ _. refl)
port_allowed_list token (p ∷ ports) port =
    (inr, λ h. elim h [ inl bare ↦ absurd (cc bare) | inr there ↦ there ])

split_ports : (s : Str) → parse_allowed_ports s ≡ ports_of (split_commas s)
unfolding parse_allowed_ports ports_of split_commas part_port scan_positive trim_space trim_left
    trim_right
split_ports [] = refl
split_ports (c ∷ s) = refl

parse_allowed_ports-listed :
    (es : List Entry)
    → All IsWritten es
    → parse_allowed_ports (listed es) ≡ ports_of (map written es)
unfolding parse_allowed_ports ports_of
parse_allowed_ports-listed [] all = refl
parse_allowed_ports-listed (e ∷ es) all =
    split_ports (listed (e ∷ es)) ∙ ap ports_of (split_commas-listed e es all)

-- For a list that is written with commas, each part of which is a decimal number with or without blanks
-- around it or a word that begins with no digit and no plus: a server with this list lets a port through
-- exactly if it is one of the numbers, from 1 to 65535, or if no number of the list is from 1 to 65535, as
-- in a list that is mistyped throughout.
pub port_allowed-parse_allowed_ports :
    (token : Str) (es : List Entry) (port : ℕ)
    → All IsWritten es
    → (port_allowed (record { token = token; allowed_ports = parse_allowed_ports (listed es) }) port
        ≡ true)
      ↔ (Names port es ⊎ All IsUnread es)
port_allowed-parse_allowed_ports token es port all =
    let ports = ports_of (map written es) in
    let list = port_allowed_list token ports port in
    rw (parse_allowed_ports-listed es all) (
      (λ e. elim (list.0 e) [
        | inl bare ↦ inr ((ports_of-IsUnread es all).0 bare)
        | inr there ↦ inl (has_port→Names port es all there)
      ]),
      λ h. elim h [
        | inl named ↦ list.1 (inr (Names→has_port port es all named))
        | inr unread ↦ list.1 (inl ((ports_of-IsUnread es all).1 unread))
      ],
    )

-- ===== src/Client/Flag/RoundTrip.antt =====
-- Which flags `parseTunnelFlag` of cmd/tunelc/cli_impl.go reads, and which it refuses.
use tunel.Prelude.{
  ℕ, ◌^◌, ◌<◌, ◌≡◌, ◌≢◌, refl, [], ◌∷◌, ◌++◌, Str, pos, some, codes, arith, if◌then◌else◌, str_eq,
  value_onto, decimal, value_onto-decimal, decimal-IsDigit, decimal-full, IsDigit, All, inl, inr,
  ◌⊎◌, ◌∙◌,
}
use tunel.Client.Flag.{parsed, failed, cut, split3, atoi, spec, parse_parts, parse_tunnel_flag}

abbrev pub NoColon : Str → Type 0
NoColon s = All (λ c. c ≢ b':') s

cut-append : (s t : Str) → NoColon s → cut (s ++ (b':' ∷ t)) ≡ some (s, t)
unfolding cut
cut-append [] t h = refl
cut-append (c ∷ s) t (other, h) = ground (arith, cut-append s t h)

split3-append :
    (a b c : Str)
    → NoColon a
    → NoColon b
    → split3 (a ++ (b':' ∷ (b ++ (b':' ∷ c)))) ≡ a ∷ b ∷ c ∷ []
unfolding split3
split3-append a b c no_a no_b =
    ground (arith, cut-append a (b ++ (b':' ∷ c)) no_a, cut-append b c no_b)

digits-NoColon : (s : Str) → All IsDigit s → NoColon s
digits-NoColon [] h = tt
digits-NoColon (c ∷ s) ((low, high), h) = ((λ e. omega arith), digits-NoColon s h)

-- A decimal text does not begin with a sign, and is not empty.
atoi_digits :
    (s : Str) (n : ℕ)
    → All IsDigit s
    → s ≢ []
    → value_onto 0 s ≡ some n
    → n < 2 ^ 63
    → atoi s ≡ some (pos n)
unfolding atoi
atoi_digits [] n h full e small = absurd (full refl)
atoi_digits (c ∷ s) n ((low, high), h) full e small = ground arith

pub atoi-decimal : (n : ℕ) → n < 2 ^ 63 → atoi (decimal n) ≡ some (pos n)
atoi-decimal n small =
    atoi_digits (decimal n) n (decimal-IsDigit n) (decimal-full n) (value_onto-decimal n) small

abbrev pub IsTransport : Str → Type 0
IsTransport proto = (proto ≡ codes "tcp") ⊎ (proto ≡ codes "udp")

-- How a tunnel is written on the command line.
abbrev pub flag_body : Str → ℕ → Str → Str
flag_body proto port target = proto ++ (b':' ∷ (decimal port ++ (b':' ∷ target)))

abbrev pub flag_text : Str → Str → ℕ → Str → Str
flag_text name proto port target =
    if str_eq name []
    then flag_body proto port target
    else b'@' ∷ (name ++ (b':' ∷ flag_body proto port target))

parse_body :
    (name proto : Str) (port : ℕ) (target : Str)
    → IsTransport proto
    → port < 2 ^ 63
    → parse_parts name (split3 (flag_body proto port target))
      ≡ parsed (spec name proto (pos port) target)
unfolding parse_parts str_eq
parse_body name proto port target (inl tcp) small = rw tcp (
    ground (
      arith,
      split3-append (codes "tcp") (decimal port) target (ground arith)
          (digits-NoColon (decimal port) (decimal-IsDigit port)),
      atoi-decimal port small,
    ))
parse_body name proto port target (inr udp) small = rw udp (
    ground (
      arith,
      split3-append (codes "udp") (decimal port) target (ground arith)
          (digits-NoColon (decimal port) (decimal-IsDigit port)),
      atoi-decimal port small,
    ))

-- A TCP or UDP tunnel that is written with its transport is read back as it is: the name, if there is
-- one, has no colon, and the port fits an int.
pub parse_tunnel_flag-flag_text :
    (name proto : Str) (port : ℕ) (target : Str)
    → NoColon name
    → IsTransport proto
    → port < 2 ^ 63
    → parse_tunnel_flag (flag_text name proto port target)
      ≡ parsed (spec name proto (pos port) target)
unfolding parse_tunnel_flag str_eq
parse_tunnel_flag-flag_text [] proto port target plain transport small = elim transport [
  | inl tcp ↦ ground (arith, parse_body [] proto port target (inl tcp) small)
  | inr udp ↦ ground (arith, parse_body [] proto port target (inr udp) small)
]
parse_tunnel_flag-flag_text (c ∷ name) proto port target plain transport small = ground (
  arith,
  cut-append (c ∷ name) (flag_body proto port target) plain,
  parse_body (c ∷ name) proto port target transport small,
)

-- A flag that begins with digits has no name.
parse_digits :
    (s t : Str)
    → All IsDigit s
    → s ≢ []
    → parse_tunnel_flag (s ++ (b':' ∷ t)) ≡ parse_parts [] (split3 (s ++ (b':' ∷ t)))
unfolding parse_tunnel_flag
parse_digits [] t h full = absurd (full refl)
parse_digits (c ∷ s) t ((low, high), h) full = ground arith

-- A flag that leaves its transport out, as the comment on the function and README.md write it, is
-- refused: the host is read as the port.
pub parse_tunnel_flag_short :
    (port local : ℕ)
    → parse_tunnel_flag (decimal port ++ (b':' ∷ (codes "localhost" ++ (b':' ∷ decimal local))))
      ≡ failed (codes "invalid public_port: localhost")
unfolding parse_parts atoi value_onto
parse_tunnel_flag_short port local =
    parse_digits (decimal port) (codes "localhost" ++ (b':' ∷ decimal local)) (decimal-IsDigit port)
      (decimal-full port)
    ∙ ground (
      arith,
      split3-append (decimal port) (codes "localhost") (decimal local)
          (digits-NoColon (decimal port) (decimal-IsDigit port)) (ground arith),
    )

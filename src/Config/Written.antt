-- ===== src/Config/Written.antt =====
-- How a list of ports is written for `ParseAllowedPorts` of internal/config/config.go, and how its text is
-- taken apart.
use tunel.Prelude.{
  ℕ, ◌+◌, ◌-◌, ◌*◌, ◌≤◌, ◌<◌, ◌≡◌, ◌≢◌, ◌↔◌, ◌⊎◌, inr, refl, List, [], ◌∷◌, ◌++◌, Str, none, some,
  arith, All, map, decimal, value_onto, value_onto-decimal, decimal-IsDigit, decimal-full, IsDigit,
  ap, ◌∙◌,
}
use tunel.Config.{
  split_commas, trim_left, trim_right, trim_space, digits_value, scan_positive, part_port,
}

abbrev pub IsBlank : ℕ → Type 0
IsBlank c = (c ≡ 32) ⊎ ((9 ≤ c) × (c ≤ 13))

-- No plus, no digit, no blank and no comma.
abbrev pub IsOther : ℕ → Type 0
IsOther c = (c ≢ 32) × ((c < 9) ⊎ (13 < c)) × (c ≢ b'+') × (c ≢ b',') × ((c < b'0') ⊎ (b'9' < c))

abbrev pub NoComma : Str → Type 0
NoComma s = All (λ c. c ≢ b',') s

-- A part of the list: a number between blanks, or a word after blanks, which begins with anything else.
pub data Entry : Type 0 where
  number : Str → ℕ → Str → Entry
  word : Str → ℕ → Str → Entry

abbrev pub written : Entry → Str
written (number before n after) = before ++ (decimal n ++ after)
written (word before c s) = before ++ (c ∷ s)

abbrev pub IsWritten : Entry → Type 0
IsWritten (number before n after) = All IsBlank before × All IsBlank after
IsWritten (word before c s) = All IsBlank before × IsOther c × NoComma s

-- The entries with a comma between them.
abbrev pub listed : List Entry → Str
listed [] = []
listed (e ∷ []) = written e
listed (e ∷ e' ∷ es) = written e ++ (b',' ∷ listed (e' ∷ es))

-- The entry is the number, and the number is a port.
abbrev pub Offers : Entry → ℕ → Type 0
Offers (number before n after) port = (n ≡ port) × (1 ≤ n) × (n ≤ 65535)
Offers (word before c s) port = ⊥

-- The entry is no port.
abbrev pub IsUnread : Entry → Type 0
IsUnread (number before n after) = (n ≡ 0) ⊎ (65535 < n)
IsUnread (word before c s) = Unit {0}

trim_right-blanks : (s : Str) → All IsBlank s → trim_right s ≡ []
unfolding trim_right
trim_right-blanks [] h = refl
trim_right-blanks (c ∷ s) (b, h) = ground (arith, trim_right-blanks s h)

trim_right-digits :
    (s after : Str) → All IsDigit s → All IsBlank after → trim_right (s ++ after) ≡ s
unfolding trim_right
trim_right-digits [] after h blank = trim_right-blanks after blank
trim_right-digits (c ∷ []) after ((low, high), h) blank =
    ground (arith, trim_right-blanks after blank)
trim_right-digits (c ∷ d ∷ s) after (digit, h) blank =
    ground (arith, trim_right-digits (d ∷ s) after h blank)

trim_right-other : (c : ℕ) (s : Str) → IsOther c → (t : Str) × (trim_right (c ∷ s) ≡ c ∷ t)
unfolding trim_right
trim_right-other c s other = go (trim_right s) refl
  where
    go : (rest : Str) → trim_right s ≡ rest → (t : Str) × (trim_right (c ∷ s) ≡ c ∷ t)
    go [] e = ([], ground arith)
    go (d ∷ t) e = (d ∷ t, ground arith)

trim_right-before :
    (before t : Str) (c : ℕ) (t' : Str)
    → trim_right t ≡ c ∷ t'
    → trim_right (before ++ t) ≡ before ++ (c ∷ t')
unfolding trim_right
trim_right-before [] t c t' e = e
trim_right-before (b ∷ []) t c t' e = ground arith
trim_right-before (b ∷ b' ∷ before) t c t' e =
    ground (arith, trim_right-before (b' ∷ before) t c t' e)

trim_left-before :
    (before t : Str) (c : ℕ)
    → All IsBlank before
    → c ≢ 32
    → (c < 9) ⊎ (13 < c)
    → trim_left (before ++ (c ∷ t)) ≡ c ∷ t
unfolding trim_left
trim_left-before [] t c h x y = ground arith
trim_left-before (b ∷ before) t c (blank, h) x y = ground (arith, trim_left-before before t c h x y)

digits_value-value_onto :
    (s : Str) (acc n : ℕ) → All IsDigit s → value_onto acc s ≡ some n → digits_value acc s ≡ n
unfolding digits_value value_onto
digits_value-value_onto [] acc n h e = ground arith
digits_value-value_onto (c ∷ s) acc n ((low, high), h) e =
    ground (arith, digits_value-value_onto s (acc * 10 + (c - b'0')) n h)

trim_space-number :
    (before after s : Str)
    → All IsBlank before
    → All IsBlank after
    → All IsDigit s
    → s ≢ []
    → trim_space (before ++ (s ++ after)) ≡ s
unfolding trim_space
trim_space-number before after [] h h' digits full = absurd (full refl)
trim_space-number before after (c ∷ s) h h' ((low, high), digits) full =
    ap trim_left (
      trim_right-before before ((c ∷ s) ++ after) c s
        (trim_right-digits (c ∷ s) after ((low, high), digits) h'))
    ∙ trim_left-before before s c h (λ e. ground arith) (inr (omega arith))

scan_positive-digits :
    (s : Str) (n : ℕ) → All IsDigit s → s ≢ [] → value_onto 0 s ≡ some n → scan_positive s ≡ some n
unfolding scan_positive
scan_positive-digits [] n h full e = absurd (full refl)
scan_positive-digits (c ∷ s) n ((low, high), h) full e =
    ground (arith, digits_value-value_onto (c ∷ s) 0 n ((low, high), h) e)

scan_positive-number :
    (before : Str) (n : ℕ) (after : Str)
    → IsWritten (number before n after)
    → scan_positive (trim_space (written (number before n after))) ≡ some n
scan_positive-number before n after (h, h') =
    ap scan_positive
      (trim_space-number before after (decimal n) h h' (decimal-IsDigit n) (decimal-full n))
    ∙ scan_positive-digits (decimal n) n (decimal-IsDigit n) (decimal-full n) (value_onto-decimal n)

scan_positive-word :
    (before : Str) (c : ℕ) (s : Str)
    → IsWritten (word before c s)
    → scan_positive (trim_space (written (word before c s))) ≡ none
unfolding scan_positive trim_space
scan_positive-word before c s (h, other, plain) =
    let (t, e) = trim_right-other c s other in
    ap (λ x. scan_positive (trim_left x)) (trim_right-before before (c ∷ s) c t e)
    ∙ (ap scan_positive (trim_left-before before t c h other.0 other.1) ∙ ground arith)

-- What a written entry stands for.
pub part_port-Offers :
    (e : Entry) (port : ℕ) → IsWritten e → (part_port (written e) ≡ some port) ↔ Offers e port
unfolding part_port
part_port-Offers (number before n after) port h =
    ground (arith, scan_positive-number before n after h)
part_port-Offers (word before c s) port h = ground (arith, scan_positive-word before c s h)

pub part_port-IsUnread : (e : Entry) → IsWritten e → (part_port (written e) ≡ none) ↔ IsUnread e
unfolding part_port
part_port-IsUnread (number before n after) h = ground (arith, scan_positive-number before n after h)
part_port-IsUnread (word before c s) h = ground (arith, scan_positive-word before c s h)

NoComma-append : (s t : Str) → NoComma s → NoComma t → NoComma (s ++ t)
NoComma-append [] t h h' = h'
NoComma-append (c ∷ s) t (other, h) h' = (other, NoComma-append s t h h')

blanks-NoComma : (s : Str) → All IsBlank s → NoComma s
blanks-NoComma [] h = tt
blanks-NoComma (c ∷ s) (b, h) = ((λ e. ground arith), blanks-NoComma s h)

digits-NoComma : (s : Str) → All IsDigit s → NoComma s
digits-NoComma [] h = tt
digits-NoComma (c ∷ s) ((low, high), h) = ((λ e. ground arith), digits-NoComma s h)

written-NoComma : (e : Entry) → IsWritten e → NoComma (written e)
written-NoComma (number before n after) (h, h') =
    NoComma-append before (decimal n ++ after) (blanks-NoComma before h) (
      NoComma-append (decimal n) after (digits-NoComma (decimal n) (decimal-IsDigit n))
        (blanks-NoComma after h'))
written-NoComma (word before c s) (h, (_, _, _, other, _), plain) =
    NoComma-append before (c ∷ s) (blanks-NoComma before h) (other, plain)

split_commas_one : (s : Str) → NoComma s → split_commas s ≡ s ∷ []
unfolding split_commas
split_commas_one [] h = refl
split_commas_one (c ∷ s) (other, h) = ground (arith, split_commas_one s h)

split_commas-append : (s t : Str) → NoComma s → split_commas (s ++ (b',' ∷ t)) ≡ s ∷ split_commas t
unfolding split_commas
split_commas-append [] t h = ground arith
split_commas-append (c ∷ s) t (other, h) = ground (arith, split_commas-append s t h)

pub split_commas-listed :
    (e : Entry) (es : List Entry)
    → All IsWritten (e ∷ es)
    → split_commas (listed (e ∷ es)) ≡ map written (e ∷ es)
split_commas-listed e [] (h, all) = split_commas_one (written e) (written-NoComma e h)
split_commas-listed e (e' ∷ es) (h, all) =
    split_commas-append (written e) (listed (e' ∷ es)) (written-NoComma e h)
    ∙ ap (◌∷◌ (written e)) (split_commas-listed e' es all)

-- ===== src/Client/Gui/Saved.antt =====
-- What becomes of the profile when the graphical client connects: `doConnect` of cmd/tunelc/gui.go.
use tunel.Prelude.{
  ℕ, suc, ◌^◌, ◌<◌, ◌≡◌, ◌≢◌, refl, ◌⊎◌, inl, inr, true, false, List, [], ◌∷◌, ◌++◌, Str, ℤ, pos,
  Option, arith, codes, str_eq, str_eq_iff, length, All, decimal, decimal-IsDigit, IsDigit, ap, ◌∙◌,
  append_assoc, append-nil,
}
use tunel.Config.{trim_space, trim_left, trim_right}
use tunel.Config.Profile.{TunnelEntry, Profile}
use tunel.Client.Flag.RoundTrip.{atoi-decimal}
use tunel.Client.Gui.{
  Row, selected, add_row, int_text, add_entries, first_rows, port_of, entries_of_rows, Keys,
  gui_keys, Form, saved_profile,
}

trim_right_digits : (s : Str) → All IsDigit s → trim_right s ≡ s
unfolding trim_right
trim_right_digits [] h = refl
trim_right_digits (c ∷ []) ((low, high), h) = ground arith
trim_right_digits (c ∷ (d ∷ s)) ((low, high), h) = ground (arith, trim_right_digits (d ∷ s) h)

trim_left_digits : (s : Str) → All IsDigit s → trim_left s ≡ s
unfolding trim_left
trim_left_digits [] h = refl
trim_left_digits (c ∷ s) ((low, high), h) = ground arith

trim_space-decimal : (n : ℕ) → trim_space (decimal n) ≡ decimal n
unfolding trim_space
trim_space-decimal n =
    rw (trim_right_digits (decimal n) (decimal-IsDigit n))
      (trim_left_digits (decimal n) (decimal-IsDigit n))

-- A port that is shown is read back.
port_of-decimal : (on_error : Str → ℤ) (n : ℕ) → n < 2 ^ 63 → port_of on_error (decimal n) ≡ pos n
unfolding port_of
port_of-decimal on_error n small = ground (arith, trim_space-decimal n, atoi-decimal n small)

-- A tunnel that the tab can show: TCP or UDP, with a port, and a target with no blanks around it.
abbrev pub IsShown : TunnelEntry → Type 0
IsShown t =
    ((t.proto ≡ codes "tcp") ⊎ (t.proto ≡ codes "udp"))
    × ((n : ℕ) × (t.public_port ≡ pos (suc n)) × (n < 65535))
    × (trim_space t.local_target ≡ t.local_target)

-- The tunnel without its name.
abbrev pub unnamed : TunnelEntry → TunnelEntry
unnamed t = record t { name = [] }

abbrev pub all_unnamed : List TunnelEntry → List TunnelEntry
all_unnamed [] = []
all_unnamed (t ∷ ts) = unnamed t ∷ all_unnamed ts

selected_shown :
    (proto : Str) → (proto ≡ codes "tcp") ⊎ (proto ≡ codes "udp") → selected proto ≡ proto
unfolding str_eq
selected_shown proto (inl tcp) = rw tcp refl
selected_shown proto (inr udp) = rw udp refl

entries_of_rows-append :
    (on_error : Str → ℤ) (rows rows' : List Row)
    → entries_of_rows on_error (rows ++ rows')
      ≡ entries_of_rows on_error rows ++ entries_of_rows on_error rows'
unfolding entries_of_rows
entries_of_rows-append on_error [] rows' = refl
entries_of_rows-append on_error (r ∷ rows) rows' =
    ground (arith, entries_of_rows-append on_error rows rows')

abbrev row_of : TunnelEntry → ℕ → Row
row_of t i = record {
  proto = selected t.proto;
  port = int_text t.public_port;
  local = t.local_target;
  index = i;
}

entries_of_one :
    (on_error : Str → ℤ) (t : TunnelEntry) (i : ℕ)
    → IsShown t
    → entries_of_rows on_error (row_of t i ∷ []) ≡ unnamed t ∷ []
unfolding entries_of_rows
entries_of_one on_error t i (transport, (n, port, small), trimmed) =
    rw
      (
        selected_shown t.proto transport,
        port,
        port_of-decimal on_error (suc n) (omega arith),
        trimmed,
      )
      refl

entries_of_row :
    (on_error : Str → ℤ) (t : TunnelEntry) (rows : List Row)
    → IsShown t
    → entries_of_rows on_error (add_row t.proto (int_text t.public_port) t.local_target rows)
      ≡ entries_of_rows on_error rows ++ (unnamed t ∷ [])
unfolding add_row
entries_of_row on_error t rows shown =
    entries_of_rows-append on_error rows (row_of t (length rows) ∷ [])
    ∙ ap (◌++◌ (entries_of_rows on_error rows)) (entries_of_one on_error t (length rows) shown)

entries_of_rows-add_entries :
    (on_error : Str → ℤ) (ts : List TunnelEntry) (rows : List Row)
    → All IsShown ts
    → entries_of_rows on_error (add_entries ts rows)
      ≡ entries_of_rows on_error rows ++ all_unnamed ts
unfolding add_entries
entries_of_rows-add_entries on_error [] rows all =
    ground (arith, append-nil (entries_of_rows on_error rows))
entries_of_rows-add_entries on_error (t ∷ ts) rows (shown, all) =
    let rows' : List Row = add_row t.proto (int_text t.public_port) t.local_target rows in
    ground (
      arith,
      entries_of_rows-add_entries on_error ts rows' all,
      entries_of_row on_error t rows shown,
      append_assoc (entries_of_rows on_error rows) (unnamed t ∷ []) (all_unnamed ts),
    )

-- The tunnels that the window starts with, if the profile has some, are saved again in their order, but
-- without their names. Each is TCP or UDP, has a port from 1 to 65535, and no blanks around its target.
pub tunnels_saved :
    (on_error : Str → ℤ) (f : Form) (k : Keys) (t : TunnelEntry) (ts : List TunnelEntry)
    → All IsShown (t ∷ ts)
    → (saved_profile on_error f k (first_rows (t ∷ ts))).tunnels ≡ all_unnamed (t ∷ ts)
unfolding saved_profile first_rows entries_of_rows
tunnels_saved on_error f k t ts all = entries_of_rows-add_entries on_error (t ∷ ts) [] all

-- The keys of a profile.
abbrev pub HasKeys : Str → Str → Str → Str → Profile → Type 0
HasKeys identity private ed ed_private p =
    (p.identity_key ≡ identity)
    × (p.private_key ≡ private)
    × (p.ed_pubkey ≡ ed)
    × (p.ed_privkey ≡ ed_private)

-- When the client connects in VPN mode, the keys of a profile that has an identity are saved again; when it
-- connects for tunnels, the keys of the profile are lost.
pub keys_saved :
    (on_error : Str → ℤ) (f : Form) (p : Profile) (identity ed : Option (Str × Str))
    (rows : List Row)
    → p.identity_key ≢ []
    → HasKeys p.identity_key p.private_key p.ed_pubkey p.ed_privkey
        (saved_profile on_error f (gui_keys true p identity ed) rows)
      × HasKeys [] [] [] [] (saved_profile on_error f (gui_keys false p identity ed) rows)
unfolding saved_profile gui_keys
keys_saved on_error f p identity ed rows has =
    (ground (arith, str_eq_iff p.identity_key []), (refl, refl, refl, refl))

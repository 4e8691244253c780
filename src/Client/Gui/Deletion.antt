-- ===== src/Client/Gui/Deletion.antt =====
-- Which row a delete button takes away: the closures of `addRow` in cmd/tunelc/gui.go.
use tunel.Prelude.{
  ◌⊎◌, inl, inr, ℕ, zero, suc, ◌+◌, ◌≤◌, ◌<◌, ◌≡◌, refl, List, [], ◌∷◌, ◌++◌, some, none, arith,
  length, take, drop, ap, get_elem?, codes, Str, ◌∙◌,
}
use tunel.Config.Profile.{TunnelEntry}
use tunel.Client.Gui.{Row, add_row, add_entries, first_rows, int_text, delete_at}

-- The list without its element at an index.
abbrev pub without : ℕ → List Row → List Row
without i [] = []
without zero (r ∷ rows) = rows
without (suc i) (r ∷ rows) = r ∷ without i rows

without-take-drop : (i : ℕ) (rows : List Row) → take i rows ++ drop (suc i) rows ≡ without i rows
without-take-drop zero [] = refl
without-take-drop zero (r ∷ rows) = refl
without-take-drop (suc i) [] = refl
without-take-drop (suc i) (r ∷ rows) = ap (◌∷◌ r) (without-take-drop i rows)

delete_at-without :
    (i : ℕ) (rows : List Row) → i < length rows → delete_at i rows ≡ some (without i rows)
unfolding delete_at
delete_at-without i rows lt = ground (arith, without-take-drop i rows)

length-without :
    (i : ℕ) (rows : List Row) → i < length rows → suc (length (without i rows)) ≡ length rows
length-without i [] lt = elim lt [ ]
length-without zero (r ∷ rows) lt = refl
length-without (suc i) (r ∷ rows) lt = ap suc (length-without i rows (omega arith))

delete_at-none : (i : ℕ) (rows : List Row) → length rows ≤ i → delete_at i rows ≡ none
unfolding delete_at
delete_at-none i rows le = ground arith

-- Behind the place of a deletion, an index means the row behind.
without_twice :
    (i j : ℕ) (rows : List Row)
    → i < j
    → suc j < length rows
    → without j (without i rows) ≡ without i (without (suc j) rows)
without_twice i j [] lt room = elim room [ ]
without_twice i zero (r ∷ rows) lt room = elim lt [ ]
without_twice zero (suc j) (r ∷ rows) lt room = refl
without_twice (suc i) (suc j) (r ∷ rows) lt room =
    ap (◌∷◌ r) (without_twice i j rows (omega arith) (omega arith))

-- The buttons of the rows have the places of the rows, from `k` on.
abbrev pub Numbered : ℕ → List Row → Type 0
Numbered k [] = Unit {0}
Numbered k (r ∷ rows) = (r.index ≡ k) × Numbered (suc k) rows

Numbered-get :
    (k j : ℕ) (rows : List Row) (r : Row)
    → Numbered k rows
    → get_elem? rows j ≡ some r
    → (r.index ≡ k + j) × (j < length rows)
Numbered-get k j [] r n e = cc
Numbered-get k zero (q ∷ rows) r (at, n) e = ground arith
Numbered-get k (suc j) (q ∷ rows) r (at, n) e = omega (arith, Numbered-get (suc k) j rows r n e)

Numbered-append :
    (k : ℕ) (rows : List Row) (r : Row)
    → Numbered k rows
    → r.index ≡ k + length rows
    → Numbered k (rows ++ (r ∷ []))
Numbered-append k [] r n at = (omega arith, tt)
Numbered-append k (q ∷ rows) r (at', n) at = (at', Numbered-append (suc k) rows r n (omega arith))

add_row-Numbered :
    (proto port local : Str) (rows : List Row)
    → Numbered 0 rows
    → Numbered 0 (add_row proto port local rows)
unfolding add_row
add_row-Numbered proto port local rows n = Numbered-append 0 rows _ n (omega arith)

add_entries-Numbered :
    (ts : List TunnelEntry) (rows : List Row) → Numbered 0 rows → Numbered 0 (add_entries ts rows)
unfolding add_entries
add_entries-Numbered [] rows n = n
add_entries-Numbered (t ∷ ts) rows n =
    add_entries-Numbered ts (add_row t.proto (int_text t.public_port) t.local_target rows)
      (add_row-Numbered t.proto (int_text t.public_port) t.local_target rows n)

-- The rows that the window starts with are numbered.
pub first_rows-Numbered : (ts : List TunnelEntry) → Numbered 0 (first_rows ts)
unfolding first_rows
first_rows-Numbered [] =
    add_row-Numbered (codes "tcp") (codes "25565") (codes "localhost:25565") [] tt
first_rows-Numbered (t ∷ ts) = add_entries-Numbered (t ∷ ts) [] tt

last_cases : (j n : ℕ) → j < n → (suc j < n) ⊎ (suc j ≡ n)
last_cases j n lt = omega arith

-- What two taps do, on the button of a row and then on that of a row below it.
abbrev pub IsOffByOne : List Row → ℕ → ℕ → Row → Row → Type 0
IsOffByOne rows i j q r =
    (rows' : List Row) × (delete_at q.index rows ≡ some rows')
    × (rows' ≡ without i rows)
    × (((suc j < length rows) × (delete_at r.index rows' ≡ some (without i (without (suc j) rows))))
        ⊎ ((suc j ≡ length rows) × (delete_at r.index rows' ≡ none)))

-- In the rows that the window starts with, the first button that is tapped takes its own row away. If then
-- the button of a row below is tapped, it is not this row that goes but the one under it, and if there is
-- none under it, the index is out of range and the program panics.
pub second_deletion :
    (ts : List TunnelEntry) (i j : ℕ) (q r : Row)
    → get_elem? (first_rows ts) i ≡ some q
    → get_elem? (first_rows ts) j ≡ some r
    → i < j
    → IsOffByOne (first_rows ts) i j q r
second_deletion ts i j q r at at' lt =
    let (index, inside) = Numbered-get 0 i (first_rows ts) q (first_rows-Numbered ts) at in
    let (index', inside') = Numbered-get 0 j (first_rows ts) r (first_rows-Numbered ts) at' in
    let own : q.index ≡ i = omega arith in
    let own' : r.index ≡ j = omega arith in
    let size = length-without i (first_rows ts) inside in
    let rows' : List Row = without i (first_rows ts) in
    (
      rows',
      rw own (delete_at-without i (first_rows ts) inside),
      refl,
      elim (last_cases j (length (first_rows ts)) (omega arith)) [
        | inl room ↦ inl (
          room,
          rw own' (
              delete_at-without j rows' (omega arith)
              ∙ ap some (without_twice i j (first_rows ts) lt room)),
        )
        | inr last ↦ inr (last, rw own' (delete_at-none j rows' (omega arith)))
      ],
    )

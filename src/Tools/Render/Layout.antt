-- ===== src/Tools/Render/Layout.antt =====
-- The layout of the table of src/tools/render.rs: all its lines have one width.
use pg_ask.Prelude.{
  join, ℕ, zero, suc, ◌+◌, ◌-◌, ◌≤◌, false, some, List, [], ◌∷◌, ◌++◌, ◌≡◌, refl, ap, arith, length,
  get_elem?, drop, map, All, Text, codes, is_continuation, char_count, char_count-append, subst,
  All_imp, All_and,
}
use pg_ask.Tools.Render.{
  repeat, pad, padded, fmt_row, fmt_sep, max, cell_width, column_width, widths_from,
}

-- As many cells as widths, and no cell is wider.
abbrev pub Fits : List Text → List ℕ → Type 0
Fits [] [] = Unit
Fits (c ∷ cs) (w ∷ ws) = (char_count c ≤ w) × Fits cs ws
Fits _ _ = ⊥

char_count-repeat : (c n : ℕ) → is_continuation c ≡ false → char_count (repeat c n) ≡ n
unfolding char_count repeat
char_count-repeat c zero h = refl
char_count-repeat c (suc n) h = rw (h, char_count) (ap suc (char_count-repeat c n h))

char_count-pad : (c : Text) (w : ℕ) → char_count c ≤ w → char_count (pad c w) ≡ w
unfolding pad
char_count-pad c w h =
    let k = char_count-append c (repeat b' ' (w - char_count c)) in
    let m = char_count-repeat b' ' (w - char_count c) refl in omega (arith, k, m, h)

-- The width of parts that are joined by separators of three characters.
abbrev joined_width : List ℕ → ℕ
joined_width [] = 0
joined_width (w ∷ []) = w
joined_width (w ∷ v ∷ ws) = w + (3 + joined_width (v ∷ ws))

char_count-join :
    (sep : Text) (parts : List Text)
    → char_count sep ≡ 3
    → char_count (join sep parts) ≡ joined_width (map char_count parts)
unfolding join
char_count-join sep [] h = unfold char_count in refl
char_count-join sep (p ∷ []) h = refl
char_count-join sep (p ∷ q ∷ ps) h =
    let k = char_count-append p (sep ++ join sep (q ∷ ps)) in
    let m = char_count-append sep (join sep (q ∷ ps)) in
    let n = char_count-join sep (q ∷ ps) h in omega (arith, k, m, n, h)

widths_padded :
    (cells : List Text) (ws : List ℕ) → Fits cells ws → map char_count (padded cells ws) ≡ ws
unfolding padded
widths_padded [] [] h = refl
widths_padded [] (w ∷ ws) h = elim h [ ]
widths_padded (c ∷ cs) [] h = elim h [ ]
widths_padded (c ∷ cs) (w ∷ ws) h = (λ t. char_count-pad c w h.0 t ∷ widths_padded cs ws h.1 t)

widths_repeat : (ws : List ℕ) → map char_count (map (repeat b'-') ws) ≡ ws
widths_repeat [] = refl
widths_repeat (w ∷ ws) = (λ t. char_count-repeat b'-' w refl t ∷ widths_repeat ws t)

fmt_row-width :
    (cells : List Text) (ws : List ℕ)
    → Fits cells ws
    → char_count (fmt_row cells ws) ≡ char_count (fmt_sep ws)
unfolding fmt_row fmt_sep
fmt_row-width cells ws h =
    let a = char_count-append (join (codes " | ") (padded cells ws)) (b'\n' ∷ []) in
    let b = char_count-append (join (codes "-+-") (map (repeat b'-') ws)) (b'\n' ∷ []) in
    let c = char_count-join (codes " | ") (padded cells ws) (unfold char_count in refl) in
    let d = char_count-join (codes "-+-") (map (repeat b'-') ws) (unfold char_count in refl) in
    let e = ap joined_width (widths_padded cells ws h) in
    let f = ap joined_width (widths_repeat ws) in omega (arith, a, b, c, d, e, f)

max-left : (a b : ℕ) → a ≤ max a b
max-left a b = ground arith

max-right : (a b : ℕ) → b ≤ max a b
max-right a b = ground arith

-- No row is wider than its column's width.
IsBounded : List (List Text) → List Text → Type 0
IsBounded rows r = (i : ℕ) → cell_width (get_elem? r i) ≤ column_width i rows

column_width-IsBounded : (rows : List (List Text)) → All (IsBounded rows) rows
unfolding column_width IsBounded
column_width-IsBounded [] = tt
column_width-IsBounded (r ∷ rows) = (
  λ i. max-left (cell_width (get_elem? r i)) (column_width i rows),
  All_imp rows
      (λ q h i.
        let m = max-right (cell_width (get_elem? r i)) (column_width i rows) in
        omega (arith, m, h i))
      (column_width-IsBounded rows),
)

suc-+ : (i : ℕ) → suc (i + 1) ≡ suc i + 1
suc-+ i = omega arith

drop-cons :
    (i : ℕ) (r cells : List Text) (c : Text)
    → drop i r ≡ c ∷ cells
    → (get_elem? r i ≡ some c) × (drop (i + 1) r ≡ cells)
drop-cons zero [] cells c h = absurd (cc)
drop-cons (suc i) [] cells c h = absurd (cc)
drop-cons zero (x ∷ r) cells c h = (cc, cc)
drop-cons (suc i) (x ∷ r) cells c h =
    let (at, rest) = drop-cons i r cells c h in
    (at, subst (λ n. drop n (x ∷ r) ≡ cells) (suc-+ i) rest)

header-Fits :
    (i : ℕ) (cols : List Text) (rows : List (List Text)) → Fits cols (widths_from i cols rows)
unfolding widths_from
header-Fits i [] rows = tt
header-Fits i (name ∷ cols) rows =
    (max-left (char_count name) (column_width i rows), header-Fits (i + 1) cols rows)

row-Fits :
    (i : ℕ) (cols cells r : List Text) (rows : List (List Text))
    → IsBounded rows r
    → drop i r ≡ cells
    → length cells ≡ length cols
    → Fits cells (widths_from i cols rows)
unfolding widths_from IsBounded
row-Fits i [] [] r rows b d n = tt
row-Fits i [] (c ∷ cells) r rows b d n = absurd (omega (arith, n))
row-Fits i (name ∷ cols) [] r rows b d n = absurd (omega (arith, n))
row-Fits i (name ∷ cols) (c ∷ cells) r rows b d n =
    let (at, rest) = drop-cons i r cells c d in
    let m = max-right (char_count name) (column_width i rows) in
    let k = rw at at (b i) in
    (omega (arith, m, k), row-Fits (i + 1) cols cells r rows b rest (omega (arith, n)))

-- All lines of a table are as wide as the separator: the header and, where every row has a cell
-- for each column, the rows.
pub fmt_row_aligned :
    (cols : List Text) (rows : List (List Text))
    → All (λ r. length r ≡ length cols) rows
    → (char_count (fmt_row cols (widths_from 0 cols rows))
        ≡ char_count (fmt_sep (widths_from 0 cols rows)))
      × All
          (λ r.
            char_count (fmt_row r (widths_from 0 cols rows))
            ≡ char_count (fmt_sep (widths_from 0 cols rows)))
          rows
fmt_row_aligned cols rows h =
    let ws = widths_from 0 cols rows in
    (
      fmt_row-width cols ws (header-Fits 0 cols rows),
      All_imp rows (λ r p. fmt_row-width r ws (row-Fits 0 cols r r rows p.0 refl p.1))
          (All_and (IsBounded rows) (λ r. length r ≡ length cols) rows (column_width-IsBounded rows)
            h),
    )

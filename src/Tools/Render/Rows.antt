-- ===== src/Tools/Render/Rows.antt =====
-- The caps of src/tools/render.rs: rows by `parse_json_rows`, characters by `truncate_cell`.
use pg_ask.Prelude.{
  ℕ, zero, suc, ◌+◌, ◌≤◌, ◌<◌, Bool, true, false, Option, none, some, List, [], ◌∷◌, ◌++◌, ◌≡◌,
  refl, arith, ◌⊎◌, inl, inr, ltb, leb, if◌then◌else◌, length, take, Text, ellipsis, char_count,
  char_count-append, char_count-take_chars, take_chars, take_chars-prefix, Bool-cases,
}
use pg_ask.Checked.{pass, >>=-eq-pass, Checked-cases}
use pg_ask.Json.{Value, Serde}
use pg_ask.Tools.Render.{
  max_cell_chars, cut_at, truncate_cell, cell_text, parse_row, parse_from, parse_json_rows,
}

module _ (serde : Serde) where
  -- The values are what the texts of the data parse to, one for each.
  abbrev pub Parses : List (Option Text) → List Value → Type 0
  Parses [] [] = Unit
  Parses (c ∷ cs) (v ∷ vs) = (serde.from_str (cell_text serde c) ≡ pass v) × Parses cs vs
  Parses _ _ = ⊥

  parse_row-Parses :
      (c : Option Text) (v : Value)
      → parse_row serde c ≡ pass v
      → serde.from_str (cell_text serde c) ≡ pass v
  unfolding parse_row
  parse_row-Parses c v h = elim (Checked-cases (serde.from_str (cell_text serde c))) [
    | inl (u, e) ↦ let k = rw (e, parse_row) at h in cc
    | inr (m, e) ↦ absurd (let k = rw (e, parse_row) at h in cc)
  ]

  parse_from-Parses :
      (left idx max_rows : ℕ) (cells : List (Option Text)) (rows : List Value) (truncated : Bool)
      → idx + left ≡ max_rows
      → parse_from serde idx max_rows cells ≡ pass (rows, truncated)
      → Parses (take left cells) rows × (truncated ≡ ltb left (length cells))
  unfolding parse_from
  parse_from-Parses zero idx max_rows [] rows truncated b h =
      let e : rows ≡ [] = cc in let k : truncated ≡ false = cc in rw (e, k) (tt, ground arith)
  parse_from-Parses (suc left) idx max_rows [] rows truncated b h =
      let e : rows ≡ [] = cc in let k : truncated ≡ false = cc in rw (e, k) (tt, ground arith)
  parse_from-Parses zero idx max_rows (cell ∷ cells) rows truncated b h =
      let full : leb max_rows idx ≡ true = ground (arith, b) in
      let m = rw full at h in
      let e : rows ≡ [] = cc in let k : truncated ≡ true = cc in rw (e, k) (tt, ground arith)
  parse_from-Parses (suc left) idx max_rows (cell ∷ cells) rows truncated b h =
      let room : leb max_rows idx ≡ false = ground (arith, b) in
      let (v, r, m) = >>=-eq-pass (parse_row serde cell) _ (rw room at h) in
      let (more, q, n) = >>=-eq-pass (parse_from serde (idx + 1) max_rows cells) _ m in
      let (ps, t) =
        parse_from-Parses left (idx + 1) max_rows cells more.0 more.1 (omega (arith, b)) q in
      let e : rows ≡ v ∷ more.0 = cc in
      let k : truncated ≡ more.1 = cc in
      rw (e, k) ((parse_row-Parses cell v r, ps), ground (arith, t))

  -- If `parse_json_rows` succeeds, its rows are what the first `max_rows` data parse to, one for
  -- each, and it reports a truncation exactly when there are more data.
  pub parse_json_rows-Parses :
      (tuptable : List (Option Text)) (max_rows : ℕ) (rows : List Value) (truncated : Bool)
      → parse_json_rows serde tuptable max_rows ≡ pass (rows, truncated)
      → Parses (take max_rows tuptable) rows × (truncated ≡ ltb max_rows (length tuptable))
  unfolding parse_json_rows
  parse_json_rows-Parses tuptable max_rows rows truncated h =
      parse_from-Parses max_rows 0 max_rows tuptable rows truncated (omega arith) h

-- The scan finds the prefix exactly where the text is longer.
cut_at_lem :
    (n : ℕ) (s : Text) → cut_at n s ≡ (if ltb n (char_count s) then some (take_chars n s) else none)
unfolding cut_at char_count take_chars
cut_at_lem zero [] = ground arith
cut_at_lem (suc n) [] = ground arith
cut_at_lem zero (b ∷ s) = ground (arith, cut_at_lem zero s)
cut_at_lem (suc n) (b ∷ s) = ground (arith, cut_at_lem (suc n) s, cut_at_lem n s)

le_of_not_ltb : (a b : ℕ) → ltb a b ≡ false → b ≤ a
le_of_not_ltb a b h = ground arith

-- A cell has at most 501 characters; it is the value's text itself where that has at most 500, and
-- else a prefix of it with 500 characters and the ellipsis.
pub truncate_cell_bounded :
    (s : Text)
    → (char_count (truncate_cell s) ≤ max_cell_chars + 1)
      × (((char_count s ≤ max_cell_chars) × (truncate_cell s ≡ s))
          ⊎ ((cut rest : Text) × (s ≡ cut ++ rest)
              × (char_count cut ≡ max_cell_chars)
              × (max_cell_chars < char_count s)
              × (truncate_cell s ≡ cut ++ ellipsis)))
unfolding truncate_cell
truncate_cell_bounded s = elim (Bool-cases (ltb max_cell_chars (char_count s))) [
  | inr e ↦
      let c = rw e at (cut_at_lem max_cell_chars s) in
      let short = le_of_not_ltb _ _ e in
      rw (c, truncate_cell) (omega (arith, short), inl (short, refl))
  | inl e ↦
      let c = rw e at (cut_at_lem max_cell_chars s) in
      let cut = take_chars max_cell_chars s in
      let (rest, p) = take_chars-prefix max_cell_chars s in
      let n = char_count-take_chars max_cell_chars s (ground arith) in
      rw (c, truncate_cell)
        (
          rw char_count-append (unfold char_count in omega (arith, n)),
          inr (cut, rest, p, n, ground arith, refl),
        )
]

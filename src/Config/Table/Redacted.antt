-- ===== src/Config/Table/Redacted.antt =====
-- What `config` and `get_config` of src/api/config.rs write and show.
use pg_ask.Prelude.{
  true, false, none, some, List, [], ◌∷◌, ◌≡◌, refl, ap, inl, inr, Text, eq, eq_iff, eq_refl,
  Bool-cases,
}
use pg_ask.Errors.{ok}
use pg_ask.Config.{is_known_key}
use pg_ask.Config.Table.{ConfigTable, find, upsert, read_table, upsert_table}

find-upsert :
    (rows : List (Text × Text)) (key value : Text) → find (upsert rows key value) key ≡ some value
unfolding find upsert
find-upsert [] key value = rw (eq_refl key)
find-upsert ((k, v) ∷ rows) key value = elim (Bool-cases (eq k key)) [
  | inl e ↦ rw (e, find, upsert) (rw (e, find) refl)
  | inr e ↦ rw (e, find, upsert) (rw (e, find) (find-upsert rows key value))
]

eq_other : (k key other : Text) → eq k key ≡ true → eq key other ≡ false → eq k other ≡ false
eq_other k key other e f = rw ((eq_iff k key).0 e) f

find-upsert-other :
    (rows : List (Text × Text)) (key value other : Text)
    → eq key other ≡ false
    → find (upsert rows key value) other ≡ find rows other
unfolding find upsert
find-upsert-other [] key value other h = rw (h, find)
find-upsert-other ((k, v) ∷ rows) key value other h = elim (Bool-cases (eq k key)) [
  | inl e ↦ rw (e, upsert) (rw (eq_other k key other e h, find) refl)
  | inr e ↦
      rw (e, upsert)
        (elim (Bool-cases (eq k other)) [
          | inl f ↦ rw (f, find) refl
          | inr f ↦ rw (f, find) (find-upsert-other rows key value other h)
        ])
]

-- A write of a known key by a role with access is read back, and leaves every other key as it was.
pub upsert_table-read_table :
    (key value : Text) (t : ConfigTable)
    → is_known_key key ≡ true
    → t.read_error ≡ none
    → t.write_error ≡ none
    → (read_table (upsert_table key value t).1 key ≡ ok (some value))
      × ((other : Text)
          → eq key other ≡ false
          → read_table (upsert_table key value t).1 other ≡ read_table t other)
unfolding upsert_table read_table
upsert_table-read_table key value t k r w =
    rw (k, r, w)
      (
        rw r (ap ok (find-upsert t.rows key value)),
        λ other h. rw r (ap ok (find-upsert-other t.rows key value other h)),
      )

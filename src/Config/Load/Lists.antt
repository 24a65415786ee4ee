-- ===== src/Config/Load/Lists.antt =====
-- `optional_comma_list` of src/infra/config.rs: which items a comma-separated setting has.
use pg_ask.Prelude.{
  Option, none, some, List, [], ◌∷◌, ◌≡◌, ◌≢◌, sym, inl, inr, ◌↔◌, map, Any, here, there, Text,
  trim, Option-cases,
}
use pg_ask.Config.Table.{ConfigTable}
use pg_ask.Config.Load.{
  CString, Gucs, split, filter_non_empty, Std, optional_string, optional_comma_list,
}

filter_reads :
    (ps : List Text) (x : Text)
    → Any (λ y. y ≡ x) (filter_non_empty ps)
    → Any (λ y. y ≡ x) ps × (x ≢ [])
unfolding filter_non_empty
filter_reads [] x a = elim a [ ]
filter_reads ([] ∷ ps) x a = let (m, n) = filter_reads ps x a in (there m, n)
filter_reads ((c ∷ p) ∷ ps) x (here e) = (here e, λ f. cc)
filter_reads ((c ∷ p) ∷ ps) x (there a) = let (m, n) = filter_reads ps x a in (there m, n)

filter_writes :
    (ps : List Text) (x : Text)
    → x ≢ []
    → Any (λ y. y ≡ x) ps
    → Any (λ y. y ≡ x) (filter_non_empty ps)
unfolding filter_non_empty
filter_writes [] x n a = elim a [ ]
filter_writes ([] ∷ ps) x n (here e) = absurd (n (sym e))
filter_writes ([] ∷ ps) x n (there a) = filter_writes ps x n a
filter_writes ((c ∷ p) ∷ ps) x n (here e) = here e
filter_writes ((c ∷ p) ∷ ps) x n (there a) = there (filter_writes ps x n a)

map_reads :
    (f : Text → Text) (ps : List Text) (x : Text)
    → Any (λ y. y ≡ x) (map f ps)
    → Any (λ y. f y ≡ x) ps
map_reads f [] x a = elim a [ ]
map_reads f (p ∷ ps) x (here e) = here e
map_reads f (p ∷ ps) x (there a) = there (map_reads f ps x a)

map_writes :
    (f : Text → Text) (ps : List Text) (x : Text)
    → Any (λ y. f y ≡ x) ps
    → Any (λ y. y ≡ x) (map f ps)
map_writes f [] x a = elim a [ ]
map_writes f (p ∷ ps) x (here e) = here e
map_writes f (p ∷ ps) x (there a) = there (map_writes f ps x a)

-- The items of a setting: the trimmed parts between its commas that are not empty.
abbrev pub IsItem : Option Text → Text → Type 0
IsItem none x = ⊥
IsItem (some val) x = Any (λ p. trim p ≡ x) (split b',' val) × (x ≢ [])

-- For a `HashSet` that holds what was collected into it, in whatever order it is read: a list
-- setting has exactly the trimmed parts between its commas that are not empty, and none where it
-- is unset.
pub optional_comma_list-IsItem :
    (std : Std) (gucs : Gucs) (table : ConfigTable)
    → ((xs : List Text) (x : Text) → Any (λ y. y ≡ x) (std.hash_set xs) ↔ Any (λ y. y ≡ x) xs)
    → (key : Text) (guc : Option CString) (x : Text)
    → Any (λ y. y ≡ x) (optional_comma_list std gucs table key guc)
      ↔ IsItem (optional_string std gucs table key guc) x
unfolding optional_comma_list
optional_comma_list-IsItem std gucs table same key guc x =
    elim (Option-cases (optional_string std gucs table key guc)) [
      | inr e ↦ rw (e, optional_comma_list) ((λ a. elim a [ ]), λ a. absurd a)
      | inl (val, e) ↦
          let parts = map trim (split b',' val) in
          rw (e, optional_comma_list)
            (
              (λ a.
                  let (m, n) = filter_reads parts x ((same (filter_non_empty parts) x).0 a) in
                  (map_reads trim (split b',' val) x m, n)),
              λ i.
                  (same (filter_non_empty parts) x).1
                    (filter_writes parts x i.1 (map_writes trim (split b',' val) x i.0)),
            )
    ]

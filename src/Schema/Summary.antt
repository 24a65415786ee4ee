-- ===== src/Schema/Summary.antt =====
-- `compute_summary` of src/schema/mod.rs, and `summarize_within` with its cache. `World` stands for
-- the catalog, the current role and the clock.
pub mod Fresh
use pg_ask.Prelude.{
  ℕ, ◌-◌, ◌==◌, ◌&&◌, Bool, true, false, Option, none, some, List, ltb, leb, if◌then◌else◌, Text,
  char_count,
}
use pg_ask.Errors.{AskError, Result, ok, err, ◌>>=◌}
use pg_ask.Schema.Render.{ColumnRow, TableKey, render_full, render_compact}

pub data SchemaMode : Type 0 where
  full compact : SchemaMode

pub record SchemaSummary : Type 0 where
  pub text : Text
  pub mode : SchemaMode

-- The time is that of `Instant`, in milliseconds.
pub record Catalog (World : Type 0) : Type 0 where
  pub fetch_columns : World → Result (List ColumnRow)
  pub fetch_table_comments : World → Result (List (TableKey × Text))
  pub current_user_oid : World → ℕ
  pub now_ms : World → ℕ
  pub scanned : World → World

-- `CACHE_TTL`
abbrev pub cache_ttl_ms : ℕ
cache_ttl_ms = 60000

pub record Entry : Type 0 where
  pub ts : ℕ
  pub role : ℕ
  pub budget : ℕ
  pub summary : SchemaSummary

unfoldable pub choose : ℕ → List ColumnRow → List (TableKey × Text) → SchemaSummary
unfolding render_full render_compact char_count
choose char_budget columns comments =
    if leb (char_count (render_full columns comments)) char_budget
    then record { text = render_full columns comments; mode = full }
    else record { text = render_compact columns comments; mode = compact }

-- `ts.elapsed()` is 0 where the clock has gone back.
abbrev pub is_hit : ℕ → ℕ → ℕ → Entry → Bool
is_hit role budget now e = e.role == role && e.budget == budget && ltb (now - e.ts) cache_ttl_ms

abbrev pub cached : ℕ → ℕ → ℕ → Option Entry → Option SchemaSummary
cached role budget now none = none
cached role budget now (some e) = if is_hit role budget now e then some e.summary else none

module _ {World : Type 0} (catalog : Catalog World) where
  unfoldable pub compute_summary : ℕ → World → Result SchemaSummary
  unfolding choose
  compute_summary char_budget w = do
    columns ← catalog.fetch_columns w
    comments ← catalog.fetch_table_comments w
    ok (choose char_budget columns comments)

  -- A computed summary is stored with the time behind the scan.
  pub store : ℕ → World → Option Entry → Result SchemaSummary → Result SchemaSummary × Option Entry
  store char_budget w cache (err e) = (err e, cache)
  store char_budget w cache (ok summary) = (
    ok summary,
    some (record {
      ts = catalog.now_ms (catalog.scanned w);
      role = catalog.current_user_oid w;
      budget = char_budget;
      summary = summary;
    }),
  )

  pub looked_up :
      ℕ → World → Option Entry → Option SchemaSummary → Result SchemaSummary × Option Entry
  looked_up char_budget w cache (some summary) = (ok summary, cache)
  looked_up char_budget w cache none = store char_budget w cache (compute_summary char_budget w)

  unfoldable pub summarize_within : ℕ → World → Option Entry → Result SchemaSummary × Option Entry
  unfolding compute_summary store looked_up
  summarize_within char_budget w cache =
      looked_up char_budget w cache
        (cached (catalog.current_user_oid w) char_budget (catalog.now_ms w) cache)

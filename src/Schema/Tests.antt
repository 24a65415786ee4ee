-- ===== src/Schema/Tests.antt =====
-- Runs of src/schema with two tables.
use pg_ask.Tools.Render.{repeat}
use pg_ask.Prelude.{ℕ, suc, true, none, some, List, [], ◌∷◌, ◌≡◌, refl, ◌⊎◌, codes, Text, length}
use pg_ask.Errors.{ok}
use pg_ask.Schema.Names.{distinct_schemas, search_path_clause}
use pg_ask.Schema.Names.Reads.{read_path, path_names, search_path_clause-read_path}
use pg_ask.Schema.Render.{ColumnRow, render_full, render_compact}
use pg_ask.Schema.Summary.{SchemaSummary, full, Catalog, summarize_within}
use pg_ask.Schema.Summary.Fresh.{start, call, Shown, summarize_within-Shown}

abbrev dump : Text
dump = codes "TABLE shop.orders -- customer orders\n  id int\nTABLE we\"ird.t\n  id int\n"

distinct_test : distinct_schemas dump ≡ codes "shop" ∷ codes "we\"ird" ∷ []
unfolding distinct_schemas
distinct_test = refl

clause_test : search_path_clause dump ≡ codes "\"shop\", \"we\"\"ird\", \"public\""
unfolding search_path_clause
clause_test = refl

-- A comment of two lines names a schema of its own.
comment_test :
    distinct_schemas (codes "TABLE shop.orders -- old\nsecret.x\n")
    ≡ codes "shop" ∷ codes "secret" ∷ []
unfolding distinct_schemas
comment_test = refl

search_path_clause-read_path_example :
    ((distinct_schemas dump ≡ []) × (search_path_clause dump ≡ []))
    ⊎ (read_path (suc (length (distinct_schemas dump))) (search_path_clause dump)
        ≡ some (path_names (distinct_schemas dump)))
search_path_clause-read_path_example = search_path_clause-read_path dump

abbrev orders_id : ColumnRow
orders_id = record {
  schema = codes "shop";
  table = codes "orders";
  column = codes "id";
  data_type = codes "uuid";
  not_null = true;
  comment = [];
}

abbrev users_id : ColumnRow
users_id = record orders_id { table = codes "users"; comment = codes "key" }

abbrev rows : List ColumnRow
rows = orders_id ∷ users_id ∷ record orders_id { column = codes "total" } ∷ []

full_test :
    render_full (orders_id ∷ users_id ∷ []) []
    ≡ codes
        "TABLE shop.orders\n  id uuid NOT NULL\n\nTABLE shop.users\n  id uuid NOT NULL  -- key\n"
unfolding render_full
full_test = refl

compact_test :
    render_compact rows
      ((record { schema = codes "shop"; table = codes "users" }, codes "people") ∷ [])
    ≡ codes
        "TABLES (use describe_table for columns):\n  shop.orders  (2 columns)\n  shop.users   (1 columns) -- people\n"
unfolding render_compact repeat
compact_test = refl

-- The state counts the calls; the role changes with it.
abbrev catalog : Catalog ℕ
catalog = record {
  fetch_columns = λ w. ok rows;
  fetch_table_comments = λ w. ok [];
  current_user_oid = λ w. w;
  now_ms = λ w. w;
  scanned = λ w. w;
}

abbrev first_summary : SchemaSummary
first_summary = record { text = render_full rows []; mode = full }

hit :
    (summarize_within catalog 512 10 (summarize_within catalog 512 10 none).1).0 ≡ ok first_summary
unfolding summarize_within
hit = refl

summarize_within-Shown_example : Shown catalog 512 10 first_summary
summarize_within-Shown_example =
    summarize_within-Shown catalog 512 10 first_summary (call 512 10 start) hit

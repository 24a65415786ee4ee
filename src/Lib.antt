-- ===== src/Lib.antt =====
-- pg_ask: a PostgreSQL extension that answers questions about the database with a language model.
-- The model is asked over HTTP; it calls tools, which read the database inside the caller's
-- transaction; what it wrote is checked before it runs. This library models the parts that decide
-- what is let through and what is remembered, and proves what they promise.
--
-- The parts and their modules (paths from the repository's root):
--
--   Prelude    shared names, lists over the native numbers, texts as lists of UTF-8 bytes, and the
--              functions of Rust's standard library that the code calls on them
--   Errors     src/infra/errors.rs: AskError, its Clone, Display and SQLSTATE; Result and `?`
--   Checked    Result with a message as its error, as build_plan and validate_url return it
--   Json       serde_json::Value as the code reads it; `Serde` is its printer and parser
--   SqlGuard   src/sql_guard: Lexer (lexer.rs), Rules (rules.rs), and of mod.rs Visitors
--              (secrets_visitor, banned_funcs_visitor), Classify (classify_statement,
--              check_query_for_writes) and Validate (ast_checks, validate)
--   Providers  src/providers: Wire (wire.rs, the conversation's data types), Gemini, OpenAi and Anthropic
--              (the requests and responses of gemini.rs, openai.rs and anthropic.rs), Build (mod.rs)
--   Telemetry  src/telemetry/mod.rs: the trace of a tool call, its bounded preview, and
--              Trace (TraceRecord and write)
--   Tools      src/tools: Output (ToolOutput), HttpFetch (http_fetch.rs: the URL guard, with the
--              address ranges and the address parser of the standard library, and Fetch, the request
--              and what is shown of its reply), UserDefined
--              (user_defined.rs: build_plan), Render (render.rs: result tables), Toolset (mod.rs:
--              default_toolset and the cache of user-defined tools), SqlQuery (sql_query.rs)
--   Config     src/infra/config.rs and src/api/config.rs: Table (the rows of ask._config), Load
--              (RuntimeConfig::load)
--   Subtxn     src/infra/subtxn.rs: run_in_subtransaction
--   Jobs       src/jobs/mod.rs with its drivers src/api/jobs.rs and src/bgworker.rs: Table (ask._jobs
--              and its functions in sql/bootstrap.sql), Queue (claim_one, execute_claimed), Drain
--              (drain), Worker (run_pending_jobs, drain_once, and the launcher in Worker.Launcher)
--   Session    src/session and the session functions of sql/bootstrap.sql: Encode (a message as a row
--              and back), Store (the tables, and the functions of mod.rs and store.rs)
--   Schema     src/schema: Names (distinct_schemas, search_path_clause), Render (render.rs), Summary
--              (summarize_within with its cache)
--   Planner    src/planner: Strip (strip_leading_explain), Analysis (analysis.rs), Preview (preview, and
--              run of explain.rs)
--   Agent      src/agent: Dispatch (dispatch.rs), Run (run.rs: run_with_cfg), Stream (stream.rs)
--
-- The agent's loop asks the provider, runs the calls of the answer through dispatch, and appends to
-- the history; the SQL tool validates a statement with SqlGuard before it runs it, http_fetch
-- validates a URL, and a user-defined tool builds its plan with the model's arguments as
-- parameters. The job queue runs the same loop for a job that was stored before, under the role of its owner.
--
-- State: stateful code takes and returns its state. `World` stands for the database, the network
-- and the clock; the provider and the tools are functions on it. The loop's mutable variables are
-- the record Loop. A panic is `none`, a raised cancellation is `interrupted`, and a PostgreSQL ERROR
-- that a body raises is `raised`. In Subtxn and SqlQuery the database is the log of what was written
-- in each open transaction level; in HttpFetch.Fetch the network is the list of the URLs requested.
--
-- Numbers: machine integers are natural numbers with the wrap-around written out; i64 values are
-- their 64 bits. Positions in a text are the text from there on.
--
-- Fuel: tokenize runs on the length of its source, and each round takes a byte or more; build_plan
-- runs on the length of its template, and each marker takes four bytes. Enough fuel is part of
-- tokenize-cons, build_plan_iff and build_plan_total. skip_options runs on the length of the statement and one more, and
-- each word takes a byte or more. The agent's loop is recursion on the rounds
-- left; the batches of jobs_prune run on the number of rows and one more, which jobs_prune_lem shows
-- to be enough.
--
-- Parameters: sqlparser's parser with its traversal (SqlParser), the url crate's parser (UrlParser),
-- serde_json's printer and parser (Serde), the order of a HashSet and f64::clamp (Std), the answers
-- of the database to the SQL tool's statements (Db), and the provider and the tools (Env, Tool). In Jobs
-- the fate of each statement and the locks of other backends are parameters (Jobs.Queue.Backend);
-- in Session the cast of a text to jsonb and the generated id are, and in Schema the two catalog
-- queries; in Planner the rows of the EXPLAIN.
--
-- Not modelled: memory and events; the catalog queries of the schema; the sending of HTTP requests
-- and the pool of agents in src/infra/http.rs (http_fetch stands on the interface HttpClient); how a
-- user-defined tool runs its plan; the SQL in sql/ but for the job queue's and the sessions'; the HTTP
-- calls of the providers, their fixture, and the adapters of the embeddings; the SQL-callable surface
-- in src/api, and process set-up in src/bgworker.rs and src/lib.rs.
pub mod Prelude
pub mod Errors
pub mod Checked
pub mod Json
pub mod SqlGuard
pub mod Providers
pub mod Telemetry
pub mod Tools
pub mod Agent
pub mod Config
pub mod Subtxn
pub mod Jobs
pub mod Schema
pub mod Session
pub mod Planner
pub mod Http

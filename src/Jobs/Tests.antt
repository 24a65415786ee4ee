-- ===== src/Jobs/Tests.antt =====
-- Runs of the queue of src/jobs/mod.rs and of the launcher.
use pg_ask.Prelude.{ℕ, suc, true, false, none, some, [], ◌∷◌, ◌≡◌, refl, ◌⊎◌, arith, codes}
use pg_ask.Errors.{ok}
use pg_ask.Agent.Run.{execute, returned, interrupted, Env, run_with_cfg}
use pg_ask.Providers.{final}
use pg_ask.Config.Load.{RuntimeConfig}
use pg_ask.Jobs.Table.{Session, new_job, claimed}
use pg_ask.Jobs.Table.Ids.{Distinct}
use pg_ask.Jobs.Queue.{ClaimedJob, works, Conn, Backend, execute_claimed}
use pg_ask.Jobs.Queue.Recorded.{Settled, agent_run, execute_claimed-Settled}
use pg_ask.Jobs.Drain.{Runner, drain}
use pg_ask.Jobs.Drain.Once.{logged, Pass, drain-Pass}
use pg_ask.Jobs.Worker.Launcher.{Workers, Round, reconcile}

abbrev session : Session
session = record {
  now = 1000;
  pid = 7;
  current_database = codes "shop";
  session_user = codes "worker";
}

-- A provider that answers at once.
abbrev env : Env (Conn ℕ)
env = record {
  prepare = λ mode c. (ok (record { system_prompt = []; tools = [] }), c);
  complete = λ prompt history tools c. (ok (final (codes "7") none), c);
  cancelled = λ c. false;
  now_ms = λ c. 0;
}

abbrev backend : Backend ℕ
backend = record {
  session = λ c. session;
  locked = λ c id. false;
  spi = λ st c. works;
  agent = env;
  jobs_max_attempts = 3;
  jobs_orphan_timeout_ms = 3600000;
}

abbrev cfg : RuntimeConfig
cfg = record {
  provider = codes "fixture";
  api_key = [];
  model = none;
  base_url = none;
  max_tokens = 100;
  max_iterations = 4;
  readonly = true;
  http_connect_timeout_ms = 1;
  http_total_timeout_ms = 1;
  tool_statement_timeout_ms = 1;
  tool_max_rows = 1;
  trace_enabled = true;
  events_enabled = false;
  schema_char_budget = 512;
  embedding_provider = none;
  embedding_api_key = none;
  embedding_model = none;
  embedding_base_url = none;
  embedding_dimensions = 8;
  memory_search_alpha = 0;
  memory_enabled = false;
  allow_http = false;
  http_allow_list = [];
  allow_private_hosts = false;
  sensitive_columns = [];
}

abbrev the_job : ClaimedJob
the_job = record { id = 1; kind = execute; question = codes "How many?"; owner = codes "ann" }

abbrev conn : Conn ℕ
conn = record {
  jobs = claimed session (new_job session 1 (codes "ask") (codes "How many?")) ∷ [];
  role = none;
  traces = [];
  world = 0;
}

kept_ids : Distinct (agent_run backend cfg the_job conn).1.jobs
unfolding run_with_cfg
kept_ids = (tt, tt)

execute_claimed-Settled_example :
    ((agent_run backend cfg the_job conn).0 ≡ interrupted)
    ⊎ Settled 7 the_job (execute_claimed backend cfg the_job conn)
execute_claimed-Settled_example =
    execute_claimed-Settled backend 7 (λ st c. refl) (λ c. refl) cfg the_job conn kept_ids

-- A queue whose one job is claimed again and again.
abbrev stubborn : Runner ℕ
stubborn = record {
  claim_one = λ n. (returned (ok (some the_job)), n);
  execute_claimed = λ job n. (returned (ok tt), suc n);
  release = λ id n. (returned (ok true), n);
}

drain_test : drain stubborn 5 0 ≡ (returned (ok 1), 1)
unfolding drain
drain_test = refl

drain-Pass_example :
    Pass 5 (drain (logged stubborn) 5 (0, []))
    × ((drain (logged stubborn) 5 (0, [])).0 ≡ (drain stubborn 5 0).0)
    × ((drain (logged stubborn) 5 (0, [])).1.0 ≡ (drain stubborn 5 0).1)
drain-Pass_example = drain-Pass stubborn 5 0 (omega arith)

abbrev round : Round
round = record {
  list_pgask_databases = ok (codes "shop" ∷ codes "crm" ∷ []);
  presence_check_works = λ db. true;
  spawn_works = λ db. true;
}

abbrev started : Workers
started = reconcile round (record { live = []; handles = [] })

restart_test : reconcile round (record started { handles = [] }) ≡ record started { handles = [] }
unfolding reconcile
restart_test = refl

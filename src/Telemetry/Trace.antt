-- ===== src/Telemetry/Trace.antt =====
-- `TraceRecord` of src/telemetry/mod.rs and its `write`, which stores a row in ask._traces through
-- `ask._write_trace`. A row is kept as the record it is printed from.
use pg_ask.Prelude.{ℕ, Bool, Option, none, List, [], ◌∷◌, ◌++◌, if◌then◌else◌, Text}
use pg_ask.Config.Load.{RuntimeConfig}
use pg_ask.Telemetry.{ToolCallTrace}

pub data TraceKind : Type 0 where
  ask sql chat preview : TraceKind

pub record TraceRecord : Type 0 where
  pub kind : TraceKind
  pub question : Text
  pub iterations : ℕ
  pub tool_trace : List ToolCallTrace
  pub final_text : Option Text
  pub provider : Text
  pub model : Option Text
  pub started : ℕ
  pub error : Option Text
  pub trace_enabled : Bool
  pub prompt_tokens : Option ℕ
  pub completion_tokens : Option ℕ

-- `TraceRecord::start`
unfoldable pub start_trace : TraceKind → RuntimeConfig → Text → ℕ → TraceRecord
start_trace kind cfg question now = record {
  kind = kind;
  question = question;
  iterations = 0;
  tool_trace = [];
  final_text = none;
  provider = cfg.provider;
  model = cfg.model;
  started = now;
  error = none;
  trace_enabled = cfg.trace_enabled;
  prompt_tokens = none;
  completion_tokens = none;
}

-- `write`: the flag says whether the insertion works; where it does not, a warning is all.
unfoldable pub write_trace : TraceRecord → Bool → List TraceRecord → List TraceRecord
write_trace rec works rows =
    if rec.trace_enabled then (if works then rows ++ rec ∷ [] else rows) else rows

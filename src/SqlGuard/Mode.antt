-- ===== src/SqlGuard/Mode.antt =====
-- `GuardMode` of src/sql_guard/mod.rs.
use pg_ask.Prelude.{Bool, true, false}

pub data GuardMode : Type 0 where
  readonly writable : GuardMode

-- `mode == GuardMode::Readonly`
abbrev pub is_readonly : GuardMode → Bool
is_readonly readonly = true
is_readonly writable = false

-- ===== src/Providers/Wire.antt =====
-- src/providers/wire.rs
use pg_ask.Prelude.{ℕ, Bool, Option, List, Text}
use pg_ask.Json.{Value}

pub data Role : Type 0 where
  system user assistant tool : Role

pub record ToolCall : Type 0 where
  pub id : Text
  pub name : Text
  pub arguments : Value

pub data MessageContent : Type 0 where
  plain : Text → MessageContent
  assistant_with_tools : Option Text → List ToolCall → MessageContent
  tool_result : Text → Text → Bool → MessageContent

pub record Message : Type 0 where
  pub role : Role
  pub content : MessageContent

pub record ToolSpec : Type 0 where
  pub name : Text
  pub description : Text
  pub input_schema : Value

-- An `i64` is kept as its 64 bits.
pub record TokenUsage : Type 0 where
  pub prompt_tokens : ℕ
  pub completion_tokens : ℕ

pub data ProviderResponse : Type 0 where
  final : Text → Option TokenUsage → ProviderResponse
  tool_calls : Option Text → List ToolCall → Option TokenUsage → ProviderResponse

-- ===== src/Providers.antt =====
-- src/providers/wire.rs: the message types that the agent shares with every provider.
pub mod Wire
pub mod Gemini
pub mod OpenAi
pub mod Anthropic
pub mod Build
pub use Wire.*

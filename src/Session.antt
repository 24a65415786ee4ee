-- ===== src/Session.antt =====
-- src/session: the turns of a conversation in ask._sessions and ask._messages.
pub mod Encode
pub mod Store
pub mod Tests

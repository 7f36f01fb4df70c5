-- ===== src/Control.antt =====
-- The command path of the speaker (src/control): commands and results, idempotency, validation,
-- execution and routing.
pub mod Command
pub mod History
pub mod Validator
pub mod Reply
pub mod Executor
pub mod Router

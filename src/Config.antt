-- ===== src/Config.antt =====
-- The configuration module (src/config): the stored settings, their validation, and the manager that
-- keeps memory, file and backup.
pub mod Speaker
pub mod Json
pub mod Manager

-- ===== src/System.antt =====
-- The system module (src/system): the operating state machine, safe mode, the system manager that
-- drives both from events, and the watchdog.
pub mod State
pub mod Machine
pub mod SafeMode
pub mod Manager
pub mod Watchdog

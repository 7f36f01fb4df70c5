-- ===== src/Core.antt =====
-- The shared vocabulary of the modules (src/core): error codes and statuses, events, and the queue
-- of the event bus.
pub mod Status
pub mod Event
pub mod Bus

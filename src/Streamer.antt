-- ===== src/Streamer.antt =====
-- streamer/src: the streamer's speakers, their confirmed state, and the zones.
pub mod Registry
pub mod Speakers
pub mod Zones
pub mod Sending
pub mod AutoPair
pub mod Commands

-- ===== src/Audio.antt =====
-- The audio path of the speaker (src/audio): the wire format of a packet, the jitter buffer, clock
-- synchronisation, playback and the receiver.
pub mod Float
pub mod Wire
pub mod Buffer
pub mod Sync
pub mod Playback
pub mod Receiver

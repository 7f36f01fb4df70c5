-- ===== src/Examples.antt =====
-- Each result at a concrete input.
mod Core
mod System
mod Audio
mod Config
mod Control
mod Devices
mod Web
mod Streamer
mod Platform

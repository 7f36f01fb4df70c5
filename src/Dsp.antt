-- ===== src/Dsp.antt =====
-- src/dsp: the delay line.
pub mod Delay

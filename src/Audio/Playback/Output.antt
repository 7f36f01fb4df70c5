-- ===== src/Audio/Playback/Output.antt =====
-- What the output device is given over arrivals and steps of playback (src/audio/PlaybackManager.cpp).
use nexus_firmware.Prelude.{ℕ, ◌+◌, ◌<◌, u64, ◌≡◌, Bool, Option, List, [], ◌∷◌, ◌++◌, map, length}
use nexus_firmware.Prelude.Int.{ℤ}
use nexus_firmware.Core.Status.{Result}
use nexus_firmware.Audio.Float.{Double, FloatOps}
use nexus_firmware.Audio.Wire.{AudioPacket}
use nexus_firmware.Audio.Buffer.{push}
use nexus_firmware.Audio.Buffer.Bounds.{Among}
use nexus_firmware.Audio.Playback.{PlaybackManager, step}
use nexus_firmware.Audio.Playback.Advance.{block, Advance}

module _ (f : FloatOps) (dsp : Option (List ℕ → ℕ → ℕ → List ℕ))
    (write : List ℕ → ℕ → Result ℕ) where
  -- A packet arrives, or playback makes a step at a reading of the clock.
  pub data Turn : Type 0 where
    arrives : AudioPacket → Turn
    plays : Option Double → Turn

  unfoldable pub take_turn : PlaybackManager → Turn → PlaybackManager
  take_turn m (arrives p) = record m { buffer = push m.buffer p }
  take_turn m (plays now) = (step f dsp write m now).0

  unfoldable pub take_turns : PlaybackManager → List Turn → PlaybackManager
  take_turns m [] = m
  take_turns m (t ∷ ts) = take_turns (take_turn m t) ts

  unfoldable pub arrivals : List Turn → List AudioPacket
  arrivals [] = []
  arrivals (arrives p ∷ ts) = p ∷ arrivals ts
  arrivals (plays now ∷ ts) = arrivals ts

  -- Of the packets that came, some have left the queue, in the order in which they came; among those,
  -- in that order, are the ones that were played, and their blocks are what was written. The others
  -- that left were dropped by overflow, which the counter counts modulo 2 ^ 64.
  pub record Output (muted : Bool) (volume : ℤ) (came : List AudioPacket) (m : PlaybackManager)
      : Type 0 where
    pub gone : List AudioPacket
    pub played : List AudioPacket
    pub same_muted : m.muted ≡ muted
    pub same_volume : m.volume ≡ volume
    pub split : came ≡ gone ++ m.buffer.queue
    pub in_order : Among played gone
    pub written : m.written ≡ map (block f dsp write muted volume) played
    pub overflows : ℕ
    pub rest_dropped : length gone ≡ length played + overflows
    pub counted : m.buffer.metrics.dropped_overflow ≡ u64 overflows
    pub room : 0 < m.buffer.capacity

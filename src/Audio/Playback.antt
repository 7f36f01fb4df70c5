-- ===== src/Audio/Playback.antt =====
-- src/audio/PlaybackManager.h and PlaybackManager.cpp: releasing packets from the jitter buffer.
pub mod Schedule
pub mod Advance
pub mod Output
use nexus_firmware.Prelude.{
  ℕ, ◌+◌, ◌/◌, Bool, true, false, not, ◌&&◌, Option, none, some, List, [], ◌∷◌, ◌++◌, map, length,
  u64, ◌==◌, if◌then◌else◌,
}
use nexus_firmware.Prelude.Int.{ℤ, pos, ltb_ℤ}
use nexus_firmware.Core.Status.{Result, value, failed}
use nexus_firmware.Audio.Float.{Double, FloatOps, zero_f, hundred, sample_min, sample_max}
use nexus_firmware.Audio.Wire.{AudioPacket}
use nexus_firmware.Audio.Buffer.{AudioBuffer, ready, peek_timestamp, nearly_full, pop}
use nexus_firmware.Audio.Sync.{StreamSync, due}

-- `muted` and `volume` are the fields of the audio configuration. `sync` is none for a null pointer.
-- `written` is what the output device was given: the samples and the number of frames.
pub record PlaybackManager : Type 0 where
  pub buffer : AudioBuffer
  pub sync : Option StreamSync
  pub muted : Bool
  pub volume : ℤ
  pub started : Bool
  pub frames_played : ℕ
  pub written : List (List ℕ × ℕ)

-- `std::clamp(volume, 0, 100)`
unfoldable pub clamp_volume : ℤ → ℤ
clamp_volume v = if ltb_ℤ v (pos 0) then pos 0 else if ltb_ℤ (pos 100) v then pos 100 else v

unfoldable pub is_full_volume : ℤ → Bool
is_full_volume v = not (ltb_ℤ v (pos 100)) && not (ltb_ℤ (pos 100) v)

-- The frames of a packet: those of its header, or half of its samples if that says 0; and the
-- channels that the DSP hook is told.
unfoldable pub frames_of : AudioPacket → ℕ
frames_of p = if p.header.frame_count == 0 then length p.samples / 2 else p.header.frame_count

unfoldable pub channels_of : AudioPacket → ℕ
unfolding frames_of
channels_of p = if frames_of p == 0 then 2 else length p.samples / frames_of p

-- `dsp` is the DSP hook, if one is set, and `write` the answer of the output device.
module _ (f : FloatOps) (dsp : Option (List ℕ → ℕ → ℕ → List ℕ))
    (write : List ℕ → ℕ → Result ℕ) where
  open f use {mul, div, lt, of_int, of_sample, to_sample}

  unfoldable pub clamp_sample : Double → Double
  clamp_sample x = if lt x sample_min then sample_min else if lt sample_max x then sample_max else x

  unfoldable pub scale : ℤ → ℕ → ℕ
  unfolding clamp_sample
  scale vol s = to_sample (clamp_sample (mul (of_sample s) (div (of_int vol) hundred)))

  unfoldable pub apply_gain : PlaybackManager → List ℕ → List ℕ
  apply_gain m pcm =
      if m.muted
      then map (λ _. 0) pcm
      else if is_full_volume (clamp_volume m.volume)
      then pcm
      else map (scale (clamp_volume m.volume)) pcm

  unfoldable pub run_dsp : AudioPacket → List ℕ
  run_dsp p = elim dsp [
    | none ↦ p.samples
    | some hook ↦ hook p.samples (frames_of p) (channels_of p)
  ]

  -- What follows a successful `pop`.
  unfoldable pub play : PlaybackManager → AudioPacket → PlaybackManager × ℕ
  play m p =
      let pcm = apply_gain m (run_dsp p) in
      let told = record m { written = m.written ++ ((pcm, frames_of p) ∷ []) } in
      elim (write pcm (frames_of p)) [
        | value n ↦ (record told { frames_played = u64 (m.frames_played + n) }, n)
        | failed c e ↦ (told, 0)
      ]

  unfoldable pub after_pop :
      PlaybackManager → AudioBuffer × Option AudioPacket → PlaybackManager × ℕ
  after_pop m (b, none) = (record m { buffer = b; started = false }, 0)
  after_pop m (b, some p) = play (record m { buffer = b }) p

  -- `ts && *ts > 0.0 && !sync_->due(*ts, clock_())`, where there is a clock; `now` is its reading.
  unfoldable pub is_early : Option StreamSync → Option Double → Option Double → Bool
  is_early (some s) (some now) (some ts) = lt zero_f ts && not (due f s ts now)
  is_early _ _ _ = false

  unfoldable pub holds : PlaybackManager → Option Double → Bool
  holds m now = is_early m.sync now (peek_timestamp m.buffer) && not (nearly_full m.buffer)

  unfoldable pub release : PlaybackManager → Option Double → PlaybackManager × ℕ
  release m now = if holds m now then (m, 0) else after_pop m (pop m.buffer)

  -- The manager and the number of frames played.
  unfoldable pub step : PlaybackManager → Option Double → PlaybackManager × ℕ
  step m now =
      if m.started
      then release m now
      else if ready m.buffer
      then release (record m { started = true }) now
      else (m, 0)

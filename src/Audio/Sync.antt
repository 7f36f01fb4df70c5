-- ===== src/Audio/Sync.antt =====
-- src/audio/StreamSync.h and StreamSync.cpp: clock offset and the decision that a packet is due.
use nexus_firmware.Prelude.{ℕ, ◌+◌, Bool, true, false, u64, if◌then◌else◌}
use nexus_firmware.Audio.Float.{Double, FloatOps, zero_f, tenth, thousand}

pub record SyncStats : Type 0 where
  pub clock_offset_ms : Double
  pub drift_ppm : Double
  pub latency_ms : Double
  pub observations : ℕ

pub record StreamSync : Type 0 where
  pub target_buffer_ms : Double
  pub stats : SyncStats
  pub last_offset_ms : Double
  pub have_offset : Bool

unfoldable pub no_stats : SyncStats
no_stats = record {
  clock_offset_ms = zero_f;
  drift_ppm = zero_f;
  latency_ms = zero_f;
  observations = 0;
}

unfoldable pub init : Double → StreamSync
init target = record {
  target_buffer_ms = target;
  stats = no_stats;
  last_offset_ms = zero_f;
  have_offset = false;
}

module _ (f : FloatOps) where
  open f use {add, sub, mul, neg, lt, le}

  unfoldable pub observe : StreamSync → Double → Double → StreamSync
  observe s packet_timestamp now =
      let offset_ms = mul (sub packet_timestamp now) thousand in
      let prev = s.stats.clock_offset_ms in
      let smoothed = add prev (mul tenth (sub offset_ms prev)) in
      record s {
        stats = record {
          clock_offset_ms = if s.have_offset then smoothed else offset_ms;
          drift_ppm = if s.have_offset then mul (sub smoothed prev) thousand else s.stats.drift_ppm;
          latency_ms = if lt offset_ms zero_f then neg offset_ms else zero_f;
          observations = u64 (s.stats.observations + 1);
        };
        last_offset_ms = offset_ms;
        have_offset = true;
      }

  unfoldable pub ms_until_due : StreamSync → Double → Double → Double
  ms_until_due s packet_timestamp now =
      sub (mul (sub packet_timestamp now) thousand) s.target_buffer_ms

  unfoldable pub due : StreamSync → Double → Double → Bool
  unfolding ms_until_due
  due s packet_timestamp now = le (ms_until_due s packet_timestamp now) zero_f

unfoldable pub reset : StreamSync → StreamSync
unfolding no_stats
reset s = record s { stats = no_stats; have_offset = false; last_offset_ms = zero_f }

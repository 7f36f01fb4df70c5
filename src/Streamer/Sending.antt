-- ===== src/Streamer/Sending.antt =====
-- streamer/src/send/Timestamper.h, Packetizer.h and StreamSender.h, and
-- streamer/src/sources/MemoryAudioSource.h. The sink is the list of the datagrams.
pub mod Lossless
use nexus_firmware.Prelude.{
  ℕ, zero, suc, ◌+◌, ◌-◌, ◌*◌, ◌/◌, Bool, true, false, List, [], ◌∷◌, ◌==◌, leb, length, take, drop,
  map, u64, if◌then◌else◌,
}
use nexus_firmware.Audio.Float.{Double, FloatOps}
use nexus_firmware.Audio.Wire.{AudioPacket, AudioHeader, pack_packet, flag_last}
use Prim.Native.Nat.{min}

pub record Timestamper : Type 0 where
  pub block_seconds : Double
  pub lead_seconds : Double
  pub next_timestamp : Double
  pub started : Bool

unfoldable pub start : FloatOps → Double → Timestamper → Timestamper
start f now_epoch t = record t {
  next_timestamp = FloatOps.add f now_epoch t.lead_seconds;
  started = true;
}

unfoldable pub advance : FloatOps → Timestamper → Timestamper
advance f t = record t { next_timestamp = FloatOps.add f t.next_timestamp t.block_seconds }

-- `channels` is not 0.
pub record MemoryAudioSource : Type 0 where
  pub samples : List ℕ
  pub channels : ℕ
  pub pos_frames : ℕ

unfoldable pub total_frames : MemoryAudioSource → ℕ
total_frames s = length s.samples / s.channels

-- How many frames a read delivers.
unfoldable pub readable : ℕ → MemoryAudioSource → ℕ
readable max_frames s = min max_frames (total_frames s - s.pos_frames)

unfoldable pub read : ℕ → MemoryAudioSource → List ℕ × MemoryAudioSource
read max_frames s =
    let n = readable max_frames s in
    (
      take (n * s.channels) (drop (s.pos_frames * s.channels) s.samples),
      record s { pos_frames = s.pos_frames + n },
    )

unfoldable pub exhausted : MemoryAudioSource → Bool
exhausted s = leb (total_frames s) s.pos_frames

-- The sender with its packetizer; `sequence` is a std::uint64_t.
pub record StreamSender : Type 0 where
  pub source : MemoryAudioSource
  pub ts : Timestamper
  pub sequence : ℕ
  pub block_frames : ℕ

-- Packetizer::pack, before the encoding.
unfoldable pub packet : StreamSender → List ℕ → ℕ → Bool → AudioPacket
packet s frames frame_count last = record {
  header = record {
    timestamp = s.ts.next_timestamp;
    sequence = s.sequence;
    frame_count = frame_count;
    flags = if last then flag_last else 0;
  };
  samples = frames;
}

unfoldable pub after_block : FloatOps → StreamSender → StreamSender
after_block f s = record s {
  source = (read s.block_frames s.source).1;
  ts = advance f s.ts;
  sequence = u64 (s.sequence + 1);
}

-- The packet of the next block, which is the last one if the source is exhausted after it.
unfoldable pub block : StreamSender → AudioPacket
block s =
    let got = read s.block_frames s.source in
    packet s got.0 (readable s.block_frames s.source) (exhausted got.1)

-- The packets that the loop of runToEnd sends, in at most `fuel` turns.
unfoldable pub packets : FloatOps → ℕ → StreamSender → List AudioPacket
packets f zero s = []
packets f (suc fuel) s =
    let rest = packets f fuel (after_block f s) in
    if readable s.block_frames s.source == 0
    then []
    else block s ∷ (if exhausted (read s.block_frames s.source).1 then [] else rest)

unfoldable pub run_to_end : FloatOps → ℕ → Double → StreamSender → List (List ℕ)
run_to_end f fuel now_epoch s =
    map pack_packet
      (packets f fuel (if s.ts.started then s else record s { ts = start f now_epoch s.ts }))

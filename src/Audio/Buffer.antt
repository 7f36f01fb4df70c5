-- ===== src/Audio/Buffer.antt =====
-- src/audio/AudioBuffer.h and AudioBuffer.cpp: the jitter buffer. The mutex makes each call one step;
-- the counters are 64-bit words.
pub mod Bounds
pub mod Loss
use nexus_firmware.Prelude.{
  ℕ, ◌+◌, ◌*◌, Bool, true, false, not, ◌&&◌, ◌||◌, Option, none, some, List, [], ◌∷◌, ◌++◌, length,
  ltb, leb, u64, sub_u64, if◌then◌else◌,
}
use nexus_firmware.Audio.Float.{Double}
use nexus_firmware.Audio.Wire.{AudioPacket}

pub record BufferMetrics : Type 0 where
  pub depth : ℕ
  pub received : ℕ
  pub dropped_overflow : ℕ
  pub lost : ℕ
  pub underflows : ℕ
  pub last_sequence : ℕ

pub record AudioBuffer : Type 0 where
  pub queue : List AudioPacket
  pub prefill : ℕ
  pub capacity : ℕ
  pub metrics : BufferMetrics
  pub have_last_seq : Bool

unfoldable pub no_metrics : BufferMetrics
no_metrics = record {
  depth = 0;
  received = 0;
  dropped_overflow = 0;
  lost = 0;
  underflows = 0;
  last_sequence = 0;
}

unfoldable pub init : ℕ → ℕ → AudioBuffer
init prefill capacity = record {
  queue = [];
  prefill = prefill;
  capacity = capacity;
  metrics = no_metrics;
  have_last_seq = false;
}

-- The first half of `push`: `received`, `lost` and `last_sequence`.
unfoldable pub count_packet : AudioBuffer → ℕ → AudioBuffer
count_packet b seq =
    let m = b.metrics in
    let gap = b.have_last_seq && ltb (u64 (m.last_sequence + 1)) seq in
    let newer = not b.have_last_seq || ltb m.last_sequence seq in
    record b {
      metrics = record m {
        received = u64 (m.received + 1);
        lost = if gap then u64 (m.lost + sub_u64 (sub_u64 seq m.last_sequence) 1) else m.lost;
        last_sequence = if newer then seq else m.last_sequence;
      };
      have_last_seq = if newer then true else b.have_last_seq;
    }

-- `queue_.pop_front()`. The source calls it on a full queue, which is empty only if the capacity
-- is 0: that call is undefined, and leaves the queue as it is here.
unfoldable pub pop_front : List AudioPacket → List AudioPacket
pop_front [] = []
pop_front (p ∷ ps) = ps

-- The second half: overflow drops the oldest packet.
unfoldable pub enqueue : AudioBuffer → AudioPacket → AudioBuffer
enqueue b pkt =
    if leb b.capacity (length b.queue)
    then record b {
      queue = pop_front b.queue ++ (pkt ∷ []);
      metrics = record b.metrics { dropped_overflow = u64 (b.metrics.dropped_overflow + 1) };
    }
    else record b { queue = b.queue ++ (pkt ∷ []) }

unfoldable pub push : AudioBuffer → AudioPacket → AudioBuffer
push b pkt = enqueue (count_packet b pkt.header.sequence) pkt

unfoldable pub pop_from : List AudioPacket → AudioBuffer → AudioBuffer × Option AudioPacket
pop_from [] b =
    (record b { metrics = record b.metrics { underflows = u64 (b.metrics.underflows + 1) } }, none)
pop_from (p ∷ rest) b = (record b { queue = rest }, some p)

unfoldable pub pop : AudioBuffer → AudioBuffer × Option AudioPacket
unfolding pop_from
pop b = pop_from b.queue b

unfoldable pub front_timestamp : List AudioPacket → Option Double
front_timestamp [] = none
front_timestamp (p ∷ ps) = some p.header.timestamp

unfoldable pub peek_timestamp : AudioBuffer → Option Double
unfolding front_timestamp
peek_timestamp b = front_timestamp b.queue

unfoldable pub nearly_full : AudioBuffer → Bool
nearly_full b = leb (b.capacity * 4) (length b.queue * 5)

unfoldable pub ready : AudioBuffer → Bool
ready b = leb b.prefill (length b.queue)

unfoldable pub depth : AudioBuffer → ℕ
depth b = length b.queue

unfoldable pub read_metrics : AudioBuffer → BufferMetrics
read_metrics b = record b.metrics { depth = length b.queue }

unfoldable pub reset : AudioBuffer → AudioBuffer
unfolding no_metrics
reset b = record b { queue = []; metrics = no_metrics; have_last_seq = false }

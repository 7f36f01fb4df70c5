-- ===== src/Audio/Buffer/Loss.antt =====
-- Loss accounting by sequence numbers in src/audio/AudioBuffer.cpp.
use nexus_firmware.Prelude.{
  ℕ, suc, ◌+◌, ◌-◌, ◌^◌, ◌<◌, ◌≤◌, ◌≡◌, List, [], ◌∷◌, arith, true, u64, ltb, if◌then◌else◌, All,
}
use nexus_firmware.Audio.Wire.{AudioPacket}
use nexus_firmware.Audio.Buffer.{AudioBuffer, no_metrics, init, count_packet, enqueue, push}

unfoldable pub push_all : AudioBuffer → List AudioPacket → AudioBuffer
push_all b [] = b
push_all b (p ∷ ps) = push_all (push b p) ps

-- How many packets are newer than the newest before them, `last` at the start.
unfoldable pub advances : ℕ → List AudioPacket → ℕ
advances last [] = 0
advances last (p ∷ ps) =
    if ltb last p.header.sequence then suc (advances p.header.sequence ps) else advances last ps

-- The largest sequence number, `last` included.
unfoldable pub newest : ℕ → List AudioPacket → ℕ
newest last [] = last
newest last (p ∷ ps) = newest (if ltb last p.header.sequence then p.header.sequence else last) ps

-- No sequence number is the last of the 64-bit range.
abbrev pub IsBelowTop : List AudioPacket → Type 0
IsBelowTop = All (λ (p : AudioPacket). p.header.sequence < 2 ^ 64 - 1)

push_metrics :
    (b : AudioBuffer) (p : AudioPacket)
    → ((push b p).metrics.lost ≡ (count_packet b p.header.sequence).metrics.lost)
      × ((push b p).metrics.last_sequence
          ≡ (count_packet b p.header.sequence).metrics.last_sequence)
      × ((push b p).have_last_seq ≡ (count_packet b p.header.sequence).have_last_seq)
unfolding push enqueue
push_metrics b p = ground arith

-- One packet below the top, after a first one: `lost` grows by the gap and cannot wrap.
push_counts :
    (b : AudioBuffer) (p : AudioPacket)
    → b.have_last_seq ≡ true
    → b.metrics.last_sequence < 2 ^ 64 - 1
    → b.metrics.lost ≤ b.metrics.last_sequence
    → p.header.sequence < 2 ^ 64 - 1
    → ((push b p).have_last_seq ≡ true)
      × ((push b p).metrics.last_sequence ≡ (
          if ltb b.metrics.last_sequence p.header.sequence
          then p.header.sequence
          else b.metrics.last_sequence))
      × ((push b p).metrics.lost ≡ (
          if ltb b.metrics.last_sequence p.header.sequence
          then b.metrics.lost + (p.header.sequence - b.metrics.last_sequence - 1)
          else b.metrics.lost))
unfolding count_packet
push_counts b p have low few seq = ground (arith, push_metrics b p)

push_all_counts :
    (b : AudioBuffer) (last : ℕ) (ps : List AudioPacket)
    → b.have_last_seq ≡ true
    → b.metrics.last_sequence ≡ last
    → last < 2 ^ 64 - 1
    → b.metrics.lost ≤ last
    → IsBelowTop ps
    → (push_all b ps).metrics.lost + advances last ps + last ≡ b.metrics.lost + newest last ps
unfolding push_all advances newest
push_all_counts b last [] have at low few seqs = omega arith
push_all_counts b last (p ∷ ps) have at low few seqs =
    let (has, now, lost) = push_counts b p have (omega arith) (omega arith) seqs.0 in
    let last' = if ltb last p.header.sequence then p.header.sequence else last in
    let rest =
      push_all_counts (push b p) last' ps has (ground (arith, now)) (ground arith)
        (ground (arith, lost)) seqs.1 in
    ground (arith, lost, rest)

first_push :
    (prefill c : ℕ) (p : AudioPacket)
    → let b = push (init prefill c) p in
      (b.have_last_seq ≡ true)
      × (b.metrics.last_sequence ≡ p.header.sequence)
      × (b.metrics.lost ≡ 0)
unfolding init count_packet no_metrics
first_push prefill c p = ground (arith, push_metrics (init prefill c) p)

-- After any packets below the top of the sequence range, in any order and with duplicates, whatever
-- the buffer had to drop: the packets counted as lost, the advances of the newest sequence number,
-- and the first number make up the newest number. So in a stream that arrives in order the lost and
-- the received packets are together all that were sent from the first to the newest.
pub loss_exact :
    (prefill c : ℕ) (p : AudioPacket) (ps : List AudioPacket)
    → p.header.sequence < 2 ^ 64 - 1
    → IsBelowTop ps
    → (push_all (push (init prefill c) p) ps).metrics.lost
        + advances p.header.sequence ps
        + p.header.sequence
      ≡ newest p.header.sequence ps
loss_exact prefill c p ps top tops =
    let b = push (init prefill c) p in
    let (have, last, fresh) = first_push prefill c p in
    omega (
      arith,
      fresh,
      push_all_counts b p.header.sequence ps have last top (omega (arith, fresh)) tops,
    )

-- At the top of the sequence range the test for a gap wraps: after a packet with the last sequence
-- number, every packet whose number is not 0 adds that number to `lost`, although it is no forward gap.
pub lost_after_top :
    (b : AudioBuffer) (p : AudioPacket)
    → b.have_last_seq ≡ true
    → b.metrics.last_sequence ≡ 2 ^ 64 - 1
    → 0 < p.header.sequence
    → p.header.sequence < 2 ^ 64
    → (push b p).metrics.lost ≡ u64 (b.metrics.lost + p.header.sequence)
unfolding count_packet
lost_after_top b p have top pos seq = ground (arith, push_metrics b p)

-- ===== src/Audio/Playback/Schedule.antt =====
-- When a packet is held, released, or missing (src/audio/PlaybackManager.cpp).
use nexus_firmware.Prelude.{
  ℕ, ◌+◌, ◌*◌, ◌<◌, ◌≤◌, ◌≡◌, refl, ap, ◌∙◌, ◌⊎◌, true, false, Option, List, [], ◌∷◌, ◌++◌, length,
  length-append, arith,
}
use nexus_firmware.Core.Status.{Result}
use nexus_firmware.Audio.Float.{Double, FloatOps}
use nexus_firmware.Audio.Wire.{AudioPacket}
use nexus_firmware.Audio.Buffer.{
  AudioBuffer, ready, peek_timestamp, nearly_full, pop, pop_from, push, enqueue, count_packet,
  pop_front,
}
use nexus_firmware.Audio.Buffer.Loss.{push_all}
use nexus_firmware.Audio.Playback.{PlaybackManager, is_early, holds, release, step, after_pop}

-- Room for one more packet: a push drops nothing.
pub push_room :
    (b : AudioBuffer) (p : AudioPacket)
    → length b.queue < b.capacity
    → ((push b p).metrics.dropped_overflow ≡ b.metrics.dropped_overflow)
      × ((push b p).queue ≡ b.queue ++ (p ∷ []))
unfolding push enqueue count_packet
push_room b p room = ground arith

length-push :
    (b : AudioBuffer) (p : AudioPacket)
    → (length (push b p).queue ≤ length b.queue + 1) × ((push b p).prefill ≡ b.prefill)
unfolding push enqueue count_packet pop_front
length-push b p = ground (arith, length-append b.queue (p ∷ []), shrink b.queue)
  where
    shrink : (q : List AudioPacket) → length (pop_front q ++ (p ∷ [])) ≤ length q + 1
    shrink [] = omega arith
    shrink (x ∷ q) = omega (arith, length-append q (p ∷ []))

length-push_all :
    (b : AudioBuffer) (ps : List AudioPacket)
    → (length (push_all b ps).queue ≤ length b.queue + length ps)
      × ((push_all b ps).prefill ≡ b.prefill)
unfolding push_all
length-push_all b [] = (omega arith, refl)
length-push_all b (p ∷ ps) =
    let (few, same) = length-push b p in
    let (rest, kept) = length-push_all (push b p) ps in (omega arith, kept ∙ same)

module _ (f : FloatOps) (dsp : Option (List ℕ → ℕ → ℕ → List ℕ))
    (write : List ℕ → ℕ → Result ℕ) where
  -- Playback has begun, or begins now because the prefill is there.
  abbrev pub IsGoing : PlaybackManager → Type 0
  IsGoing m = (m.started ≡ true) ⊎ (m.buffer.prefill ≤ length m.buffer.queue)

  -- The front packet is stamped for later, and the queue is below 80% of the capacity.
  abbrev pub IsHeld : PlaybackManager → Option Double → Type 0
  IsHeld m now =
      (is_early f dsp write m.sync now (peek_timestamp m.buffer) ≡ true)
      × (length m.buffer.queue * 5 < m.buffer.capacity * 4)

  -- A held packet stays where it is, nothing is written, and there is room to go on holding: the next
  -- packet that arrives is queued and none is dropped.
  pub hold_keeps_room :
      (m : PlaybackManager) (now : Option Double) (p : AudioPacket)
      → IsGoing m
      → IsHeld m now
      → let (m', frames) = step f dsp write m now in
        (frames ≡ 0)
        × (m'.written ≡ m.written)
        × ((push m'.buffer p).metrics.dropped_overflow ≡ m.buffer.metrics.dropped_overflow)
        × ((push m'.buffer p).queue ≡ m.buffer.queue ++ (p ∷ []))
  unfolding step release holds nearly_full ready
  hold_keeps_room m now p going held = ground (arith, push_room m.buffer p)

  starve :
      (m : PlaybackManager) (now : Option Double)
      → m.started ≡ true
      → m.buffer.queue ≡ []
      → ((step f dsp write m now).0.started ≡ false)
        × ((step f dsp write m now).0.buffer.prefill ≡ m.buffer.prefill)
        × ((step f dsp write m now).0.buffer.queue ≡ [])
  unfolding step release holds nearly_full after_pop pop pop_from peek_timestamp is_early
  starve m now on empty = ground arith

  not_ready :
      (m : PlaybackManager) (now : Option Double)
      → m.started ≡ false
      → length m.buffer.queue < m.buffer.prefill
      → step f dsp write m now ≡ (m, 0)
  unfolding step ready
  not_ready m now off few = ground arith

  -- An underflow stops playback until the buffer has its prefill again: after a step that found no
  -- packet, and fewer arrivals than the prefill, a step plays and writes nothing.
  pub underflow_prefills :
      (m : PlaybackManager) (now later : Option Double) (ps : List AudioPacket)
      → m.started ≡ true
      → m.buffer.queue ≡ []
      → length ps < m.buffer.prefill
      → let m' = (step f dsp write m now).0 in
        let filled = record m' { buffer = push_all m'.buffer ps } in
        step f dsp write filled later ≡ (filled, 0)
  underflow_prefills m now later ps on empty few =
      let (off, prefill, none_left) = starve m now on empty in
      let b = (step f dsp write m now).0.buffer in
      let (arrived, kept) = length-push_all b ps in
      not_ready (record (step f dsp write m now).0 { buffer = push_all b ps }) later off
        (omega (arith, prefill, ap length none_left, arrived, kept))

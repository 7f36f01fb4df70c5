-- ===== src/Audio/Playback/Advance.antt =====
-- What one push and one step of playback do to the queue and the output (src/audio/PlaybackManager.cpp).
use nexus_firmware.Prelude.{
  ℕ, zero, suc, ◌+◌, ◌<◌, u64, ◌≡◌, refl, ap, ◌∙◌, ◌⊎◌, inl, inr, Bool, true, false, Option, List,
  [], ◌∷◌, ◌++◌, map, length, repeat, arith, Bool-cases, leb, if◌then◌else◌,
}
use nexus_firmware.Prelude.Int.{ℤ, pos, negsuc, leb_ℤ}
use nexus_firmware.Core.Status.{Result}
use nexus_firmware.Audio.Float.{Double, FloatOps}
use nexus_firmware.Audio.Wire.{AudioPacket}
use nexus_firmware.Audio.Buffer.{
  AudioBuffer, ready, pop, pop_from, push, enqueue, count_packet, pop_front,
}
use nexus_firmware.Audio.Playback.{
  PlaybackManager, clamp_volume, is_full_volume, scale, apply_gain, run_dsp, frames_of, play,
  after_pop, holds, release, step,
}

repeat-map : (xs : List ℕ) → map {B = ℕ} (λ (_ : ℕ). 0) xs ≡ repeat (length xs) 0
repeat-map [] = refl
repeat-map (x ∷ xs) = ap (λ (l : List ℕ). 0 ∷ l) (repeat-map xs)

clamp_lem :
    (v : ℤ)
    → ((leb_ℤ (pos 100) v ≡ true) × (is_full_volume (clamp_volume v) ≡ true))
      ⊎ ((leb_ℤ (pos 100) v ≡ false)
          × (is_full_volume (clamp_volume v) ≡ false)
          × (clamp_volume v ≡ (if leb_ℤ v (pos 0) then pos 0 else v)))
unfolding clamp_volume is_full_volume
clamp_lem (pos zero) = inr (refl, refl, refl)
clamp_lem (pos (suc n)) = ground arith
clamp_lem (negsuc n) = ground arith

-- A push puts the packet last, and where the queue is full drops the first and counts it.
pub push_queue :
    (b : AudioBuffer) (p : AudioPacket) (q : List AudioPacket)
    → 0 < b.capacity
    → b.queue ≡ q
    → (((push b p).queue ≡ q ++ (p ∷ []))
        × ((push b p).metrics.dropped_overflow ≡ b.metrics.dropped_overflow))
      ⊎ ((x : AudioPacket) × (r : List AudioPacket) × (q ≡ x ∷ r)
          × ((push b p).queue ≡ r ++ (p ∷ []))
          × ((push b p).metrics.dropped_overflow ≡ u64 (b.metrics.dropped_overflow + 1)))
unfolding push enqueue count_packet pop_front
push_queue b p [] some_room e = inl (ground (arith, ap length e), ground (arith, ap length e))
push_queue b p (x ∷ r) some_room e = elim (Bool-cases (leb b.capacity (length b.queue))) [
  | inl full ↦ inr (x, r, refl, rw (full, e) refl, rw full refl)
  | inr room ↦ inl (rw (room, e) refl, rw room refl)
]

pub push-capacity : (b : AudioBuffer) (p : AudioPacket) → (push b p).capacity ≡ b.capacity
unfolding push enqueue count_packet
push-capacity b p = ground arith

module _ (f : FloatOps) (dsp : Option (List ℕ → ℕ → ℕ → List ℕ))
    (write : List ℕ → ℕ → Result ℕ) where
  -- What is heard of samples: silence when muted, the samples themselves at a volume of 100 or more,
  -- and else each scaled by the volume, a negative one counting as 0.
  unfoldable pub sound : Bool → ℤ → List ℕ → List ℕ
  sound muted volume pcm =
      if muted
      then repeat (length pcm) 0
      else if leb_ℤ (pos 100) volume
      then pcm
      else map (scale f dsp write (if leb_ℤ volume (pos 0) then pos 0 else volume)) pcm

  -- The block of a packet: its sound after the DSP hook, and its frames.
  unfoldable pub block : Bool → ℤ → AudioPacket → List ℕ × ℕ
  block muted volume p = (sound muted volume (run_dsp f dsp write p), frames_of p)

  apply_gain_lem :
      (m : PlaybackManager) (pcm : List ℕ)
      → apply_gain f dsp write m pcm ≡ sound m.muted m.volume pcm
  unfolding apply_gain sound
  apply_gain_lem m pcm = elim (Bool-cases m.muted) [
    | inl e ↦ rw e (repeat-map pcm)
    | inr e ↦ elim (clamp_lem m.volume) [
      | inl (loud, full) ↦ rw (e, loud, full) refl
      | inr (soft, less, clamped) ↦
          rw (e, soft, less) (ap (λ (v : ℤ). map {B = ℕ} (scale f dsp write v) pcm) clamped)
    ]
  ]

  -- Either nothing was taken and written, or the first packet was taken and its block written.
  abbrev pub Advance : PlaybackManager → PlaybackManager → Type 0
  Advance m n =
      (n.muted ≡ m.muted)
      × (n.volume ≡ m.volume)
      × (n.buffer.capacity ≡ m.buffer.capacity)
      × (n.buffer.metrics.dropped_overflow ≡ m.buffer.metrics.dropped_overflow)
      × (((n.buffer.queue ≡ m.buffer.queue) × (n.written ≡ m.written))
          ⊎ ((p : AudioPacket) × (q : List AudioPacket) × (m.buffer.queue ≡ p ∷ q)
              × (n.buffer.queue ≡ q)
              × (n.written ≡ m.written ++ (block m.muted m.volume p ∷ []))))

  play_lem :
      (m : PlaybackManager) (p : AudioPacket)
      → let n = (play f dsp write m p).0 in
        (n.muted ≡ m.muted)
        × (n.volume ≡ m.volume)
        × (n.buffer ≡ m.buffer)
        × (n.written
            ≡ m.written ++ ((apply_gain f dsp write m (run_dsp f dsp write p), frames_of p) ∷ []))
  unfolding play
  play_lem m p = ground arith

  popped-Advance :
      (m : PlaybackManager) (q : List AudioPacket)
      → m.buffer.queue ≡ q
      → Advance m (after_pop f dsp write m (pop_from q m.buffer)).0
  unfolding after_pop pop_from block
  popped-Advance m [] e = (refl, refl, refl, refl, inl (refl, refl))
  popped-Advance m (p ∷ q) e =
      let (quiet, level, kept, told) =
        play_lem (record m { buffer = record m.buffer { queue = q } }) p in
      (
        quiet,
        level,
        ap (λ (b : AudioBuffer). b.capacity) kept,
        ap (λ (b : AudioBuffer). b.metrics.dropped_overflow) kept,
        inr (
          p,
          q,
          e,
          ap (λ (b : AudioBuffer). b.queue) kept,
          told
              ∙ ap (λ (l : List ℕ). m.written ++ ((l, frames_of p) ∷ []))
                  (apply_gain_lem (record m { buffer = record m.buffer { queue = q } })
                    (run_dsp f dsp write p)),
        ),
      )

  either-Advance :
      (b : Bool) (m : PlaybackManager) (x y : PlaybackManager × ℕ)
      → Advance m x.0
      → Advance m y.0
      → Advance m ((if b then x else y).0)
  either-Advance true m x y h k = h
  either-Advance false m x y h k = k

  release-Advance :
      (m : PlaybackManager) (now : Option Double) → Advance m (release f dsp write m now).0
  unfolding release pop
  release-Advance m now =
      either-Advance (holds f dsp write m now) m _ _ (refl, refl, refl, refl, inl (refl, refl))
        (popped-Advance m m.buffer.queue refl)

  pub step-Advance :
      (m : PlaybackManager) (now : Option Double) → Advance m (step f dsp write m now).0
  unfolding step
  step-Advance m now = either-Advance m.started m _ _ (release-Advance m now) (
      either-Advance (ready m.buffer) m _ _ (release-Advance (record m { started = true }) now)
        (refl, refl, refl, refl, inl (refl, refl)))

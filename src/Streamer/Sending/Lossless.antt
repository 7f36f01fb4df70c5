-- ===== src/Streamer/Sending/Lossless.antt =====
-- What streamer/src/send/StreamSender.h sends, and what the speaker's buffer
-- (src/audio/AudioBuffer.cpp) counts as lost of it.
use nexus_firmware.Prelude.{
  ℕ, zero, suc, ◌+◌, ◌-◌, ◌*◌, ◌/◌, ◌^◌, ◌≤◌, ◌<◌, ◌≡◌, refl, sym, ap, subst, ◌∙◌, true, false,
  List, [], ◌∷◌, ◌++◌, ◌==◌, ==-true, length, take, drop, take-sum, drop-drop, Bool-cases, inl, inr,
  arith, All,
}
use nexus_firmware.Audio.Float.{FloatOps}
use nexus_firmware.Audio.Wire.{AudioPacket}
use nexus_firmware.Audio.Buffer.{init, no_metrics}
use nexus_firmware.Audio.Buffer.Loss.{push_all, advances, newest, loss_exact}
use nexus_firmware.Streamer.Sending.{
  MemoryAudioSource, StreamSender, total_frames, readable, read, exhausted, packet, after_block,
  block, packets,
}
use Prim.Native.Nat.{min}

-- The samples of the packets, one after the other.
unfoldable pub pcm : List AudioPacket → List ℕ
pcm [] = []
pcm (p ∷ ps) = p.samples ++ pcm ps

-- The sequence numbers go up by one from s.
unfoldable pub IsNumbered : ℕ → List AudioPacket → Type 0
IsNumbered s [] = Unit {0}
IsNumbered s (p ∷ ps) = (p.header.sequence ≡ s) × IsNumbered (s + 1) ps

-- The frames that the source has not delivered.
unfoldable pub unread : MemoryAudioSource → ℕ
unread s = total_frames s - s.pos_frames

unfoldable pub unread_samples : MemoryAudioSource → List ℕ
unread_samples s = take (unread s * s.channels) (drop (s.pos_frames * s.channels) s.samples)

read_lem :
    (m : ℕ) (s : MemoryAudioSource)
    → ((read m s).0 ++ unread_samples ((read m s).1) ≡ unread_samples s)
      × (unread ((read m s).1) ≡ unread s - readable m s)
unfolding read unread unread_samples total_frames readable
read_lem m s =
    let n = min m (length s.samples / s.channels - s.pos_frames) in
    let whole = length s.samples / s.channels in
    (
      ap
            (λ (t : List ℕ).
              take (n * s.channels) (drop (s.pos_frames * s.channels) s.samples)
              ++ take ((whole - (s.pos_frames + n)) * s.channels) t)
            (ap (λ (t : ℕ). drop t s.samples) (distrib s.pos_frames n s.channels)
              ∙ sym (drop-drop (s.pos_frames * s.channels) (n * s.channels) s.samples))
          ∙ take-sum (n * s.channels) ((whole - (s.pos_frames + n)) * s.channels)
              (drop (s.pos_frames * s.channels) s.samples)
          ∙ ap (λ (t : ℕ). take t (drop (s.pos_frames * s.channels) s.samples))
              (sym (distrib n (whole - (s.pos_frames + n)) s.channels)
                ∙ ap (λ (t : ℕ). t * s.channels) (omega arith)),
      omega arith,
    )
  where
    distrib : (a b c : ℕ) → (a + b) * c ≡ a * c + b * c
    distrib a b c = ground arith

nothing_unread : (s : MemoryAudioSource) → unread s ≡ 0 → unread_samples s ≡ []
unfolding unread_samples
nothing_unread s e = rw (e, none_of s.channels) refl
  where
    none_of : (c : ℕ) → 0 * c ≡ 0
    none_of c = omega arith

none_readable : (m : ℕ) (s : MemoryAudioSource) → 0 < m → readable m s ≡ 0 → unread s ≡ 0
unfolding readable unread
none_readable m s b e = omega arith

some_readable : (m : ℕ) (s : MemoryAudioSource) → (readable m s == 0) ≡ false → 0 < readable m s
some_readable m s e = ground arith

exhausted_lem : (s : MemoryAudioSource) → exhausted s ≡ true → unread s ≡ 0
unfolding exhausted unread
exhausted_lem s e = ground arith

samples_of_block : (s : StreamSender) → (block s).samples ≡ (read s.block_frames s.source).0
unfolding block packet
samples_of_block s = refl

block_samples :
    (s : StreamSender) → (block s).samples ++ [] ≡ (read s.block_frames s.source).0 ++ []
block_samples s = ap (λ (t : List ℕ). t ++ []) (samples_of_block s)

source_after :
    (f : FloatOps) (s : StreamSender) → (after_block f s).source ≡ (read s.block_frames s.source).1
unfolding after_block
source_after f s = refl

after :
    (f : FloatOps) (s : StreamSender) (fuel : ℕ)
    → unread s.source < suc fuel
    → 0 < readable s.block_frames s.source
    → unread (after_block f s).source < fuel
unfolding readable unread
after f s fuel l e =
    omega (arith, ap unread (source_after f s) ∙ (read_lem s.block_frames s.source).1)

-- With more fuel than unread frames, and blocks of at least one frame, the samples of the packets
-- are all that is unread of the source, in order.
pub pcm-packets :
    (f : FloatOps) (fuel : ℕ) (s : StreamSender)
    → 0 < s.block_frames
    → unread s.source < fuel
    → pcm (packets f fuel s) ≡ unread_samples s.source
unfolding packets pcm after_block
pcm-packets f zero s b l = absurd (omega arith)
pcm-packets f (suc fuel) s b l =
    let m = s.block_frames in
    let src = s.source in
    let (whole, less) = read_lem m src in
    elim (Bool-cases (readable m src == 0)) [
      | inl e ↦
          rw e (sym (nothing_unread src (none_readable m src b (==-true (readable m src) 0 e))))
      | inr e ↦ elim (Bool-cases (exhausted ((read m src).1))) [
        | inl x ↦
            rw (e, x)
              (block_samples s
                ∙ ap (λ (t : List ℕ). (read m src).0 ++ t)
                    (sym (nothing_unread ((read m src).1) (exhausted_lem ((read m src).1) x)))
                ∙ whole)
        | inr x ↦
            rw (e, x)
              (ap (λ (t : List ℕ). t ++ pcm (packets f fuel (after_block f s))) (samples_of_block s)
                ∙ ap (λ (t : List ℕ). (read m src).0 ++ t)
                    (pcm-packets f fuel (after_block f s) b
                      (after f s fuel l (some_readable m src e)))
                ∙ whole)
      ]
    ]

number_of_block : (s : StreamSender) → (block s).header.sequence ≡ s.sequence
unfolding block packet
number_of_block s = refl

number_after :
    (f : FloatOps) (s : StreamSender)
    → s.sequence + 1 < 2 ^ 64
    → (after_block f s).sequence ≡ s.sequence + 1
unfolding after_block
number_after f s l = omega arith

pub IsNumbered-packets :
    (f : FloatOps) (fuel : ℕ) (s : StreamSender)
    → s.sequence + fuel + 1 < 2 ^ 64
    → IsNumbered s.sequence (packets f fuel s)
unfolding packets IsNumbered
IsNumbered-packets f zero s l = tt
IsNumbered-packets f (suc fuel) s l = elim (Bool-cases (readable s.block_frames s.source == 0)) [
  | inl e ↦ rw e tt
  | inr e ↦ elim (Bool-cases (exhausted ((read s.block_frames s.source).1))) [
    | inl x ↦ rw (e, x) (number_of_block s, tt)
    | inr x ↦
        rw (e, x)
          (
            number_of_block s,
            subst (λ n. IsNumbered n (packets f fuel (after_block f s)))
                (number_after f s (omega arith))
                (IsNumbered-packets f fuel (after_block f s)
                  (omega (arith, number_after f s (omega arith)))),
          )
  ]
]

numbered_loss :
    (s : ℕ) (ps : List AudioPacket)
    → IsNumbered (s + 1) ps
    → (advances s ps ≡ length ps) × (newest s ps ≡ s + length ps)
unfolding IsNumbered advances newest
numbered_loss s [] h = (refl, omega arith)
numbered_loss s (p ∷ ps) (e, h) =
    let (a, n) =
      numbered_loss p.header.sequence ps (subst (λ k. IsNumbered (k + 1) ps) (sym e) h) in
    (ground (arith, a), ground (arith, n))

below :
    (s : ℕ) (ps : List AudioPacket)
    → IsNumbered s ps
    → s + length ps < 2 ^ 64
    → All (λ (p : AudioPacket). p.header.sequence < 2 ^ 64 - 1) ps
unfolding IsNumbered
below s [] h l = tt
below s (p ∷ ps) (e, h) l = (omega arith, below (s + 1) ps h (omega arith))

length-packets : (f : FloatOps) (fuel : ℕ) (s : StreamSender) → length (packets f fuel s) ≤ fuel
unfolding packets
length-packets f zero s = omega arith
length-packets f (suc fuel) s = ground (arith, length-packets f fuel (after_block f s))

numbered-lossless :
    (prefill capacity s : ℕ) (ps : List AudioPacket)
    → IsNumbered s ps
    → s + length ps < 2 ^ 64
    → (push_all (init prefill capacity) ps).metrics.lost ≡ 0
unfolding IsNumbered push_all init no_metrics
numbered-lossless prefill capacity s [] h l = refl
numbered-lossless prefill capacity s (p ∷ ps) (e, h) l =
    let (a, n) =
      numbered_loss p.header.sequence ps (subst (λ k. IsNumbered (k + 1) ps) (sym e) h) in
    omega (
      arith,
      a,
      n,
      loss_exact prefill capacity p ps (omega arith) (below (s + 1) ps h (omega arith)),
    )

-- When the packets of a stream are pushed in order into a new jitter buffer, none is counted as
-- lost, as long as the sequence numbers do not reach the end of their range.
pub packets-lossless :
    (f : FloatOps) (fuel : ℕ) (s : StreamSender) (prefill capacity : ℕ)
    → s.sequence + fuel + 1 < 2 ^ 64
    → (push_all (init prefill capacity) (packets f fuel s)).metrics.lost ≡ 0
packets-lossless f fuel s prefill capacity l =
    numbered-lossless prefill capacity s.sequence (packets f fuel s) (IsNumbered-packets f fuel s l)
      (omega (arith, length-packets f fuel s))

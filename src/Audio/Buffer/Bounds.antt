-- ===== src/Audio/Buffer/Bounds.antt =====
-- The jitter buffer as a bounded queue (src/audio/AudioBuffer.cpp).
use nexus_firmware.Prelude.{
  ℕ, ◌+◌, ◌-◌, ◌<◌, ◌≤◌, ◌≡◌, refl, sym, ap, subst, Option, none, some, List, [], ◌∷◌, ◌++◌, arith,
  length, length-append, u64, Bool-cases, leb, inl, inr,
}
use mathlib.Core.List.{append-nil, append_assoc}
use nexus_firmware.Audio.Wire.{AudioPacket}
use nexus_firmware.Audio.Buffer.{
  AudioBuffer, no_metrics, init, count_packet, pop_front, enqueue, push, pop_from, pop,
}

-- The calls that change the buffer.
pub data Call : Type 0 where
  pushes : AudioPacket → Call
  pops : Call

-- The buffer with its history: what was pushed, and what has left by `pop` and by overflow.
pub record History : Type 0 where
  pub buffer : AudioBuffer
  pub pushed : List AudioPacket
  pub popped : List AudioPacket
  pub missed : ℕ  -- pops of the empty buffer

take_out : History → AudioBuffer × Option AudioPacket → History
take_out h (b, none) = record h { buffer = b; missed = h.missed + 1 }
take_out h (b, some p) = record h { buffer = b; popped = h.popped ++ (p ∷ []) }

pub step : History → Call → History
unfolding take_out
step h (pushes p) = record h { buffer = push h.buffer p; pushed = h.pushed ++ (p ∷ []) }
step h pops = take_out h (pop h.buffer)

pub run : History → List Call → History
run h [] = h
run h (c ∷ cs) = run (step h c) cs

pub start : ℕ → ℕ → History
start prefill capacity = record {
  buffer = init prefill capacity;
  pushed = [];
  popped = [];
  missed = 0;
}

-- The packets that were taken out, among those that have left, in the same order: each that has left
-- was taken, or was dropped.
pub data Among : List AudioPacket → List AudioPacket → Type 0 where
  nothing : Among [] []
  taken :
      {ps gs : List AudioPacket} (p : AudioPacket)
      → Among ps gs
      → Among (ps ++ (p ∷ [])) (gs ++ (p ∷ []))
  dropped : {ps gs : List AudioPacket} (p : AudioPacket) → Among ps gs → Among ps (gs ++ (p ∷ []))

-- `gone` are the packets that have left, in order. The counters count modulo 2 ^ 64.
pub record Inv (capacity : ℕ) (h : History) (gone : List AudioPacket) : Type 0 where
  pub fixed : h.buffer.capacity ≡ capacity
  pub bounded : length h.buffer.queue ≤ capacity
  pub ordered : h.pushed ≡ gone ++ h.buffer.queue
  pub received : h.buffer.metrics.received ≡ u64 (length h.pushed)
  pub underflows : h.buffer.metrics.underflows ≡ u64 h.missed
  pub dropped : h.buffer.metrics.dropped_overflow ≡ u64 (length gone - length h.popped)
  pub fewer : length h.popped ≤ length gone
  pub in_order : Among h.popped gone

push-Inv :
    (c : ℕ) (h : History) (gone : List AudioPacket) (p : AudioPacket) (q : List AudioPacket)
    → 0 < c
    → h.buffer.queue ≡ q
    → Inv c h gone
    → (gone' : List AudioPacket) × Inv c (step h (pushes p)) gone'
unfolding step push enqueue count_packet pop_front
push-Inv c h gone p [] pos e v = (
  gone,
  ground (arith, ap length e, append-nil gone, length-append h.pushed (p ∷ []), v.in_order),
)
push-Inv c h gone p (x ∷ q) pos e v = elim (Bool-cases (leb c (length h.buffer.queue))) [
  | inl full ↦ (
    gone ++ (x ∷ []),
    ground (
      arith,
      dropped x v.in_order,
      ap length e,
      append_assoc gone (x ∷ []) (q ++ (p ∷ [])),
      append_assoc gone (x ∷ q) (p ∷ []),
      length-append h.pushed (p ∷ []),
      length-append gone (x ∷ []),
      length-append q (p ∷ []),
    ),
  )
  | inr room ↦ (
    gone,
    ground (
      arith,
      ap length e,
      append_assoc gone (x ∷ q) (p ∷ []),
      length-append h.pushed (p ∷ []),
      length-append q (p ∷ []),
    ),
  )
]

popped_lem :
    (h : History) (p : AudioPacket) (q : List AudioPacket)
    → h.buffer.queue ≡ p ∷ q
    → (step h pops).popped ≡ h.popped ++ (p ∷ [])
unfolding step pop pop_from
popped_lem h p q e = rw e refl

pop-Inv :
    (c : ℕ) (h : History) (gone : List AudioPacket) (q : List AudioPacket)
    → h.buffer.queue ≡ q
    → Inv c h gone
    → (gone' : List AudioPacket) × Inv c (step h pops) gone'
unfolding step pop pop_from
pop-Inv c h gone [] e v = (gone, ground arith)
pop-Inv c h gone (p ∷ q) e v = (
  gone ++ (p ∷ []),
  ground (
    arith,
    ap length e,
    append_assoc gone (p ∷ []) q,
    length-append gone (p ∷ []),
    length-append h.popped (p ∷ []),
    subst (λ (l : List AudioPacket). Among l (gone ++ (p ∷ []))) (sym (popped_lem h p q e))
        (taken p v.in_order),
  ),
)

step-Inv :
    (c : ℕ) (h : History) (gone : List AudioPacket) (call : Call)
    → 0 < c
    → Inv c h gone
    → (gone' : List AudioPacket) × Inv c (step h call) gone'
step-Inv c h gone (pushes p) pos v = push-Inv c h gone p h.buffer.queue pos refl v
step-Inv c h gone pops pos v = pop-Inv c h gone h.buffer.queue refl v

run-Inv :
    (c : ℕ) (h : History) (gone : List AudioPacket) (calls : List Call)
    → 0 < c
    → Inv c h gone
    → (gone' : List AudioPacket) × Inv c (run h calls) gone'
unfolding run
run-Inv c h gone [] pos v = (gone, v)
run-Inv c h gone (call ∷ calls) pos v =
    let next = step-Inv c h gone call pos v in run-Inv c (step h call) next.0 calls pos next.1

start-Inv : (prefill c : ℕ) → Inv c (start prefill c) []
unfolding start init no_metrics
start-Inv prefill c = ground (arith, nothing)

-- Over every sequence of pushes and pops from the start, with room for a packet at least: the queue
-- never exceeds the capacity, and what was pushed is, in order, the packets that have left and then
-- the queue. So packets leave in the order of arrival, and those that `pop` returned are among them,
-- whole and in that order, the others being dropped by an overflow; and `received`, `dropped_overflow` and `underflows` count pushes, overflows and pops
-- of the empty buffer, modulo 2 ^ 64.
pub run_bounded :
    (prefill c : ℕ) (calls : List Call)
    → 0 < c
    → (gone : List AudioPacket) × Inv c (run (start prefill c) calls) gone
run_bounded prefill c calls pos = run-Inv c (start prefill c) [] calls pos (start-Inv prefill c)

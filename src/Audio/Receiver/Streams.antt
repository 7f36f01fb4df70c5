-- ===== src/Audio/Receiver/Streams.antt =====
-- Which streams a receiver announces (src/audio/AudioReceiver.cpp).
use nexus_firmware.Prelude.{
  ℕ, ◌≡◌, refl, Bool, true, false, none, some, List, [], ◌∷◌, ◌++◌, Option-cases, Bool-cases, inl,
  inr, if◌then◌else◌,
}
use nexus_firmware.Core.Event.{Event, event, audio_started, audio_stopped}
use nexus_firmware.Core.Bus.{Bus, notify, publish}
use nexus_firmware.Audio.Float.{Double, FloatOps}
use nexus_firmware.Audio.Wire.{AudioPacket, unpack_packet, is_last}
use nexus_firmware.Audio.Receiver.{AudioReceiver, stop, receive, on_datagram}

-- Starts and ends of streams by turns, in a state before and a state after: `true` is streaming.
abbrev pub Alternates : Bool → List Event → Bool → Type 0
Alternates s [] t = s ≡ t
Alternates false (e ∷ es) t = (e.type ≡ audio_started) × Alternates true es t
Alternates true (e ∷ es) t = (e.type ≡ audio_stopped) × Alternates false es t

started-snoc :
    (s : Bool) (es : List Event) (e : Event)
    → Alternates s es false
    → e.type ≡ audio_started
    → Alternates s (es ++ (e ∷ [])) true
started-snoc false [] e h k = (k, refl)
started-snoc true [] e h k = cc
started-snoc false (x ∷ es) e h k = (h.0, started-snoc true es e h.1 k)
started-snoc true (x ∷ es) e h k = (h.0, started-snoc false es e h.1 k)

stopped-snoc :
    (s : Bool) (es : List Event) (e : Event)
    → Alternates s es true
    → e.type ≡ audio_stopped
    → Alternates s (es ++ (e ∷ [])) false
stopped-snoc true [] e h k = (k, refl)
stopped-snoc false [] e h k = cc
stopped-snoc false (x ∷ es) e h k = (h.0, stopped-snoc true es e h.1 k)
stopped-snoc true (x ∷ es) e h k = (h.0, stopped-snoc false es e h.1 k)

-- The bus is there and runs, and its queue holds what was announced from the state `s` on.
abbrev pub Announced : Bool → Bus → Bool → Type 0
Announced s none t = ⊥
Announced s (some b) t = (b.running ≡ true) × Alternates s b.queue t

start-Announced :
    (s t : Bool) (b : Bus)
    → Announced s b t
    → Announced s (if t then b else notify b (event audio_started "audio" [])) true
unfolding notify publish
start-Announced s t none a = absurd a
start-Announced s true (some b) a = a
start-Announced s false (some b) a = rw (a.0) (refl, started-snoc s b.queue _ a.1 refl)

stop-Announced :
    (s t : Bool) (b : Bus)
    → Announced s b t
    → Announced s (if t then notify b (event audio_stopped "audio" []) else b) false
unfolding notify publish
stop-Announced s t none a = absurd a
stop-Announced s false (some b) a = a
stop-Announced s true (some b) a = rw (a.0) (refl, stopped-snoc s b.queue _ a.1 refl)

module _ (f : FloatOps) where
  receive-Announced :
      (s : Bool) (r : AudioReceiver) (p : AudioPacket) (now : Double)
      → Announced s r.bus r.streaming
      → Announced s (receive f r p now).bus (receive f r p now).streaming
  unfolding receive
  receive-Announced s r p now a =
      let live = start-Announced s r.streaming r.bus a in
      elim (Bool-cases (is_last p)) [
        | inl last ↦ rw last (stop-Announced s true _ live)
        | inr more ↦ rw more live
      ]

  datagram-Announced :
      (s : Bool) (r : AudioReceiver) (d : List ℕ) (now : Double)
      → Announced s r.bus r.streaming
      → Announced s (on_datagram f r d now).bus (on_datagram f r d now).streaming
  unfolding on_datagram
  datagram-Announced s r d now a = elim (Option-cases (unpack_packet d r.channels)) [
    | inl bad ↦ rw (bad, on_datagram) a
    | inr (p, ok) ↦ rw (ok, on_datagram) (receive-Announced s r p now a)
  ]

  -- The datagrams that arrive, each with the time of its arrival.
  pub on_datagrams : AudioReceiver → List (List ℕ × Double) → AudioReceiver
  on_datagrams r [] = r
  on_datagrams r ((d, now) ∷ ds) = on_datagrams (on_datagram f r d now) ds

  -- Whatever datagrams arrive, malformed ones included, and also when the receiver stops after them:
  -- the events on the bus start and end streams by turns, and the last one tells whether a stream is
  -- running.
  pub streams_alternate :
      (s : Bool) (r : AudioReceiver) (ds : List (List ℕ × Double))
      → Announced s r.bus r.streaming
      → Announced s (on_datagrams r ds).bus (on_datagrams r ds).streaming
        × Announced s (stop (on_datagrams r ds)).bus false
  unfolding on_datagrams stop
  streams_alternate s r [] a = (a, stop-Announced s r.streaming r.bus a)
  streams_alternate s r ((d, now) ∷ ds) a =
      streams_alternate s (on_datagram f r d now) ds (datagram-Announced s r d now a)

-- ===== src/Examples/Audio.antt =====
-- The results on the audio path at concrete inputs. The arithmetic of doubles is stood in for by that
-- of the numbers.
use nexus_firmware.Prelude.{
  ℕ, ◌+◌, ◌-◌, ◌*◌, ◌/◌, ◌≤◌, ◌<◌, true, false, none, some, List, [], ◌∷◌, ◌≡◌, refl, arith, ltb,
  leb, All,
}
use nexus_firmware.Prelude.Int.{pos, pos_part}
use nexus_firmware.Core.Status.{Result, value}
use nexus_firmware.Audio.Float.{Double, FloatOps}
use nexus_firmware.Audio.Wire.{
  AudioPacket, pack_packet, unpack_packet, read_be32, read_be64, read_loop, read_samples,
  header_size,
}
use nexus_firmware.Audio.Wire.RoundTrip.{IsWellFormed, unpack-pack_packet, unpack_packet_sound}
use nexus_firmware.Audio.Buffer.{AudioBuffer, init, push}
use nexus_firmware.Audio.Buffer.Bounds.{Call, pushes, pops, Inv, run, start, run_bounded}
use nexus_firmware.Audio.Buffer.Loss.{push_all, advances, newest, loss_exact}
use nexus_firmware.Audio.Playback.{PlaybackManager}
use nexus_firmware.Audio.Playback.Output.{Turn, arrives, plays, arrivals as turn_arrivals, Output}
use nexus_firmware.Audio.Receiver.{AudioReceiver}

abbrev pub whole : FloatOps
whole = record {
  add = λ x y. x + y;
  sub = λ x y. x - y;
  mul = λ x y. x * y;
  div = λ x y. x / y;
  neg = λ x. x;
  lt = λ x y. ltb x y;
  le = λ x y. leb x y;
  of_int = λ n. pos_part n;
  of_sample = λ s. s;
  to_sample = λ x. x;
}

abbrev numbered : ℕ → AudioPacket
numbered n = record {
  header = record { timestamp = 5000; sequence = n; frame_count = 1; flags = 1 };
  samples = 7 ∷ 65535 ∷ [];
}

numbered_WellFormed : IsWellFormed 2 (numbered 3)
numbered_WellFormed = record {
  header = record {
    timestamp = omega arith;
    sequence = omega arith;
    frame_count = omega arith;
    flags = omega arith;
  };
  sized = refl;
  samples = (omega arith, (omega arith, tt));
}

unpack-pack_packet_example : unpack_packet (pack_packet (numbered 3)) 2 ≡ some (numbered 3)
unpack-pack_packet_example = unpack-pack_packet 2 (numbered 3) numbered_WellFormed (omega arith)

abbrev datagram : List ℕ
datagram =
    0 ∷ 0 ∷ 0 ∷ 0 ∷ 0 ∷ 0 ∷ 19 ∷ 136 ∷ 0 ∷ 0 ∷ 0 ∷ 0 ∷ 0 ∷ 0 ∷ 0 ∷ 3 ∷ 0 ∷ 0 ∷ 0 ∷ 1 ∷ 0 ∷ 0 ∷ 0 ∷ 1
    ∷ 7 ∷ 0 ∷ 255 ∷ 255 ∷ []

datagram_unpacks : unpack_packet datagram 2 ≡ some (numbered 3)
unfolding unpack_packet read_be32 read_be64 read_loop read_samples
datagram_unpacks = refl

datagram_bytes : All (λ (b : ℕ). b < 256) datagram
datagram_bytes = ground arith

unpack_packet_sound_example : (2 ≡ 1 * 2) × (header_size + 2 * 2 ≤ 28)
unpack_packet_sound_example =
    unpack_packet_sound datagram 2 datagram_bytes (omega arith) datagram_unpacks

abbrev traffic : List Call
traffic = pushes (numbered 1) ∷ pushes (numbered 2) ∷ pushes (numbered 4) ∷ pops ∷ pops ∷ pops ∷ []

run_bounded_example : (gone : List AudioPacket) × Inv 2 (run (start 1 2) traffic) gone
run_bounded_example = run_bounded 1 2 traffic (omega arith)

loss_exact_example :
    (push_all
        (push (init 1 2) (numbered 1))
        (numbered 3 ∷ numbered 2 ∷ numbered 6 ∷ [])).metrics.lost
      + advances 1 (numbered 3 ∷ numbered 2 ∷ numbered 6 ∷ [])
      + 1
    ≡ newest 1 (numbered 3 ∷ numbered 2 ∷ numbered 6 ∷ [])
loss_exact_example =
    loss_exact 1 2 (numbered 1) (numbered 3 ∷ numbered 2 ∷ numbered 6 ∷ []) (omega arith)
      (omega arith, (omega arith, (omega arith, tt)))

abbrev at_top : AudioBuffer
at_top = record {
  queue = [];
  prefill = 1;
  capacity = 4;
  metrics = record {
    depth = 0;
    received = 1;
    dropped_overflow = 0;
    lost = 0;
    underflows = 0;
    last_sequence = 18446744073709551615;
  };
  have_last_seq = true;
}

abbrev write : List ℕ → ℕ → Result ℕ
write pcm frames = value frames

abbrev player : PlaybackManager
player = record {
  buffer = record at_top { queue = numbered 1 ∷ numbered 2 ∷ [] };
  sync = some (record {
    target_buffer_ms = 0;
    stats = record { clock_offset_ms = 0; drift_ppm = 0; latency_ms = 0; observations = 0 };
    last_offset_ms = 0;
    have_offset = false;
  });
  muted = false;
  volume = pos 100;
  started = true;
  frames_played = 0;
  written = [];
}

abbrev new_player : PlaybackManager
new_player = record player { buffer = init 1 2; volume = pos 40 }

abbrev turns : List (Turn whole none write)
turns =
    arrives (numbered 1)
    ∷ plays none
    ∷ arrives (numbered 2)
    ∷ arrives (numbered 3)
    ∷ arrives (numbered 4)
    ∷ plays none
    ∷ []

abbrev dry : PlaybackManager
dry = record player { buffer = record at_top { prefill = 2 } }

abbrev idle : AudioReceiver
idle = record {
  bus = some (record { subs = []; next_token = 1; queue = []; running = true; in_flight = 0 });
  buffer = at_top;
  sync = record {
    target_buffer_ms = 0;
    stats = record { clock_offset_ms = 0; drift_ppm = 0; latency_ms = 0; observations = 0 };
    last_offset_ms = 0;
    have_offset = false;
  };
  channels = 2;
  streaming = false;
}

abbrev arrivals : List (List ℕ × Double)
arrivals = (datagram, 10) ∷ (7 ∷ [], 11) ∷ (datagram, 12) ∷ []

-- ===== src/Audio/Receiver.antt =====
-- src/audio/AudioReceiver.h and AudioReceiver.cpp: from datagrams to the buffer and to events.
pub mod Streams
use nexus_firmware.Prelude.{
  ℕ, Bool, true, false, not, ◌&&◌, Option, none, some, List, [], ◌∷◌, if◌then◌else◌,
}
use nexus_firmware.Core.Event.{event, audio_started, audio_stopped}
use nexus_firmware.Core.Bus.{Bus, notify}
use nexus_firmware.Audio.Float.{Double, FloatOps}
use nexus_firmware.Audio.Wire.{AudioPacket, unpack_packet, is_last}
use nexus_firmware.Audio.Buffer.{AudioBuffer, push}
use nexus_firmware.Audio.Sync.{StreamSync, observe}

pub record AudioReceiver : Type 0 where
  pub bus : Bus
  pub buffer : AudioBuffer
  pub sync : StreamSync
  pub channels : ℕ
  pub streaming : Bool

-- `if (!streaming_.exchange(true) && bus_)` publishes the start of a stream.
unfoldable pub mark_started : AudioReceiver → AudioReceiver
mark_started r = record r {
  streaming = true;
  bus = if r.streaming then r.bus else notify r.bus (event audio_started "audio" []);
}

-- `streaming_.exchange(false) && bus_` publishes its end.
unfoldable pub mark_stopped : AudioReceiver → AudioReceiver
mark_stopped r = record r {
  streaming = false;
  bus = if r.streaming then notify r.bus (event audio_stopped "audio" []) else r.bus;
}

-- `stop`, once the source has stopped.
unfoldable pub stop : AudioReceiver → AudioReceiver
unfolding mark_stopped
stop r = mark_stopped r

module _ (f : FloatOps) where
  unfoldable pub receive : AudioReceiver → AudioPacket → Double → AudioReceiver
  unfolding mark_started mark_stopped
  receive r p now =
      let taken = record r {
        sync = observe f r.sync p.header.timestamp now;
        buffer = push r.buffer p;
      } in
      let live = mark_started taken in if is_last p then mark_stopped live else live

  -- `onDatagram`; `now` is the reading of the clock.
  unfoldable pub on_datagram : AudioReceiver → List ℕ → Double → AudioReceiver
  on_datagram r d now = elim (unpack_packet d r.channels) [ none ↦ r | some p ↦ receive r p now ]

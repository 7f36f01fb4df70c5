-- ===== src/Status.antt =====
-- src/status/StatusService.cpp: heartbeats and alerts. A sink is the list of the payloads that it
-- was given; without one a payload goes to the bus. The heartbeat's thread calls `send_heartbeat`.
pub mod Quiet
use nexus_firmware.Prelude.{ℕ, ◌+◌, String, Bool, Option, none, some, List, [], ◌∷◌, ◌++◌}
use nexus_firmware.Prelude.Int.{ℤ}
use nexus_firmware.Core.Event.{
  Event, EventType, text, flag, int, event, command_executed, amplifier_overheat, amplifier_fault,
  amplifier_protection, audio_lost, streamer_disconnected, update_failed, mic_failure, temp_warning,
}
use nexus_firmware.Core.Bus.{Bus, notify}
use nexus_firmware.Config.Speaker.{SpeakerConfig}
use nexus_firmware.Control.Command.{Payload}

pub record StatusService : Type 0 where
  pub bus : Bus
  pub sink : Option (List Payload)
  pub device_id : String
  pub config : SpeakerConfig
  pub heartbeat_count : ℕ

-- `now` is what the clock shows.
unfoldable pub build_heartbeat : ℤ → StatusService → Payload
build_heartbeat now s =
    ("type", text "heartbeat")
    ∷ ("device_id", text s.device_id)
    ∷ ("state", text "ONLINE")
    ∷ ("volume", int s.config.audio.volume)
    ∷ ("muted", flag s.config.audio.muted)
    ∷ ("software_version", text s.config.device.software_version)
    ∷ ("paired", flag s.config.pairing.paired)
    ∷ ("timestamp", int now)
    ∷ []

unfoldable pub dispatch_to : Option (List Payload) → Payload → StatusService → StatusService
dispatch_to (some got) payload s = record s { sink = some (got ++ (payload ∷ [])) }
dispatch_to none payload s = record s {
  bus = notify s.bus (event command_executed "status" payload);
}

unfoldable pub dispatch : Payload → StatusService → StatusService
dispatch payload s = dispatch_to s.sink payload s

unfoldable pub send_heartbeat : ℤ → StatusService → StatusService
send_heartbeat now s = record (dispatch (build_heartbeat now s) s) {
  heartbeat_count = s.heartbeat_count + 1;
}

unfoldable pub alert_of : EventType → Option String
alert_of amplifier_overheat = some "AMPLIFIER_OVERHEAT"
alert_of amplifier_fault = some "AMPLIFIER_FAULT"
alert_of amplifier_protection = some "AMPLIFIER_PROTECTION"
alert_of audio_lost = some "AUDIO_LOST"
alert_of streamer_disconnected = some "STREAMER_DISCONNECTED"
alert_of update_failed = some "UPDATE_FAILED"
alert_of mic_failure = some "MICROPHONE_FAILURE"
alert_of temp_warning = some "TEMP_WARNING"
alert_of _ = none

unfoldable pub report : Option String → ℤ → StatusService → StatusService
report none now s = s
report (some alert) now s =
    dispatch
      (("type", text "alert")
        ∷ ("device_id", text s.device_id)
        ∷ ("alert", text alert)
        ∷ ("timestamp", int now)
        ∷ [])
      s

unfoldable pub on_event : ℤ → Event → StatusService → StatusService
on_event now e s = report (alert_of e.type) now s

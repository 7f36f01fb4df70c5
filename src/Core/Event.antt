-- ===== src/Core/Event.antt =====
-- src/core/Event.h: the catalog of events and the published event. The time stamp of an event is
-- not modelled; its JSON payload is the list of its fields, in the order that the source writes them.
use nexus_firmware.Prelude.{ℕ, Bool, String, List, ◌==◌}
use nexus_firmware.Prelude.Int.{ℤ}

pub data EventType : Type 0 where
  service_started service_stopped service_degraded service_faulted state_changed : EventType
  config_changed config_invalid shutdown_requested identity_provisioned identity_corrupt : EventType
  pairing_started pairing_completed pairing_failed network_connected network_disconnected :
      EventType
  ip_changed wifi_signal_low internet_available internet_unavailable streamer_found : EventType
  streamer_lost streamer_disconnected command_received command_executed audio_started : EventType
  audio_stopped audio_lost amplifier_overheat amplifier_protection amplifier_fault : EventType
  output_clipping mic_failure temp_warning health_check_failed watchdog_timeout : EventType
  safe_mode_entered update_available update_started update_failed update_completed : EventType
  rollback_triggered calibration_started calibration_completed calibration_failed : EventType

-- The number of an event type: its place in the enumeration.
unfoldable pub event_code : EventType → ℕ
event_code service_started = 0
event_code service_stopped = 1
event_code service_degraded = 2
event_code service_faulted = 3
event_code state_changed = 4
event_code config_changed = 5
event_code config_invalid = 6
event_code shutdown_requested = 7
event_code identity_provisioned = 8
event_code identity_corrupt = 9
event_code pairing_started = 10
event_code pairing_completed = 11
event_code pairing_failed = 12
event_code network_connected = 13
event_code network_disconnected = 14
event_code ip_changed = 15
event_code wifi_signal_low = 16
event_code internet_available = 17
event_code internet_unavailable = 18
event_code streamer_found = 19
event_code streamer_lost = 20
event_code streamer_disconnected = 21
event_code command_received = 22
event_code command_executed = 23
event_code audio_started = 24
event_code audio_stopped = 25
event_code audio_lost = 26
event_code amplifier_overheat = 27
event_code amplifier_protection = 28
event_code amplifier_fault = 29
event_code output_clipping = 30
event_code mic_failure = 31
event_code temp_warning = 32
event_code health_check_failed = 33
event_code watchdog_timeout = 34
event_code safe_mode_entered = 35
event_code update_available = 36
event_code update_started = 37
event_code update_failed = 38
event_code update_completed = 39
event_code rollback_triggered = 40
event_code calibration_started = 41
event_code calibration_completed = 42
event_code calibration_failed = 43

unfoldable pub eq_event : EventType → EventType → Bool
unfolding event_code
eq_event a b = event_code a == event_code b

-- A JSON value of a payload. A double is its 64-bit pattern; `nested` is a null, an array or an
-- object, whose contents the modelled code never reads.
pub data Value : Type 0 where
  text : String → Value
  flag : Bool → Value
  int : ℤ → Value
  real : ℕ → Value
  nested : Value

pub record Event : Type 0 where
  pub type : EventType
  pub source : String
  pub command_id : String
  pub payload : List (String × Value)

-- `Event{type, source, data}`.
abbrev pub event : EventType → String → List (String × Value) → Event
event t s d = record { type = t; source = s; command_id = ""; payload = d }

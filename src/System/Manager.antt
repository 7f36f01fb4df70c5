-- ===== src/System/Manager.antt =====
-- src/system/SystemManager.h and SystemManager.cpp: events of the bus drive the state machine. The
-- bus that the manager, the machine and safe mode point to is one object, kept in the machine.
pub mod Network
pub mod Recovery
pub mod Playback
pub mod Shutdown
pub mod Trail
use nexus_firmware.Prelude.{
  ℕ, ◌+◌, String, str_append, Bool, true, false, ◌&&◌, ◌||◌, leb, if◌then◌else◌, List, [], ◌∷◌, map,
}
use nexus_firmware.Core.Event.{
  EventType, Event, eq_event, network_connected, network_disconnected, streamer_found,
  pairing_completed, streamer_disconnected, audio_started, audio_stopped, config_invalid,
  identity_corrupt, update_failed, watchdog_timeout, shutdown_requested,
}
use nexus_firmware.Core.Bus.{Bus}
use nexus_firmware.System.State.{
  SystemState, booting, unconfigured, setup_mode, connecting_network, searching_streamer,
  authenticating, online, playing, calibrating, updating, degraded, offline, error_state,
  shutting_down, eq_state,
}
use nexus_firmware.System.Machine
use nexus_firmware.System.Machine.{StateMachine, transition_to}
use nexus_firmware.System.SafeMode
use nexus_firmware.System.SafeMode.{SafeMode, enter}

-- `error_streak_` is an int that is not bounded here.
pub record SystemManager : Type 0 where
  pub machine : StateMachine
  pub safe_mode : SafeMode
  pub error_streak : ℕ

unfoldable pub init : Bus → SystemManager
unfolding Machine.init SafeMode.init
init b = record { machine = Machine.init b; safe_mode = SafeMode.init; error_streak = 0 }

abbrev pub current : SystemManager → SystemState
current s = s.machine.current

-- A call of `transitionTo` whose status is dropped.
unfoldable pub move : SystemManager → SystemState → String → SystemManager
move s to reason = record s { machine = (transition_to s.machine to reason "").0 }

-- The private `enterSafeMode`.
unfoldable pub enter_safe_mode : SystemManager → String → SystemManager
enter_safe_mode s reason =
    if s.safe_mode.active
    then s
    else move
        (record s {
          safe_mode = (enter s.safe_mode s.machine.bus reason).0;
          machine = record s.machine { bus = (enter s.safe_mode s.machine.bus reason).1 };
        })
        degraded (str_append "safe mode: " reason)

-- `++error_streak_ >= 3` guards the call of `enterSafeMode`.
unfoldable pub strike : SystemManager → String → SystemManager
strike s reason =
    let s' = record s { error_streak = s.error_streak + 1 } in
    if leb 3 s'.error_streak then enter_safe_mode s' reason else s'

unfoldable pub past_discovery : SystemState → Bool
past_discovery authenticating = true
past_discovery online = true
past_discovery playing = true
past_discovery calibrating = true
past_discovery updating = true
past_discovery _ = false

unfoldable pub when_connected : SystemManager → SystemManager
when_connected s =
    let s' =
      if eq_state (current s) setup_mode
      then move s connecting_network "network connected (setup done)"
      else s in
    if past_discovery (current s') then s' else move s' searching_streamer "network connected"

unfoldable pub when_paired : SystemManager → SystemManager
when_paired s =
    record (if eq_state (current s) setup_mode
      then move s connecting_network "paired, joining network"
      else move s online "authenticated") { error_streak = 0 }

unfoldable pub when_audio_started : SystemManager → SystemManager
when_audio_started s =
    let s' =
      if eq_state (current s) searching_streamer || eq_state (current s) authenticating
      then move s online "audio arriving from a streamer"
      else s in
    move s' playing "audio started"

-- The `switch` of `handleEvent`.
unfoldable pub react : EventType → SystemManager → SystemManager
react network_connected s = when_connected s
react network_disconnected s = move s offline "network lost"
react streamer_found s = move s authenticating "streamer found"
react pairing_completed s = when_paired s
react streamer_disconnected s = move s offline "streamer disconnected"
react audio_started s = when_audio_started s
react audio_stopped s = move s online "audio stopped"
react config_invalid s = enter_safe_mode (move s degraded "config invalid") "config invalid"
react identity_corrupt s =
    enter_safe_mode (move s error_state "identity corrupt") "identity corrupt"
react update_failed s = strike s "repeated update failures"
react watchdog_timeout s = strike (move s degraded "watchdog timeout") "repeated watchdog timeouts"
react shutdown_requested s = move s shutting_down "shutdown requested"
react _ s = s

-- `handleEvent` reads nothing of an event but its type.
unfoldable pub handle_event : SystemManager → EventType → SystemManager
handle_event s e =
    if eq_state (current s) booting
      && (eq_event e network_connected || eq_event e network_disconnected)
    then s
    else react e s

unfoldable pub handle_all : SystemManager → List EventType → SystemManager
handle_all s [] = s
handle_all s (e ∷ es) = handle_all (handle_event s e) es

unfoldable pub enter_initial_state : SystemManager → Bool → SystemManager
enter_initial_state s configured =
    if configured
    then move s connecting_network "configured at boot"
    else move s unconfigured "no configuration at boot"

-- `stop`, once it has unsubscribed.
unfoldable pub stop : SystemManager → SystemManager
stop s = move s shutting_down "service stop"

-- ===== src/Amplifier.antt =====
-- src/amplifier/AmplifierManager.h and AmplifierManager.cpp. The hardware is the interface of
-- src/amplifier/IAmplifierHal.h: its answers during one call are an argument, and what is asked of it
-- is kept, newest first.
pub mod Mute
use nexus_firmware.Prelude.{
  Bool, true, false, not, ◌&&◌, ◌||◌, List, [], ◌∷◌, ◌==◌, ℕ, if◌then◌else◌,
}
use nexus_firmware.Core.Status.{
  Status, success, error, is_ok, Result, value, failed, permission_denied, unknown,
}
use nexus_firmware.Core.Event.{
  real, event, amplifier_fault, amplifier_protection, output_clipping, amplifier_overheat,
  temp_warning,
}
use nexus_firmware.Core.Bus.{Bus, notify}
use nexus_firmware.Audio.Float.{Double, FloatOps, zero_f}

pub data AmpState : Type 0 where
  off starting ready muted protection overheated fault : AmpState

abbrev amp_code : AmpState → ℕ
amp_code off = 0
amp_code starting = 1
amp_code ready = 2
amp_code muted = 3
amp_code protection = 4
amp_code overheated = 5
amp_code fault = 6

abbrev pub eq_amp : AmpState → AmpState → Bool
eq_amp s t = amp_code s == amp_code t

pub record AmplifierFlags : Type 0 where
  pub fault : Bool
  pub protection : Bool
  pub clipping : Bool

-- What the hardware answers during a call.
pub record Hal : Type 0 where
  pub power_on : Status
  pub mute : Status
  pub flags : Result AmplifierFlags
  pub temperature : Result Double

-- What the hardware is asked.
pub data HalCall : Type 0 where
  powers_on powers_off : HalCall
  mutes : Bool → HalCall

pub record AmplifierManager : Type 0 where
  pub bus : Bus
  pub calls : List HalCall
  pub warn_celsius : Double
  pub shutdown_celsius : Double
  pub state : AmpState
  pub warned : Bool
  pub no_hardware : Bool
  pub running : Bool

unfoldable pub init : Bus → Double → Double → AmplifierManager
init bus warn shutdown = record {
  bus = bus;
  calls = [];
  warn_celsius = warn;
  shutdown_celsius = shutdown;
  state = off;
  warned = false;
  no_hardware = false;
  running = false;
}

unfoldable pub transition : AmplifierManager → AmpState → AmplifierManager
transition a to = record a { state = to }

unfoldable pub ask : AmplifierManager → HalCall → AmplifierManager
ask a c = record a { calls = c ∷ a.calls }

unfoldable pub start : Hal → AmplifierManager → AmplifierManager × Status
start hal a =
    let asked = record (ask a powers_on) { running = true } in
    if is_ok hal.power_on
    then (transition (ask asked (mutes true)) starting, success)
    else (transition (record asked { no_hardware = true }) ready, success)

unfoldable pub stop : AmplifierManager → AmplifierManager × Status
stop a =
    let told = if a.no_hardware then a else ask (ask a (mutes true)) powers_off in
    (record (transition told off) { running = false }, success)

-- The amplifier is in none of the states that `unmute` refuses.
unfoldable pub is_healthy : AmpState → Bool
is_healthy s = not (eq_amp s fault || eq_amp s overheated || eq_amp s protection)

unfoldable pub unmute : Hal → AmplifierManager → AmplifierManager × Status
unmute hal a =
    if a.no_hardware
    then (a, success)
    else if is_healthy a.state
    then (if is_ok hal.mute
        then (transition (ask a (mutes false)) ready, success)
        else (ask a (mutes false), hal.mute))
    else (a, error permission_denied "cannot unmute: amp not healthy")

unfoldable pub mute : Hal → AmplifierManager → AmplifierManager × Status
mute hal a =
    if a.no_hardware
    then (a, success)
    else if is_ok hal.mute
    then (
      if eq_amp a.state ready || eq_amp a.state starting
          then transition (ask a (mutes true)) muted
          else ask a (mutes true),
      success,
    )
    else (ask a (mutes true), hal.mute)

-- The first half of `poll`: fault, protection and clipping.
unfoldable pub note_alarm : AmplifierFlags → AmplifierManager → AmplifierManager
note_alarm f a =
    if f.fault && not (eq_amp a.state fault)
    then record (transition (ask a (mutes true)) fault) {
      bus = notify a.bus (event amplifier_fault "amplifier" []);
    }
    else if f.protection && not (eq_amp a.state protection) && not (eq_amp a.state fault)
    then record (transition (ask a (mutes true)) protection) {
      bus = notify a.bus (event amplifier_protection "amplifier" []);
    }
    else a

unfoldable pub note_clipping : AmplifierFlags → AmplifierManager → AmplifierManager
note_clipping f a =
    if f.clipping then record a { bus = notify a.bus (event output_clipping "amplifier" []) } else a

unfoldable pub read_flags : Result AmplifierFlags → AmplifierManager → AmplifierManager
read_flags (failed code msg) a = a
read_flags (value f) a = note_clipping f (note_alarm f a)

unfoldable pub shut_down : Double → AmplifierManager → AmplifierManager
shut_down t a =
    if eq_amp a.state overheated then a else record (transition (ask a (mutes true)) overheated) {
      bus = notify a.bus (event amplifier_overheat "amplifier" (("temperature", real t) ∷ []));
    }

unfoldable pub warn : Double → AmplifierManager → AmplifierManager
warn t a = if a.warned then a else record a {
  warned = true;
  bus = notify a.bus (event temp_warning "amplifier" (("temperature", real t) ∷ []));
}

unfoldable pub cool_down : AmplifierManager → AmplifierManager
cool_down a =
    let calm = record a { warned = false } in
    if eq_amp a.state overheated then transition calm muted else calm

unfoldable pub health_check : AmplifierManager → Status
health_check a = if eq_amp a.state fault then error unknown "amplifier fault" else success

module _ (f : FloatOps) where
  open f use {le}

  -- The second half of `poll`.
  unfoldable pub judge : Result Double → AmplifierManager → AmplifierManager
  judge (failed code msg) a = a
  judge (value t) a =
      if le a.shutdown_celsius t
      then shut_down t a
      else if le a.warn_celsius t
      then warn t a
      else cool_down a

  unfoldable pub poll : Hal → AmplifierManager → AmplifierManager × Result Double
  poll hal a =
      if a.no_hardware
      then (a, value zero_f)
      else (judge hal.temperature (read_flags hal.flags a), hal.temperature)

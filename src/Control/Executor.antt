-- ===== src/Control/Executor.antt =====
-- src/control/CommandExecutor.h and CommandExecutor.cpp. `now` is the reading of the clock, 0 where there is none.
pub mod Settings
pub mod Volume
use nexus_firmware.Prelude.{
  ℕ, ◌+◌, ◌-◌, ◌%◌, ◌^◌, String, str_eq, str_append, Bool, true, false, not, ◌&&◌, ◌||◌, Option,
  none, some, List, [], ◌∷◌, ◌++◌, ltb, if◌then◌else◌,
}
use nexus_firmware.Prelude.Int.{ℤ, pos, negsuc, ltb_ℤ, ◌-ℤ◌}
use nexus_firmware.Core.Status.{
  ErrorCode, Status, success, error, to_int, invalid_arg, not_found, not_implemented,
}
use nexus_firmware.Core.Event.{
  Event, Value, text, flag, int, real, event, command_received, command_executed,
  shutdown_requested,
}
use nexus_firmware.Core.Bus.{notify}
use nexus_firmware.Audio.Float.{Double, FloatOps}
use nexus_firmware.Config.Speaker.{SpeakerConfig, AudioConfig}
use nexus_firmware.Config.Manager.{ConfigManager, Io, update}
use nexus_firmware.Control.Command.{
  Command, CommandResult, Payload, LinkState, report, field, int_field, flag_field,
}
use nexus_firmware.Control.Reply.{
  Telemetry, CommandExecutor, get_int, ok, fail, publish_to, emit_executed, set_audio, text_or,
  Outcome, replies,
}

-- The constants 20.0 and -20.0.
abbrev pub gain_max : Double
gain_max = 0x4034_0000_0000_0000

abbrev pub gain_min : Double
gain_min = 0xc034_0000_0000_0000

unfoldable pub set_volume : CommandExecutor → Io → Command → CommandExecutor × CommandResult
set_volume e io c = elim (int_field c.payload "volume") [
  | none ↦ (e, fail c invalid_arg "SET_VOLUME requires integer 'volume'")
  | some v ↦
      set_audio e io c (λ a. record a { volume = get_int v }) (("volume", int (get_int v)) ∷ [])
]

unfoldable pub set_mute : CommandExecutor → Io → Command → CommandExecutor × CommandResult
set_mute e io c = elim (flag_field c.payload "muted") [
  | none ↦ (e, fail c invalid_arg "SET_MUTE requires boolean 'muted'")
  | some m ↦ set_audio e io c (λ a. record a { muted = m }) (("muted", flag m) ∷ [])
]

unfoldable pub set_delay : CommandExecutor → Io → Command → CommandExecutor × CommandResult
set_delay e io c = elim (int_field c.payload "delay_ms") [
  | none ↦ (e, fail c invalid_arg "SET_DELAY requires integer 'delay_ms'")
  | some d ↦
      set_audio e io c (λ a. record a { delay_ms = get_int d }) (("delay_ms", int (get_int d)) ∷ [])
]

unfoldable pub set_eq : CommandExecutor → Io → Command → Outcome
set_eq e io c = elim (text_or (field c.payload "eq_profile") "default") [
  | none ↦ (e, none)
  | some profile ↦ replies (
      set_audio e io c (λ a. record a { eq_profile = profile }) (("eq_profile", text profile) ∷ []))
]

unfoldable pub set_phase_invert : CommandExecutor → Io → Command → CommandExecutor × CommandResult
set_phase_invert e io c = elim (flag_field c.payload "phase_invert") [
  | none ↦ (e, fail c invalid_arg "SET_PHASE_INVERT requires boolean 'phase_invert'")
  | some i ↦ set_audio e io c (λ a. record a { phase_invert = i }) (("phase_invert", flag i) ∷ [])
]

-- The refusal is told apart from a measurement that fails, which is a reply of the runner.
unfoldable pub run_measurement : CommandExecutor → Command → CommandExecutor × CommandResult
run_measurement e c = elim e.measurement [
  | none ↦ (
    e,
    fail c not_implemented "this speaker has no measurement capability (no microphone configured)",
  )
  | some run ↦ (emit_executed e c [], ok c (run c.payload))
]

unfoldable pub record_link : CommandExecutor → Command → ℤ → ℤ → Option String → Outcome
record_link e c now dbm none = (e, none)
record_link e c now dbm (some sid) = (
  record e {
    link_state = elim e.link_state [ none ↦ none | some l ↦ some (report l dbm sid now) ];
  },
  some (ok c (("recorded", flag true) ∷ ("wifi_signal_dbm", int dbm) ∷ [])),
)

unfoldable pub report_link : CommandExecutor → Command → ℤ → Outcome
report_link e c now = elim (int_field c.payload "wifi_signal_dbm") [
  | none ↦ (e, some (ok c (("recorded", flag false) ∷ [])))
  | some n ↦ record_link e c now (get_int n) (text_or (field c.payload "streamer_id") "")
]

unfoldable pub telemetry_fields : Option Telemetry → Payload
telemetry_fields none = []
telemetry_fields (some t) =
    if t.is_object && not t.is_empty then ("telemetry", t.value) ∷ [] else []

unfoldable pub link_fields : Option LinkState → ℤ → Payload
link_fields none now = []
link_fields (some l) now =
    if l.valid
    then ("wifi_signal_dbm", int l.wifi_signal_dbm)
      ∷ (if ltb_ℤ (pos 0) now && ltb_ℤ (pos 0) l.reported_at
          then ("link_age_s", int (now -ℤ l.reported_at)) ∷ []
          else [])
    else []

unfoldable pub get_status : CommandExecutor → Command → ℤ → CommandResult
get_status e c now =
    let cfg = e.config.config in
    ok c (
      ("volume", int cfg.audio.volume)
      ∷ ("muted", flag cfg.audio.muted)
      ∷ ("delay_ms", int cfg.audio.delay_ms)
      ∷ ("eq_profile", text cfg.audio.eq_profile)
      ∷ ("gain_db", real cfg.audio.gain_db)
      ∷ ("phase_invert", flag cfg.audio.phase_invert)
      ∷ ("paired", flag cfg.pairing.paired)
      ∷ (telemetry_fields e.telemetry ++ link_fields e.link_state now))

-- The commands that are acknowledged and left to other modules.
unfoldable pub is_deferred : String → Bool
is_deferred c =
    str_eq c "START_AUDIO"
    || str_eq c "STOP_AUDIO"
    || str_eq c "PAUSE_AUDIO"
    || str_eq c "RESUME_AUDIO"
    || str_eq c "RUN_CALIBRATION"
    || str_eq c "RUN_SELF_TEST"
    || str_eq c "RUN_AUDIO_TEST"
    || str_eq c "UPDATE_SOFTWARE"

unfoldable pub is_lifecycle : String → Bool
is_lifecycle c = str_eq c "REBOOT" || str_eq c "RESET_NETWORK" || str_eq c "FACTORY_RESET"

unfoldable pub lifecycle : CommandExecutor → Command → CommandExecutor
lifecycle e c =
    let told = emit_executed e c [] in
    if str_eq c.command "REBOOT"
    then publish_to told (event shutdown_requested "control" [])
    else told

module _ (f : FloatOps) where
  open f use {lt, of_int}

  unfoldable pub clamp_gain : Double → Double
  clamp_gain g =
      let low = if lt gain_max g then gain_max else g in if lt low gain_min then gain_min else low

  -- A JSON number as a double.
  unfoldable pub number_field : Payload → String → Option Double
  number_field p k = elim (field p k) [
    | some (real x) ↦ some x
    | some (int n) ↦ some (of_int n)
    | some other ↦ none
    | none ↦ none
  ]

  unfoldable pub set_gain : CommandExecutor → Io → Command → CommandExecutor × CommandResult
  set_gain e io c = elim (number_field c.payload "gain_db") [
    | none ↦ (e, fail c invalid_arg "SET_GAIN requires numeric 'gain_db'")
    | some g ↦
        set_audio e io c (λ a. record a { gain_db = clamp_gain g })
          (("gain_db", real (clamp_gain g)) ∷ [])
  ]

  -- The chain of tests on the command's name.
  unfoldable pub run_command : CommandExecutor → Io → Command → ℤ → Outcome
  run_command e io c now =
      if str_eq c.command "GET_STATUS"
      then (e, some (get_status e c now))
      else if str_eq c.command "SET_VOLUME"
      then replies (set_volume e io c)
      else if str_eq c.command "SET_MUTE"
      then replies (set_mute e io c)
      else if str_eq c.command "SET_DELAY"
      then replies (set_delay e io c)
      else if str_eq c.command "SET_EQ"
      then set_eq e io c
      else if str_eq c.command "RUN_MEASUREMENT"
      then replies (run_measurement e c)
      else if str_eq c.command "SET_GAIN"
      then replies (set_gain e io c)
      else if str_eq c.command "SET_PHASE_INVERT"
      then replies (set_phase_invert e io c)
      else if is_deferred c.command
      then (
        emit_executed e c [],
        some (ok c (("accepted", flag true) ∷ ("deferred", flag true) ∷ [])),
      )
      else if is_lifecycle c.command
      then (lifecycle e c, some (ok c (("accepted", flag true) ∷ [])))
      else if str_eq c.command "REPORT_LINK"
      then report_link e c now
      else (e, some (fail c not_found (str_append "unknown command: " c.command)))

  unfoldable pub execute : CommandExecutor → Io → Command → ℤ → Outcome
  execute e io c now =
      run_command
        (publish_to e (event command_received "control" (("command", text c.command) ∷ []))) io c
        now

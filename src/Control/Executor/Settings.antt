-- ===== src/Control/Executor/Settings.antt =====
-- What commands do to the stored settings (src/control/CommandExecutor.cpp).
use nexus_firmware.Prelude.{
  ◌≡◌, refl, sym, ap, subst, ◌∙◌, ◌⊎◌, inl, inr, Bool, true, false, Option, none, some, [], str_eq,
  Bool-cases, Option-cases, if◌then◌else◌,
}
use nexus_firmware.Prelude.Int.{ℤ}
use nexus_firmware.Core.Status.{failure_of_is_ok, is_ok}
use nexus_firmware.Audio.Float.{FloatOps}
use nexus_firmware.Config.Speaker.{SpeakerConfig, AudioConfig, validate}
use nexus_firmware.Config.Manager.{Io, file_of}
use nexus_firmware.Config.Manager.Updates.{update_settles}
use nexus_firmware.Control.Command.{Command, CommandResult, Payload, int_field, flag_field, field}
use nexus_firmware.Control.Reply.{
  CommandExecutor, Outcome, replies, ok, fail, publish_to, emit_executed, set_audio, text_or,
}
use nexus_firmware.Control.Executor.{
  set_volume, set_mute, set_delay, set_eq, set_phase_invert, set_gain, run_measurement, report_link,
  record_link, lifecycle, run_command, number_field, execute,
}

unfoldable pub is_accepted : Option CommandResult → Bool
is_accepted none = false
is_accepted (some r) = r.ok

-- The settings in memory and in the file are as before; or the command was answered with ok, and
-- they are now valid in memory and the file is the one written from them, which lacks the device's
-- name.
unfoldable pub Settles : CommandExecutor → Outcome → Type 0
unfolding is_accepted
Settles e (e', o) =
    ((e'.config.config ≡ e.config.config) × (e'.config.disk.primary ≡ e.config.disk.primary))
    ⊎ ((is_accepted o ≡ true)
        × (is_ok (validate e'.config.config) ≡ true)
        × (e'.config.disk.primary ≡ some (file_of e'.config.config)))

pub settled :
    (e : CommandExecutor) (io : Io) (c : Command) (change : AudioConfig → AudioConfig)
    (extra : Payload)
    → let (e', r) = set_audio e io c change extra in
      ((r.ok ≡ true)
        × (is_ok (validate e'.config.config) ≡ true)
        × (e'.config.config ≡ record e.config.config { audio = change e.config.config.audio })
        × (e'.config.disk.primary ≡ some (file_of e'.config.config)))
      ⊎ ((r.ok ≡ false)
          × (e'.config.config ≡ e.config.config)
          × (e'.config.disk.primary ≡ e.config.disk.primary))
unfolding set_audio emit_executed publish_to ok fail
settled e io c change extra =
    elim (update_settles io (λ (cfg : SpeakerConfig). record cfg { audio = change cfg.audio })
      e.config) [
        | inl (done, good, same, stored, told) ↦
            rw (done, set_audio)
              (inl (
                refl,
                subst (λ z. is_ok (validate z) ≡ true) (sym same) good,
                same,
                stored ∙ ap (λ z. some (file_of z)) (sym same),
              ))
        | inr (failed, same, kept, silent) ↦
            let (code, msg, bad) = failure_of_is_ok _ failed in
            rw (bad, set_audio) (inr (refl, same, kept))
      ]

set_audio-Settles :
    (e : CommandExecutor) (io : Io) (c : Command) (change : AudioConfig → AudioConfig)
    (extra : Payload)
    → Settles e (replies (set_audio e io c change extra))
unfolding Settles is_accepted
set_audio-Settles e io c change extra = elim (settled e io c change extra) [
  | inl (accepted, good, changed, stored) ↦ inr (accepted, good, stored)
  | inr (refused, same, kept) ↦ inl (same, kept)
]

either-Settles :
    (b : Bool) (e : CommandExecutor) (x y : Outcome)
    → Settles e x
    → Settles e y
    → Settles e (if b then x else y)
either-Settles true e x y h k = h
either-Settles false e x y h k = k

unchanged : (e : CommandExecutor) (o : Option CommandResult) → Settles e (e, o)
unfolding Settles
unchanged e o = inl (refl, refl)

set_volume-Settles :
    (e : CommandExecutor) (io : Io) (c : Command) → Settles e (replies (set_volume e io c))
unfolding Settles set_volume
set_volume-Settles e io c = elim (Option-cases (int_field c.payload "volume")) [
  | inl none' ↦ rw (none', set_volume) (inl (refl, refl))
  | inr (v, given) ↦ rw (given, set_volume) (set_audio-Settles e io c _ _)
]

set_mute-Settles :
    (e : CommandExecutor) (io : Io) (c : Command) → Settles e (replies (set_mute e io c))
unfolding Settles set_mute
set_mute-Settles e io c = elim (Option-cases (flag_field c.payload "muted")) [
  | inl none' ↦ rw (none', set_mute) (inl (refl, refl))
  | inr (v, given) ↦ rw (given, set_mute) (set_audio-Settles e io c _ _)
]

set_delay-Settles :
    (e : CommandExecutor) (io : Io) (c : Command) → Settles e (replies (set_delay e io c))
unfolding Settles set_delay
set_delay-Settles e io c = elim (Option-cases (int_field c.payload "delay_ms")) [
  | inl none' ↦ rw (none', set_delay) (inl (refl, refl))
  | inr (v, given) ↦ rw (given, set_delay) (set_audio-Settles e io c _ _)
]

set_eq-Settles : (e : CommandExecutor) (io : Io) (c : Command) → Settles e (set_eq e io c)
unfolding Settles set_eq
set_eq-Settles e io c = elim (Option-cases (text_or (field c.payload "eq_profile") "default")) [
  | inl none' ↦ rw (none', set_eq) (inl (refl, refl))
  | inr (v, given) ↦ rw (given, set_eq) (set_audio-Settles e io c _ _)
]

set_phase_invert-Settles :
    (e : CommandExecutor) (io : Io) (c : Command) → Settles e (replies (set_phase_invert e io c))
unfolding Settles set_phase_invert
set_phase_invert-Settles e io c = elim (Option-cases (flag_field c.payload "phase_invert")) [
  | inl none' ↦ rw (none', set_phase_invert) (inl (refl, refl))
  | inr (v, given) ↦ rw (given, set_phase_invert) (set_audio-Settles e io c _ _)
]

run_measurement-Settles :
    (e : CommandExecutor) (c : Command) → Settles e (replies (run_measurement e c))
unfolding Settles run_measurement emit_executed publish_to
run_measurement-Settles e c = elim (Option-cases e.measurement) [
  | inl none' ↦ rw (none', run_measurement) (inl (refl, refl))
  | inr (v, given) ↦ rw (given, run_measurement) (inl (refl, refl))
]

report_link-Settles :
    (e : CommandExecutor) (c : Command) (now : ℤ) → Settles e (report_link e c now)
unfolding Settles report_link record_link
report_link-Settles e c now = elim (Option-cases (int_field c.payload "wifi_signal_dbm")) [
  | inl none' ↦ rw (none', report_link) (inl (refl, refl))
  | inr (v, given) ↦ elim (Option-cases (text_or (field c.payload "streamer_id") "")) [
    | inl thrown ↦ rw (given, report_link, thrown, record_link) (inl (refl, refl))
    | inr (sid, named) ↦ rw (given, report_link, named, record_link) (inl (refl, refl))
  ]
]

lifecycle-Settles :
    (e : CommandExecutor) (c : Command) (o : Option CommandResult) → Settles e (lifecycle e c, o)
unfolding Settles lifecycle emit_executed publish_to
lifecycle-Settles e c o = elim (Bool-cases (str_eq c.command "REBOOT")) [
  | inl reboot ↦ rw (reboot, lifecycle) (inl (refl, refl))
  | inr other ↦ rw (other, lifecycle) (inl (refl, refl))
]

emit_executed-Settles :
    (e : CommandExecutor) (c : Command) (extra : Payload) (o : Option CommandResult)
    → Settles e (emit_executed e c extra, o)
unfolding Settles emit_executed publish_to
emit_executed-Settles e c extra o = inl (refl, refl)

module _ (f : FloatOps) where
  set_gain-Settles :
      (e : CommandExecutor) (io : Io) (c : Command) → Settles e (replies (set_gain f e io c))
  unfolding Settles set_gain
  set_gain-Settles e io c = elim (Option-cases (number_field f c.payload "gain_db")) [
    | inl missing ↦ rw (missing, set_gain) (inl (refl, refl))
    | inr (v, given) ↦ rw (given, set_gain) (set_audio-Settles e io c _ _)
  ]

  run_command-Settles :
      (e : CommandExecutor) (io : Io) (c : Command) (now : ℤ) → Settles e (run_command f e io c now)
  unfolding run_command
  run_command-Settles e io c now = either-Settles _ e _ _ (unchanged e _) (
      either-Settles _ e _ _ (set_volume-Settles e io c) (
        either-Settles _ e _ _ (set_mute-Settles e io c) (
          either-Settles _ e _ _ (set_delay-Settles e io c) (
            either-Settles _ e _ _ (set_eq-Settles e io c) (
              either-Settles _ e _ _ (run_measurement-Settles e c) (
                either-Settles _ e _ _ (set_gain-Settles e io c) (
                  either-Settles _ e _ _ (set_phase_invert-Settles e io c) (
                    either-Settles _ e _ _ (emit_executed-Settles e c [] _) (
                      either-Settles _ e _ _ (lifecycle-Settles e c _) (
                        either-Settles _ e _ _ (report_link-Settles e c now)
                          (unchanged e _)))))))))))

  -- Whatever the command, its payload and the answers of the operating system: the settings in memory
  -- and in the file are as before; or the command is answered with ok, the settings in memory are ones
  -- that the validator accepts, and the file is what is written for them (without the device's name).
  pub execute-Settles :
      (e : CommandExecutor) (io : Io) (c : Command) (now : ℤ) → Settles e (execute f e io c now)
  unfolding execute publish_to Settles
  execute-Settles e io c now = run_command-Settles _ io c now

-- ===== src/Control/Executor/Volume.antt =====
-- The volume command and the status report, and the profile that leaves `execute` by an exception
-- (src/control/CommandExecutor.cpp).
use nexus_firmware.Prelude.{
  ◌≡◌, refl, ap, subst, ◌∙◌, ◌⊎◌, inl, inr, true, false, none, some, [], ◌∷◌, arith,
}
use nexus_firmware.Prelude.Int.{ℤ, pos, leb_ℤ}
use nexus_firmware.Core.Status.{is_ok}
use nexus_firmware.Core.Event.{int}
use nexus_firmware.Audio.Float.{FloatOps}
use nexus_firmware.Config.Speaker.{SpeakerConfig, validate}
use nexus_firmware.Config.Manager.{Io}
use nexus_firmware.Control.Command.{Command, int_field, field}
use nexus_firmware.Control.Reply.{CommandExecutor, get_int, ok, text_or}
use nexus_firmware.Control.Executor.{set_volume, set_eq, get_status, execute, run_command}
use nexus_firmware.Control.Executor.Settings.{settled}

volume_of_status :
    (e : CommandExecutor) (c : Command) (now : ℤ)
    → field (get_status e c now).payload "volume" ≡ some (int e.config.config.audio.volume)
unfolding get_status ok field
volume_of_status e c now = refl

valid_volume :
    (c : SpeakerConfig)
    → is_ok (validate c) ≡ true
    → (leb_ℤ (pos 0) c.audio.volume ≡ true) × (leb_ℤ c.audio.volume (pos 100) ≡ true)
unfolding validate
valid_volume c good = ground arith

-- SET_VOLUME with an integer: it is answered with ok, the volume is within 0 and 100 and every later
-- GET_STATUS reports it; or it is refused and the settings are as before.
pub set_volume_shown :
    (e : CommandExecutor) (io : Io) (c d : Command) (now v : ℤ)
    → int_field c.payload "volume" ≡ some v
    → let (e', r) = set_volume e io c in
      ((r.ok ≡ true)
        × (leb_ℤ (pos 0) (get_int v) ≡ true)
        × (leb_ℤ (get_int v) (pos 100) ≡ true)
        × (field (get_status e' d now).payload "volume" ≡ some (int (get_int v))))
      ⊎ ((r.ok ≡ false) × (e'.config.config ≡ e.config.config))
unfolding set_volume
set_volume_shown e io c d now v given =
    elim (settled e io c (λ a. record a { volume = get_int v })
      (("volume", int (get_int v)) ∷ [])) [
        | inl (accepted, good, changed, stored) ↦
            let shown = ap (λ z. z.audio.volume) changed in
            let bounds = valid_volume _ good in
            rw (given, set_volume)
              (inl (
                accepted,
                subst (λ z. leb_ℤ (pos 0) z ≡ true) shown bounds.0,
                subst (λ z. leb_ℤ z (pos 100) ≡ true) shown bounds.1,
                volume_of_status _ d now ∙ ap (λ z. some (int z)) shown,
              ))
        | inr (refused, same, kept) ↦ rw (given, set_volume) (inr (refused, same))
      ]

thrown :
    (e : CommandExecutor) (io : Io) (c : Command)
    → text_or (field c.payload "eq_profile") "default" ≡ none
    → set_eq e io c ≡ (e, none)
unfolding set_eq
thrown e io c bad = rw (bad, set_eq) refl

module _ (f : FloatOps) where
  named_set_eq :
      (e : CommandExecutor) (io : Io) (c : Command) (now : ℤ)
      → c.command ≡ "SET_EQ"
      → run_command f e io c now ≡ set_eq e io c
  unfolding run_command
  named_set_eq e io c now name = rw (name, run_command) refl

  -- SET_EQ with an eq_profile that is not a text has no result: an exception leaves `execute`.
  pub set_eq_escapes :
      (e : CommandExecutor) (io : Io) (c : Command) (now : ℤ)
      → c.command ≡ "SET_EQ"
      → text_or (field c.payload "eq_profile") "default" ≡ none
      → (execute f e io c now).1 ≡ none
  unfolding execute
  set_eq_escapes e io c now name bad =
      ap (λ z. z.1) (named_set_eq _ io c now name ∙ thrown _ io c bad)

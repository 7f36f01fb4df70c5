-- ===== src/System/SafeMode.antt =====
-- src/system/SafeMode.h. The action that mutes the amplifier and stops playback is injected: the
-- model counts its runs. The bus is passed in, since all modules share one.
use nexus_firmware.Prelude.{ℕ, ◌+◌, String, Bool, true, false, [], ◌∷◌, if◌then◌else◌}
use nexus_firmware.Core.Event.{text, event, safe_mode_entered}
use nexus_firmware.Core.Bus.{Bus, notify}

pub record SafeMode : Type 0 where
  pub active : Bool
  pub disable : Bool  -- whether `disable_` holds an action
  pub disable_runs : ℕ

unfoldable pub init : SafeMode
init = record { active = false; disable = false; disable_runs = 0 }

unfoldable pub set_disable_action : SafeMode → Bool → SafeMode
set_disable_action s fn = record s { disable = fn }

unfoldable pub enter : SafeMode → Bus → String → SafeMode × Bus
enter s bus reason = if s.active then (s, bus) else (
  record s {
    active = true;
    disable_runs = if s.disable then s.disable_runs + 1 else s.disable_runs;
  },
  notify bus (event safe_mode_entered "system" (("reason", text reason) ∷ [])),
)

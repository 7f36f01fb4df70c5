-- ===== src/Control/Reply.antt =====
-- The executor's state and replies, and what its commands share (src/control/CommandExecutor.h and
-- CommandExecutor.cpp). The bus that the executor publishes to is that of the configuration manager.
use nexus_firmware.Prelude.{
  ℕ, ◌-◌, ◌%◌, ◌^◌, String, Bool, true, false, Option, none, some, [], ◌∷◌, ltb, if◌then◌else◌,
}
use nexus_firmware.Prelude.Int.{ℤ, pos, negsuc}
use nexus_firmware.Core.Status.{ErrorCode, success, error, to_int}
use nexus_firmware.Core.Event.{Event, Value, text, event, command_executed}
use nexus_firmware.Core.Bus.{notify}
use nexus_firmware.Config.Speaker.{SpeakerConfig, AudioConfig}
use nexus_firmware.Config.Manager.{ConfigManager, Io, update}
use nexus_firmware.Control.Command.{Command, CommandResult, Payload, LinkState}

-- What a telemetry provider answers: a JSON value, and whether it is an object and has no elements.
pub record Telemetry : Type 0 where
  pub value : Value
  pub is_object : Bool
  pub is_empty : Bool

-- `telemetry` is what the telemetry provider would answer, and `measurement` the measurement runner;
-- none for one that is not set.
pub record CommandExecutor : Type 0 where
  pub config : ConfigManager
  pub link_state : Option LinkState
  pub telemetry : Option Telemetry
  pub measurement : Option (Payload → Payload)

-- `get<int>()` of a JSON integer: the conversion to 32 bits.
abbrev signed32 : ℕ → ℤ
signed32 w = if ltb w (2 ^ 31) then pos w else negsuc (2 ^ 32 - w - 1)

unfoldable pub get_int : ℤ → ℤ
get_int (pos n) = signed32 (n % 2 ^ 32)
get_int (negsuc n) = signed32 (2 ^ 32 - 1 - n % 2 ^ 32)

unfoldable pub ok : Command → Payload → CommandResult
ok c data' = record {
  command_id = c.command_id;
  ok = true;
  message = "ok";
  error_code = 0;
  payload = data';
}

unfoldable pub fail : Command → ErrorCode → String → CommandResult
fail c code msg = record {
  command_id = c.command_id;
  ok = false;
  message = msg;
  error_code = to_int code;
  payload = [];
}

unfoldable pub publish_to : CommandExecutor → Event → CommandExecutor
publish_to e ev = record e { config = record e.config { bus = notify e.config.bus ev } }

-- The local `emit_executed`.
unfoldable pub emit_executed : CommandExecutor → Command → Payload → CommandExecutor
emit_executed e c extra =
    publish_to e (record (event command_executed "control" (("command", text c.command) ∷ extra)) {
      command_id = c.command_id;
    })

-- A command that changes the stored configuration: `update`, then the event and the reply.
unfoldable pub set_audio :
    CommandExecutor
    → Io
    → Command
    → (AudioConfig → AudioConfig)
    → Payload
    → CommandExecutor × CommandResult
set_audio e io c change extra =
    let (m, s) =
      update io (λ (cfg : SpeakerConfig). record cfg { audio = change cfg.audio }) e.config in
    elim s [
      | success ↦ (emit_executed (record e { config = m }) c extra, ok c extra)
      | error code msg ↦ (record e { config = m }, fail c code msg)
    ]

-- `payload.value(k, d)` for a text: the default where the field is missing; none stands for the
-- exception that the library throws at a field of another type.
unfoldable pub text_or : Option Value → String → Option String
text_or none d = some d
text_or (some (text s)) d = some s
text_or (some _) d = none

-- The result of a command; none where an exception leaves `execute`.
abbrev pub Outcome : Type 0
Outcome = CommandExecutor × Option CommandResult

abbrev pub replies : CommandExecutor × CommandResult → Outcome
replies (e, r) = (e, some r)

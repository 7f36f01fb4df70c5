-- ===== src/Control/Router.antt =====
-- src/control/CommandRouter.h and CommandRouter.cpp. Parsing is the JSON library's: a request is the
-- command that it parses to, or none. The history is always there, as `CommandServer` passes one.
pub mod Kept
pub mod Idempotence
use nexus_firmware.Prelude.{
  ℕ, String, str_eq, Bool, true, false, Option, none, some, List, [], ◌∷◌, if◌then◌else◌,
}
use nexus_firmware.Prelude.Int.{ℤ}
use nexus_firmware.Core.Status.{Status, success, error, to_int, invalid_arg}
use nexus_firmware.Audio.Float.{FloatOps}
use nexus_firmware.Config.Manager.{Io}
use nexus_firmware.Control.Command.{Command, CommandResult}
use nexus_firmware.Control.History.{CommandHistory, try_get, remember}
use nexus_firmware.Control.Validator.{validate}
use nexus_firmware.Control.Reply.{CommandExecutor}
use nexus_firmware.Control.Executor.{execute}

pub record CommandRouter : Type 0 where
  pub executor : CommandExecutor
  pub history : CommandHistory

-- What `handle` is called with, beside the request: the device's id, the paired streamer's key, the
-- reading of the clock, and the answers of the operating system.
pub record Context : Type 0 where
  pub device_id : String
  pub key : String
  pub now : ℤ
  pub io : Io

unfoldable pub err : String → ℕ × String → CommandResult
err id (code, msg) = record {
  command_id = id;
  ok = false;
  message = msg;
  error_code = code;
  payload = [];
}

-- The result; none where an exception of the executor leaves `handle`.
abbrev pub Handled : Type 0
Handled = CommandRouter × Option CommandResult

module _ (f : FloatOps) (verify : Command → String → Bool) where
  unfoldable pub record_result :
      CommandRouter → Command → CommandExecutor × Option CommandResult → Handled
  record_result r c (e, none) = (record r { executor = e }, none)
  record_result r c (e, some result) = (
    record r {
      executor = e;
      history =
          if str_eq c.command "REPORT_LINK"
          then r.history
          else remember r.history c.command_id result;
    },
    some result,
  )

  unfoldable pub check_and_run : CommandRouter → Context → Command → Handled
  check_and_run r x c = elim (validate verify c x.device_id x.key x.now) [
    | error code msg ↦ (r, some (err c.command_id (to_int code, msg)))
    | success ↦ record_result r c (execute f r.executor x.io c x.now)
  ]

  unfoldable pub handle_command : CommandRouter → Context → Command → Handled
  handle_command r x c = elim (try_get r.history c.command_id) [
    | some prior ↦ (r, some prior)
    | none ↦ check_and_run r x c
  ]

  unfoldable pub handle : CommandRouter → Context → Option Command → Handled
  handle r x none = (r, some (err "" (to_int invalid_arg, "malformed command json: ")))
  handle r x (some c) = handle_command r x c

-- ===== src/Examples/Control.antt =====
-- The results on commands at concrete inputs.
use nexus_firmware.Prelude.{
  ◌<◌, ◌&&◌, sym, is_empty, String, str_eq, Bool, false, true, false, none, some, Option, List, [],
  ◌∷◌, ◌≡◌, refl, arith, length,
}
use nexus_firmware.Prelude.Int.{pos}
use nexus_firmware.Core.Status.{success, Result, value}
use nexus_firmware.Core.Event.{int}
use nexus_firmware.Config.Speaker.{
  defaults, validate as config_valid, eq_int, is_log_level, is_connection_mode,
}
use nexus_firmware.Config.Manager.{Io, update, commit, persist, back_up, write_file}
use nexus_firmware.Control.Command.{Command, CommandResult, Payload, field, int_field}
use nexus_firmware.Control.History.{init, seen, try_get, find, is_found}
use nexus_firmware.Control.History.Bounded.{IsValid}
use nexus_firmware.Control.Validator.{validate, is_zero}
use nexus_firmware.Control.Reply.{
  CommandExecutor, set_audio, emit_executed, publish_to, ok, get_int,
}
use nexus_firmware.Control.Executor.{execute, run_command, set_volume}
use nexus_firmware.Control.Executor.Settings.{Settles, execute-Settles}
use nexus_firmware.Control.Router.{
  CommandRouter, Context, handle, handle_command, check_and_run, record_result,
}
use nexus_firmware.Control.Router.Kept.{after_requests}
use nexus_firmware.Control.Router.Idempotence.{replays_answer}
use nexus_firmware.Streamer.Commands.{build, unsigned, object_of, with_signature}
use nexus_firmware.Streamer.Commands.Accepted.{handle-build}
use nexus_firmware.Examples.Audio.{whole}

abbrev fine : Io
fine = record { copy_ok = true; rename_ok = true; write = success }

abbrev executor : CommandExecutor
executor = record {
  config = record {
    bus = none;
    config = defaults;
    disk = record { primary = none; bak = none; corrupt = none };
  };
  link_state = none;
  telemetry = none;
  measurement = none;
}

abbrev command : String → String → Payload → Command
command id name payload = record {
  command_id = id;
  target_id = "";
  command = name;
  payload = payload;
  expires_at = pos 0;
  timestamp = pos 0;
  signature = "c2ln";
}

abbrev volume : Command
volume = command "a1" "SET_VOLUME" (("volume", int (pos 35)) ∷ [])

abbrev status : Command
status = command "b2" "GET_STATUS" []

execute-Settles_example : Settles executor (execute whole executor fine volume (pos 9))
execute-Settles_example = execute-Settles whole executor fine volume (pos 9)

volume_given : int_field volume.payload "volume" ≡ some (pos 35)
unfolding int_field field
volume_given = refl

empty-IsValid : IsValid (init 4)
unfolding init
empty-IsValid = record { distinct = tt; found = tt; sized = refl; bounded = omega arith }

abbrev answer : CommandResult
answer = record { command_id = "a1"; ok = true; message = "ok"; error_code = 0; payload = [] }

abbrev verify : Command → String → Bool
verify c key = str_eq key "key"

abbrev router : CommandRouter
router = record { executor = executor; history = init 4 }

abbrev context : Context
context = record { device_id = "SPK-1"; key = "key"; now = pos 9; io = fine }

new_id : (id : String) → seen router.history id ≡ false
unfolding seen init find is_found
new_id id = refl

volume_valid : validate verify volume "SPK-1" "key" (pos 9) ≡ success
unfolding validate is_zero
volume_valid = refl

abbrev reporting : Command
reporting = command "d4" "GET_STATUS" []

router-IsValid : IsValid router.history
router-IsValid = empty-IsValid

abbrev later : List (Context × Option Command)
later = (context, some status) ∷ (context, none) ∷ (context, some reporting) ∷ []

later_few : length later < router.history.capacity
unfolding init
later_few = omega arith

abbrev first : CommandRouter × Option CommandResult
first = handle whole verify router context (some volume)

abbrev first_answer : CommandResult
first_answer = ok volume (("volume", int (pos 35)) ∷ [])

volume_answered : first ≡ (first.0, some first_answer)
unfolding handle handle_command check_and_run record_result try_get validate is_zero find init
    execute run_command set_volume int_field field set_audio update commit persist back_up
    write_file config_valid eq_int is_log_level is_connection_mode defaults emit_executed publish_to
    ok get_int
volume_answered = refl

replays_answer_example :
    handle whole verify
      (after_requests whole verify first.0 later)
      context
      (some (command "a1" "REBOOT" []))
    ≡ (after_requests whole verify first.0 later, some first_answer)
replays_answer_example =
    replays_answer whole verify router first.0 context context volume (command "a1" "REBOOT" [])
      first_answer later router-IsValid (new_id "a1") refl volume_valid volume_answered later_few
      refl

abbrev sign : Command → Result String
sign c = value "c2ln"

abbrev verify_signed : Command → String → Bool
verify_signed c key = str_eq key "key" && str_eq c.signature "c2ln"

same_text : (sig : String) → Result.value "c2ln" ≡ value sig → "c2ln" ≡ sig
same_text sig e = cc

signed_checked :
    (c : Command) (sig : String)
    → sign c ≡ value sig
    → verify_signed (record c { signature = sig }) "key" ≡ true
signed_checked c sig e = rw (sym (same_text sig e)) refl

signed_filled : (c : Command) (sig : String) → sign c ≡ value sig → is_empty sig ≡ false
signed_filled c sig e = rw (sym (same_text sig e)) refl

abbrev sent : Command
sent = record {
  command_id = "cmd-9";
  target_id = "SPK-1";
  command = "SET_VOLUME";
  payload = ("volume", int (pos 35)) ∷ [];
  expires_at = pos 30;
  timestamp = pos 0;
  signature = "c2ln";
}

sent_built :
    build sign "cmd-9" "SPK-1" "SET_VOLUME" (some (("volume", int (pos 35)) ∷ [])) (pos 30) (pos 0)
    ≡ value sent
unfolding build unsigned object_of with_signature
sent_built = refl

sent_new : try_get router.history "cmd-9" ≡ none
unfolding try_get find init
sent_new = refl

handle-build_example :
    handle whole verify_signed router context (some sent)
    ≡ record_result whole verify_signed router sent (execute whole executor fine sent (pos 9))
handle-build_example =
    handle-build whole sign verify_signed router context signed_checked signed_filled "cmd-9"
      "SET_VOLUME" (some (("volume", int (pos 35)) ∷ [])) (pos 30) (pos 0) sent refl refl refl refl
      sent_new sent_built

-- ===== src/Streamer/Commands/Accepted.antt =====
-- A command of streamer/src/control/CommandSigner.cpp before the speaker's
-- src/control/CommandValidator.cpp.
use text.Mathlib.TextEquality.{eq_iff}
use nexus_firmware.Prelude.{
  ◌≡◌, refl, subst, String, is_empty, Bool, true, false, not, ◌&&◌, Option, none, some, arith, inl,
  inr,
}
use nexus_firmware.Prelude.Int.{ℤ, ltb_ℤ, leb_ℤ}
use nexus_firmware.Core.Status.{success, Result, value, Result-cases}
use nexus_firmware.Control.Command.{Command, Payload}
use nexus_firmware.Audio.Float.{FloatOps}
use nexus_firmware.Control.History.{try_get}
use nexus_firmware.Control.Executor.{execute}
use nexus_firmware.Control.Router.{
  CommandRouter, Context, handle, handle_command, check_and_run, record_result,
}
use nexus_firmware.Control.Validator.{validate, is_zero}
use nexus_firmware.Streamer.Commands.{unsigned, with_signature, build}

not_expired : (e now : ℤ) → leb_ℤ now e ≡ true → ltb_ℤ e now ≡ false
not_expired e now h = ground arith

never : (b : Bool) → (not b && false) ≡ false
never b = ground arith

accepted :
    (verify : Command → String → Bool) (key i t n : String) (p : Option Payload) (e s now : ℤ)
    (sig : String)
    → is_empty key ≡ false
    → is_empty i ≡ false
    → is_empty n ≡ false
    → leb_ℤ now e ≡ true
    → is_empty sig ≡ false
    → verify (record (unsigned i t n p e s) { signature = sig }) key ≡ true
    → validate verify (record (unsigned i t n p e s) { signature = sig }) t key now ≡ success
unfolding validate unsigned
accepted verify key i t n p e s now sig k ni nn live full ok =
    rw
      (
        ni,
        nn,
        (eq_iff t t).1 refl,
        not_expired e now live,
        k,
        full,
        ok,
        never (is_empty t),
        never (is_zero e),
      )
      refl

-- Where signatures are not empty and the speaker's check accepts them, a command that was built with
-- an id and a name passes the validator of the speaker it is for until it expires, if the speaker is
-- paired with the streamer's key.
pub validate-build :
    (sign : Command → Result String) (verify : Command → String → Bool) (key : String)
    → ((c : Command) (sig : String)
        → sign c ≡ value sig
        → verify (record c { signature = sig }) key ≡ true)
    → ((c : Command) (sig : String) → sign c ≡ value sig → is_empty sig ≡ false)
    → (command_id target_id command : String) (payload : Option Payload)
    → (expires_at timestamp now : ℤ) (c : Command) → is_empty key ≡ false
    → is_empty command_id ≡ false
    → is_empty command ≡ false
    → leb_ℤ now expires_at ≡ true
    → build sign command_id target_id command payload expires_at timestamp ≡ value c
    → validate verify c target_id key now ≡ success
unfolding build with_signature
validate-build sign verify key checked filled i t n p e s now c k ni nn live built =
    let u = unsigned i t n p e s in
    elim (Result-cases (sign u)) [
      | inr (code, msg, r) ↦ absurd (cc (rw r at built))
      | inl (sig, r) ↦
          subst (λ d. validate verify d t key now ≡ success) (cc (rw r at built))
            (accepted verify key i t n p e s now sig k ni nn live (filled u sig r)
              (checked u sig r))
    ]

-- Where signatures are not empty and the speaker's check accepts them, a command that was built with
-- an id and a name for the speaker, and that the speaker has not answered yet, is executed when it
-- arrives before it expires, if the speaker is paired with the streamer's key.
pub handle-build :
    (f : FloatOps) (sign : Command → Result String) (verify : Command → String → Bool)
    → (r : CommandRouter) (x : Context)
    → ((c : Command) (sig : String)
        → sign c ≡ value sig
        → verify (record c { signature = sig }) x.key ≡ true)
    → ((c : Command) (sig : String) → sign c ≡ value sig → is_empty sig ≡ false)
    → (command_id command : String) (payload : Option Payload) (expires_at timestamp : ℤ)
    → (c : Command) → is_empty x.key ≡ false
    → is_empty command_id ≡ false
    → is_empty command ≡ false
    → leb_ℤ x.now expires_at ≡ true
    → try_get r.history c.command_id ≡ none
    → build sign command_id x.device_id command payload expires_at timestamp ≡ value c
    → handle f verify r x (some c) ≡ record_result f verify r c (execute f r.executor x.io c x.now)
unfolding handle handle_command check_and_run
handle-build f sign verify r x checked filled i n p e s c k ni nn live new built =
    rw
      (
        handle,
        handle_command,
        new,
        check_and_run,
        validate-build sign verify x.key checked filled i x.device_id n p e s x.now c k ni nn live
            built,
      )
      refl

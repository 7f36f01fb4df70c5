-- ===== src/Control/Router/Idempotence.antt =====
-- What the command router answers to repeated and to refused commands
-- (src/control/CommandRouter.cpp).
use nexus_firmware.Prelude.{
  ◌<◌, ◌≡◌, refl, sym, ap, subst, ◌∙◌, String, str_eq, Bool, false, Option, some, List, length,
  arith, Option-cases, inl, inr,
}
use nexus_firmware.Core.Status.{ErrorCode, success, error, to_int}
use nexus_firmware.Audio.Float.{FloatOps}
use nexus_firmware.Control.Command.{Command, CommandResult}
use nexus_firmware.Control.History.{try_get, seen, is_found, find}
use nexus_firmware.Control.History.Bounded.{IsValid}
use nexus_firmware.Control.Validator.{validate}
use nexus_firmware.Control.Executor.{execute}
use nexus_firmware.Control.Router.{
  CommandRouter, Context, err, record_result, check_and_run, handle_command, handle,
}
use nexus_firmware.Control.Router.Kept.{
  Keeps, after_requests, after_requests-Keeps, record_result-new, contradiction,
}

module _ (f : FloatOps) (verify : Command → String → Bool) where
  accepted :
      (r : CommandRouter) (x : Context) (c : Command)
      → validate verify c x.device_id x.key x.now ≡ success
      → check_and_run f verify r x c
        ≡ record_result f verify r c (execute f r.executor x.io c x.now)
  unfolding check_and_run
  accepted r x c good = rw (good, check_and_run) refl

  refused :
      (r : CommandRouter) (x : Context) (c : Command) (code : ErrorCode) (msg : String)
      → validate verify c x.device_id x.key x.now ≡ error code msg
      → check_and_run f verify r x c ≡ (r, some (err c.command_id (to_int code, msg)))
  unfolding check_and_run
  refused r x c code msg bad = rw (bad, check_and_run) refl

  cached :
      (r : CommandRouter) (x : Context) (c : Command) (result : CommandResult)
      → find r.history.results c.command_id ≡ some result
      → handle f verify r x (some c) ≡ (r, some result)
  unfolding handle handle_command try_get
  cached r x c result hit = rw (hit, handle_command) refl

  uncached :
      (r : CommandRouter) (x : Context) (c : Command)
      → seen r.history c.command_id ≡ false
      → handle f verify r x (some c) ≡ check_and_run f verify r x c
  unfolding handle handle_command try_get seen is_found
  uncached r x c new = elim (Option-cases (find r.history.results c.command_id)) [
    | inl miss ↦ rw (miss, handle_command) refl
    | inr (q, hit) ↦ elim (contradiction (sym (ap is_found hit) ∙ new)) [ ]
  ]

  check_and_run-new :
      (r r' : CommandRouter) (x : Context) (c : Command) (result : CommandResult)
      → IsValid r.history
      → seen r.history c.command_id ≡ false
      → str_eq c.command "REPORT_LINK" ≡ false
      → validate verify c x.device_id x.key x.now ≡ success
      → check_and_run f verify r x c ≡ (r', some result)
      → Keeps c.command_id result r.history.capacity 0 r'
  check_and_run-new r r' x c result valid new plain good eq =
      record_result-new f verify r r' c result (execute f r.executor x.io c x.now) valid new plain
        (sym (accepted r x c good) ∙ eq)

  -- A command that is answered once is answered alike from then on, without being executed again, and
  -- whatever else is asked of the router in between, as long as that is fewer requests than the
  -- history's capacity. The first answer must be from an execution of the command (its id is not in
  -- the history, it is accepted by the validator and is not REPORT_LINK).
  pub replays_answer :
      (r r' : CommandRouter) (x y : Context) (c d : Command) (result : CommandResult)
      (later : List (Context × Option Command))
      → IsValid r.history
      → seen r.history c.command_id ≡ false
      → str_eq c.command "REPORT_LINK" ≡ false
      → validate verify c x.device_id x.key x.now ≡ success
      → handle f verify r x (some c) ≡ (r', some result)
      → length later < r.history.capacity
      → d.command_id ≡ c.command_id
      → handle f verify (after_requests f verify r' later) y (some d)
        ≡ (after_requests f verify r' later, some result)
  replays_answer r r' x y c d result later valid new plain good eq room same =
      cached (after_requests f verify r' later) y d result (
        subst (λ k. find (after_requests f verify r' later).history.results k ≡ some result)
          (sym same)
          (after_requests-Keeps f verify c.command_id result r.history.capacity 0 r' later
            (omega (arith, room))
            (check_and_run-new r r' x c result valid new plain good
              (sym (uncached r x c new) ∙ eq))).0.here)

  -- A request that does not parse, and one that the validator refuses, leave the router as it was:
  -- nothing is executed, published or remembered. The answer carries the reason's number.
  pub refusal_changes_nothing :
      (r : CommandRouter) (x : Context) (c : Command) (code : ErrorCode) (msg : String)
      → seen r.history c.command_id ≡ false
      → validate verify c x.device_id x.key x.now ≡ error code msg
      → handle f verify r x (some c) ≡ (r, some (err c.command_id (to_int code, msg)))
  refusal_changes_nothing r x c code msg new bad = uncached r x c new ∙ refused r x c code msg bad

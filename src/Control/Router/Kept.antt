-- ===== src/Control/Router/Kept.antt =====
-- What the router's history keeps while requests arrive (src/control/CommandRouter.cpp).
use nexus_firmware.Prelude.{
  ℕ, ◌+◌, ◌<◌, ◌≡◌, ◌≢◌, sym, ap, subst, ◌∙◌, String, str_eq, Bool, true, false, Option, none, some,
  List, [], ◌∷◌, length, arith, Bool-cases, Option-cases, inl, inr,
}
use nexus_firmware.Core.Status.{Status-cases}
use nexus_firmware.Audio.Float.{FloatOps}
use nexus_firmware.Control.Command.{Command, CommandResult}
use nexus_firmware.Control.History.{try_get, seen, find, remember}
use nexus_firmware.Control.History.Bounded.{IsValid}
use nexus_firmware.Control.History.Retention.{
  IsKept, remember-IsKept, remember-IsKept_new, capacity-remember,
}
use nexus_firmware.Control.Validator.{validate}
use nexus_firmware.Control.Reply.{CommandExecutor}
use nexus_firmware.Control.Executor.{execute}
use nexus_firmware.Control.Router.{
  CommandRouter, Context, record_result, check_and_run, handle_command, handle,
}

-- The id is kept behind `n` others, in a history of this capacity.
abbrev pub Keeps : String → CommandResult → ℕ → ℕ → CommandRouter → Type 0
Keeps k v capacity n r = IsKept k v n r.history × (r.history.capacity ≡ capacity)

weaken :
    (k : String) (v : CommandResult) (capacity n : ℕ) (r : CommandRouter)
    → Keeps k v capacity n r
    → Keeps k v capacity (n + 1) r
weaken k v capacity n r (kept, c) = (
  record {
    before = kept.before;
    after = kept.after;
    stands = kept.stands;
    others = kept.others;
    newer = omega (arith, kept.newer);
    here = kept.here;
  },
  c,
)

pub absent_result : {v : CommandResult} → none ≡ some v → ⊥
absent_result e = cc

some_inj : {q v : CommandResult} → some q ≡ some v → q ≡ v
some_inj e = cc

pub contradiction : true ≡ false → ⊥
contradiction e = cc

module _ (f : FloatOps) (verify : Command → String → Bool) where
  -- The router after a sequence of requests.
  unfoldable pub after_requests : CommandRouter → List (Context × Option Command) → CommandRouter
  after_requests r [] = r
  after_requests r ((x, q) ∷ later) = after_requests (handle f verify r x q).0 later

  record_result-Keeps :
      (k : String) (v : CommandResult) (capacity n : ℕ) (r : CommandRouter) (c : Command)
      (e : CommandExecutor) (o : Option CommandResult)
      → c.command_id ≢ k
      → n + 1 < capacity
      → Keeps k v capacity n r
      → Keeps k v capacity (n + 1) (record_result f verify r c (e, o)).0
  unfolding record_result
  record_result-Keeps k v capacity n r c e none other room h =
      weaken k v capacity n (record r { executor = e }) h
  record_result-Keeps k v capacity n r c e (some q) other room (kept, same) =
      elim (Bool-cases (str_eq c.command "REPORT_LINK")) [
        | inl link ↦ rw link (weaken k v capacity n r (kept, same))
        | inr plain ↦ rw plain (
          remember-IsKept k c.command_id v q n r.history other
              (subst (λ m. n + 1 < m) (sym same) room) kept,
          capacity-remember r.history c.command_id q ∙ same,
        )
      ]

  check_and_run-Keeps :
      (k : String) (v : CommandResult) (capacity n : ℕ) (r : CommandRouter) (x : Context)
      (c : Command)
      → c.command_id ≢ k
      → n + 1 < capacity
      → Keeps k v capacity n r
      → Keeps k v capacity (n + 1) (check_and_run f verify r x c).0
  unfolding check_and_run
  check_and_run-Keeps k v capacity n r x c other room h =
      elim (Status-cases (validate verify c x.device_id x.key x.now)) [
        | inl good ↦
            rw (good, check_and_run)
              (record_result-Keeps k v capacity n r c (execute f r.executor x.io c x.now).0
                (execute f r.executor x.io c x.now).1 other room h)
        | inr (code, msg, bad) ↦ rw (bad, check_and_run) (weaken k v capacity n r h)
      ]

  handle_command-Keeps :
      (k : String) (v : CommandResult) (capacity n : ℕ) (r : CommandRouter) (x : Context)
      (c : Command)
      → n + 1 < capacity
      → Keeps k v capacity n r
      → Keeps k v capacity (n + 1) (handle_command f verify r x c).0
  unfolding handle_command try_get
  handle_command-Keeps k v capacity n r x c room h =
      elim (Option-cases (find r.history.results c.command_id)) [
        | inl miss ↦
            rw (miss, handle_command) (check_and_run-Keeps k v capacity n r x c (other miss) room h)
        | inr (q, hit) ↦ rw (hit, handle_command) (weaken k v capacity n r h)
      ]
    where
      other : find r.history.results c.command_id ≡ none → c.command_id ≢ k
      other miss e = absent_result (sym miss ∙ ap (find r.history.results) e ∙ h.0.here)

  pub after_requests-Keeps :
      (k : String) (v : CommandResult) (capacity n : ℕ) (r : CommandRouter)
      (later : List (Context × Option Command))
      → n + length later < capacity
      → Keeps k v capacity n r
      → Keeps k v capacity (n + length later) (after_requests r later)
  unfolding after_requests handle
  after_requests-Keeps k v capacity n r [] room h =
      subst (λ m. Keeps k v capacity m r) (omega arith) h
  after_requests-Keeps k v capacity n r ((x, none) ∷ later) room h =
      subst (λ m. Keeps k v capacity m (after_requests r later)) (omega arith)
        (after_requests-Keeps k v capacity (n + 1) r later (omega arith)
          (weaken k v capacity n r h))
  after_requests-Keeps k v capacity n r ((x, some c) ∷ later) room h =
      subst (λ m. Keeps k v capacity m (after_requests (handle_command f verify r x c).0 later))
        (omega arith)
        (after_requests-Keeps k v capacity (n + 1) (handle_command f verify r x c).0 later
          (omega arith) (handle_command-Keeps k v capacity n r x c (omega arith) h))

  pub record_result-new :
      (r r' : CommandRouter) (c : Command) (result : CommandResult)
      (p : CommandExecutor × Option CommandResult)
      → IsValid r.history
      → seen r.history c.command_id ≡ false
      → str_eq c.command "REPORT_LINK" ≡ false
      → record_result f verify r c p ≡ (r', some result)
      → Keeps c.command_id result r.history.capacity 0 r'
  unfolding record_result
  record_result-new r r' c result (e, none) valid new plain eq =
      elim (absent_result (ap (λ z. z.1) eq)) [ ]
  record_result-new r r' c result (e, some q) valid new plain eq =
      subst (λ z. Keeps c.command_id result r.history.capacity 0 z) (ap (λ z. z.0) eq)
        (rw plain (
          subst (λ w. IsKept c.command_id w 0 (remember r.history c.command_id q)) same
              (remember-IsKept_new c.command_id q r.history valid new),
          capacity-remember r.history c.command_id q,
        ))
    where
      same : q ≡ result
      same = some_inj (ap (λ z. z.1) eq)

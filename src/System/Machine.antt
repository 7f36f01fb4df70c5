-- ===== src/System/Machine.antt =====
-- src/system/StateMachine.h and StateMachine.cpp. The mutex makes each call one step; the log lines
-- are not modelled.
pub mod Paths
use nexus_firmware.Prelude.{
  ℕ, String, str_append, Bool, true, false, Option, none, some, List, [], ◌∷◌, ◌++◌, if◌then◌else◌,
}
use nexus_firmware.Core.Status.{Status, success, error, illegal_state_transition}
use nexus_firmware.Core.Event.{Value, state_changed, text, event}
use nexus_firmware.Core.Bus.{Bus, notify}
use nexus_firmware.System.State.{SystemState, booting, eq_state, legal_transition, to_string}

-- A call of the enter hook with this number.
pub record HookCall : Type 0 where
  pub hook : ℕ
  pub from : SystemState
  pub to : SystemState

-- A hook is a state and a function, which may be empty. `calls` is what the hooks were called with.
pub record StateMachine : Type 0 where
  pub bus : Bus
  pub current : SystemState
  pub hooks : List (SystemState × Option ℕ)
  pub calls : List HookCall

unfoldable pub init : Bus → StateMachine
init b = record { bus = b; current = booting; hooks = []; calls = [] }

unfoldable pub on_enter : StateMachine → SystemState → Option ℕ → StateMachine
on_enter m s hook = record m { hooks = m.hooks ++ ((s, hook) ∷ []) }

-- The hooks to fire, and the loop that calls those that are not empty.
unfoldable pub to_fire : List (SystemState × Option ℕ) → SystemState → List (Option ℕ)
to_fire [] to = []
to_fire ((s, hook) ∷ hooks) to = if eq_state s to then hook ∷ to_fire hooks to else to_fire hooks to

unfoldable pub call_hooks : List (Option ℕ) → SystemState → SystemState → List HookCall
call_hooks [] from to = []
call_hooks (none ∷ hooks) from to = call_hooks hooks from to
call_hooks (some h ∷ hooks) from to =
    record { hook = h; from = from; to = to } ∷ call_hooks hooks from to

-- The entered state: what `transitionTo` does once the move is known to be legal.
unfoldable pub enter : StateMachine → SystemState → String → String → StateMachine
enter m to reason command_id = record m {
  current = to;
  bus = notify m.bus (record (event state_changed "system" payload) { command_id = command_id });
  calls = m.calls ++ call_hooks (to_fire m.hooks to) m.current to;
}
  where
    payload : List (String × Value)
    payload =
        ("from", text (to_string m.current))
        ∷ ("to", text (to_string to))
        ∷ ("reason", text reason)
        ∷ []

unfoldable pub transition_to : StateMachine → SystemState → String → String → StateMachine × Status
transition_to m to reason command_id =
    if eq_state m.current to
    then (m, success)
    else if legal_transition m.current to
    then (enter m to reason command_id, success)
    else (m, error illegal_state_transition message)
  where
    message : String
    message = str_append (to_string m.current) (str_append " -> " (to_string to))

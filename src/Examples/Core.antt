-- ===== src/Examples/Core.antt =====
-- The results on the event bus at concrete inputs.
use nexus_firmware.Prelude.{ℕ, ◌+◌, ◌==◌, [], ◌∷◌, ◌≡◌, List, if◌then◌else◌}
use nexus_firmware.Core.Event.{Event, event, network_connected}
use nexus_firmware.Core.Bus.{EventBus, init, subscribe, matching}
use nexus_firmware.Core.Bus.Steps.{
  Section, publishes, stops, works, Inv, start, run, step, work, work_left, returned, run_fifo,
  stop_drains,
}
use nexus_firmware.Core.Bus.Dispatch.{
  Outcome, returns, throws, dispatch, logged, dispatch_calls_all,
}

abbrev up : Event
up = event network_connected "network" []

abbrev schedule : List Section
schedule = publishes up ∷ works ∷ publishes up ∷ stops ∷ publishes up ∷ works ∷ []

run_fifo_example : Inv (run start schedule)
run_fifo_example = run_fifo schedule

stop_drains_example :
    let r = step (run start schedule) stops in
    let ended = work (work_left r) r in (ended.worker ≡ returned) × (ended.dispatched ≡ r.accepted)
stop_drains_example = stop_drains schedule

-- A handler that counts, and throws at the second.
abbrev call : ℕ → Event → ℕ → Outcome ℕ
call h e w = if h == 2 then throws w else returns (w + 1)

abbrev two_handlers : EventBus
two_handlers = (subscribe (subscribe init network_connected 1).0 network_connected 2).0

dispatch_calls_all_example :
    dispatch (logged call) two_handlers up (0, [])
    ≡ (dispatch call two_handlers up 0, matching two_handlers.subs network_connected)
dispatch_calls_all_example = dispatch_calls_all call two_handlers up 0

-- ===== src/System/Manager/Network.antt =====
-- Connectivity events in src/system/SystemManager.cpp.
use nexus_firmware.Prelude.{◌≡◌, refl, arith}
use nexus_firmware.Core.Event.{network_connected}
use nexus_firmware.System.State.{
  SystemState, booting, setup_mode, connecting_network, searching_streamer, offline, eq_state,
  legal_transition, contains, table,
}
use nexus_firmware.System.Machine.{transition_to, enter}
use nexus_firmware.System.Manager.{
  SystemManager, current, move, past_discovery, when_connected, react, handle_event,
}

-- Where the device stands after "the network is up".
pub after_connected : SystemState → SystemState
after_connected setup_mode = searching_streamer
after_connected connecting_network = searching_streamer
after_connected offline = searching_streamer
after_connected s = s

connected_at :
    (c : SystemState) (s : SystemManager)
    → current s ≡ c
    → current (handle_event s network_connected) ≡ after_connected c
unfolding handle_event react when_connected move transition_to enter legal_transition contains table
    past_discovery after_connected eq_state
connected_at booting s e = ground arith
connected_at _ s e = ground arith

-- "The network is up" takes a device that still has to look for a streamer to the search, and moves
-- no other device; above all it does not drag one back that has found its streamer.
pub connected_moves :
    (s : SystemManager) → current (handle_event s network_connected) ≡ after_connected (current s)
connected_moves s = connected_at (current s) s refl

settled :
    (c : SystemState) (s : SystemManager)
    → current s ≡ after_connected c
    → handle_event s network_connected ≡ s
unfolding handle_event react when_connected move transition_to enter legal_transition contains table
    past_discovery after_connected eq_state
settled booting s e = ground arith
settled _ s e = ground arith

-- The event is republished every few seconds. Where the machine is already, a repetition changes
-- nothing at all: no state, no published event, no hook, no safe mode.
pub connected_idempotent :
    (s : SystemManager)
    → handle_event (handle_event s network_connected) network_connected
      ≡ handle_event s network_connected
connected_idempotent s = settled (current s) (handle_event s network_connected) (connected_moves s)

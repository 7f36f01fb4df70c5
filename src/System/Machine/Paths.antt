-- ===== src/System/Machine/Paths.antt =====
-- What `transitionTo` does, and routes of legal transitions (src/system/StateMachine.cpp).
use nexus_firmware.Prelude.{◌≡◌, ◌≢◌, refl, subst, ◌⊎◌, String, true, false, arith}
use nexus_firmware.Core.Status.{success, is_ok}
use nexus_firmware.System.State.{
  SystemState, booting, unconfigured, setup_mode, connecting_network, searching_streamer, online,
  degraded, offline, error_state, shutting_down, legal_transition, eq_state, eq_of_eq_state,
  eq_state_refl, legal_self, contains, table,
}
use nexus_firmware.System.Machine.{StateMachine, transition_to, enter}

-- A sequence of legal transitions.
pub data Route (s : SystemState) : SystemState → Type 0 where
  here : Route s s
  onward : {t u : SystemState} → Route s t → legal_transition t u ≡ true → Route s u

pub Route-trans : {s t u : SystemState} → Route s t → Route t u → Route s u
Route-trans r here = r
Route-trans r (onward q h) = onward (Route-trans r q) h

-- A call succeeds exactly when the move is legal. Then the machine is in the asked state; otherwise
-- nothing of it changes, and the status is an error.
pub transition_to_lem :
    (m : StateMachine) (to : SystemState) (reason id : String)
    → let (m', st) = transition_to m to reason id in
      ((legal_transition m.current to ≡ true) × (st ≡ success) × (m'.current ≡ to))
      ⊎ ((legal_transition m.current to ≡ false) × (is_ok st ≡ false) × (m' ≡ m))
unfolding transition_to enter
transition_to_lem m to reason id =
    ground (arith, eq_of_eq_state m.current to, legal_self m.current to)

-- Asking for the state that the machine is in does nothing at all: no event, no hook.
pub transition_to_self :
    (m : StateMachine) (reason id : String) → transition_to m m.current reason id ≡ (m, success)
unfolding transition_to
transition_to_self m reason id = ground (arith, eq_state_refl m.current)

leave_shut_down : (t : SystemState) → legal_transition shutting_down t ≡ true → t ≡ shutting_down
unfolding legal_transition eq_state contains table
leave_shut_down t h = ground arith

pub Route-shutting_down : {t : SystemState} → Route shutting_down t → t ≡ shutting_down
Route-shutting_down here = refl
Route-shutting_down (onward {t = a} {u = b} r h) =
    leave_shut_down b (subst (λ s. legal_transition s b ≡ true) (Route-shutting_down r) h)

hop :
    {s : SystemState} (t : SystemState) {u : SystemState}
    → legal_transition s t ≡ true
    → Route t u
    → Route s u
hop t h r = Route-trans (onward here h) r

searching-online : Route searching_streamer online
unfolding legal_transition contains table eq_state
searching-online = hop online refl here

connecting-online : Route connecting_network online
unfolding legal_transition contains table eq_state
connecting-online = hop searching_streamer refl searching-online

-- From every state but `shutting_down` the device can come back online by legal transitions.
pub recovery-Route : (s : SystemState) → s ≢ shutting_down → Route s online
unfolding legal_transition contains table eq_state
recovery-Route booting _ = hop connecting_network refl connecting-online
recovery-Route unconfigured _ = hop setup_mode refl (hop connecting_network refl connecting-online)
recovery-Route setup_mode _ = hop connecting_network refl connecting-online
recovery-Route connecting_network _ = connecting-online
recovery-Route searching_streamer _ = searching-online
recovery-Route online _ = here
recovery-Route offline _ = hop searching_streamer refl searching-online
recovery-Route error_state _ = hop degraded refl (hop online refl here)
recovery-Route shutting_down h = absurd (h refl)
recovery-Route _ _ = hop online refl here

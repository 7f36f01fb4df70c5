-- ===== src/System/Manager/Shutdown.antt =====
-- Every sequence of events keeps to the transition table (src/system/SystemManager.cpp).
use nexus_firmware.Prelude.{
  String, ◌≡◌, sym, subst, inl, inr, Bool, true, false, ◌||◌, if◌then◌else◌, List, [], ◌∷◌,
}
use nexus_firmware.Core.Event.{
  EventType, network_connected, network_disconnected, streamer_found, pairing_completed,
  streamer_disconnected, audio_started, audio_stopped, config_invalid, identity_corrupt,
  update_failed, watchdog_timeout, shutdown_requested,
}
use nexus_firmware.System.State.{
  SystemState, shutting_down, connecting_network, searching_streamer, setup_mode, online, playing,
  degraded, authenticating, eq_state,
}
use nexus_firmware.System.Machine.Paths.{
  Route, here, onward, Route-trans, Route-shutting_down, transition_to_lem,
}
use nexus_firmware.System.Manager.{
  SystemManager, current, move, enter_safe_mode, strike, when_connected, when_paired,
  when_audio_started, past_discovery, react, handle_event, handle_all,
}

move-Route :
    (s : SystemManager) (to : SystemState) (reason : String)
    → Route (current s) (current (move s to reason))
unfolding move
move-Route s to reason = elim (transition_to_lem s.machine to reason "") [
  | inl (legal, _, e) ↦ subst (Route (current s)) (sym e) (onward here legal)
  | inr (_, _, e) ↦ rw e here
]

branch_Route :
    (b : Bool) (c : SystemState) (s t : SystemManager)
    → Route c (current s)
    → Route c (current t)
    → Route c (current (if b then s else t))
branch_Route true c s t r q = r
branch_Route false c s t r q = q

safe-Route :
    (s : SystemManager) (reason : String) → Route (current s) (current (enter_safe_mode s reason))
unfolding enter_safe_mode
safe-Route s reason = branch_Route s.safe_mode.active (current s) s _ here (move-Route _ degraded _)

strike-Route : (s : SystemManager) (reason : String) → Route (current s) (current (strike s reason))
unfolding strike
strike-Route s reason = branch_Route _ (current s) _ _ (safe-Route _ reason) here

connected-Route : (s : SystemManager) → Route (current s) (current (when_connected s))
unfolding when_connected
connected-Route s =
    let s' =
      if eq_state (current s) setup_mode
      then move s connecting_network "network connected (setup done)"
      else s in
    let r =
      branch_Route (eq_state (current s) setup_mode) (current s)
        (move s connecting_network "network connected (setup done)") s (move-Route s _ _) here in
    branch_Route (past_discovery (current s')) (current s) s' _ r
      (Route-trans r (move-Route s' searching_streamer _))

paired-Route : (s : SystemManager) → Route (current s) (current (when_paired s))
unfolding when_paired
paired-Route s =
    branch_Route (eq_state (current s) setup_mode) (current s) (move s connecting_network _)
      (move s online _) (move-Route s connecting_network _) (move-Route s online _)

audio-Route : (s : SystemManager) → Route (current s) (current (when_audio_started s))
unfolding when_audio_started
audio-Route s =
    Route-trans
      (branch_Route (eq_state (current s) searching_streamer || eq_state (current s) authenticating)
        (current s) (move s online _) s (move-Route s online _) here)
      (move-Route _ playing _)

react-Route : (e : EventType) (s : SystemManager) → Route (current s) (current (react e s))
unfolding react
react-Route network_connected s = connected-Route s
react-Route network_disconnected s = move-Route s _ _
react-Route streamer_found s = move-Route s _ _
react-Route pairing_completed s = paired-Route s
react-Route streamer_disconnected s = move-Route s _ _
react-Route audio_started s = audio-Route s
react-Route audio_stopped s = move-Route s _ _
react-Route config_invalid s = Route-trans (move-Route s _ _) (safe-Route _ _)
react-Route identity_corrupt s = Route-trans (move-Route s _ _) (safe-Route _ _)
react-Route update_failed s = strike-Route s _
react-Route watchdog_timeout s = Route-trans (move-Route s _ _) (strike-Route _ _)
react-Route shutdown_requested s = move-Route s _ _
react-Route _ s = here

-- Whatever events arrive, and in whatever order, the machine only ever follows transitions that the
-- table allows.
pub handle_all-Route :
    (s : SystemManager) (es : List EventType) → Route (current s) (current (handle_all s es))
unfolding handle_all handle_event
handle_all-Route s [] = here
handle_all-Route s (e ∷ es) =
    Route-trans (branch_Route _ (current s) s _ here (react-Route e s))
      (handle_all-Route (handle_event s e) es)

-- Once the device shuts down, no events bring it out of that state.
pub shutting_down_absorbs :
    (s : SystemManager) (es : List EventType)
    → current s ≡ shutting_down
    → current (handle_all s es) ≡ shutting_down
shutting_down_absorbs s es e =
    Route-shutting_down (subst (λ c. Route c (current (handle_all s es))) e (handle_all-Route s es))

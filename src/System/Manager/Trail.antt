-- ===== src/System/Manager/Trail.antt =====
-- What the events on the bus tell of the machine's states (src/system/SystemManager.cpp and
-- StateMachine.cpp).
use mathlib.Core.List.{append-nil, append_assoc}
use nexus_firmware.Prelude.{
  ◌+◌, String, ◌≡◌, refl, sym, ap, ◌∙◌, Bool, true, false, ◌||◌, if◌then◌else◌, some, List, [], ◌∷◌,
  ◌++◌, Bool-cases, inl, inr,
}
use nexus_firmware.Core.Event.{
  EventType, Event, text, eq_event, state_changed, network_connected, network_disconnected,
  streamer_found, pairing_completed, streamer_disconnected, audio_started, audio_stopped,
  config_invalid, identity_corrupt, update_failed, watchdog_timeout, shutdown_requested,
}
use nexus_firmware.Core.Bus.{EventBus, Bus, notify, publish, queued, publish-queue}
use nexus_firmware.Control.Command.{field}
use nexus_firmware.System.State.{
  SystemState, legal_transition, eq_state, to_string, setup_mode, searching_streamer,
  authenticating, connecting_network, online, playing, degraded,
}
use nexus_firmware.System.Machine.{transition_to, enter}
use nexus_firmware.System.SafeMode
use nexus_firmware.System.SafeMode.{SafeMode}
use nexus_firmware.System.Manager.{
  SystemManager, current, move, enter_safe_mode, strike, when_connected, when_paired,
  when_audio_started, react, handle_event, handle_all,
}

-- The event tells of a change from `s` to `t`.
unfoldable pub Announces : SystemState → SystemState → Event → Type 0
Announces s t e =
    (e.type ≡ state_changed)
    × (field e.payload "from" ≡ some (text (to_string s)))
    × (field e.payload "to" ≡ some (text (to_string t)))

-- The events lead from one state to another: each that tells of a change tells of a legal one, from
-- the state that the one before led to, to another state; the rest tell of none.
pub data Trail : SystemState → List Event → SystemState → Type 0 where
  still : {s : SystemState} → Trail s [] s
  changed :
      {s t u : SystemState} {e : Event} {es : List Event}
      → legal_transition s t ≡ true
      → eq_state s t ≡ false
      → Announces s t e
      → Trail t es u
      → Trail s (e ∷ es) u
  aside :
      {s u : SystemState} {e : Event} {es : List Event}
      → eq_event e.type state_changed ≡ false
      → Trail s es u
      → Trail s (e ∷ es) u

Trail-append :
    {s t u : SystemState} {es ds : List Event} → Trail s es t → Trail t ds u → Trail s (es ++ ds) u
Trail-append still q = q
Trail-append (changed l n a r) q = changed l n a (Trail-append r q)
Trail-append (aside o r) q = aside o (Trail-append r q)

unfoldable pub IsRunning : Bus → Type 0
IsRunning bus = (b : EventBus) × (bus ≡ some b) × (b.running ≡ true)

-- The manager's bus runs, and what was added to it since leads from the state then to the state now.
unfoldable pub Leads : SystemManager → SystemManager → Type 0
Leads m n =
    IsRunning n.machine.bus
    × ((added : List Event) × (queued n.machine.bus ≡ queued m.machine.bus ++ added)
        × Trail (current m) added (current n))

notify-queued :
    (bus : Bus) (e : Event)
    → IsRunning bus
    → IsRunning (notify bus e) × (queued (notify bus e) ≡ queued bus ++ (e ∷ []))
unfolding IsRunning notify
notify-queued bus e (b, is, r) =
    let q = publish-queue b e r in rw is ((publish b e, refl, q.0), q.1)

Leads-refl : (m : SystemManager) → IsRunning m.machine.bus → Leads m m
unfolding Leads
Leads-refl m r = (r, ([], sym (append-nil (queued m.machine.bus)), still))

Leads-trans :
    (m n o : SystemManager) → Leads m n → (IsRunning n.machine.bus → Leads n o) → Leads m o
unfolding Leads
Leads-trans m n o (r, (es, e, p)) next =
    let (r', (ds, d, q)) = next r in
    (
      r',
      (
        es ++ ds,
        d ∙ ap (λ (l : List Event). l ++ ds) e ∙ append_assoc (queued m.machine.bus) es ds,
        Trail-append p q,
      ),
    )

enter-Leads :
    (s : SystemManager) (to : SystemState) (reason : String)
    → legal_transition (current s) to ≡ true
    → eq_state (current s) to ≡ false
    → IsRunning s.machine.bus
    → Leads s (record s { machine = enter s.machine to reason "" })
unfolding Leads enter Announces field
enter-Leads s to reason good apart r =
    let (r', q) = notify-queued s.machine.bus _ r in
    (r', (_ ∷ [], q, changed good apart (refl, refl, refl) still))

move-Leads :
    (s : SystemManager) (to : SystemState) (reason : String)
    → IsRunning s.machine.bus
    → Leads s (move s to reason)
unfolding move transition_to
move-Leads s to reason r = elim (Bool-cases (eq_state (current s) to)) [
  | inl same ↦ rw same (Leads-refl s r)
  | inr apart ↦ elim (Bool-cases (legal_transition (current s) to)) [
    | inr bad ↦ rw (apart, bad) (Leads-refl s r)
    | inl good ↦ rw (apart, good) (enter-Leads s to reason good apart r)
  ]
]

either-Leads :
    (b : Bool) (m s t : SystemManager) → Leads m s → Leads m t → Leads m (if b then s else t)
either-Leads true m s t h k = h
either-Leads false m s t h k = k

-- The manager once safe mode is entered, before the move.
abbrev entered : SystemManager → String → SystemManager
entered s reason = record s {
  safe_mode = (SafeMode.enter s.safe_mode s.machine.bus reason).0;
  machine = record s.machine { bus = (SafeMode.enter s.safe_mode s.machine.bus reason).1 };
}

entered-Leads :
    (s : SystemManager) (reason : String) → IsRunning s.machine.bus → Leads s (entered s reason)
unfolding Leads SafeMode.enter eq_event
entered-Leads s reason r = elim (Bool-cases s.safe_mode.active) [
  | inl on ↦ rw on (r, ([], sym (append-nil (queued s.machine.bus)), still))
  | inr off ↦
      let (r', q) = notify-queued s.machine.bus _ r in rw off (r', (_ ∷ [], q, aside refl still))
]

enter_safe_mode-Leads :
    (s : SystemManager) (reason : String)
    → IsRunning s.machine.bus
    → Leads s (enter_safe_mode s reason)
unfolding enter_safe_mode
enter_safe_mode-Leads s reason r = either-Leads s.safe_mode.active s s _ (Leads-refl s r) (
    Leads-trans s (entered s reason) _ (entered-Leads s reason r)
      (move-Leads (entered s reason) degraded _))

strike-Leads :
    (s : SystemManager) (reason : String) → IsRunning s.machine.bus → Leads s (strike s reason)
unfolding strike Leads
strike-Leads s reason r =
    either-Leads _ s _ _
      (enter_safe_mode-Leads (record s { error_streak = s.error_streak + 1 }) reason r)
      (Leads-refl s r)

when_connected-Leads : (s : SystemManager) → IsRunning s.machine.bus → Leads s (when_connected s)
unfolding when_connected
when_connected-Leads s r =
    Leads-trans s _ _
      (either-Leads (eq_state (current s) setup_mode) s
        (move s connecting_network "network connected (setup done)") s
        (move-Leads s connecting_network _ r) (Leads-refl s r))
      (λ r'. either-Leads _ _ _ _ (Leads-refl _ r') (move-Leads _ searching_streamer _ r'))

when_paired-Leads : (s : SystemManager) → IsRunning s.machine.bus → Leads s (when_paired s)
unfolding when_paired Leads
when_paired-Leads s r =
    either-Leads (eq_state (current s) setup_mode) s (move s connecting_network _) (move s online _)
      (move-Leads s connecting_network _ r) (move-Leads s online _ r)

when_audio_started-Leads :
    (s : SystemManager) → IsRunning s.machine.bus → Leads s (when_audio_started s)
unfolding when_audio_started
when_audio_started-Leads s r =
    Leads-trans s _ _
      (either-Leads (eq_state (current s) searching_streamer || eq_state (current s) authenticating)
        s (move s online _) s (move-Leads s online _ r) (Leads-refl s r))
      (move-Leads _ playing _)

react-Leads : (e : EventType) (s : SystemManager) → IsRunning s.machine.bus → Leads s (react e s)
unfolding react
react-Leads network_connected s r = when_connected-Leads s r
react-Leads network_disconnected s r = move-Leads s _ _ r
react-Leads streamer_found s r = move-Leads s _ _ r
react-Leads pairing_completed s r = when_paired-Leads s r
react-Leads streamer_disconnected s r = move-Leads s _ _ r
react-Leads audio_started s r = when_audio_started-Leads s r
react-Leads audio_stopped s r = move-Leads s _ _ r
react-Leads config_invalid s r =
    Leads-trans s _ _ (move-Leads s degraded _ r) (enter_safe_mode-Leads _ _)
react-Leads identity_corrupt s r =
    Leads-trans s _ _ (move-Leads s _ _ r) (enter_safe_mode-Leads _ _)
react-Leads update_failed s r = strike-Leads s _ r
react-Leads watchdog_timeout s r = Leads-trans s _ _ (move-Leads s degraded _ r) (strike-Leads _ _)
react-Leads shutdown_requested s r = move-Leads s _ _ r
react-Leads _ s r = Leads-refl s r

-- On a running bus, whatever events arrive and in whatever order: the events that the handler adds to
-- the bus lead from the state before to the state after. Each change of state is to another state,
-- legal, and told of once, from the state that the change before it led to.
pub handle_all-Leads :
    (s : SystemManager) (es : List EventType) → IsRunning s.machine.bus → Leads s (handle_all s es)
unfolding handle_all handle_event
handle_all-Leads s [] r = Leads-refl s r
handle_all-Leads s (e ∷ es) r =
    Leads-trans s _ _ (either-Leads _ s s _ (Leads-refl s r) (react-Leads e s r))
      (handle_all-Leads (handle_event s e) es)

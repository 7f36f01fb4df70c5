-- ===== src/System/Manager/Recovery.antt =====
-- Safe mode and the error streak in src/system/SystemManager.cpp.
use nexus_firmware.Prelude.{
  ℕ, ◌+◌, ◌≤◌, ◌<◌, ◌≡◌, ◌≢◌, refl, ◌⊎◌, inl, inr, true, arith, List, [], ◌∷◌, ◌||◌, ◌&&◌,
  if◌then◌else◌, Bool-cases,
}
use nexus_firmware.Core.Event.{
  EventType, network_connected, network_disconnected, pairing_completed, audio_started,
  config_invalid, identity_corrupt, update_failed, watchdog_timeout, eq_event, event_code,
}
use nexus_firmware.Core.Bus.{Bus}
use nexus_firmware.System.State.{booting, eq_state, legal_transition, contains, table}
use nexus_firmware.System.Machine.{transition_to, enter}
use nexus_firmware.System.SafeMode
use nexus_firmware.System.SafeMode.{SafeMode}
use nexus_firmware.System.Manager.{
  SystemManager, init, current, move, enter_safe_mode, strike, when_connected, when_paired,
  when_audio_started, react, handle_event, handle_all,
}

-- An event that counts as a strike.
unfoldable pub is_strike : EventType → ℕ
is_strike update_failed = 1
is_strike watchdog_timeout = 1
is_strike _ = 0

unfoldable pub strikes : List EventType → ℕ
strikes [] = 0
strikes (e ∷ es) = is_strike e + strikes es

-- No event of the list is the completion of a pairing.
abbrev pub NoPairing : List EventType → Type 0
NoPairing [] = Unit {0}
NoPairing (e ∷ es) = (e ≢ pairing_completed) × NoPairing es

-- An event that is `k` strikes: safe mode is not left, the streak grows by `k` at least, and a streak
-- of three has led to safe mode.
record Progress (k : ℕ) (s t : SystemManager) : Type 0 where
  active : s.safe_mode.active ≡ true → t.safe_mode.active ≡ true
  streak : s.error_streak + k ≤ t.error_streak
  struck : 0 < k → (t.safe_mode.active ≡ true) ⊎ (t.error_streak < 3)

react-Progress :
    (e : EventType) (s : SystemManager)
    → e ≢ pairing_completed
    → Progress (is_strike e) s (react e s)
unfolding react move when_connected when_audio_started strike enter_safe_mode is_strike
    SafeMode.enter
react-Progress pairing_completed s h = absurd (h refl)
react-Progress config_invalid s h = ground arith
react-Progress identity_corrupt s h = ground arith
react-Progress update_failed s h = ground arith
react-Progress watchdog_timeout s h = ground arith
react-Progress network_connected s h = ground arith
react-Progress audio_started s h = ground arith
react-Progress _ s h = ground arith

ignored-Progress :
    (e : EventType) (s : SystemManager)
    → (eq_event e network_connected || eq_event e network_disconnected) ≡ true
    → Progress (is_strike e) s s
unfolding is_strike eq_event event_code
ignored-Progress update_failed s h = cc
ignored-Progress watchdog_timeout s h = cc
ignored-Progress _ s h = ground arith

handle_event-Progress :
    (e : EventType) (s : SystemManager)
    → e ≢ pairing_completed
    → Progress (is_strike e) s (handle_event s e)
unfolding handle_event
handle_event-Progress e s h =
    elim (Bool-cases (
      eq_state (current s) booting
      && (eq_event e network_connected || eq_event e network_disconnected))) [
        | inl skip ↦ rw skip (ignored-Progress e s (ground arith))
        | inr on ↦ rw on (react-Progress e s h)
      ]

streak_active :
    (s : SystemManager) (es : List EventType)
    → NoPairing es
    → 3 ≤ s.error_streak + strikes es
    → (s.safe_mode.active ≡ true) ⊎ (0 < strikes es)
    → (handle_all s es).safe_mode.active ≡ true
unfolding handle_all strikes
streak_active s [] np enough start = ground arith
streak_active s (e ∷ es) np enough start =
    let p = handle_event-Progress e s np.0 in
    streak_active (handle_event s e) es np.1 (omega (arith, p.streak))
      (ground (arith, p.active, p.streak, p.struck))

-- Three strikes: whatever state the device is in and whatever else happens, three failed updates or
-- watchdog timeouts with no completed pairing among the events bring it into safe mode.
pub three_strikes :
    (s : SystemManager) (es : List EventType)
    → NoPairing es
    → 3 ≤ strikes es
    → (handle_all s es).safe_mode.active ≡ true
three_strikes s es np enough = streak_active s es np (omega arith) (inr (omega arith))

-- Safe mode with an action set: it has run once if safe mode is active, and never otherwise.
record Once (m : SafeMode) : Type 0 where
  set : m.disable ≡ true
  ran : m.disable_runs ≡ (if m.active then 1 else 0)

react-Once : (e : EventType) (s : SystemManager) → Once s.safe_mode → Once (react e s).safe_mode
unfolding react move when_connected when_paired when_audio_started strike enter_safe_mode
    SafeMode.enter
react-Once pairing_completed s h = ground arith
react-Once config_invalid s h = ground arith
react-Once identity_corrupt s h = ground arith
react-Once update_failed s h = ground arith
react-Once watchdog_timeout s h = ground arith
react-Once network_connected s h = ground arith
react-Once audio_started s h = ground arith
react-Once _ s h = record { set = h.set; ran = h.ran }

handle_all-Once :
    (s : SystemManager) (es : List EventType) → Once s.safe_mode → Once (handle_all s es).safe_mode
unfolding handle_all handle_event
handle_all-Once s [] h = h
handle_all-Once s (e ∷ es) h =
    handle_all-Once (handle_event s e) es (ground (arith, react-Once e s h))

-- From start-up with the mute-and-stop action installed, whatever events arrive, the action has run
-- exactly once if safe mode is active and never if it is not, however many faults came.
pub disable_runs_once :
    (b : Bus) (es : List EventType)
    → let start = record (init b) { safe_mode = SafeMode.set_disable_action SafeMode.init true } in
      let safe = (handle_all start es).safe_mode in
      safe.disable_runs ≡ (if safe.active then 1 else 0)
unfolding SafeMode.set_disable_action SafeMode.init
disable_runs_once b es =
    let start = record (init b) { safe_mode = SafeMode.set_disable_action SafeMode.init true } in
    (handle_all-Once start es (record { set = refl; ran = refl })).ran

-- A configuration found corrupt while the device boots: safe mode is entered, but `booting` has no
-- transition to `degraded`, so the machine stays as it is in `booting`.
pub corrupt_config_boot :
    (s : SystemManager)
    → current s ≡ booting
    → let s' = handle_event s config_invalid in
      (s'.safe_mode.active ≡ true) × (current s' ≡ booting)
unfolding handle_event react move enter_safe_mode SafeMode.enter transition_to enter
    legal_transition contains table eq_state eq_event event_code
corrupt_config_boot s e = ground arith

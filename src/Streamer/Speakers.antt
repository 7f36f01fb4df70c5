-- ===== src/Streamer/Speakers.antt =====
-- streamer/src/state/SpeakerState.h and SpeakerStateStore.h, with the event names of
-- streamer/src/core/StreamerEvents.h. A point of time is a number, 0 the clock's epoch.
pub mod Confirm
pub mod Reachable
use nexus_firmware.Prelude.{
  ℕ, ◌+◌, String, str_eq, Bool, true, false, not, ◌&&◌, ◌==◌, leb, Option, none, some, List, [],
  ◌∷◌, if◌then◌else◌,
}
use nexus_firmware.Prelude.Int.{ℤ, pos, negsuc}
use nexus_firmware.Core.Event.{Event, Value, text, flag, event, state_changed}
use nexus_firmware.Core.Bus.{Bus, notify}

pub record ConfirmedState : Type 0 where
  pub volume : ℤ
  pub muted : Bool
  pub delay_ms : ℤ
  pub eq_profile : String
  pub gain_db : ℕ
  pub phase_invert : Bool
  pub paired : Bool
  pub telemetry : Value
  pub has_link : Bool
  pub wifi_signal_dbm : ℤ
  pub link_age_s : ℤ
  pub confirmed_at : ℕ

unfoldable pub ever_confirmed : ConfirmedState → Bool
ever_confirmed c = not (c.confirmed_at == 0)

pub record SpeakerState : Type 0 where
  pub device_id : String
  pub confirmed : ConfirmedState
  pub online : Bool
  pub consecutive_failures : ℕ
  pub last_error : String

unfoldable pub fresh : String → SpeakerState
fresh device_id = record {
  device_id = device_id;
  confirmed = record {
    volume = pos 0;
    muted = false;
    delay_ms = pos 0;
    eq_profile = "";
    gain_db = 0;
    phase_invert = false;
    paired = false;
    telemetry = Value.nested;
    has_link = false;
    wifi_signal_dbm = pos 0;
    link_age_s = negsuc 0;
    confirmed_at = 0;
  };
  online = false;
  consecutive_failures = 0;
  last_error = "";
}

-- std::map<std::string, SpeakerState>; the order of the keys is not kept.
pub record SpeakerStateStore : Type 0 where
  pub bus : Bus
  pub states : List SpeakerState

unfoldable pub find : List SpeakerState → String → Option SpeakerState
find [] device_id = none
find (s ∷ ss) device_id = if str_eq s.device_id device_id then some s else find ss device_id

-- `states_[device_id]`, which makes a state where there is none, changed by `f`.
unfoldable pub change :
    (SpeakerState → SpeakerState) → String → List SpeakerState → List SpeakerState
change f device_id [] = f (fresh device_id) ∷ []
change f device_id (s ∷ ss) =
    let rest = change f device_id ss in if str_eq s.device_id device_id then f s ∷ ss else s ∷ rest

unfoldable pub at_or_fresh : List SpeakerState → String → SpeakerState
at_or_fresh [] device_id = fresh device_id
at_or_fresh (s ∷ ss) device_id =
    if str_eq s.device_id device_id then s else at_or_fresh ss device_id

unfoldable pub get : SpeakerStateStore → String → Option SpeakerState
get st device_id = find st.states device_id

unfoldable pub forget_from : String → List SpeakerState → List SpeakerState
forget_from device_id [] = []
forget_from device_id (s ∷ ss) =
    let rest = forget_from device_id ss in if str_eq s.device_id device_id then ss else s ∷ rest

unfoldable pub forget : SpeakerStateStore → String → SpeakerStateStore
forget st device_id = record st { states = forget_from device_id st.states }

unfoldable pub rejected : String → SpeakerState → SpeakerState
rejected message s = record s { last_error = message; online = true; consecutive_failures = 0 }

unfoldable pub note_rejected : SpeakerStateStore → String → String → SpeakerStateStore
note_rejected st device_id message = record st {
  states = change (rejected message) device_id st.states;
}

unfoldable pub failing : String → ℕ → SpeakerState → SpeakerState
failing why threshold s =
    let failures = s.consecutive_failures + 1 in
    record s {
      last_error = why;
      consecutive_failures = failures;
      online = s.online && not (leb threshold failures);
    }

unfoldable pub apply_poll_failure : SpeakerStateStore → String → String → ℕ → SpeakerStateStore
apply_poll_failure st device_id why threshold =
    let s = at_or_fresh st.states device_id in
    let became_offline = s.online && leb threshold (s.consecutive_failures + 1) in
    record {
      states = change (failing why threshold) device_id st.states;
      bus =
          if became_offline
          then notify st.bus (
              event state_changed "speaker.offline"
                (("device_id", text device_id) ∷ ("why", text why) ∷ []))
          else st.bus;
    }

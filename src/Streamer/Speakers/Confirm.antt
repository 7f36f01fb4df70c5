-- ===== src/Streamer/Speakers/Confirm.antt =====
-- applyConfirmedStatus of streamer/src/state/SpeakerStateStore.h.
use nexus_firmware.Prelude.{
  ℕ, ◌-◌, ◌%◌, ◌^◌, String, Bool, true, false, not, ◌||◌, ◌&&◌, Option, none, some, [], ◌∷◌, ◌++◌,
  ltb, if◌then◌else◌,
}
use nexus_firmware.Prelude.Int.{ℤ, pos, negsuc, leb_ℤ}
use nexus_firmware.Audio.Float.{Double, FloatOps}
use nexus_firmware.Core.Event.{Value, text, flag, int, real, event, state_changed}
use nexus_firmware.Core.Bus.{notify}
use nexus_firmware.Control.Command.{Payload, field, int_field, flag_field}
use nexus_firmware.Control.Reply.{get_int}
use nexus_firmware.Streamer.Speakers.{
  ConfirmedState, SpeakerState, SpeakerStateStore, ever_confirmed, change, at_or_fresh,
}

-- `get<std::int64_t>()` of a JSON integer.
abbrev signed64 : ℕ → ℤ
signed64 w = if ltb w (2 ^ 63) then pos w else negsuc (2 ^ 64 - w - 1)

unfoldable pub get_int64 : ℤ → ℤ
get_int64 (pos n) = signed64 (n % 2 ^ 64)
get_int64 (negsuc n) = signed64 (2 ^ 64 - 1 - n % 2 ^ 64)

-- What the function has gathered: the new values, those that differ, and whether there are any.
pub record Merge : Type 0 where
  pub confirmed : ConfirmedState
  pub changed : Payload
  pub touched : Bool

-- A changed value is noted when it differs, or when nothing was confirmed before.
abbrev noted : Bool → ConfirmedState → String → Value → Payload → Payload
noted same c key v changed =
    if not (ever_confirmed c) || not same then changed ++ ((key, v) ∷ []) else changed

abbrev eq_ℤ : ℤ → ℤ → Bool
eq_ℤ a b = leb_ℤ a b && leb_ℤ b a

abbrev eq_bool : Bool → Bool → Bool
eq_bool a b = (a && b) || (not a && not b)

-- One key each. A key that is missing, or of another type, changes nothing.
unfoldable pub merge_volume : Payload → Merge → Merge
merge_volume data' m = elim (int_field data' "volume") [
  | none ↦ m
  | some n ↦
      let c = m.confirmed in
      let v = get_int n in
      record {
        confirmed = record c { volume = v };
        changed = noted (eq_ℤ c.volume v) c "volume" (int v) m.changed;
        touched = true;
      }
]

unfoldable pub merge_muted : Payload → Merge → Merge
merge_muted data' m = elim (flag_field data' "muted") [
  | none ↦ m
  | some b ↦
      let c = m.confirmed in
      record {
        confirmed = record c { muted = b };
        changed = noted (eq_bool c.muted b) c "muted" (flag b) m.changed;
        touched = true;
      }
]

unfoldable pub merge_delay_ms : Payload → Merge → Merge
merge_delay_ms data' m = elim (int_field data' "delay_ms") [
  | none ↦ m
  | some n ↦ record m { confirmed = record m.confirmed { delay_ms = get_int n }; touched = true }
]

unfoldable pub merge_eq_profile : Payload → Merge → Merge
merge_eq_profile data' m = elim (field data' "eq_profile") [
  | some (text t) ↦ record m { confirmed = record m.confirmed { eq_profile = t }; touched = true }
  | some other ↦ m
  | none ↦ m
]

unfoldable pub set_gain : FloatOps → Double → Merge → Merge
set_gain f g m =
    let c = m.confirmed in
    let same = FloatOps.le f c.gain_db g && FloatOps.le f g c.gain_db in
    record {
      confirmed = record c { gain_db = g };
      changed = noted same c "gain_db" (real g) m.changed;
      touched = true;
    }

unfoldable pub merge_gain_db : FloatOps → Payload → Merge → Merge
merge_gain_db f data' m = elim (field data' "gain_db") [
  | some (real g) ↦ set_gain f g m
  | some (int n) ↦ set_gain f (FloatOps.of_int f n) m
  | some other ↦ m
  | none ↦ m
]

unfoldable pub merge_phase_invert : Payload → Merge → Merge
merge_phase_invert data' m = elim (flag_field data' "phase_invert") [
  | none ↦ m
  | some b ↦
      let c = m.confirmed in
      record {
        confirmed = record c { phase_invert = b };
        changed = noted (eq_bool c.phase_invert b) c "phase_invert" (flag b) m.changed;
        touched = true;
      }
]

unfoldable pub merge_paired : Payload → Merge → Merge
merge_paired data' m = elim (flag_field data' "paired") [
  | none ↦ m
  | some b ↦ record m { confirmed = record m.confirmed { paired = b }; touched = true }
]

-- `is_object` tells the objects among the nested values.
unfoldable pub merge_telemetry : (Value → Bool) → Payload → Merge → Merge
merge_telemetry is_object data' m = elim (field data' "telemetry") [
  | none ↦ m
  | some v ↦
      if is_object v
      then record m { confirmed = record m.confirmed { telemetry = v }; touched = true }
      else m
]

unfoldable pub link_age : Payload → ℤ
link_age data' = elim (int_field data' "link_age_s") [ some n ↦ get_int64 n | none ↦ negsuc 0 ]

unfoldable pub merge_link : Payload → Merge → Merge
merge_link data' m = elim (int_field data' "wifi_signal_dbm") [
  | none ↦ m
  | some n ↦ record m {
    confirmed = record m.confirmed {
      has_link = true;
      wifi_signal_dbm = get_int n;
      link_age_s = link_age data';
    };
    touched = true;
  }
]

unfoldable pub merge : FloatOps → (Value → Bool) → Payload → ConfirmedState → Merge
merge f is_object data' c = merge_link data' (
    merge_telemetry is_object data' (
      merge_paired data' (
        merge_phase_invert data' (
          merge_gain_db f data' (
            merge_eq_profile data' (
              merge_delay_ms data' (
                merge_muted data' (
                  merge_volume data'
                    (record { confirmed = c; changed = []; touched = false })))))))))

-- `now` is what the clock shows. `none` is a reply that is no object.
unfoldable pub merged : FloatOps → (Value → Bool) → Option Payload → ConfirmedState → Merge
merged f is_object (some data') c = merge f is_object data' c
merged f is_object none c = record { confirmed = c; changed = []; touched = false }

unfoldable pub confirm :
    FloatOps → (Value → Bool) → ℕ → Option Payload → SpeakerState → SpeakerState
confirm f is_object now data' s =
    let m = merged f is_object data' s.confirmed in
    record s {
      confirmed = if m.touched then record m.confirmed { confirmed_at = now } else m.confirmed;
      online = true;
      consecutive_failures = 0;
      last_error = "";
    }

abbrev is_nil : Payload → Bool
is_nil [] = true
is_nil (x ∷ xs) = false

unfoldable pub apply_confirmed_status :
    FloatOps → (Value → Bool) → ℕ → SpeakerStateStore → String → Option Payload → SpeakerStateStore
apply_confirmed_status f is_object now st device_id data' =
    let s = at_or_fresh st.states device_id in
    let m = merged f is_object data' s.confirmed in
    let bus1 =
      if s.online
      then st.bus
      else notify st.bus
          (event state_changed "speaker.online" (("device_id", text device_id) ∷ [])) in
    record {
      states = change (confirm f is_object now data') device_id st.states;
      bus =
          if is_nil m.changed
          then bus1
          else notify bus1 (
              event state_changed "speaker.state"
                (m.changed ++ (("device_id", text device_id) ∷ [])));
    }

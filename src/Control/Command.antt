-- ===== src/Control/Command.antt =====
-- src/control/Command.h and Command.cpp, and src/control/LinkState.h. A payload is the list of the
-- fields of its JSON object.
use nexus_firmware.Prelude.{
  ℕ, String, str_eq, Bool, true, Option, none, some, List, [], ◌∷◌, if◌then◌else◌,
}
use nexus_firmware.Prelude.Int.{ℤ}
use nexus_firmware.Core.Event.{Value, flag, int}

abbrev pub Payload : Type 0
Payload = List (String × Value)

pub record Command : Type 0 where
  pub command_id : String
  pub target_id : String
  pub command : String
  pub payload : Payload
  pub expires_at : ℤ
  pub timestamp : ℤ
  pub signature : String

pub record CommandResult : Type 0 where
  pub command_id : String
  pub ok : Bool
  pub message : String
  pub error_code : ℕ
  pub payload : Payload

-- `LinkState::Snapshot`, and `LinkState::report`.
pub record LinkState : Type 0 where
  pub valid : Bool
  pub wifi_signal_dbm : ℤ
  pub streamer_id : String
  pub reported_at : ℤ

unfoldable pub report : LinkState → ℤ → String → ℤ → LinkState
report s dbm id epoch_now = record {
  valid = true;
  wifi_signal_dbm = dbm;
  streamer_id = id;
  reported_at = epoch_now;
}

-- A field of a payload, read as the type that the code asks for.
unfoldable pub field : Payload → String → Option Value
field [] k = none
field ((j, v) ∷ p) k = if str_eq j k then some v else field p k

unfoldable pub int_field : Payload → String → Option ℤ
int_field p k = elim (field p k) [ some (int n) ↦ some n | some other ↦ none | none ↦ none ]

unfoldable pub flag_field : Payload → String → Option Bool
flag_field p k = elim (field p k) [ some (flag b) ↦ some b | some other ↦ none | none ↦ none ]

-- ===== src/Streamer/Commands.antt =====
-- The way of a command to a speaker: streamer/src/control/CommandSigner.cpp and CommandClient.cpp,
-- streamer/src/app/CommandGateway.cpp with the observer that StreamerApp.cpp sets, and the round of
-- streamer/src/state/MonitorService.h. Locks are held around whole exchanges; exchanges come one
-- after another here.
pub mod Accepted
use nexus_firmware.Prelude.{
  ℕ, zero, suc, ◌+◌, u64, String, str_append, Bool, true, false, Option, none, some, List, [], ◌∷◌,
  if◌then◌else◌,
}
use nexus_firmware.Prelude.Int.{ℤ, pos, ◌+ℤ◌}
use nexus_firmware.Core.Status.{ErrorCode, invalid_arg, Result, value, failed}
use nexus_firmware.Core.Event.{Value}
use nexus_firmware.Audio.Float.{FloatOps}
use nexus_firmware.Control.Command.{Command, Payload}
use nexus_firmware.Streamer.Registry.{Speaker, SpeakerRegistry}
use nexus_firmware.Streamer.Speakers.{SpeakerStateStore, note_rejected, apply_poll_failure}
use nexus_firmware.Streamer.Speakers.Confirm.{apply_confirmed_status}

pub record CommandReply : Type 0 where
  pub command_id : String
  pub ok : Bool
  pub message : String
  pub error_code : ℤ
  pub data_fields : Payload

-- What the JSON library makes of a line that came back: no JSON, with the parser's text, JSON whose
-- fields have other types than those asked for, or a reply.
pub data Answer : Type 0 where
  bad_json : String → Answer
  bad_type : Answer
  reply : CommandReply → Answer

-- A payload that is no JSON object is none.
unfoldable pub object_of : Option Payload → Payload
object_of (some p) = p
object_of none = []

unfoldable pub unsigned : String → String → String → Option Payload → ℤ → ℤ → Command
unsigned command_id target_id command payload expires_at timestamp = record {
  command_id = command_id;
  target_id = target_id;
  command = command;
  payload = object_of payload;
  expires_at = expires_at;
  timestamp = timestamp;
  signature = "";
}

unfoldable pub with_signature : Command → Result String → Result Command
with_signature c (value sig) = value (record c { signature = sig })
with_signature c (failed code msg) = failed code msg

-- `sign` is libsodium's signature of the canonical bytes with the streamer's secret key.
unfoldable pub build :
    (Command → Result String) → String → String → String → Option Payload → ℤ → ℤ → Result Command
build sign command_id target_id command payload expires_at timestamp =
    let c = unsigned command_id target_id command payload expires_at timestamp in
    with_signature c (sign c)

-- The outcome of an exchange; none where an exception of the JSON library leaves `send`.
abbrev pub Outcome : Type 0
Outcome = Option (Result CommandReply)

unfoldable pub read_answer : Result Answer → Outcome
read_answer (failed code msg) = some (failed code msg)
read_answer (value (bad_json what)) =
    some (failed invalid_arg (str_append "bad response json: " what))
read_answer (value bad_type) = none
read_answer (value (reply r)) = some (value r)

-- `request` is the transport, which is given the command that the line holds.
unfoldable pub client_send :
    (String → ℤ → Command → Result Answer) → String → ℤ → Result Command → Outcome
client_send request host port (failed code msg) = some (failed code msg)
client_send request host port (value c) = read_answer (request host port c)

-- What the clocks and the random salt are at an exchange.
pub record Moment : Type 0 where
  pub now_s : ℤ
  pub now_ms : ℕ
  pub salt : ℕ
  pub steady : ℕ

pub record CommandGateway : Type 0 where
  pub streamer_id : String
  pub counter : ℕ
  pub store : SpeakerStateStore

-- `number` and `hex` print a counter and four hexadecimal digits.
unfoldable pub next_command_id :
    (ℕ → String) → (ℕ → String) → Moment → String → CommandGateway → String × CommandGateway
next_command_id number hex m command g = (
  str_append "cmd-" (
      str_append g.streamer_id (
        str_append "-" (
          str_append (number m.now_ms) (
            str_append "-" (
              str_append (number g.counter)
                (str_append "-" (str_append (hex m.salt) (str_append "-" command)))))))),
  record g { counter = u64 (g.counter + 1) },
)

-- Whether the round came to its end, was stopped, or was left by an exception.
pub data Round : Type 0 where
  finished : CommandGateway → Round
  stopped : CommandGateway → Round
  escaped : CommandGateway → Round

module _ (f : FloatOps) (is_object : Value → Bool) (threshold : ℕ) where
  -- The observer that StreamerApp sets.
  unfoldable pub observer :
      Moment → String → Result CommandReply → SpeakerStateStore → SpeakerStateStore
  observer m device_id (failed code msg) st = apply_poll_failure st device_id msg threshold
  observer m device_id (value r) st =
      if r.ok
      then apply_confirmed_status f is_object m.steady st device_id (some r.data_fields)
      else note_rejected st device_id r.message

  unfoldable pub observed :
      Bool → Moment → String → CommandGateway → Outcome → Outcome × CommandGateway
  observed observe m device_id g none = (none, g)
  observed observe m device_id g (some r) =
      (some r, if observe then record g { store = observer m device_id r g.store } else g)

module _ (f : FloatOps) (is_object : Value → Bool) (threshold : ℕ) (number : ℕ → String)
    (hex : ℕ → String) (sign : Command → Result String)
    (request : Moment → String → ℤ → Command → Result Answer) where
  unfoldable pub dispatch :
      Moment
      → Speaker
      → String
      → Option Payload
      → ℤ
      → Bool
      → CommandGateway
      → Outcome × CommandGateway
  dispatch m target command payload ttl observe g =
      let (command_id, g1) = next_command_id number hex m command g in
      let c = build sign command_id target.device_id command payload (m.now_s +ℤ ttl) m.now_s in
      observed f is_object threshold observe m target.device_id g1
        (client_send (request m) target.host target.control_port c)

  unfoldable pub send :
      Moment → Speaker → String → Option Payload → ℤ → CommandGateway → Outcome × CommandGateway
  send m target command payload ttl g = dispatch m target command payload ttl true g

  unfoldable pub send_unobserved :
      Moment → Speaker → String → Option Payload → ℤ → CommandGateway → Outcome × CommandGateway
  send_unobserved m target command payload ttl g = dispatch m target command payload ttl false g

  unfoldable pub poll_speaker : Moment → Speaker → CommandGateway → Outcome × CommandGateway
  poll_speaker m sp g = send m sp "GET_STATUS" (some []) (pos 30) g

  -- The k-th exchange is at the k-th moment; `stopping` is the flag before it.
  unfoldable pub poll_from :
      (ℕ → Moment) → (ℕ → Bool) → ℕ → SpeakerRegistry → CommandGateway → Round
  poll_from at_k stopping k [] g = finished g
  poll_from at_k stopping k (sp ∷ sps) g =
      let (outcome, g1) = poll_speaker (at_k k) sp g in
      if stopping k
      then stopped g
      else elim outcome [ none ↦ escaped g1 | some r ↦ poll_from at_k stopping (suc k) sps g1 ]

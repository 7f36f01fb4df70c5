-- ===== src/Core/Bus.antt =====
-- src/core/EventBus.h and EventBus.cpp: subscriptions, the event queue, and the worker thread.
pub mod Steps
pub mod Dispatch
use nexus_firmware.Prelude.{
  ℕ, suc, ◌+◌, ◌-◌, ◌≡◌, Bool, true, false, ◌||◌, Option, none, some, List, [], ◌∷◌, ◌++◌, ◌==◌,
  u64, if◌then◌else◌, arith,
}
use nexus_firmware.Core.Event.{EventType, Event, eq_event, state_changed}

-- The private struct `Subscription`. A handler is known by a number.
pub record Subscription : Type 0 where
  pub token : ℕ
  pub all : Bool
  pub type : EventType
  pub handler : ℕ

pub record EventBus : Type 0 where
  pub subs : List Subscription
  pub next_token : ℕ
  pub queue : List Event
  pub running : Bool
  pub in_flight : ℕ

-- The constructor, which also starts the worker.
unfoldable pub init : EventBus
init = record { subs = []; next_token = 1; queue = []; running = true; in_flight = 0 }

-- Returns the bus and the token.
unfoldable pub subscribe : EventBus → EventType → ℕ → EventBus × ℕ
subscribe b t h =
    (record b { subs = b.subs ++ (sub ∷ []); next_token = u64 (b.next_token + 1) }, b.next_token)
  where
    sub : Subscription
    sub = record { token = b.next_token; all = false; type = t; handler = h }

unfoldable pub subscribe_all : EventBus → ℕ → EventBus × ℕ
subscribe_all b h =
    (record b { subs = b.subs ++ (sub ∷ []); next_token = u64 (b.next_token + 1) }, b.next_token)
  where
    sub : Subscription
    sub = record { token = b.next_token; all = true; type = state_changed; handler = h }

-- The loop of `unsubscribe`: the first subscription with the token is erased.
unfoldable pub erase_token : ℕ → List Subscription → List Subscription
erase_token t [] = []
erase_token t (s ∷ ss) = if s.token == t then ss else s ∷ erase_token t ss

unfoldable pub unsubscribe : EventBus → ℕ → EventBus
unfolding erase_token
unsubscribe b t = record b { subs = erase_token t b.subs }

unfoldable pub publish : EventBus → Event → EventBus
publish b e =
    if b.running then record b { queue = b.queue ++ (e ∷ []); in_flight = b.in_flight + 1 } else b

-- The handlers that `dispatch` copies under the lock: those for all events or for this type.
unfoldable pub matching : List Subscription → EventType → List ℕ
matching [] t = []
matching (s ∷ ss) t =
    if s.all || eq_event s.type t then s.handler ∷ matching ss t else matching ss t

-- `stop`, up to the join of the worker, which drains the queue.
unfoldable pub stop : EventBus → EventBus
stop b = record b { running = false }

-- A module's pointer to the bus, which may be null: `if (bus_) bus_->publish(e)`.
abbrev pub Bus : Type 0
Bus = Option EventBus

unfoldable pub notify : Bus → Event → Bus
unfolding publish
notify none e = none
notify (some b) e = some (publish b e)

-- The events that stand in the queue of a bus.
abbrev pub queued : Bus → List Event
queued none = []
queued (some b) = b.queue

-- A running bus takes an event at the end of its queue.
pub publish-queue :
    (b : EventBus) (e : Event)
    → b.running ≡ true
    → (EventBus.running (publish b e) ≡ true) × (EventBus.queue (publish b e) ≡ b.queue ++ (e ∷ []))
unfolding publish
publish-queue b e r = ground arith

-- ===== src/Core/Bus/Dispatch.antt =====
-- `EventBus::dispatch` of src/core/EventBus.cpp: the handlers are called one after another, and one
-- that throws is isolated from the others.
use nexus_firmware.Prelude.{ℕ, ◌<◌, ◌≡◌, ◌||◌, List, [], ◌∷◌, ◌++◌, arith, All, if◌then◌else◌}
use nexus_firmware.Core.Event.{EventType, Event, eq_event}
use nexus_firmware.Core.Bus.{Subscription, EventBus, matching, subscribe, unsubscribe, erase_token}
use mathlib.Core.List.{append-nil, append_assoc}

-- How a call of a handler ends.
pub data Outcome (W : Type 0) : Type 0 where
  returns : W → Outcome W
  throws : W → Outcome W

-- The handlers are code of the subscribers: what the one with a number does to the rest of the
-- program. One that throws may have done part of its work.
module _ {W : Type 0} (call : ℕ → Event → W → Outcome W) where
  -- `try { h(event); } catch (...) { … }`
  pub guarded : ℕ → Event → W → W
  guarded h e w = elim (call h e w) [ returns w' ↦ w' | throws w' ↦ w' ]

  pub call_all : List ℕ → Event → W → W
  call_all [] e w = w
  call_all (h ∷ hs) e w = call_all hs e (guarded h e w)

  -- The list of handlers is copied before the first call, so it is that of the bus at the start.
  pub dispatch : EventBus → Event → W → W
  unfolding call_all
  dispatch b e w = call_all (matching b.subs e.type) e w

-- Handlers whose calls are written down, in a world that holds the list of the calls so far.
pub logged :
    {W : Type 0} → (ℕ → Event → W → Outcome W) → ℕ → Event → W × List ℕ → Outcome (W × List ℕ)
logged call h e (w, log) = elim (call h e w) [
  | returns w' ↦ returns (w', log ++ (h ∷ []))
  | throws w' ↦ throws (w', log ++ (h ∷ []))
]

module _ {W : Type 0} (call : ℕ → Event → W → Outcome W) where
  guarded-logged :
      (h : ℕ) (e : Event) (w : W) (log : List ℕ)
      → guarded (logged call) h e (w, log) ≡ (guarded call h e w, log ++ (h ∷ []))
  unfolding guarded logged
  guarded-logged h e w log = ground arith

  call_all-logged :
      (hs : List ℕ) (e : Event) (w : W) (log : List ℕ)
      → call_all (logged call) hs e (w, log) ≡ (call_all call hs e w, log ++ hs)
  unfolding call_all
  call_all-logged [] e w log = rw (append-nil log)
  call_all-logged (h ∷ hs) e w log =
      rw (guarded-logged h e w log, call_all-logged hs e (guarded call h e w) (log ++ (h ∷ [])))
        (rw (append_assoc log (h ∷ []) hs))

  -- Each handler that matched when the event was taken is called exactly once, in the order of
  -- subscription, whichever of them throw, and the calls have the effect that they have unlogged.
  pub dispatch_calls_all :
      (b : EventBus) (e : Event) (w : W)
      → dispatch (logged call) b e (w, []) ≡ (dispatch call b e w, matching b.subs e.type)
  unfolding dispatch
  dispatch_calls_all b e w = call_all-logged (matching b.subs e.type) e w []

-- The tokens that were handed out are below the next one.
abbrev pub Fresh : EventBus → Type 0
Fresh b = All (λ (s : Subscription). s.token < b.next_token) b.subs

-- `subscribe` adds the handler last for its type and for no other type.
matching-snoc :
    (ss : List Subscription) (s : Subscription) (t : EventType)
    → matching (ss ++ (s ∷ [])) t
      ≡ matching ss t ++ (if s.all || eq_event s.type t then s.handler ∷ [] else [])
unfolding matching
matching-snoc [] s t = ground arith
matching-snoc (x ∷ ss) s t = ground (arith, matching-snoc ss s t)

erase-snoc :
    (ss : List Subscription) (s : Subscription)
    → All (λ (x : Subscription). x.token < s.token) ss
    → erase_token s.token (ss ++ (s ∷ [])) ≡ ss
unfolding erase_token
erase-snoc [] s h = ground arith
erase-snoc (x ∷ ss) s h = ground (arith, erase-snoc ss s h.1)

-- A new subscription is called last, for its own event type and no other, and the token that
-- `subscribe` returned takes exactly that subscription off the bus again.
pub unsubscribe-subscribe :
    (b : EventBus) (t u : EventType) (h : ℕ)
    → Fresh b
    → (matching (subscribe b t h).0.subs u
        ≡ matching b.subs u ++ (if eq_event t u then h ∷ [] else []))
      × ((unsubscribe (subscribe b t h).0 (subscribe b t h).1).subs ≡ b.subs)
unfolding subscribe unsubscribe
unsubscribe-subscribe b t u h f = (matching-snoc b.subs _ u, erase-snoc b.subs _ f)

-- ===== src/Streamer/Speakers/Reachable.antt =====
-- What the outcomes of the exchanges with a speaker make of its state in
-- streamer/src/state/SpeakerStateStore.h.
use text.Mathlib.TextEquality.{eq_iff}
use nexus_firmware.Prelude.{
  ℕ, ◌+◌, ◌≡◌, refl, ◌∙◌, String, str_eq, Bool, true, false, ◌&&◌, ltb, arith, Option, none, List,
  [], ◌∷◌, Bool-cases, inl, inr,
}
use nexus_firmware.Core.Event.{Value}
use nexus_firmware.Audio.Float.{FloatOps}
use nexus_firmware.Control.Command.{Payload}
use nexus_firmware.Streamer.Speakers.{
  SpeakerState, SpeakerStateStore, fresh, find, change, at_or_fresh, rejected, failing,
  note_rejected, apply_poll_failure,
}
use nexus_firmware.Streamer.Speakers.Confirm.{confirm, apply_confirmed_status}

fresh-device_id : (i : String) → (fresh i).device_id ≡ i
unfolding fresh
fresh-device_id i = refl

fresh-offline : (i : String) → ((fresh i).online ≡ false) × ((fresh i).consecutive_failures ≡ 0)
unfolding fresh
fresh-offline i = (refl, refl)

at_or_fresh-none :
    (ss : List SpeakerState) (i : String) → find ss i ≡ none → at_or_fresh ss i ≡ fresh i
unfolding at_or_fresh find
at_or_fresh-none [] i e = refl
at_or_fresh-none (s ∷ ss) i e = elim (Bool-cases (str_eq s.device_id i)) [
  | inl m ↦ absurd (cc (rw m at e))
  | inr m ↦ rw m (at_or_fresh-none ss i (rw m at e))
]

-- The state of the speaker that is changed. A change keeps the speaker's id.
at_or_fresh-change :
    (g : SpeakerState → SpeakerState) (ss : List SpeakerState) (i : String)
    → ((s : SpeakerState) → (g s).device_id ≡ s.device_id)
    → at_or_fresh (change g i ss) i ≡ g (at_or_fresh ss i)
unfolding change at_or_fresh find
at_or_fresh-change g [] i same =
    rw ((eq_iff (g (fresh i)).device_id i).1 (same (fresh i) ∙ fresh-device_id i)) refl
at_or_fresh-change g (s ∷ ss) i same = elim (Bool-cases (str_eq s.device_id i)) [
  | inl e ↦ rw (e, (eq_iff (g s).device_id i).1 (same s ∙ (eq_iff s.device_id i).0 e)) refl
  | inr e ↦ rw (e, e) (at_or_fresh-change g ss i same)
]

-- One exchange with a speaker, with what came of it.
pub data Exchange : Type 0 where
  answered : ℕ → Option Payload → Exchange
  refused : String → Exchange
  unreachable : String → Exchange

-- The failures since the last answer, counted from n.
unfoldable pub failures_since : ℕ → List Exchange → ℕ
failures_since n [] = n
failures_since n (unreachable why ∷ xs) = failures_since (n + 1) xs
failures_since n (answered now d ∷ xs) = failures_since 0 xs
failures_since n (refused message ∷ xs) = failures_since 0 xs

unfoldable pub heard_from : Bool → List Exchange → Bool
heard_from b [] = b
heard_from b (unreachable why ∷ xs) = heard_from b xs
heard_from b (answered now d ∷ xs) = heard_from true xs
heard_from b (refused message ∷ xs) = heard_from true xs

module _ (f : FloatOps) (is_object : Value → Bool) where
  unfoldable pub record_exchange : SpeakerStateStore → String → Exchange → SpeakerStateStore
  record_exchange st id (answered now d) = apply_confirmed_status f is_object now st id d
  record_exchange st id (refused message) = note_rejected st id message
  record_exchange st id (unreachable why) = apply_poll_failure st id why 3

  unfoldable pub record_all : SpeakerStateStore → String → List Exchange → SpeakerStateStore
  record_all st id [] = st
  record_all st id (x ∷ xs) = record_all (record_exchange st id x) id xs

  -- The state of the speaker follows from whether it was heard from and the failures since.
  Follows : String → Bool → ℕ → SpeakerStateStore → Type 0
  Follows id heard n st =
      let s = at_or_fresh st.states id in
      (s.online ≡ (heard && ltb n 3)) × (s.consecutive_failures ≡ n)

  answered-Follows :
      (id : String) (now : ℕ) (d : Option Payload) (st : SpeakerStateStore)
      → Follows id true 0 (apply_confirmed_status f is_object now st id d)
  unfolding Follows apply_confirmed_status confirm
  answered-Follows id now d st =
      rw (at_or_fresh-change (confirm f is_object now d) st.states id (λ s. refl)) (refl, refl)

  refused-Follows :
      (id message : String) (st : SpeakerStateStore)
      → Follows id true 0 (note_rejected st id message)
  unfolding Follows note_rejected rejected
  refused-Follows id message st =
      rw (at_or_fresh-change (rejected message) st.states id (λ s. refl)) (refl, refl)

  unreachable-Follows :
      (id why : String) (heard : Bool) (n : ℕ) (st : SpeakerStateStore)
      → Follows id heard n st
      → Follows id heard (n + 1) (apply_poll_failure st id why 3)
  unfolding Follows apply_poll_failure failing
  unreachable-Follows id why heard n st (on, count) =
      rw (at_or_fresh-change (failing why 3) st.states id (λ s. refl))
        (rw (on, count) (ground arith), rw count refl)

  record_all-Follows :
      (id : String) (xs : List Exchange) (heard : Bool) (n : ℕ) (st : SpeakerStateStore)
      → Follows id heard n st
      → Follows id (heard_from heard xs) (failures_since n xs) (record_all st id xs)
  unfolding record_all record_exchange heard_from failures_since
  record_all-Follows id [] heard n st h = h
  record_all-Follows id (answered now d ∷ xs) heard n st h =
      record_all-Follows id xs true 0 (apply_confirmed_status f is_object now st id d)
        (answered-Follows id now d st)
  record_all-Follows id (refused message ∷ xs) heard n st h =
      record_all-Follows id xs true 0 (note_rejected st id message) (refused-Follows id message st)
  record_all-Follows id (unreachable why ∷ xs) heard n st h =
      record_all-Follows id xs heard (n + 1) (apply_poll_failure st id why 3)
        (unreachable-Follows id why heard n st h)

  -- A speaker that was not known before is shown online after any exchanges exactly when it was
  -- heard from and fewer than three failed since.
  pub online_lem :
      (id : String) (xs : List Exchange) (st : SpeakerStateStore)
      → find st.states id ≡ none
      → (at_or_fresh (record_all st id xs).states id).online
        ≡ (heard_from false xs && ltb (failures_since 0 xs) 3)
  unfolding Follows
  online_lem id xs st unknown = (record_all-Follows id xs false 0 st (new st unknown)).0
    where
      new : (st : SpeakerStateStore) → find st.states id ≡ none → Follows id false 0 st
      new st unknown = rw (at_or_fresh-none st.states id unknown) (fresh-offline id)

-- ===== src/System/Watchdog/Streaks.antt =====
-- Consecutive failures in src/system/Watchdog.cpp.
use nexus_firmware.Prelude.{
  ℕ, ◌+◌, ◌*◌, ◌<◌, ◌≡◌, ◌≢◌, refl, sym, subst, ◌∙◌, String, Bool, true, false, List, [], ◌∷◌,
  arith, length, All,
}
use nexus_firmware.System.Watchdog.{Watchdog, count_of, poll_once}
use nexus_firmware.System.Watchdog.Rounds.{times, Alone, failing_poll}

module _ (name : ℕ → String) where
  -- The service is unhealthy in each of the polls.
  abbrev pub AllSick : ℕ → List (ℕ → Bool) → Type 0
  AllSick svc = All (λ (healthy : ℕ → Bool). healthy svc ≡ false)

  pub polls : List (ℕ → Bool) → Watchdog → Watchdog
  polls [] w = w
  polls (healthy ∷ hs) w = polls hs (poll_once name healthy w).0

  streak :
      (t svc : ℕ) (hs : List (ℕ → Bool)) (w : Watchdog)
      → AllSick svc hs
      → svc ≢ w.self
      → w.recovery ≡ true
      → w.fail_threshold ≡ t
      → count_of w.fail_counts (name svc) < t
      → Alone name w.self svc w.watched
      → let v = polls hs w in
        (t * times (name svc) v.recoveries + count_of v.fail_counts (name svc)
          ≡ t * times (name svc) w.recoveries + count_of w.fail_counts (name svc) + length hs)
        × (count_of v.fail_counts (name svc) < t)
  unfolding polls poll_once
  streak t svc [] w sick other on at below alone = (omega arith, below)
  streak t svc (h ∷ hs) w sick other on at below alone =
      let v = (poll_once name h w).0 in
      let one = failing_poll name t h svc w.watched w 0 sick.0 other on at below alone in
      let rest =
        streak t svc hs v sick.1 (λ e. other (e ∙ one.self)) (one.recovery ∙ on)
          (one.threshold ∙ at) one.below
          (subst (λ self. Alone name self svc v.watched) (sym one.self)
            (subst (Alone name w.self svc) (sym one.watched) alone)) in
      (omega (arith, rest.0, one.balance), rest.1)

  -- A watched service that is unhealthy in some polls in a row, whatever the other services do: the
  -- recovery handler is called for it once for every `fail_threshold` failures, counted from where
  -- its counter stood, and the counter holds the rest.
  pub recovery_every_threshold :
      (svc : ℕ) (hs : List (ℕ → Bool)) (w : Watchdog)
      → AllSick svc hs
      → svc ≢ w.self
      → w.recovery ≡ true
      → count_of w.fail_counts (name svc) < w.fail_threshold
      → Alone name w.self svc w.watched
      → let v = polls hs w in
        (w.fail_threshold * times (name svc) v.recoveries + count_of v.fail_counts (name svc)
          ≡ w.fail_threshold * times (name svc) w.recoveries
            + count_of w.fail_counts (name svc)
            + length hs)
        × (count_of v.fail_counts (name svc) < w.fail_threshold)
  recovery_every_threshold svc hs w sick other on below alone =
      streak w.fail_threshold svc hs w sick other on refl below alone

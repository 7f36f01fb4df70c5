-- ===== src/System/Watchdog/Rounds.antt =====
-- One poll of a service's health in src/system/Watchdog.cpp: what it does to the service's counter.
use text.Mathlib.TextEquality.{eq_iff}
use text.Mathlib.TextPositions.{eq_refl}
use nexus_firmware.Prelude.{
  ℕ, suc, ◌+◌, ◌*◌, ◌<◌, ◌≤◌, ◌≡◌, ◌≢◌, refl, sym, subst, ◌∙◌, String, str_eq, Bool, true, false,
  Option, none, some, List, [], ◌∷◌, ◌++◌, arith, if◌then◌else◌, inl, inr, ◌⊎◌,
}
use nexus_firmware.System.Watchdog.{
  Watchdog, count_of, set_count, note_failure, poll_service, poll_all,
}

count_of-set_count :
    (cs : List (String × ℕ)) (n m : String) (c : ℕ)
    → count_of (set_count cs n c) m ≡ (if str_eq n m then c else count_of cs m)
unfolding count_of set_count
count_of-set_count [] n m c = refl
count_of-set_count ((k, d) ∷ cs) n m c =
    ground (arith, eq_iff k n, eq_iff k m, eq_iff n m, count_of-set_count cs n m c)

-- How often a name stands in a list.
unfoldable pub times : String → List String → ℕ
times n [] = 0
times n (m ∷ ms) = if str_eq m n then suc (times n ms) else times n ms

times-snoc :
    (n m : String) (ms : List String)
    → times n (ms ++ (m ∷ [])) ≡ times n ms + (if str_eq m n then 1 else 0)
unfolding times
times-snoc n m [] = ground arith
times-snoc n m (x ∷ ms) = ground (arith, times-snoc n m ms)

module _ (name : ℕ → String) where
  -- What one poll leaves of a service's count, and whether it asked for recovery.
  abbrev IsQuiet : String → Watchdog → Watchdog → Type 0
  IsQuiet n w v =
      (count_of v.fail_counts n ≡ count_of w.fail_counts n)
      × (times n v.recoveries ≡ times n w.recoveries)
      × (v.fail_threshold ≡ w.fail_threshold)
      × (v.recovery ≡ w.recovery)
      × (v.self ≡ w.self)
      × (v.watched ≡ w.watched)

  -- Another service's round does not touch the count of this one.
  other-IsQuiet :
      (healthy : ℕ → Bool) (x : ℕ) (n : String) (w : Watchdog) (u : ℕ)
      → (x ≡ w.self) ⊎ (name x ≢ n)
      → IsQuiet n w (poll_service name healthy (some x) (w, u)).0
  unfolding poll_service note_failure
  other-IsQuiet healthy x n w u h = ground (
    arith,
    eq_iff (name x) n,
    count_of-set_count w.fail_counts (name x) n 0,
    count_of-set_count w.fail_counts (name x) n (count_of w.fail_counts (name x) + 1),
    times-snoc n (name x) w.recoveries,
  )

  -- No round of the list is for a service of this name.
  abbrev pub Absent : ℕ → String → List (Option ℕ) → Type 0
  Absent self n [] = Unit {0}
  Absent self n (none ∷ xs) = Absent self n xs
  Absent self n (some x ∷ xs) = ((x ≡ self) ⊎ (name x ≢ n)) × Absent self n xs

  Absent-IsQuiet :
      (healthy : ℕ → Bool) (xs : List (Option ℕ)) (n : String) (w : Watchdog) (u : ℕ)
      → Absent w.self n xs
      → IsQuiet n w (poll_all name healthy xs (w, u)).0
  unfolding poll_all poll_service
  Absent-IsQuiet healthy [] n w u h = (refl, refl, refl, refl, refl, refl)
  Absent-IsQuiet healthy (none ∷ xs) n w u h = Absent-IsQuiet healthy xs n w u h
  Absent-IsQuiet healthy (some x ∷ xs) n w u h =
      let s = poll_service name healthy (some x) (w, u) in
      let q = other-IsQuiet healthy x n w u h.0 in
      let r =
        Absent-IsQuiet healthy xs n s.0 s.1 (subst (λ self. Absent self n xs) (sym q.4) h.1) in
      (r.0 ∙ q.0, r.1 ∙ q.1, r.2 ∙ q.2, r.3 ∙ q.3, r.4 ∙ q.4, r.5 ∙ q.5)

  -- The service stands at one place of the list, and no other that is polled bears its name.
  abbrev pub Alone : ℕ → ℕ → List (Option ℕ) → Type 0
  Alone self svc [] = ⊥
  Alone self svc (none ∷ xs) = Alone self svc xs
  Alone self svc (some x ∷ xs) =
      ((x ≡ svc) × Absent self (name svc) xs)
      ⊎ (((x ≡ self) ⊎ (name x ≢ name svc)) × Alone self svc xs)

  -- One more failure in a row at the threshold `t`: the count goes up, or recovery is asked for and
  -- it starts again.
  pub record IsStruck (t : ℕ) (n : String) (w v : Watchdog) : Type 0 where
    pub balance :
        t * times n v.recoveries + count_of v.fail_counts n
        ≡ t * times n w.recoveries + count_of w.fail_counts n + 1
    pub below : count_of v.fail_counts n < t
    pub threshold : v.fail_threshold ≡ w.fail_threshold
    pub recovery : v.recovery ≡ w.recovery
    pub self : v.self ≡ w.self
    pub watched : v.watched ≡ w.watched

  failure_counts :
      (w : Watchdog) (n : String)
      → w.recovery ≡ true
      → let v = note_failure name w n in
        ((w.fail_threshold ≤ count_of w.fail_counts n + 1)
          × (count_of v.fail_counts n ≡ 0)
          × (times n v.recoveries ≡ times n w.recoveries + 1))
        ⊎ ((count_of w.fail_counts n + 1 < w.fail_threshold)
            × (count_of v.fail_counts n ≡ count_of w.fail_counts n + 1)
            × (times n v.recoveries ≡ times n w.recoveries))
  unfolding note_failure
  failure_counts w n on = ground (
    arith,
    eq_refl n,
    count_of-set_count w.fail_counts n n 0,
    count_of-set_count w.fail_counts n n (count_of w.fail_counts n + 1),
    times-snoc n n w.recoveries,
  )

  failure_keeps :
      (w : Watchdog) (n : String)
      → let v = note_failure name w n in
        (v.fail_threshold ≡ w.fail_threshold)
        × (v.recovery ≡ w.recovery)
        × (v.self ≡ w.self)
        × (v.watched ≡ w.watched)
  unfolding note_failure
  failure_keeps w n = ground arith

  failure-IsStruck :
      (t : ℕ) (w : Watchdog) (n : String)
      → w.recovery ≡ true
      → w.fail_threshold ≡ t
      → count_of w.fail_counts n < t
      → IsStruck t n w (note_failure name w n)
  failure-IsStruck t w n on at below =
      let (threshold, recovery, self, watched) = failure_keeps w n in
      let counts = failure_counts w n on in
      record {
        balance = elim counts [
          | inl (full, restart, more) ↦ rw (restart, more) (grind arith)
          | inr (room, up, before) ↦ rw (up, before) (omega arith)
        ];
        below = elim counts [
          | inl (full, restart, more) ↦ rw restart (omega arith)
          | inr (room, up, before) ↦ rw up (omega arith)
        ];
        threshold = threshold;
        recovery = recovery;
        self = self;
        watched = watched;
      }

  failing_round :
      (healthy : ℕ → Bool) (x svc : ℕ) (w : Watchdog) (u : ℕ)
      → x ≡ svc
      → healthy svc ≡ false
      → svc ≢ w.self
      → poll_service name healthy (some x) (w, u) ≡ (note_failure name w (name svc), u + 1)
  unfolding poll_service
  failing_round healthy x svc w u here sick other = ground arith

  then_quiet :
      {t : ℕ} {n : String} {w v x : Watchdog} → IsStruck t n w v → IsQuiet n v x → IsStruck t n w x
  then_quiet s q = ground arith

  quiet_then :
      {t : ℕ} {n : String} {w v x : Watchdog} → IsQuiet n w v → IsStruck t n v x → IsStruck t n w x
  quiet_then q s = ground arith

  -- One poll in which the service is found unhealthy.
  pub failing_poll :
      (t : ℕ) (healthy : ℕ → Bool) (svc : ℕ) (xs : List (Option ℕ)) (w : Watchdog) (u : ℕ)
      → healthy svc ≡ false
      → svc ≢ w.self
      → w.recovery ≡ true
      → w.fail_threshold ≡ t
      → count_of w.fail_counts (name svc) < t
      → Alone w.self svc xs
      → IsStruck t (name svc) w (poll_all name healthy xs (w, u)).0
  unfolding poll_all poll_service
  failing_poll t healthy svc [] w u sick other on at below alone = absurd alone
  failing_poll t healthy svc (none ∷ xs) w u sick other on at below alone =
      failing_poll t healthy svc xs w u sick other on at below alone
  failing_poll t healthy svc (some x ∷ xs) w u sick other on at below (inl (here, absent)) =
      let v = note_failure name w (name svc) in
      let struck = failure-IsStruck t w (name svc) on at below in
      subst (λ (s : Watchdog × ℕ). IsStruck t (name svc) w (poll_all name healthy xs s).0)
        (sym (failing_round healthy x svc w u here sick other))
        (then_quiet struck (
          Absent-IsQuiet healthy xs (name svc) v (u + 1)
            (subst (λ self. Absent self (name svc) xs) (sym struck.self) absent)))
  failing_poll t healthy svc (some x ∷ xs) w u sick other on at below (inr (away, alone)) =
      let s = poll_service name healthy (some x) (w, u) in
      let (count, calls, threshold, recovery, self, watched) =
        other-IsQuiet healthy x (name svc) w u away in
      quiet_then (count, calls, threshold, recovery, self, watched)
        (failing_poll t healthy svc xs s.0 s.1 sick (λ e. other (e ∙ self)) (recovery ∙ on)
          (threshold ∙ at) (omega (arith, count))
          (subst (λ self. Alone self svc xs) (sym self) alone))

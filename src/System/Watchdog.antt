-- ===== src/System/Watchdog.antt =====
-- src/system/Watchdog.h and Watchdog.cpp. A service is known by a number: its name and the outcome of
-- its `healthCheck()` belong to the service and are arguments.
pub mod Rounds
pub mod Streaks
use nexus_firmware.Prelude.{
  ℕ, ◌+◌, String, str_eq, Bool, true, false, Option, none, some, List, [], ◌∷◌, ◌++◌, leb, ◌==◌,
  if◌then◌else◌,
}
use nexus_firmware.Prelude.Int.{pos}
use nexus_firmware.Core.Event.{event, text, int, health_check_failed, watchdog_timeout}
use nexus_firmware.Core.Bus.{Bus, notify}

-- `self` is the watchdog's own place among the services, which `pollOnce` skips. `recoveries` is what
-- the recovery handler, when there is one, was called with.
pub record Watchdog : Type 0 where
  pub bus : Bus
  pub self : ℕ
  pub fail_threshold : ℕ
  pub watched : List (Option ℕ)
  pub fail_counts : List (String × ℕ)
  pub recovery : Bool
  pub recoveries : List String

unfoldable pub watch : Watchdog → Option ℕ → Watchdog
watch w svc = record w { watched = w.watched ++ (svc ∷ []) }

-- `fail_counts_[n]`, which is 0 for a name that is not there, and the assignment to it.
unfoldable pub count_of : List (String × ℕ) → String → ℕ
count_of [] n = 0
count_of ((m, c) ∷ cs) n = if str_eq m n then c else count_of cs n

unfoldable pub set_count : List (String × ℕ) → String → ℕ → List (String × ℕ)
set_count [] n c = (n, c) ∷ []
set_count ((m, d) ∷ cs) n c = if str_eq m n then (m, c) ∷ cs else (m, d) ∷ set_count cs n c

module _ (name : ℕ → String) where
  -- The body of the loop for a service that is unhealthy.
  unfoldable pub note_failure : Watchdog → String → Watchdog
  note_failure w n =
      let count = count_of w.fail_counts n + 1 in
      let failed =
        event health_check_failed "watchdog"
          (("service", text n) ∷ ("count", int (pos count)) ∷ []) in
      let told = notify w.bus failed in
      if leb w.fail_threshold count
      then record w {
        fail_counts = set_count w.fail_counts n 0;
        bus = notify told (event watchdog_timeout "watchdog" (("service", text n) ∷ []));
        recoveries = if w.recovery then w.recoveries ++ (n ∷ []) else w.recoveries;
      }
      else record w { fail_counts = set_count w.fail_counts n count; bus = told }

  -- One round of the loop: the watchdog and the number of unhealthy services so far.
  unfoldable pub poll_service : (ℕ → Bool) → Option ℕ → Watchdog × ℕ → Watchdog × ℕ
  poll_service healthy none (w, unhealthy) = (w, unhealthy)
  poll_service healthy (some svc) (w, unhealthy) =
      if svc == w.self
      then (w, unhealthy)
      else if healthy svc
      then (record w { fail_counts = set_count w.fail_counts (name svc) 0 }, unhealthy)
      else (note_failure w (name svc), unhealthy + 1)

  unfoldable pub poll_all : (ℕ → Bool) → List (Option ℕ) → Watchdog × ℕ → Watchdog × ℕ
  poll_all healthy [] s = s
  poll_all healthy (svc ∷ svcs) s = poll_all healthy svcs (poll_service healthy svc s)

  -- `pollOnce`: the loop runs over a copy of the list.
  unfoldable pub poll_once : (ℕ → Bool) → Watchdog → Watchdog × ℕ
  poll_once healthy w = poll_all healthy w.watched (w, 0)

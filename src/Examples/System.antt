-- ===== src/Examples/System.antt =====
-- The results on the device's states, safe mode and the watchdog at concrete inputs.
use nexus_firmware.Prelude.{
  ℕ, ◌+◌, ◌*◌, ◌<◌, String, Bool, true, false, none, some, List, [], ◌∷◌, ◌≡◌, ◌≢◌, refl, inl,
  arith,
}
use nexus_firmware.Core.Event.{
  EventType, network_connected, network_disconnected, audio_started, update_failed,
  watchdog_timeout, streamer_found,
}
use nexus_firmware.System.State.{SystemState, degraded, offline, shutting_down}
use nexus_firmware.System.Manager.{SystemManager, init, handle_all}
use nexus_firmware.System.Manager.Trail.{IsRunning, Leads, handle_all-Leads}
use nexus_firmware.System.Manager.Recovery.{strikes, is_strike, three_strikes}
use nexus_firmware.System.Watchdog.{Watchdog, count_of}
use nexus_firmware.System.Watchdog.Rounds.{times}
use nexus_firmware.System.Watchdog.Streaks.{polls, recovery_every_threshold}

abbrev at : SystemState → SystemManager
at s = record {
  machine = record { bus = none; current = s; hooks = []; calls = [] };
  safe_mode = record { active = true; disable = true; disable_runs = 1 };
  error_streak = 0;
}

abbrev evening : List EventType
evening = network_connected ∷ streamer_found ∷ audio_started ∷ network_disconnected ∷ []

degraded_open : degraded ≢ shutting_down
degraded_open e = cc

abbrev listening : SystemManager
listening = record (at offline) {
  machine = record (at offline).machine {
    bus = some (record { subs = []; next_token = 1; queue = []; running = true; in_flight = 0 });
  };
}

listening-IsRunning : IsRunning listening.machine.bus
unfolding IsRunning
listening-IsRunning = (_, refl, refl)

handle_all-Leads_example : Leads listening (handle_all listening evening)
handle_all-Leads_example = handle_all-Leads listening evening listening-IsRunning

abbrev faults : List EventType
faults = update_failed ∷ network_connected ∷ watchdog_timeout ∷ update_failed ∷ []

three_strikes_example : (handle_all (init none) faults).safe_mode.active ≡ true
unfolding strikes is_strike
three_strikes_example =
    three_strikes (init none) faults ((λ e. cc), ((λ e. cc), ((λ e. cc), ((λ e. cc), tt))))
      (omega arith)

abbrev label : ℕ → String
label _ = "audio"

abbrev dog : Watchdog
dog = record {
  bus = none;
  self = 9;
  fail_threshold = 3;
  watched = none ∷ some 1 ∷ some 9 ∷ [];
  fail_counts = [];
  recovery = true;
  recoveries = [];
}

abbrev sick : List (ℕ → Bool)
sick = (λ _. false) ∷ (λ _. false) ∷ (λ _. false) ∷ (λ _. false) ∷ []

recovery_every_threshold_example :
    let v = polls label sick dog in
    (3 * times "audio" v.recoveries + count_of v.fail_counts "audio"
      ≡ 3 * times "audio" [] + count_of [] "audio" + 4)
    × (count_of v.fail_counts "audio" < 3)
unfolding count_of times
recovery_every_threshold_example =
    recovery_every_threshold label 1 sick dog (refl, (refl, (refl, (refl, tt)))) (omega arith) refl
      (omega arith) (inl (refl, (inl refl, tt)))

-- ===== src/Amplifier/Mute.antt =====
-- When the amplifier's output is muted (src/amplifier/AmplifierManager.cpp).
use nexus_firmware.Prelude.{
  Bool, true, false, List, [], ◌∷◌, ◌≡◌, refl, sym, ◌∙◌, ◌⊎◌, inl, inr, arith,
}
use nexus_firmware.Core.Status.{Result, value, failed}
use nexus_firmware.Core.Event.{real, event, amplifier_fault, amplifier_overheat}
use nexus_firmware.Core.Bus.{Bus, notify}
use nexus_firmware.Audio.Float.{Double, FloatOps}
use nexus_firmware.Amplifier.{
  overheated, AmplifierFlags, Hal, HalCall, powers_on, powers_off, mutes, AmplifierManager, init,
  transition, ask, start, stop, is_healthy, unmute, mute, note_alarm, note_clipping, read_flags,
  shut_down, warn, cool_down, judge, poll,
}

-- The last that the hardware was told about the mute line.
unfoldable pub last_mute : List HalCall → Bool
last_mute [] = false
last_mute (mutes b ∷ cs) = b
last_mute (powers_on ∷ cs) = last_mute cs
last_mute (powers_off ∷ cs) = last_mute cs

abbrev pub IsQuiet : AmplifierManager → Type 0
IsQuiet a = (is_healthy a.state ≡ true) ⊎ (last_mute a.calls ≡ true)

start-IsQuiet : (hal : Hal) (a : AmplifierManager) → IsQuiet (start hal a).0
unfolding start ask transition is_healthy
start-IsQuiet hal a = ground arith

stop-IsQuiet : (a : AmplifierManager) → IsQuiet (stop a).0
unfolding stop ask transition is_healthy
stop-IsQuiet a = inl refl

unmute-IsQuiet : (hal : Hal) (a : AmplifierManager) → IsQuiet a → IsQuiet (unmute hal a).0
unfolding unmute ask transition last_mute is_healthy
unmute-IsQuiet hal a q = ground arith

mute-IsQuiet : (hal : Hal) (a : AmplifierManager) → IsQuiet a → IsQuiet (mute hal a).0
unfolding mute ask transition last_mute
mute-IsQuiet hal a q = ground arith

note_alarm-IsQuiet :
    (f : AmplifierFlags) (a : AmplifierManager) → IsQuiet a → IsQuiet (note_alarm f a)
unfolding note_alarm ask transition last_mute
note_alarm-IsQuiet f a q = ground arith

read_flags-IsQuiet :
    (f : Result AmplifierFlags) (a : AmplifierManager) → IsQuiet a → IsQuiet (read_flags f a)
unfolding read_flags note_clipping
read_flags-IsQuiet (failed code msg) a q = q
read_flags-IsQuiet (value f) a q = ground (arith, note_alarm-IsQuiet f a q)

healthy_at_first : (bus : Bus) (low high : Double) → is_healthy (init bus low high).state ≡ true
unfolding init is_healthy
healthy_at_first bus low high = refl

clash : true ≡ false → ⊥
clash e = cc

module _ (f : FloatOps) where
  judge-IsQuiet : (t : Result Double) (a : AmplifierManager) → IsQuiet a → IsQuiet (judge f t a)
  unfolding judge shut_down warn cool_down ask transition last_mute is_healthy
  judge-IsQuiet (failed code msg) a q = q
  judge-IsQuiet (value t) a q = ground arith

  poll-IsQuiet : (hal : Hal) (a : AmplifierManager) → IsQuiet a → IsQuiet (poll f hal a).0
  unfolding poll
  poll-IsQuiet hal a q = ground (
    arith,
    judge-IsQuiet hal.temperature (read_flags hal.flags a) (read_flags-IsQuiet hal.flags a q),
  )

  -- The calls that the manager serves.
  pub data Call : Type 0 where
    starts unmutes mutes_it polls : Hal → Call
    stops : Call

  unfoldable pub serve : AmplifierManager → Call → AmplifierManager
  serve a (starts hal) = (start hal a).0
  serve a (unmutes hal) = (unmute hal a).0
  serve a (mutes_it hal) = (mute hal a).0
  serve a (polls hal) = (poll f hal a).0
  serve a stops = (stop a).0

  unfoldable pub serve_all : AmplifierManager → List Call → AmplifierManager
  serve_all a [] = a
  serve_all a (c ∷ cs) = serve_all (serve a c) cs

  serve-IsQuiet : (a : AmplifierManager) (c : Call) → IsQuiet a → IsQuiet (serve a c)
  unfolding serve
  serve-IsQuiet a (starts hal) q = start-IsQuiet hal a
  serve-IsQuiet a (unmutes hal) q = unmute-IsQuiet hal a q
  serve-IsQuiet a (mutes_it hal) q = mute-IsQuiet hal a q
  serve-IsQuiet a (polls hal) q = poll-IsQuiet hal a q
  serve-IsQuiet a stops q = stop-IsQuiet a

  run-IsQuiet : (a : AmplifierManager) (cs : List Call) → IsQuiet a → IsQuiet (serve_all a cs)
  unfolding serve_all
  run-IsQuiet a [] q = q
  run-IsQuiet a (c ∷ cs) q = run-IsQuiet (serve a c) cs (serve-IsQuiet a c q)

  -- Whatever is called and whatever the hardware answers, from the start on: an amplifier that is in
  -- fault, in protection or overheated was last told to mute.
  pub unhealthy_muted :
      (bus : Bus) (low high : Double) (cs : List Call)
      → is_healthy (serve_all (init bus low high) cs).state ≡ false
      → last_mute (serve_all (init bus low high) cs).calls ≡ true
  unhealthy_muted bus low high cs bad =
      elim (run-IsQuiet (init bus low high) cs (inl (healthy_at_first bus low high))) [
        | inl good ↦ elim (clash (sym good ∙ bad)) [ ]
        | inr quiet ↦ quiet
      ]

  -- Below the shutdown temperature and without clipping, a second poll that reads the same as the
  -- first changes nothing: every alarm is raised and announced once.
  pub poll_once_enough :
      (hal : Hal) (a : AmplifierManager) (flags : AmplifierFlags) (t : Double)
      → hal.flags ≡ value flags
      → flags.clipping ≡ false
      → hal.temperature ≡ value t
      → FloatOps.le f a.shutdown_celsius t ≡ false
      → poll f hal (poll f hal a).0 ≡ poll f hal a
  unfolding poll read_flags note_clipping note_alarm judge warn cool_down ask transition
  poll_once_enough hal a flags t read calm warmth cool = ground arith

  -- At the shutdown temperature, an overheated amplifier whose fault line is up goes to fault and back
  -- at every poll, and announces both each time.
  pub hot_fault_repeats :
      (hal : Hal) (a : AmplifierManager) (flags : AmplifierFlags) (t : Double)
      → a.no_hardware ≡ false
      → a.state ≡ overheated
      → hal.flags ≡ value flags
      → flags.fault ≡ true
      → flags.clipping ≡ false
      → hal.temperature ≡ value t
      → FloatOps.le f a.shutdown_celsius t ≡ true
      → ((poll f hal a).0.state ≡ overheated)
        × ((poll f hal a).0.bus
            ≡ notify
                (notify a.bus (event amplifier_fault "amplifier" []))
                (event amplifier_overheat "amplifier" (("temperature", real t) ∷ [])))
  unfolding poll read_flags note_clipping note_alarm judge shut_down ask transition
  hot_fault_repeats hal a flags t on hot read up calm warmth high = ground arith

-- ===== src/System/Manager/Playback.antt =====
-- Audio events in src/system/SystemManager.cpp, and playback in safe mode.
use nexus_firmware.Prelude.{◌≡◌, refl, true, arith, [], ◌∷◌}
use nexus_firmware.Core.Event.{audio_started, audio_stopped}
use nexus_firmware.System.State.{
  SystemState, booting, searching_streamer, authenticating, online, playing, calibrating, degraded,
  eq_state, legal_transition, contains, table,
}
use nexus_firmware.System.Machine.{transition_to, enter}
use nexus_firmware.System.Manager.{
  SystemManager, current, move, when_audio_started, react, handle_event, handle_all,
}

-- Where the device stands after "audio has started".
pub after_audio : SystemState → SystemState
after_audio searching_streamer = playing
after_audio authenticating = playing
after_audio online = playing
after_audio calibrating = playing
after_audio s = s

audio_at :
    (c : SystemState) (s : SystemManager)
    → current s ≡ c
    → (current (handle_event s audio_started) ≡ after_audio c)
      × ((handle_event s audio_started).safe_mode ≡ s.safe_mode)
unfolding handle_event react when_audio_started move transition_to enter legal_transition contains
    table after_audio eq_state
audio_at booting s e = ground arith
audio_at _ s e = ground arith

-- Audio takes the device to `playing` exactly from the states in which it has, or may meet, a
-- streamer; in every other state the event leaves the state as it is.
pub audio_moves :
    (s : SystemManager) → current (handle_event s audio_started) ≡ after_audio (current s)
audio_moves s = (audio_at (current s) s refl).0

stopped_degraded :
    (s : SystemManager)
    → current s ≡ degraded
    → (current (handle_event s audio_stopped) ≡ online)
      × ((handle_event s audio_stopped).safe_mode ≡ s.safe_mode)
unfolding handle_event react move transition_to enter legal_transition contains table eq_state
stopped_degraded s e = ground arith

-- Safe mode does not hold the machine in `degraded`: the end of one stream and the start of the next
-- take any device in safe mode to `playing`, with safe mode still active.
pub safe_mode_plays :
    (s : SystemManager)
    → s.safe_mode.active ≡ true
    → current s ≡ degraded
    → let s' = handle_all s (audio_stopped ∷ audio_started ∷ []) in
      (current s' ≡ playing) × (s'.safe_mode.active ≡ true)
unfolding handle_all after_audio
safe_mode_plays s active e =
    let t = handle_event s audio_stopped in ground (arith, stopped_degraded s e, audio_at online t)

-- ===== src/Status/Quiet.antt =====
-- The alerts of src/status/StatusService.cpp: what goes to the bus that the service listens to.
use mathlib.Core.List.{append-nil, append_assoc}
use nexus_firmware.Prelude.{
  ◌≡◌, refl, ap, sym, subst, ◌∙◌, String, true, Option, none, some, List, [], ◌∷◌, ◌++◌, inl, inr,
  Bool-cases, if◌then◌else◌,
}
use nexus_firmware.Prelude.Int.{ℤ}
use nexus_firmware.Core.Event.{
  Event, EventType, text, int, event, eq_event, command_executed, amplifier_overheat,
  amplifier_fault, amplifier_protection, audio_lost, streamer_disconnected, update_failed,
  mic_failure, temp_warning,
}
use nexus_firmware.Core.Bus.{EventBus, notify, publish, queued, publish-queue}
use nexus_firmware.Control.Command.{Payload}
use nexus_firmware.Status.{StatusService, alert_of, report, on_event, dispatch, dispatch_to}

-- The critical events of docs/commands.md, and what the streamer is told of them.
abbrev pub critical : List (EventType × String)
critical =
    (temp_warning, "TEMP_WARNING")
    ∷ (mic_failure, "MICROPHONE_FAILURE")
    ∷ (update_failed, "UPDATE_FAILED")
    ∷ (streamer_disconnected, "STREAMER_DISCONNECTED")
    ∷ (audio_lost, "AUDIO_LOST")
    ∷ (amplifier_protection, "AMPLIFIER_PROTECTION")
    ∷ (amplifier_fault, "AMPLIFIER_FAULT")
    ∷ (amplifier_overheat, "AMPLIFIER_OVERHEAT")
    ∷ []

-- The report of an alert: when it is sent, by which device, and what it is.
abbrev pub report_of : ℤ → String → String → Event
report_of now device_id alert = event command_executed "status" (
    ("type", text "alert")
    ∷ ("device_id", text device_id)
    ∷ ("alert", text alert)
    ∷ ("timestamp", int now)
    ∷ [])

-- The reports that are due for an event, by a list of critical events.
unfoldable pub due : List (EventType × String) → ℤ → String → EventType → List Event
due [] now device_id heard = []
due ((t, alert) ∷ cs) now device_id heard =
    let rest = due cs now device_id heard in
    if eq_event t heard then report_of now device_id alert ∷ rest else rest

unfoldable pub reports : ℤ → String → List Event → List Event
reports now device_id [] = []
reports now device_id (e ∷ es) = due critical now device_id e.type ++ reports now device_id es

unfoldable pub hear_all : ℤ → List Event → StatusService → StatusService
hear_all now [] s = s
hear_all now (e ∷ es) s = hear_all now es (on_event now e s)

-- There is a running bus and no sink.
unfoldable pub IsOnBus : StatusService → Type 0
IsOnBus s = (s.sink ≡ none) × ((b : EventBus) × (s.bus ≡ some b) × (b.running ≡ true))

-- The service is on the bus as before, with these events added to it.
unfoldable pub Adds : List Event → StatusService → StatusService → Type 0
Adds added s s' =
    IsOnBus s' × (s'.device_id ≡ s.device_id) × (queued s'.bus ≡ queued s.bus ++ added)

dispatch-Adds :
    (payload : Payload) (s : StatusService)
    → IsOnBus s
    → Adds (event command_executed "status" payload ∷ []) s (dispatch payload s)
unfolding IsOnBus Adds dispatch dispatch_to notify
dispatch-Adds payload s (quiet, (b, has, r)) =
    let e = event command_executed "status" payload in
    let q = publish-queue b e r in rw (quiet, has) ((refl, (publish b e, refl, q.0)), refl, q.1)

nothing-Adds : (s : StatusService) → IsOnBus s → Adds [] s s
unfolding Adds
nothing-Adds s h = (h, refl, sym (append-nil (queued s.bus)))

-- The reports of an alert that there may be.
abbrev reported : ℤ → String → Option String → List Event
reported now device_id none = []
reported now device_id (some alert) = report_of now device_id alert ∷ []

report-Adds :
    (o : Option String) (now : ℤ) (s : StatusService)
    → IsOnBus s
    → Adds (reported now s.device_id o) s (report o now s)
unfolding report
report-Adds none now s h = nothing-Adds s h
report-Adds (some a) now s h = dispatch-Adds _ s h

-- The alerts of the code are the critical events.
alert_of_lem :
    (t : EventType) (now : ℤ) (device_id : String)
    → reported now device_id (alert_of t) ≡ due critical now device_id t
unfolding alert_of due eq_event
alert_of_lem amplifier_overheat now device_id = refl
alert_of_lem amplifier_fault now device_id = refl
alert_of_lem amplifier_protection now device_id = refl
alert_of_lem audio_lost now device_id = refl
alert_of_lem streamer_disconnected now device_id = refl
alert_of_lem update_failed now device_id = refl
alert_of_lem mic_failure now device_id = refl
alert_of_lem temp_warning now device_id = refl
alert_of_lem _ now device_id = refl

-- No reports are due for reports.
quiet :
    (cs : List (EventType × String)) (t : EventType) (now : ℤ) (device_id : String)
    (rest : List Event)
    → reports now device_id (due cs now device_id t ++ rest) ≡ reports now device_id rest
unfolding due reports eq_event
quiet [] t now device_id rest = refl
quiet ((c, alert) ∷ cs) t now device_id rest = elim (Bool-cases (eq_event c t)) [
  | inl e ↦ rw e (quiet cs t now device_id rest)
  | inr e ↦ rw e (quiet cs t now device_id rest)
]

reports_quiet :
    (now : ℤ) (device_id : String) (es : List Event)
    → reports now device_id (reports now device_id es) ≡ []
unfolding reports
reports_quiet now device_id [] = refl
reports_quiet now device_id (e ∷ es) =
    quiet critical e.type now device_id (reports now device_id es) ∙ reports_quiet now device_id es

Adds-append :
    (xs ys : List Event) (s t u : StatusService)
    → Adds xs s t
    → (IsOnBus t → t.device_id ≡ s.device_id → Adds ys t u)
    → Adds (xs ++ ys) s u
unfolding Adds
Adds-append xs ys s t u (on, same, q) next =
    let (on', same', q') = next on same in
    (on', same' ∙ same, q' ∙ ap (λ (l : List Event). l ++ ys) q ∙ append_assoc (queued s.bus) xs ys)

on_event-Adds :
    (now : ℤ) (e : Event) (s : StatusService)
    → IsOnBus s
    → Adds (due critical now s.device_id e.type) s (on_event now e s)
unfolding on_event
on_event-Adds now e s h =
    subst (λ l. Adds l s (report (alert_of e.type) now s)) (alert_of_lem e.type now s.device_id)
      (report-Adds (alert_of e.type) now s h)

hears-Adds :
    (now : ℤ) (es : List Event) (s : StatusService)
    → IsOnBus s
    → Adds (reports now s.device_id es) s (hear_all now es s)
unfolding hear_all reports
hears-Adds now [] s h = nothing-Adds s h
hears-Adds now (e ∷ es) s h =
    Adds-append (due critical now s.device_id e.type) (reports now s.device_id es) s
      (on_event now e s) _ (on_event-Adds now e s h)
      (λ on same.
        subst (λ d. Adds (reports now d es) (on_event now e s) (hear_all now es (on_event now e s)))
          same (hears-Adds now es (on_event now e s) on))

-- With a running bus and no sink, hearing any events puts on the bus, in order, the report of each
-- critical event of docs/commands.md and nothing else, and no reports are due for the reports.
pub hear_all-Adds :
    (now : ℤ) (es : List Event) (s : StatusService)
    → IsOnBus s
    → Adds (reports now s.device_id es) s (hear_all now es s)
      × (reports now s.device_id (reports now s.device_id es) ≡ [])
hear_all-Adds now es s h = (hears-Adds now es s h, reports_quiet now s.device_id es)

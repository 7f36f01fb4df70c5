-- ===== src/Network/News.antt =====
-- The news of src/network/NetworkManager.cpp: what the events on the bus tell of the uplink.
use nexus_firmware.Prelude.{
  str_eq, Bool, true, false, not, ◌&&◌, ◌||◌, ◌≡◌, refl, ap, subst, ◌∙◌, List, [], ◌∷◌, ◌++◌, none,
  some, if◌then◌else◌, Bool-cases, inl, inr, arith,
}
use nexus_firmware.Core.Status.{Status, success, error, Result, value, failed}
use nexus_firmware.Core.Event.{Event}
use nexus_firmware.Core.Bus.{Bus, notify, publish-queue}
use nexus_firmware.Control.Command.{field}
use nexus_firmware.Control.Reply.{text_or}
use nexus_firmware.Network.{
  NetworkStatus, NetworkManager, connected_event, ip_event, disconnected_event, ip_differs,
  mode_differs, announce, publish_connected, publish_disconnected, apply_status, refresh, joined,
  answered,
}
use nexus_firmware.Pairing.Provisioning.{InitialState}
use nexus_firmware.Pairing.Provisioning.Channels.{told, hears, connectivity}

-- What a listener knows of the uplink that the manager has.
unfoldable pub uplink : NetworkManager → InitialState
uplink s = record { have_uplink = s.connected; on_wifi = s.connected && str_eq s.mode "wifi" }

connectivity-append :
    (es : List Event) (e : Event) (now : InitialState)
    → connectivity now (es ++ (e ∷ [])) ≡ hears e.type e (connectivity now es)
unfolding connectivity
connectivity-append [] e now = refl
connectivity-append (x ∷ es) e now = connectivity-append es e (hears x.type x now)

-- There is a bus, it runs, and whoever heard all that stands in it knows the uplink.
unfoldable pub Tells : InitialState → InitialState → Bus → Type 0
Tells now known none = false ≡ true
Tells now known (some b) = (b.running ≡ true) × (connectivity now b.queue ≡ known)

unfoldable pub KeepsUp : InitialState → NetworkManager → Type 0
KeepsUp now s = Tells now (uplink s) s.bus

notify-Tells :
    (now known : InitialState) (bus : Bus) (e : Event)
    → Tells now known bus
    → Tells now (hears e.type e known) (notify bus e)
unfolding Tells notify
notify-Tells now known none e h = h
notify-Tells now known (some b) e (r, c) =
    let q = publish-queue b e r in
    (q.0, ap (connectivity now) q.1 ∙ connectivity-append b.queue e now ∙ ap (hears e.type e) c)

-- The uplink that a status means.
abbrev told_uplink : NetworkStatus → InitialState
told_uplink st = record { have_uplink = true; on_wifi = str_eq st.mode "wifi" }

hears_connected :
    (st : NetworkStatus) (known : InitialState)
    → hears (connected_event st).type (connected_event st) known ≡ told_uplink st
unfolding hears told field text_or
hears_connected st known = refl

connected-Tells :
    (now : InitialState) (st : NetworkStatus) (known : InitialState) (bus : Bus)
    → Tells now known bus
    → Tells now (told_uplink st) (notify bus (connected_event st))
connected-Tells now st known bus h =
    subst (λ k. Tells now k (notify bus (connected_event st))) (hears_connected st known)
      (notify-Tells now known bus (connected_event st) h)

ip-Tells :
    (now : InitialState) (st : NetworkStatus) (known : InitialState) (bus : Bus)
    → Tells now known bus
    → Tells now known (notify bus (ip_event st))
unfolding hears
ip-Tells now st known bus h = notify-Tells now known bus (ip_event st) h

disconnected-Tells :
    (now known : InitialState) (bus : Bus)
    → Tells now known bus
    → Tells now (record { have_uplink = false; on_wifi = false }) (notify bus disconnected_event)
unfolding hears
disconnected-Tells now known bus h = notify-Tells now known bus disconnected_event h

announce-Tells :
    (now : InitialState) (st : NetworkStatus) (s : NetworkManager)
    → KeepsUp now s
    → Tells now (told_uplink st) (announce s st)
unfolding KeepsUp announce
announce-Tells now st s h =
    let first = connected-Tells now st (uplink s) s.bus h in
    elim (Bool-cases (ip_differs s st)) [
      | inl e ↦ rw e (ip-Tells now st (told_uplink st) (notify s.bus (connected_event st)) first)
      | inr e ↦ rw e first
    ]

publish_connected-KeepsUp :
    (now : InitialState) (st : NetworkStatus) (periodic : Bool) (s : NetworkManager)
    → KeepsUp now s
    → KeepsUp now (publish_connected st periodic s)
unfolding KeepsUp publish_connected uplink
publish_connected-KeepsUp now st periodic s h =
    elim (Bool-cases
      (not (not s.connected || ip_differs s st || mode_differs s st) && not periodic)) [
        | inl e ↦ rw e h
        | inr e ↦ rw e (announce-Tells now st s h)
      ]

no_uplink :
    (s : NetworkManager)
    → s.connected ≡ false
    → uplink s ≡ record { have_uplink = false; on_wifi = false }
unfolding uplink
no_uplink s e = rw e refl

publish_disconnected-KeepsUp :
    (now : InitialState) (force : Bool) (s : NetworkManager)
    → KeepsUp now s
    → KeepsUp now (publish_disconnected force s)
unfolding KeepsUp publish_disconnected uplink
publish_disconnected-KeepsUp now force s h = elim (Bool-cases (not s.connected && not force)) [
  | inl e ↦ rw e (subst (λ k. Tells now k s.bus) (no_uplink s (quiet s.connected force e)) h)
  | inr e ↦ rw e (disconnected-Tells now (uplink s) s.bus h)
]
  where
    quiet : (a b : Bool) → (not a && not b) ≡ true → a ≡ false
    quiet a b h = ground arith

-- Whichever branch is taken.
either :
    (now : InitialState) (b : Bool) (x y : NetworkManager)
    → KeepsUp now x
    → KeepsUp now y
    → KeepsUp now (if b then x else y)
either now true x y h k = h
either now false x y h k = k

either_pair :
    (now : InitialState) (b : Bool) (x y : Status × NetworkManager)
    → KeepsUp now x.1
    → KeepsUp now y.1
    → KeepsUp now ((if b then x else y).1)
either_pair now true x y h k = h
either_pair now false x y h k = k

apply_status-KeepsUp :
    (now : InitialState) (st : NetworkStatus) (periodic : Bool) (s : NetworkManager)
    → KeepsUp now s
    → KeepsUp now (apply_status st periodic s)
unfolding apply_status
apply_status-KeepsUp now st periodic s h =
    either now st.connected (publish_connected st periodic s) (publish_disconnected false s)
      (publish_connected-KeepsUp now st periodic s h) (publish_disconnected-KeepsUp now false s h)

joined-KeepsUp :
    (now : InitialState) (status : Result NetworkStatus) (s : NetworkManager)
    → KeepsUp now s
    → KeepsUp now ((joined status s).1)
unfolding joined
joined-KeepsUp now (failed c m) s h = publish_disconnected-KeepsUp now true s h
joined-KeepsUp now (value st) s h =
    either_pair now st.connected _ _ (apply_status-KeepsUp now st false s h)
      (publish_disconnected-KeepsUp now true s h)

pub refresh-KeepsUp :
    (now : InitialState) (status : Result NetworkStatus) (s : NetworkManager)
    → KeepsUp now s
    → KeepsUp now (refresh status s)
unfolding refresh
refresh-KeepsUp now (failed c m) s h = h
refresh-KeepsUp now (value st) s h = apply_status-KeepsUp now st true s h

pub answered-KeepsUp :
    (now : InitialState) (attempt : Status) (status : Result NetworkStatus) (s : NetworkManager)
    → KeepsUp now s
    → KeepsUp now ((answered attempt status s).1)
unfolding answered
answered-KeepsUp now success status s h = joined-KeepsUp now status s h
answered-KeepsUp now (error c m) status s h = publish_disconnected-KeepsUp now true s h

-- ===== src/Network/Onboarding.antt =====
-- The network manager (src/network/NetworkManager.cpp) and the provisioning controller
-- (src/pairing/ProvisioningController.cpp) on one bus, with joins that take the hotspot down under the
-- controller.
use nexus_firmware.Prelude.{
  String, str_eq, Bool, true, false, not, ◌&&◌, ◌≡◌, refl, sym, ap, subst, ◌∙◌, Option, none, some,
  List, [], ◌∷◌, arith,
}
use nexus_firmware.Core.Status.{Status, Result}
use nexus_firmware.Core.Event.{Event, EventType, network_connected, network_disconnected}
use nexus_firmware.Core.Bus.{EventBus, Bus, queued}
use nexus_firmware.Network.{
  NetworkStatus, NetworkManager, disconnected_event, refresh, take_ap_down, connect_wifi,
}
use nexus_firmware.Network.News.{uplink, Tells, KeepsUp, refresh-KeepsUp, answered-KeepsUp}
use nexus_firmware.Pairing.Provisioning.{
  InitialState, ProvisioningController, connected, handle_event, on_event, apply_connectivity,
  set_channel, flag_of, set_flag, actuate,
}
use nexus_firmware.Pairing.Provisioning.Channels.{told, hears, connectivity}

pub record Device : Type 0 where
  pub manager : NetworkManager
  pub controller : ProvisioningController

-- A poll of the monitor, an attempt to join, or the bus's worker handing the front event to the
-- controller.
pub data Step : Type 0 where
  polling : Result NetworkStatus → Step
  joining : String → Status → Result NetworkStatus → Step
  handling : Step

unfoldable pub deliver_from : EventBus → List Event → Device → Device
deliver_from b [] d = d
deliver_from b (e ∷ es) d = record {
  manager = record d.manager { bus = some (record b { queue = es }) };
  controller = handle_event e d.controller;
}

unfoldable pub deliver : Bus → Device → Device
deliver none d = d
deliver (some b) d = deliver_from b b.queue d

unfoldable pub take_step : Step → Device → Device
take_step (polling status) d = record d { manager = refresh status d.manager }
take_step (joining ssid attempt status) d =
    let r = connect_wifi ssid attempt status (d.manager, d.controller.services) in
    record { manager = r.1; controller = record d.controller { services = r.2 } }
take_step handling d = deliver d.manager.bus d

unfoldable pub take_steps : List Step → Device → Device
take_steps [] d = d
take_steps (x ∷ xs) d = take_steps xs (take_step x d)

-- BLE, flag and service, and the hotspot's flag are as the connectivity asks, and the hotspot does not
-- hold the radio while there is an uplink.
pub record Suits (now : InitialState) (c : ProvisioningController) : Type 0 where
  pub ble_flag : c.ble_on ≡ not now.on_wifi
  pub ble_service : c.services.ble_up ≡ not now.on_wifi
  pub hotspot_flag : c.hotspot_on ≡ not now.have_uplink
  pub radio_free : (now.have_uplink && c.services.hotspot_up) ≡ false

apply-Suits :
    (up wifi : Bool) (c : ProvisioningController)
    → c.ble_on ≡ c.services.ble_up
    → Suits (record { have_uplink = up; on_wifi = wifi }) (apply_connectivity up wifi c)
unfolding apply_connectivity set_channel flag_of set_flag actuate
apply-Suits up wifi c h = record {
  ble_flag = ground arith;
  ble_service = ground arith;
  hotspot_flag = ground arith;
  radio_free = ground arith;
}

ble_agrees :
    (now : InitialState) (c : ProvisioningController) → Suits now c → c.ble_on ≡ c.services.ble_up
ble_agrees now c h = ground (arith, h.ble_flag, h.ble_service)

connected-Suits :
    (o : Option String) (now : InitialState) (c : ProvisioningController)
    → Suits now c
    → Suits (told o now) (connected o c)
unfolding told connected
connected-Suits none now c h = h
connected-Suits (some mode) now c h = apply-Suits true (str_eq mode "wifi") c (ble_agrees now c h)

on_event-Suits :
    (t : EventType) (e : Event) (now : InitialState) (c : ProvisioningController)
    → Suits now c
    → Suits (hears t e now) (on_event t e c)
unfolding hears on_event
on_event-Suits network_connected e now c h = connected-Suits _ now c h
on_event-Suits network_disconnected e now c h = apply-Suits false false c (ble_agrees now c h)
on_event-Suits _ e now c h = h

take_ap_down-Suits :
    (ssid : String) (now : InitialState) (c : ProvisioningController)
    → Suits now c
    → Suits now (record c { services = take_ap_down ssid c.services })
unfolding take_ap_down
take_ap_down-Suits ssid now c h = record {
  ble_flag = h.ble_flag;
  ble_service = ground (arith, h.ble_service);
  hotspot_flag = h.hotspot_flag;
  radio_free = ground (arith, h.radio_free);
}

-- The controller suits what the events handed to it told of, and the events left tell of the uplink.
unfoldable pub IsInStep : InitialState → Device → Type 0
IsInStep now d = KeepsUp now d.manager × Suits now d.controller

deliver_from-IsInStep :
    (now : InitialState) (b : EventBus) (es : List Event) (d : Device)
    → d.manager.bus ≡ some b
    → b.running ≡ true
    → connectivity now es ≡ uplink d.manager
    → b.queue ≡ es
    → Suits now d.controller
    → (next : InitialState) × IsInStep next (deliver_from b es d)
unfolding deliver_from IsInStep KeepsUp Tells connectivity handle_event uplink
deliver_from-IsInStep now b [] d e r tells q s =
    (now, (rw e (r, ap (connectivity now) q ∙ tells), s))
deliver_from-IsInStep now b (x ∷ es) d e r tells q s =
    (hears x.type x now, ((r, tells), on_event-Suits x.type x now d.controller s))

deliver-IsInStep :
    (now : InitialState) (bus : Bus) (d : Device)
    → d.manager.bus ≡ bus
    → Tells now (uplink d.manager) bus
    → Suits now d.controller
    → (next : InitialState) × IsInStep next (deliver bus d)
unfolding deliver Tells
deliver-IsInStep now none d e t s = absurd (cc)
deliver-IsInStep now (some b) d e (r, t) s = deliver_from-IsInStep now b b.queue d e r t refl s

step-IsInStep :
    (x : Step) (now : InitialState) (d : Device)
    → IsInStep now d
    → (next : InitialState) × IsInStep next (take_step x d)
unfolding take_step IsInStep KeepsUp connect_wifi
step-IsInStep (polling status) now d (k, s) = (now, (refresh-KeepsUp now status d.manager k, s))
step-IsInStep (joining ssid attempt status) now d (k, s) = (
  now,
  (answered-KeepsUp now attempt status d.manager k, take_ap_down-Suits ssid now d.controller s),
)
step-IsInStep handling now d (k, s) = deliver-IsInStep now d.manager.bus d refl k s

steps-IsInStep :
    (xs : List Step) (now : InitialState) (d : Device)
    → IsInStep now d
    → (next : InitialState) × IsInStep next (take_steps xs d)
unfolding take_steps
steps-IsInStep [] now d h = (now, h)
steps-IsInStep (x ∷ xs) now d h =
    let (next, k) = step-IsInStep x now d h in steps-IsInStep xs next (take_step x d) k

told_lem :
    (now known : InitialState) (bus : Bus) → Tells now known bus → queued bus ≡ [] → now ≡ known
unfolding Tells connectivity
told_lem now known none h e = absurd (cc)
told_lem now known (some b) (r, c) e = ap (connectivity now) (sym e) ∙ c

-- After any polls, joins and events handed over, in any order, from a device whose controller suits
-- what it was told: when no event is left on the bus, BLE and the hotspot's flag are as the manager's
-- uplink asks, BLE's service too, and the hotspot's service is down if there is an uplink.
pub channels_match_uplink :
    (now : InitialState) (xs : List Step) (d : Device)
    → KeepsUp now d.manager
    → Suits now d.controller
    → queued (take_steps xs d).manager.bus ≡ []
    → Suits (uplink (take_steps xs d).manager) (take_steps xs d).controller
unfolding IsInStep KeepsUp
channels_match_uplink now xs d k s e =
    let (next, (tells, suits)) = steps-IsInStep xs now d (k, s) in
    subst (λ u. Suits u (take_steps xs d).controller)
      (told_lem next (uplink (take_steps xs d).manager) (take_steps xs d).manager.bus tells e) suits

-- A controller that takes the hotspot for up leaves the hotspot's service alone at the news of a
-- lost network, which a failed join forces.
failed_join_keeps_down :
    (c : ProvisioningController)
    → c.hotspot_on ≡ true
    → ((handle_event disconnected_event c).services.hotspot_up ≡ c.services.hotspot_up)
unfolding handle_event on_event apply_connectivity set_channel flag_of set_flag actuate
failed_join_keeps_down c on = ground arith

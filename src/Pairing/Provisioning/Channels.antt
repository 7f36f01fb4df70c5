-- ===== src/Pairing/Provisioning/Channels.antt =====
-- Which onboarding channels are up (src/pairing/ProvisioningController.cpp).
use nexus_firmware.Prelude.{
  String, str_eq, Bool, true, false, not, Option, none, some, List, [], ◌∷◌, ◌≡◌, refl, sym, ◌∙◌,
  arith,
}
use nexus_firmware.Core.Event.{Event, EventType, network_connected, network_disconnected}
use nexus_firmware.Control.Command.{field}
use nexus_firmware.Control.Reply.{text_or}
use nexus_firmware.Pairing.Provisioning.{
  InitialState, ProvisioningController, init, actuate, flag_of, set_flag, set_channel,
  apply_connectivity, connected, on_event, handle_event, start,
}

-- The specification: the connectivity that the events tell of.
unfoldable pub told : Option String → InitialState → InitialState
told none now = now
told (some mode) now = record { have_uplink = true; on_wifi = str_eq mode "wifi" }

unfoldable pub hears : EventType → Event → InitialState → InitialState
hears network_connected e now = told (text_or (field e.payload "mode") "") now
hears network_disconnected e now = record { have_uplink = false; on_wifi = false }
hears _ e now = now

unfoldable pub connectivity : InitialState → List Event → InitialState
connectivity now [] = now
connectivity now (e ∷ es) = connectivity (hears e.type e now) es

-- Both channels, flags and services alike, are as the connectivity asks: BLE unless on Wi-Fi, and the
-- hotspot unless there is an uplink.
pub record Follows (now : InitialState) (c : ProvisioningController) : Type 0 where
  pub ble_flag : c.ble_on ≡ not now.on_wifi
  pub ble_service : c.services.ble_up ≡ not now.on_wifi
  pub hotspot_flag : c.hotspot_on ≡ not now.have_uplink
  pub hotspot_service : c.services.hotspot_up ≡ not now.have_uplink

-- The flags agree with the services.
abbrev Agrees : ProvisioningController → Type 0
Agrees c = (c.ble_on ≡ c.services.ble_up) × (c.hotspot_on ≡ c.services.hotspot_up)

apply-Follows :
    (uplink wifi : Bool) (c : ProvisioningController)
    → Agrees c
    → Follows (record { have_uplink = uplink; on_wifi = wifi }) (apply_connectivity uplink wifi c)
unfolding apply_connectivity set_channel flag_of set_flag actuate
apply-Follows uplink wifi c h = record {
  ble_flag = ground arith;
  ble_service = ground arith;
  hotspot_flag = ground arith;
  hotspot_service = ground arith;
}

Follows-Agrees : (now : InitialState) (c : ProvisioningController) → Follows now c → Agrees c
Follows-Agrees now c h = (h.ble_flag ∙ sym h.ble_service, h.hotspot_flag ∙ sym h.hotspot_service)

connected-Follows :
    (o : Option String) (now : InitialState) (c : ProvisioningController)
    → Follows now c
    → Follows (told o now) (connected o c)
unfolding told connected
connected-Follows none now c h = h
connected-Follows (some mode) now c h =
    apply-Follows true (str_eq mode "wifi") c (Follows-Agrees now c h)

on_event-Follows :
    (t : EventType) (e : Event) (now : InitialState) (c : ProvisioningController)
    → Follows now c
    → Follows (hears t e now) (on_event t e c)
unfolding hears on_event
on_event-Follows network_connected e now c h = connected-Follows _ now c h
on_event-Follows network_disconnected e now c h =
    apply-Follows false false c (Follows-Agrees now c h)
on_event-Follows _ e now c h = h

unfoldable pub handle_all : ProvisioningController → List Event → ProvisioningController
handle_all c [] = c
handle_all c (e ∷ es) = handle_all (handle_event e c) es

pub handle_all-Follows :
    (es : List Event) (now : InitialState) (c : ProvisioningController)
    → Follows now c
    → Follows (connectivity now es) (handle_all c es)
unfolding handle_all connectivity handle_event
handle_all-Follows [] now c h = h
handle_all-Follows (e ∷ es) now c h =
    handle_all-Follows es (hears e.type e now) (on_event e.type e c)
      (on_event-Follows e.type e now c h)

-- The channels refine the connectivity: after the start on what the probe finds, with no service up,
-- and after any events, BLE and the hotspot, flags and services, are as the last news asks.
pub channels_follow :
    (initial : InitialState) (es : List Event)
    → Follows
        (connectivity initial es)
        (handle_all (start initial (init (record { ble_up = false; hotspot_up = false }))) es)
unfolding start init
channels_follow initial es =
    handle_all-Follows es initial _
      (apply-Follows initial.have_uplink initial.on_wifi _ (refl, refl))

apply_frees :
    (wifi : Bool) (c : ProvisioningController)
    → ((apply_connectivity true wifi c).hotspot_on ≡ false)
      × ((apply_connectivity true wifi c).services.hotspot_up ≡ false)
unfolding apply_connectivity set_channel flag_of set_flag actuate
apply_frees wifi c = ground arith

-- Any news of an uplink leaves the hotspot down, whatever state the services had drifted to.
pub uplink_frees_radio :
    (c : ProvisioningController) (e : Event) (mode : String)
    → e.type ≡ network_connected
    → text_or (field e.payload "mode") "" ≡ some mode
    → ((handle_event e c).hotspot_on ≡ false) × ((handle_event e c).services.hotspot_up ≡ false)
unfolding handle_event on_event connected
uplink_frees_radio c e mode is given =
    rw (is, on_event, given, connected) (apply_frees (str_eq mode "wifi") c)

-- ===== src/Pairing/Provisioning.antt =====
-- src/pairing/ProvisioningController.h and ProvisioningController.cpp. The actuator starts and stops
-- the service of a channel: which services are up is kept in the controller's record, so that it can
-- also be changed from outside.
pub mod Channels
use nexus_firmware.Prelude.{
  String, str_eq, Bool, true, false, not, ◌&&◌, ◌||◌, Option, none, some, List, [], ◌∷◌,
  if◌then◌else◌, ◌≡◌, refl, sym, ap, subst, ◌∙◌, ◌⊎◌, inl, inr, arith, Option-cases, Bool-cases,
}
use nexus_firmware.Core.Event.{Event, EventType, Value, network_connected, network_disconnected}
use nexus_firmware.Control.Command.{field}
use nexus_firmware.Control.Reply.{text_or}

pub data Channel : Type 0 where
  ble hotspot : Channel

pub record InitialState : Type 0 where
  pub have_uplink : Bool
  pub on_wifi : Bool

-- The services that are up.
pub record Services : Type 0 where
  pub ble_up : Bool
  pub hotspot_up : Bool

pub record ProvisioningController : Type 0 where
  pub running : Bool
  pub ble_on : Bool
  pub hotspot_on : Bool
  pub services : Services

unfoldable pub init : Services → ProvisioningController
init services = record { running = false; ble_on = false; hotspot_on = false; services = services }

unfoldable pub actuate : Channel → Bool → Services → Services
actuate ble on s = record s { ble_up = on }
actuate hotspot on s = record s { hotspot_up = on }

unfoldable pub flag_of : Channel → ProvisioningController → Bool
flag_of ble c = c.ble_on
flag_of hotspot c = c.hotspot_on

unfoldable pub set_flag : Channel → Bool → ProvisioningController → ProvisioningController
set_flag ble on c = record c { ble_on = on }
set_flag hotspot on c = record c { hotspot_on = on }

abbrev same_flag : Bool → Bool → Bool
same_flag true b = b
same_flag false b = not b

unfoldable pub set_channel : Channel → Bool → Bool → ProvisioningController → ProvisioningController
set_channel ch on enforce c =
    if same_flag on (flag_of ch c) && not enforce
    then c
    else record (set_flag ch on c) { services = actuate ch on c.services }

unfoldable pub apply_connectivity : Bool → Bool → ProvisioningController → ProvisioningController
apply_connectivity have_any_uplink on_wifi c =
    set_channel hotspot (not have_any_uplink) have_any_uplink
      (set_channel ble (not on_wifi) false c)

-- The handler of NetworkConnected; an exception at a mode that is not a text leaves all as it is.
unfoldable pub connected : Option String → ProvisioningController → ProvisioningController
connected none c = c
connected (some mode) c = apply_connectivity true (str_eq mode "wifi") c

-- The two subscriptions.
unfoldable pub on_event : EventType → Event → ProvisioningController → ProvisioningController
on_event network_connected e c = connected (text_or (field e.payload "mode") "") c
on_event network_disconnected e c = apply_connectivity false false c
on_event _ e c = c

unfoldable pub handle_event : Event → ProvisioningController → ProvisioningController
handle_event e c = on_event e.type e c

-- `initial` is what the probe finds, or the default of InitialState without a probe.
unfoldable pub start : InitialState → ProvisioningController → ProvisioningController
start initial c =
    apply_connectivity initial.have_uplink initial.on_wifi (record c { running = true })

unfoldable pub stop : ProvisioningController → ProvisioningController
stop c = record (set_channel ble false false (set_channel hotspot false false c)) {
  running = false;
}

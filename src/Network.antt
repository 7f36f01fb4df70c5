-- ===== src/Network.antt =====
-- src/network/NetworkManager.h and NetworkManager.cpp, with the types of INetworkHal.h, and what a join
-- of NmcliNetworkHal.cpp does to the setup hotspot. What the hardware layer answers is an argument. The monitor's thread calls `refresh` alone.
pub mod News
pub mod Onboarding
use nexus_firmware.Prelude.{
  String, str_eq, is_empty, Bool, true, false, not, ◌&&◌, ◌||◌, [], ◌∷◌, if◌then◌else◌, Option,
  none, some,
}
use nexus_firmware.Prelude.Int.{ℤ}
use nexus_firmware.Core.Status.{
  Status, success, error, is_ok, Result, value, failed, timeout, unknown,
}
use nexus_firmware.Core.Event.{
  Event, text, event, network_connected, network_disconnected, ip_changed,
}
use nexus_firmware.Core.Bus.{Bus, notify}
use nexus_firmware.Pairing.Provisioning.{Services}

pub record NetworkStatus : Type 0 where
  pub connected : Bool
  pub mode : String
  pub ip_address : String
  pub wifi_signal_dbm : ℤ

pub record NetworkManager : Type 0 where
  pub bus : Bus
  pub running : Bool
  pub connected : Bool
  pub ip : String
  pub mode : String

unfoldable pub init : Bus → NetworkManager
init bus = record { bus = bus; running = false; connected = false; ip = ""; mode = "" }

abbrev pub connected_event : NetworkStatus → Event
connected_event st =
    event network_connected "network" (("mode", text st.mode) ∷ ("ip", text st.ip_address) ∷ [])

abbrev pub ip_event : NetworkStatus → Event
ip_event st = event ip_changed "network" (("ip", text st.ip_address) ∷ [])

abbrev pub disconnected_event : Event
disconnected_event = event network_disconnected "network" []

unfoldable pub ip_differs : NetworkManager → NetworkStatus → Bool
ip_differs s st = s.connected && not (str_eq st.ip_address s.ip)

unfoldable pub mode_differs : NetworkManager → NetworkStatus → Bool
mode_differs s st = s.connected && not (str_eq st.mode s.mode)

unfoldable pub announce : NetworkManager → NetworkStatus → Bus
announce s st =
    let told = notify s.bus (connected_event st) in
    if ip_differs s st then notify told (ip_event st) else told

unfoldable pub publish_connected : NetworkStatus → Bool → NetworkManager → NetworkManager
publish_connected st periodic s =
    let changed = not s.connected || ip_differs s st || mode_differs s st in
    if not changed && not periodic
    then s
    else record s { connected = true; ip = st.ip_address; mode = st.mode; bus = announce s st }

unfoldable pub publish_disconnected : Bool → NetworkManager → NetworkManager
publish_disconnected force s = record s {
  connected = false;
  ip = "";
  mode = "";
  bus = if not s.connected && not force then s.bus else notify s.bus disconnected_event;
}

unfoldable pub apply_status : NetworkStatus → Bool → NetworkManager → NetworkManager
apply_status st periodic s =
    if st.connected then publish_connected st periodic s else publish_disconnected false s

unfoldable pub refresh : Result NetworkStatus → NetworkManager → NetworkManager
refresh (failed c m) s = s
refresh (value st) s = apply_status st true s

unfoldable pub start : Result NetworkStatus → NetworkManager → NetworkManager
start status s = refresh status (record s { running = true })

unfoldable pub stop : NetworkManager → NetworkManager
stop s = record s { running = false }

unfoldable pub health_check : NetworkManager → Status
health_check s = if s.running then success else error unknown "network not running"

abbrev no_ip : Status
no_ip = error timeout "connect command succeeded but no IP"

-- After a join that the hardware layer reports as done.
unfoldable pub joined : Result NetworkStatus → NetworkManager → Status × NetworkManager
joined (failed c m) s = (no_ip, publish_disconnected true s)
joined (value st) s =
    if st.connected
    then (success, apply_status st false s)
    else (no_ip, publish_disconnected true s)

-- After the hardware layer's join: `attempt` is what it answers, and `status` what it tells then.
unfoldable pub answered : Status → Result NetworkStatus → NetworkManager → Status × NetworkManager
answered success status s = joined status s
answered (error c m) status s = (error c m, publish_disconnected true s)

-- The beginning of `NmcliNetworkHal::connectWifi`: the setup access point is taken down and deleted
-- to free the radio, unless there is no network to join.
unfoldable pub take_ap_down : String → Services → Services
take_ap_down ssid up = if is_empty ssid then up else record up { hotspot_up = false }

unfoldable pub connect_wifi :
    String
    → Status
    → Result NetworkStatus
    → NetworkManager × Services
    → Status × NetworkManager × Services
connect_wifi ssid attempt status (s, up) =
    let (st, s') = answered attempt status s in (st, s', take_ap_down ssid up)

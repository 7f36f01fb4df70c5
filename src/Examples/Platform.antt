-- ===== src/Examples/Platform.antt =====
-- The results on the network, the updater, the status service and the delay line at concrete
-- inputs.
use nexus_firmware.Prelude.{
  ◌≡◌, refl, true, false, ◌⊎◌, none, some, List, [], ◌∷◌, ◌++◌, take, arith,
}
use nexus_firmware.Prelude.Int.{pos, negsuc}
use nexus_firmware.Core.Status.{success, error, timeout, value}
use nexus_firmware.Core.Event.{Event, event, update_failed, audio_started}
use nexus_firmware.Core.Bus.{EventBus, queued, publish, notify}
use nexus_firmware.Config.Speaker.{defaults}
use nexus_firmware.Pairing.Provisioning.{InitialState, ProvisioningController}
use nexus_firmware.Pairing.Provisioning.Channels.{connectivity}
use nexus_firmware.Network.{
  NetworkManager, connect_wifi, answered, joined, publish_disconnected, apply_status,
  publish_connected, announce, ip_differs, mode_differs,
}
use nexus_firmware.Network.News.{uplink, Tells, KeepsUp}
use nexus_firmware.Network.Onboarding.{
  Device, Suits, Step, joining, handling, take_step, take_steps, deliver, deliver_from,
  channels_match_uplink,
}
use nexus_firmware.Updater.{UpdatePackage, Crypto, copied, Io, UpdateManager, run_update}
use nexus_firmware.Updater.Outcome.{Leaves, run_update-Leaves, IsGenuine, only_verified}
use nexus_firmware.Status.{StatusService}
use nexus_firmware.Status.Quiet.{reports, hear_all, IsOnBus, Adds, hear_all-Adds}
use nexus_firmware.Dsp.Delay.{Delay, loop}
use nexus_firmware.Dsp.Delay.Line.{queue, loop-queue}

abbrev bus : EventBus
bus = record { subs = []; next_token = 1; queue = []; running = true; in_flight = 0 }

abbrev nothing : InitialState
nothing = record { have_uplink = false; on_wifi = false }

abbrev offline : NetworkManager
offline = record { bus = some bus; running = true; connected = false; ip = ""; mode = "" }

abbrev onboarding : ProvisioningController
onboarding = record {
  running = true;
  ble_on = true;
  hotspot_on = true;
  services = record { ble_up = true; hotspot_up = true };
}

offline-KeepsUp : KeepsUp nothing offline
unfolding KeepsUp Tells connectivity uplink
offline-KeepsUp = (refl, refl)

onboarding-Suits : Suits nothing onboarding
onboarding-Suits = record {
  ble_flag = refl;
  ble_service = refl;
  hotspot_flag = refl;
  radio_free = refl;
}

abbrev device : Device
device = record { manager = offline; controller = onboarding }

-- A join that fails, and one that succeeds.
abbrev steps : List Step
steps =
    joining "home" (error timeout "no answer")
      (value (record { connected = false; mode = ""; ip_address = ""; wifi_signal_dbm = pos 0 }))
    ∷ handling
    ∷ joining "home" success (
        value (record {
          connected = true;
          mode = "wifi";
          ip_address = "10.0.0.9";
          wifi_signal_dbm = negsuc 50;
        }))
    ∷ handling
    ∷ []

all_handled : queued (take_steps steps device).manager.bus ≡ []
unfolding take_steps take_step connect_wifi answered joined publish_disconnected apply_status
    publish_connected announce ip_differs mode_differs deliver deliver_from publish notify
all_handled = refl

channels_match_uplink_example :
    Suits (uplink (take_steps steps device).manager) (take_steps steps device).controller
channels_match_uplink_example =
    channels_match_uplink nothing steps device offline-KeepsUp onboarding-Suits all_handled

abbrev crypto : Crypto
crypto = record {
  sha256_hex = λ p. "abc";
  verify_ed25519 = λ text sig key. true;
  decimal = λ n. "4";
}

abbrev io : Io
io = record { opens = true; writes = true; renames = true; backing_up = copied; restoring = copied }

abbrev pkg : UpdatePackage
pkg = record {
  manifest = record {
    version = "1.1.0";
    min_hardware_version = "";
    payload_sha256 = "abc";
    size_bytes = pos 4;
  };
  payload = 1 ∷ 2 ∷ 3 ∷ 4 ∷ [];
  signature_b64 = "sig";
}

abbrev updater : UpdateManager
updater = record {
  bus = none;
  vendor_key = "vendor";
  updates_allowed = true;
  files = record { target = some (9 ∷ []); backup = none; staged = none };
}

run_update-Leaves_example :
    Leaves
      (some (9 ∷ []))
      (1 ∷ 2 ∷ 3 ∷ 4 ∷ [])
      (run_update crypto io (value pkg) false "1.0" updater)
run_update-Leaves_example = run_update-Leaves crypto io pkg false "1.0" updater refl

only_verified_example :
    ((run_update crypto io (value pkg) true "1.0" updater).1.files.target ≡ some (9 ∷ []))
    ⊎ IsGenuine crypto "vendor" pkg
only_verified_example = only_verified crypto io pkg true "1.0" updater

abbrev service : StatusService
service = record {
  bus = some bus;
  sink = none;
  device_id = "SPK-1";
  config = defaults;
  heartbeat_count = 0;
}

service-IsOnBus : IsOnBus service
unfolding IsOnBus
service-IsOnBus = (refl, (bus, refl, refl))

abbrev heard : List Event
heard = event update_failed "updater" [] ∷ event audio_started "audio" [] ∷ []

hear_all-Adds_example :
    Adds (reports (pos 5) "SPK-1" heard) service (hear_all (pos 5) heard service)
    × (reports (pos 5) "SPK-1" (reports (pos 5) "SPK-1" heard) ≡ [])
hear_all-Adds_example = hear_all-Adds (pos 5) heard service service-IsOnBus

abbrev delay : Delay
delay = record { buffer = 7 ∷ 8 ∷ 9 ∷ []; pos = 1 }

loop-queue_example :
    (loop (1 ∷ 2 ∷ 3 ∷ 4 ∷ []) delay).0 ≡ take 4 (queue delay ++ (1 ∷ 2 ∷ 3 ∷ 4 ∷ []))
loop-queue_example = loop-queue (1 ∷ 2 ∷ 3 ∷ 4 ∷ []) delay (omega arith)

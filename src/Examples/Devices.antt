-- ===== src/Examples/Devices.antt =====
-- The results on the amplifier, provisioning and pairing at concrete inputs.
use nexus_firmware.Prelude.{
  ℕ, String, str_eq, str_append, is_empty, Bool, true, false, none, some, Option, List, [], ◌∷◌,
  ◌≡◌, refl,
}
use nexus_firmware.Prelude.Int.{pos, ltb_ℤ}
use nexus_firmware.Core.Status.{success, is_ok, value}
use nexus_firmware.Core.Event.{Event, event, text, network_connected}
use nexus_firmware.Config.Speaker.{
  defaults, validate as config_valid, eq_int, is_log_level, is_connection_mode,
}
use nexus_firmware.Control.Command.{field}
use nexus_firmware.Control.Reply.{text_or}
use nexus_firmware.Amplifier.{
  AmpState, Hal, AmplifierManager, init, is_healthy, note_alarm, read_flags, note_clipping, judge,
  cool_down, start, unmute, poll, ask, transition,
}
use nexus_firmware.Amplifier.Mute.{
  last_mute, Call, starts, unmutes, polls, serve, serve_all, unhealthy_muted,
}
use nexus_firmware.Pairing.Provisioning as Provisioning
use nexus_firmware.Pairing.Provisioning.{InitialState, ProvisioningController, handle_event}
use nexus_firmware.Pairing.Provisioning.Channels.{
  Follows, connectivity, handle_all, channels_follow, uplink_frees_radio,
}
use nexus_firmware.Pairing.Service.{
  WifiCredentials, PairingRequest, PairingResult, PairingIo, PairingService, canonical_string,
  is_well_formed_streamer_id, all_hex, is_hex, validate, adopt, result_of, process_request,
}
use nexus_firmware.Pairing.Service.Outcome.{paired_checked, pairing_succeeds}
use nexus_firmware.Examples.Audio.{whole}

abbrev hal : Bool → ℕ → Hal
hal faulty t = record {
  power_on = success;
  mute = success;
  flags = value (record { fault = faulty; protection = false; clipping = false });
  temperature = value t;
}

abbrev warming : List (Call whole)
warming = starts (hal false 40) ∷ unmutes (hal false 40) ∷ polls (hal true 40) ∷ []

ends_in_fault : is_healthy (serve_all whole (init none 70 85) warming).state ≡ false
unfolding serve_all serve start unmute init poll read_flags note_alarm note_clipping judge cool_down
    ask transition is_healthy
ends_in_fault = refl

unhealthy_muted_example : last_mute (serve_all whole (init none 70 85) warming).calls ≡ true
unhealthy_muted_example = unhealthy_muted whole none 70 85 warming ends_in_fault

abbrev at : AmpState → AmplifierManager
at s = record {
  bus = none;
  calls = [];
  warn_celsius = 70;
  shutdown_celsius = 85;
  state = s;
  warned = false;
  no_hardware = false;
  running = true;
}

abbrev joined : Event
joined = event network_connected "network" (("mode", text "ethernet") ∷ [])

abbrev wired : InitialState
wired = record { have_uplink = true; on_wifi = false }

channels_follow_example : Follows (connectivity wired (joined ∷ [])) (
    handle_all
      (Provisioning.start wired (Provisioning.init (record { ble_up = false; hotspot_up = false })))
      (joined ∷ []))
channels_follow_example = channels_follow wired (joined ∷ [])

abbrev drifted : ProvisioningController
drifted = record {
  running = true;
  ble_on = true;
  hotspot_on = false;
  services = record { ble_up = true; hotspot_up = true };
}

mode_told : text_or (field joined.payload "mode") "" ≡ some "ethernet"
unfolding text_or field
mode_told = refl

uplink_frees_radio_example :
    ((handle_event joined drifted).hotspot_on ≡ false)
    × ((handle_event joined drifted).services.hotspot_up ≡ false)
uplink_frees_radio_example = uplink_frees_radio drifted joined "ethernet" refl mode_told

abbrev verify : String → String → String → Bool
verify canonical signature key = str_eq signature (str_append key "!")

abbrev open_sealed : String → Option String
open_sealed box = some box

abbrev read_wifi : String → Option WifiCredentials
read_wifi bytes = some (record { ssid = bytes; psk = "psk" })

abbrev request : PairingRequest
request = record {
  streamer_id = "STR-0a1b2c3d";
  streamer_public_key = "key";
  site_id = "home";
  initial_speaker_name = "Kitchen";
  setup_code = "1234";
  sealed_wifi_b64 = "box";
  signature_b64 = "key!";
}

abbrev speaker : PairingService
speaker = record {
  running = true;
  setup_mode = true;
  setup_code = "1234";
  code_expiry_epoch = pos 300;
  secrets = [];
  config = record {
    bus = none;
    config = defaults;
    disk = record { primary = none; bak = none; corrupt = none };
  };
}

abbrev fine : PairingIo
fine = record {
  put_ssid = success;
  put_psk = success;
  config_io = record { copy_ok = true; rename_ok = true; write = success };
}

request_valid : validate verify open_sealed read_wifi request "1234" (pos 100) (pos 300) ≡ success
unfolding validate is_well_formed_streamer_id all_hex is_hex canonical_string
request_valid = refl

adopted_valid :
    is_ok (config_valid (adopt (result_of request (record { ssid = "box"; psk = "psk" })) defaults))
    ≡ true
unfolding config_valid adopt result_of defaults eq_int is_log_level is_connection_mode
adopted_valid = refl

abbrev adopted : PairingResult
adopted = result_of request (record { ssid = "box"; psk = "psk" })

request_pairs :
    (process_request verify open_sealed read_wifi fine request (pos 100) speaker).1 ≡ value adopted
request_pairs =
    pairing_succeeds verify open_sealed read_wifi fine request (pos 100) speaker "box"
      (record { ssid = "box"; psk = "psk" }) refl request_valid refl refl refl refl adopted_valid
      refl

paired_checked_example :
    (speaker.setup_mode ≡ true)
    × (is_well_formed_streamer_id "STR-0a1b2c3d" ≡ true)
    × (is_empty "1234" ≡ false)
    × (str_eq "1234" "1234" ≡ true)
    × (ltb_ℤ (pos 300) (pos 100) ≡ false)
    × (verify (canonical_string request) "key!" "key" ≡ true)
paired_checked_example =
    paired_checked verify open_sealed read_wifi fine request (pos 100) speaker adopted request_pairs

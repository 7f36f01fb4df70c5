-- ===== src/Config/Json.antt =====
-- src/config/ConfigSerialization.h: what a configuration file says. The JSON library reads and prints
-- the text: a file is known by the values of the keys that it has, as the library converts them. A file
-- with a value that does not convert to the type asked for is one that does not parse. Texts are
-- valid UTF-8.
use nexus_firmware.Prelude.{
  ◌^◌, ◌/◌, ◌%◌, ◌==◌, String, Bool, true, false, not, Option, none, some, ◌≡◌, refl, Option-cases,
  inl, inr,
}
use nexus_firmware.Prelude.Int.{ℤ, pos}
use nexus_firmware.Audio.Float.{Double, zero_f}
use nexus_firmware.Config.Speaker.{
  DeviceConfig, PairingConfig, NetworkConfig, AudioConfig, SystemConfig, SpeakerConfig,
}

pub record DeviceJson : Type 0 where
  pub device_id : Option String
  pub serial_number : Option String
  pub model : Option String
  pub hardware_version : Option String
  pub software_version : Option String

pub record PairingJson : Type 0 where
  pub paired : Option Bool
  pub streamer_id : Option String
  pub streamer_public_key : Option String

pub record NetworkJson : Type 0 where
  pub wifi_configured : Option Bool
  pub connection_mode : Option String

pub record AudioJson : Type 0 where
  pub volume : Option ℤ
  pub muted : Option Bool
  pub delay_ms : Option ℤ
  pub eq_profile : Option String
  pub gain_db : Option Double
  pub phase_invert : Option Bool
  pub output_device : Option String
  pub input_device : Option String

pub record SystemJson : Type 0 where
  pub auto_update : Option Bool
  pub log_level : Option String

pub record ConfigJson : Type 0 where
  pub schema_version : Option ℤ
  pub device : Option DeviceJson
  pub pairing : Option PairingJson
  pub network : Option NetworkJson
  pub audio : Option AudioJson
  pub system : Option SystemJson

-- `j.value(key, default)`
unfoldable pub value_or {ℓ} : {A : Type ℓ} → Option A → A → A
value_or (some x) y = x
value_or none y = y

unfoldable pub device_to_json : DeviceConfig → DeviceJson
device_to_json d = record {
  device_id = some d.device_id;
  serial_number = some d.serial_number;
  model = some d.model;
  hardware_version = some d.hardware_version;
  software_version = some d.software_version;
}

unfoldable pub device_from_json : DeviceJson → DeviceConfig → DeviceConfig
device_from_json j d = record {
  device_id = value_or j.device_id d.device_id;
  name = d.name;
  serial_number = value_or j.serial_number d.serial_number;
  model = value_or j.model d.model;
  hardware_version = value_or j.hardware_version d.hardware_version;
  software_version = value_or j.software_version d.software_version;
}

unfoldable pub pairing_to_json : PairingConfig → PairingJson
pairing_to_json p = record {
  paired = some p.paired;
  streamer_id = some p.streamer_id;
  streamer_public_key = some p.streamer_public_key;
}

unfoldable pub pairing_from_json : PairingJson → PairingConfig → PairingConfig
pairing_from_json j p = record {
  paired = value_or j.paired p.paired;
  streamer_id = value_or j.streamer_id p.streamer_id;
  streamer_public_key = value_or j.streamer_public_key p.streamer_public_key;
}

unfoldable pub network_to_json : NetworkConfig → NetworkJson
network_to_json n = record {
  wifi_configured = some n.wifi_configured;
  connection_mode = some n.connection_mode;
}

unfoldable pub network_from_json : NetworkJson → NetworkConfig → NetworkConfig
network_from_json j n = record {
  wifi_configured = value_or j.wifi_configured n.wifi_configured;
  connection_mode = value_or j.connection_mode n.connection_mode;
}

unfoldable pub audio_to_json : AudioConfig → AudioJson
audio_to_json a = record {
  volume = some a.volume;
  muted = some a.muted;
  delay_ms = some a.delay_ms;
  eq_profile = some a.eq_profile;
  gain_db = some a.gain_db;
  phase_invert = some a.phase_invert;
  output_device = some a.output_device;
  input_device = some a.input_device;
}

unfoldable pub audio_from_json : AudioJson → AudioConfig → AudioConfig
audio_from_json j a = record {
  volume = value_or j.volume a.volume;
  muted = value_or j.muted a.muted;
  delay_ms = value_or j.delay_ms a.delay_ms;
  eq_profile = value_or j.eq_profile a.eq_profile;
  gain_db = value_or j.gain_db a.gain_db;
  phase_invert = value_or j.phase_invert a.phase_invert;
  output_device = value_or j.output_device a.output_device;
  input_device = value_or j.input_device a.input_device;
}

unfoldable pub system_to_json : SystemConfig → SystemJson
system_to_json s = record { auto_update = some s.auto_update; log_level = some s.log_level }

unfoldable pub system_from_json : SystemJson → SystemConfig → SystemConfig
system_from_json j s = record {
  auto_update = value_or j.auto_update s.auto_update;
  log_level = value_or j.log_level s.log_level;
}

unfoldable pub to_json : SpeakerConfig → ConfigJson
to_json c = record {
  schema_version = some c.schema_version;
  device = some (device_to_json c.device);
  pairing = some (pairing_to_json c.pairing);
  network = some (network_to_json c.network);
  audio = some (audio_to_json c.audio);
  system = some (system_to_json c.system);
}

-- A configuration whose members have their initial values.
unfoldable pub fresh : SpeakerConfig
fresh = record {
  schema_version = pos 1;
  device = record {
    device_id = "";
    name = "";
    serial_number = "";
    model = "";
    hardware_version = "";
    software_version = "1.0.0";
  };
  pairing = record { paired = false; streamer_id = ""; streamer_public_key = "" };
  network = record { wifi_configured = false; connection_mode = "wifi" };
  audio = record {
    volume = pos 30;
    muted = true;
    delay_ms = pos 0;
    eq_profile = "default";
    gain_db = zero_f;
    phase_invert = false;
    output_device = "default";
    input_device = "default";
  };
  system = record { auto_update = true; log_level = "info" };
}

-- `j.at(key).get<T>()` where there is the key: `read` goes over a new T.
unfoldable pub get_part {ℓ} : {J : Type ℓ} {A : Type ℓ} → (J → A → A) → Option J → A → A
get_part read none new = new
get_part read (some j) new = read j new

unfoldable pub from_json : ConfigJson → SpeakerConfig
from_json j = record {
  schema_version = value_or j.schema_version fresh.schema_version;
  device = get_part device_from_json j.device fresh.device;
  pairing = get_part pairing_from_json j.pairing fresh.pairing;
  network = get_part network_from_json j.network fresh.network;
  audio = get_part audio_from_json j.audio fresh.audio;
  system = get_part system_from_json j.system fresh.system;
}

-- A double that is not infinite and a number: its exponent is not the largest.
unfoldable pub is_finite : Double → Bool
is_finite d = not (d / 2 ^ 52 % 2 ^ 11 == 2047)

-- What is left of a configuration that was written and read: the device's name is not.
unfoldable pub unnamed : SpeakerConfig → SpeakerConfig
unnamed c = record c { device = record c.device { name = "" } }

pub from_json-to_json : (c : SpeakerConfig) → from_json (to_json c) ≡ unnamed c
unfolding from_json to_json unnamed fresh get_part value_or device_to_json device_from_json
    pairing_to_json pairing_from_json network_to_json network_from_json audio_to_json
    audio_from_json system_to_json system_from_json
from_json-to_json c = refl

-- What was read has no name, so that it is the same when it is written and read again.
pub unnamed-from_json : (j : ConfigJson) → unnamed (from_json j) ≡ from_json j
unfolding from_json unnamed fresh get_part device_from_json
unnamed-from_json j = elim (Option-cases j.device) [ inl e ↦ rw e refl | inr (d, e) ↦ rw e refl ]

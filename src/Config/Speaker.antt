-- ===== src/Config/Speaker.antt =====
-- src/config/SpeakerConfig.h, DefaultConfig.cpp and ConfigValidator.cpp. A message that ends in a
-- number or in a setting is given without it.
use nexus_firmware.Prelude.{
  String, str_eq, is_empty, Bool, true, false, not, ◌&&◌, ◌||◌, ◌≡◌, refl, if◌then◌else◌,
}
use nexus_firmware.Prelude.Int.{ℤ, pos, ltb_ℤ}
use nexus_firmware.Core.Status.{Status, success, error, config_validation_failed}
use nexus_firmware.Audio.Float.{Double, zero_f}

pub record DeviceConfig : Type 0 where
  pub device_id : String
  pub name : String
  pub serial_number : String
  pub model : String
  pub hardware_version : String
  pub software_version : String

pub record PairingConfig : Type 0 where
  pub paired : Bool
  pub streamer_id : String
  pub streamer_public_key : String

pub record NetworkConfig : Type 0 where
  pub wifi_configured : Bool
  pub connection_mode : String

pub record AudioConfig : Type 0 where
  pub volume : ℤ
  pub muted : Bool
  pub delay_ms : ℤ
  pub eq_profile : String
  pub gain_db : Double
  pub phase_invert : Bool
  pub output_device : String
  pub input_device : String

pub record SystemConfig : Type 0 where
  pub auto_update : Bool
  pub log_level : String

pub record SpeakerConfig : Type 0 where
  pub schema_version : ℤ
  pub device : DeviceConfig
  pub pairing : PairingConfig
  pub network : NetworkConfig
  pub audio : AudioConfig
  pub system : SystemConfig

unfoldable pub defaults : SpeakerConfig
defaults = record {
  schema_version = pos 1;
  device = record {
    device_id = "";
    name = "";
    serial_number = "";
    model = "NEXUS-SPEAKER-3";
    hardware_version = "1.0";
    software_version = "1.0.0";
  };
  pairing = record { paired = false; streamer_id = ""; streamer_public_key = "" };
  network = record { wifi_configured = false; connection_mode = "wifi" };
  audio = record {
    volume = pos 30;
    muted = true;
    delay_ms = pos 0;
    eq_profile = "default";
    gain_db = zero_f;
    phase_invert = false;
    output_device = "default";
    input_device = "default";
  };
  system = record { auto_update = true; log_level = "info" };
}

abbrev invalid : String → Status
invalid msg = error config_validation_failed msg

unfoldable pub eq_int : ℤ → ℤ → Bool
eq_int a b = not (ltb_ℤ a b) && not (ltb_ℤ b a)

unfoldable pub is_log_level : String → Bool
is_log_level lvl =
    str_eq lvl "debug"
    || str_eq lvl "info"
    || str_eq lvl "warning"
    || str_eq lvl "error"
    || str_eq lvl "critical"

unfoldable pub is_connection_mode : String → Bool
is_connection_mode mode = str_eq mode "wifi" || str_eq mode "ethernet"

-- `ConfigValidator::validate`.
unfoldable pub validate : SpeakerConfig → Status
validate c =
    if not (eq_int c.schema_version (pos 1))
    then invalid "unsupported schema_version "
    else if ltb_ℤ c.audio.volume (pos 0) || ltb_ℤ (pos 100) c.audio.volume
    then invalid "audio.volume out of range [0,100]: "
    else if ltb_ℤ c.audio.delay_ms (pos 0)
    then invalid "audio.delay_ms must be >= 0: "
    else if is_empty c.audio.eq_profile
    then invalid "audio.eq_profile must not be empty"
    else if not (is_connection_mode c.network.connection_mode)
    then invalid "network.connection_mode must be 'wifi' or 'ethernet': "
    else if not (is_log_level c.system.log_level)
    then invalid "system.log_level invalid: "
    else if c.pairing.paired && is_empty c.pairing.streamer_id
    then invalid "pairing.paired is true but streamer_id is empty"
    else success

pub defaults_valid : validate defaults ≡ success
unfolding defaults validate eq_int is_connection_mode is_log_level
defaults_valid = refl

-- ===== src/Pairing/Service.antt =====
-- src/pairing/PairingService.h and PairingService.cpp, PairingValidator.cpp, PairingTypes.h, and
-- `isWellFormedStreamerId` of src/identity/ApCredentials.cpp. The service publishes to the bus of the
-- configuration manager; the secure storage is the list of its secrets, newest first.
pub mod Persistence
pub mod Outcome
use Prim.Native.Char.{code}
use Prim.Native.String.{len, slice, [] as empty, ◌∷◌ as ◌∷ₛ◌}
use nexus_firmware.Prelude.{
  ℕ, String, str_eq, str_append, is_empty, Bool, true, false, not, ◌&&◌, ◌||◌, Option, none, some,
  List, [], ◌∷◌, leb, ◌==◌, if◌then◌else◌,
}
use nexus_firmware.Prelude.Int.{ℤ, ◌+ℤ◌, ltb_ℤ}
use nexus_firmware.Core.Status.{
  Status, success, error, is_ok, Result, value, failed, ErrorCode, invalid_arg, permission_denied,
  timeout, crypto_error, corrupt,
}
use nexus_firmware.Core.Event.{
  Event, text, event, pairing_started, pairing_failed, pairing_completed,
}
use nexus_firmware.Core.Bus.{notify}
use nexus_firmware.Config.Speaker.{SpeakerConfig}
use nexus_firmware.Config.Manager.{ConfigManager, Io, update}

pub record WifiCredentials : Type 0 where
  pub ssid : String
  pub psk : String

pub record PairingRequest : Type 0 where
  pub streamer_id : String
  pub streamer_public_key : String
  pub site_id : String
  pub initial_speaker_name : String
  pub setup_code : String
  pub sealed_wifi_b64 : String
  pub signature_b64 : String

pub record PairingResult : Type 0 where
  pub streamer_id : String
  pub streamer_public_key : String
  pub site_id : String
  pub speaker_name : String
  pub wifi : WifiCredentials

unfoldable line : String → String → String
line s rest = str_append s (str_append "\n" rest)

unfoldable pub canonical_string : PairingRequest → String
unfolding line
canonical_string r = line r.streamer_id (
    line r.streamer_public_key
      (line r.site_id (line r.initial_speaker_name (line r.setup_code r.sealed_wifi_b64))))

unfoldable pub is_hex : ℕ → Bool
is_hex c = (leb 48 c && leb c 57) || (leb 97 c && leb c 102)

unfoldable pub all_hex : String → Bool
all_hex empty = true
all_hex (c ∷ₛ s) = is_hex (code c) && all_hex s

unfoldable pub is_well_formed_streamer_id : String → Bool
is_well_formed_streamer_id id =
    (len id == 12) && str_eq (slice id 0 4) "STR-" && all_hex (slice id 4 12)

-- The answers of the operating system during a pairing: for the two secrets, and for the
-- configuration's file.
pub record PairingIo : Type 0 where
  pub put_ssid : Status
  pub put_psk : Status
  pub config_io : Io

abbrev pub Secrets : Type 0
Secrets = List (String × String)

pub record PairingService : Type 0 where
  pub running : Bool
  pub setup_mode : Bool
  pub setup_code : String
  pub code_expiry_epoch : ℤ
  pub secrets : Secrets
  pub config : ConfigManager

unfoldable pub post : Event → PairingService → PairingService
post ev s = record s { config = record s.config { bus = notify s.config.bus ev } }

unfoldable pub start : PairingService → PairingService
start s = record s { running = true }

unfoldable pub stop : PairingService → PairingService
stop s = record s { running = false; setup_mode = false; setup_code = "" }

unfoldable pub is_paired : PairingService → Bool
is_paired s = s.config.config.pairing.paired

unfoldable pub begin_setup_mode : String → ℤ → ℤ → PairingService → PairingService × Status
begin_setup_mode code now ttl s =
    if is_empty code then (s, error invalid_arg "empty setup code") else (
      post (event pairing_started "pairing" [])
          (record s { setup_mode = true; setup_code = code; code_expiry_epoch = now +ℤ ttl }),
      success,
    )

-- The local `fail`.
unfoldable pub fail : ErrorCode → String → PairingService → PairingService × Result PairingResult
fail code msg s = (post (event pairing_failed "pairing" []) s, failed code msg)

-- `secrets_->put(key, value)` with the status that it gives.
unfoldable pub put : Status → String → String → Secrets → Secrets
put status key secret s = if is_ok status then (key, secret) ∷ s else s

unfoldable pub put_secrets : PairingIo → WifiCredentials → Secrets → Secrets × Status
put_secrets io wifi s = (
  put io.put_psk "wifi_psk" wifi.psk (put io.put_ssid "wifi_ssid" wifi.ssid s),
  if is_ok io.put_ssid then io.put_psk else io.put_ssid,
)

unfoldable pub adopt : PairingResult → SpeakerConfig → SpeakerConfig
adopt r c = record c {
  pairing = record {
    paired = true;
    streamer_id = r.streamer_id;
    streamer_public_key = r.streamer_public_key;
  };
  network = record c.network { wifi_configured = true };
}

unfoldable pub persist_pairing :
    PairingIo → PairingResult → PairingService → PairingService × Status
persist_pairing io r s =
    let (stored, status) = put_secrets io r.wifi s.secrets in
    let kept = record s { secrets = stored } in
    if is_ok status
    then (let (m, w) = update io.config_io (adopt r) s.config in (record kept { config = m }, w))
    else (kept, status)

unfoldable pub result_of : PairingRequest → WifiCredentials → PairingResult
result_of req wifi = record {
  streamer_id = req.streamer_id;
  streamer_public_key = req.streamer_public_key;
  site_id = req.site_id;
  speaker_name = req.initial_speaker_name;
  wifi = wifi;
}

-- The end of `processRequest`, from what `persistPairing` gives.
unfoldable pub complete :
    PairingResult → PairingService × Status → PairingService × Result PairingResult
complete r (s, error code msg) = fail code msg s
complete r (s, success) = (
  post (event pairing_completed "pairing" (("streamer_id", text r.streamer_id) ∷ []))
      (record s { setup_mode = false; setup_code = "" }),
  value r,
)

-- The check of a signature over the canonical bytes with a public key, the opening of a sealed box
-- with the device's key, and the reading of the credentials from its JSON.
module _ (verify : String → String → String → Bool) (open_sealed : String → Option String)
    (read_wifi : String → Option WifiCredentials) where
  unfoldable pub validate : PairingRequest → String → ℤ → ℤ → Status
  validate req expected now expiry =
      if is_empty req.streamer_id || is_empty req.streamer_public_key
      then error invalid_arg "missing streamer identity"
      else if not (is_well_formed_streamer_id req.streamer_id)
      then error invalid_arg "malformed streamer_id"
      else if is_empty expected
      then error permission_denied "no active setup code"
      else if ltb_ℤ expiry now
      then error timeout "setup code expired"
      else if not (str_eq req.setup_code expected)
      then error permission_denied "setup code mismatch"
      else if is_empty req.sealed_wifi_b64
      then error invalid_arg "missing sealed wifi credentials"
      else if not (verify (canonical_string req) req.signature_b64 req.streamer_public_key)
      then error crypto_error "pairing request signature invalid"
      else success

  unfoldable pub pair_with :
      PairingIo
      → PairingRequest
      → Option String
      → PairingService
      → PairingService × Result PairingResult
  pair_with io req none s = fail crypto_error "cannot open sealed wifi" s
  pair_with io req (some opened) s = elim (read_wifi opened) [
    | none ↦ fail corrupt "bad wifi payload: " s
    | some wifi ↦ complete (result_of req wifi) (persist_pairing io (result_of req wifi) s)
  ]

  unfoldable pub process_request :
      PairingIo → PairingRequest → ℤ → PairingService → PairingService × Result PairingResult
  process_request io req now s =
      if s.setup_mode
      then elim (validate req s.setup_code now s.code_expiry_epoch) [
        | error code msg ↦ fail code msg s
        | success ↦ pair_with io req (open_sealed req.sealed_wifi_b64) s
      ]
      else fail permission_denied "not in setup mode" s

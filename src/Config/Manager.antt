-- ===== src/Config/Manager.antt =====
-- src/config/ConfigManager.h and ConfigManager.cpp over src/core/AtomicFile.cpp. A file is known by
-- the values of its keys; whether the operating system carries out a copy, a rename or a write is an
-- argument of each call.
pub mod Updates
pub mod Loading
use nexus_firmware.Prelude.{
  String, Bool, true, false, Option, none, some, List, [], ◌∷◌, if◌then◌else◌,
}
use nexus_firmware.Core.Status.{
  Status, success, error, is_ok, ErrorCode, config_not_found, config_parse_error, config_corrupt,
}
use nexus_firmware.Core.Event.{event, config_changed, config_invalid}
use nexus_firmware.Core.Bus.{Bus, notify}
use nexus_firmware.Config.Speaker.{SpeakerConfig, defaults, validate}
use nexus_firmware.Config.Json.{ConfigJson, to_json, from_json, is_finite}

-- The contents of a file: the keys of a configuration, or what does not parse as one.
pub data Content : Type 0 where
  json : ConfigJson → Content
  garbage : Content

-- The text that is written. A gain that is not finite is printed as null, which is no number.
unfoldable pub file_of : SpeakerConfig → Content
file_of c = if is_finite c.audio.gain_db then json (to_json c) else garbage

-- The file at `path_`, its backup and the file kept for diagnostics.
pub record Disk : Type 0 where
  pub primary : Option Content
  pub bak : Option Content
  pub corrupt : Option Content

-- The answers of the operating system during one call: `write` is the status of `atomicWriteFile`.
pub record Io : Type 0 where
  pub copy_ok : Bool
  pub rename_ok : Bool
  pub write : Status

pub record ConfigManager : Type 0 where
  pub bus : Bus
  pub config : SpeakerConfig
  pub disk : Disk

unfoldable pub back_up : Io → Disk → Disk
back_up io d = elim d.primary [
  | none ↦ d
  | some c ↦ if io.copy_ok then record d { bak = some c } else d
]

-- `atomicWriteFile` replaces the whole file or leaves it as it is.
unfoldable pub write_file : Io → SpeakerConfig → Disk → Disk × Status
write_file io cfg d =
    if is_ok io.write then (record d { primary = some (file_of cfg) }, success) else (d, io.write)

unfoldable pub persist : Io → SpeakerConfig → Disk → Disk × Status
persist io cfg d =
    if is_ok (validate cfg) then write_file io cfg (back_up io d) else (d, validate cfg)

-- `rename(path, path + ".corrupt")`
unfoldable pub set_aside : Io → Disk → Disk
set_aside io d = if io.rename_ok then record d { primary = none; corrupt = d.primary } else d

-- The local `tryParse`; the configuration is left alone where a file does not parse.
unfoldable pub try_parse : Option Content → SpeakerConfig × Status
try_parse none = (defaults, error config_not_found "cannot open ")
try_parse (some garbage) = (defaults, error config_parse_error "")
try_parse (some (json j)) = (from_json j, validate (from_json j))

unfoldable pub seed_defaults : Io → ConfigManager → ConfigManager × Status
seed_defaults io m =
    let (d, w) = persist io defaults m.disk in (record m { config = defaults; disk = d }, w)

unfoldable pub recover : Io → SpeakerConfig → ConfigManager → ConfigManager
recover io cfg m = record m {
  disk = (persist io cfg (set_aside io m.disk)).0;
  config = cfg;
  bus = notify m.bus (event config_invalid "config" []);
}

unfoldable pub from_backup : Io → ConfigManager → ConfigManager × Status
from_backup io m =
    let (cfg, s) = try_parse m.disk.bak in
    if is_ok s
    then (recover io cfg m, success)
    else (recover io defaults m, error config_corrupt "config was corrupt; reverted to defaults")

unfoldable pub load : Io → ConfigManager → ConfigManager × Status
load io m = elim m.disk.primary [
  | none ↦ seed_defaults io m
  | some c ↦
      let (cfg, s) = try_parse (some c) in
      if is_ok s then (record m { config = cfg }, success) else from_backup io m
]

-- What `update` and `resetToDefaults` do once the new configuration is on disk, or is not.
unfoldable pub commit : SpeakerConfig → Disk × Status → ConfigManager → ConfigManager × Status
commit cfg (d, w) m =
    if is_ok w
    then (
      record m { config = cfg; disk = d; bus = notify m.bus (event config_changed "config" []) },
      success,
    )
    else (record m { disk = d }, w)

unfoldable pub update :
    Io → (SpeakerConfig → SpeakerConfig) → ConfigManager → ConfigManager × Status
update io mutator m =
    let candidate = mutator m.config in
    if is_ok (validate candidate)
    then commit candidate (persist io candidate m.disk) m
    else (m, validate candidate)

unfoldable pub reset_to_defaults : Io → ConfigManager → ConfigManager × Status
reset_to_defaults io m = commit defaults (persist io defaults m.disk) m

-- ===== src/Config/Manager/Loading.antt =====
-- Loading and recovery of the configuration (src/config/ConfigManager.cpp).
use nexus_firmware.Prelude.{◌≡◌, sym, ap, subst, inl, inr, true, false, some, [], arith, List, ◌∷◌}
use nexus_firmware.Core.Status.{success, is_ok}
use nexus_firmware.Config.Speaker.{SpeakerConfig, validate, defaults, defaults_valid}
use nexus_firmware.Config.Json.{
  ConfigJson, from_json, is_finite, from_json-to_json, unnamed-from_json,
}
use nexus_firmware.Config.Manager.{
  Content, json, file_of, Io, ConfigManager, persist, commit, update, load, try_parse,
  seed_defaults, from_backup, recover, reset_to_defaults, write_file, back_up, set_aside,
}
use nexus_firmware.Config.Manager.Updates.{update_settles}

-- The configuration in memory is valid.
abbrev pub IsValid : ConfigManager → Type 0
IsValid m = is_ok (validate m.config) ≡ true

default_ok : is_ok (validate defaults) ≡ true
default_ok = ap is_ok defaults_valid

from_backup-IsValid : (io : Io) (m : ConfigManager) → IsValid (from_backup io m).0
unfolding from_backup recover try_parse
from_backup-IsValid io m = ground (arith, default_ok)

load-IsValid : (io : Io) (m : ConfigManager) → IsValid (load io m).0
unfolding load try_parse seed_defaults
load-IsValid io m = ground (arith, default_ok, from_backup-IsValid io m)

-- The calls that change the manager.
pub data Call : Type 0 where
  loads : Call
  updates : (SpeakerConfig → SpeakerConfig) → Call
  resets : Call

pub step : ConfigManager → Io × Call → ConfigManager
step m (io, loads) = (load io m).0
step m (io, updates f) = (update io f m).0
step m (io, resets) = (reset_to_defaults io m).0

pub run : ConfigManager → List (Io × Call) → ConfigManager
run m [] = m
run m (c ∷ cs) = run (step m c) cs

update-IsValid :
    (io : Io) (f : SpeakerConfig → SpeakerConfig) (m : ConfigManager)
    → IsValid m
    → IsValid (update io f m).0
update-IsValid io f m v = elim (update_settles io f m) [
  | inl (done, good, same, stored, told) ↦ subst (λ c. is_ok (validate c) ≡ true) (sym same) good
  | inr (failed, same, kept, silent) ↦ subst (λ c. is_ok (validate c) ≡ true) (sym same) v
]

reset-IsValid : (io : Io) (m : ConfigManager) → IsValid m → IsValid (reset_to_defaults io m).0
unfolding reset_to_defaults commit
reset-IsValid io m v = ground (arith, default_ok)

-- Whatever the files hold, whatever the operating system refuses, and whatever the mutators compute:
-- the configuration in memory is always one that the validator accepts.
pub run-IsValid : (m : ConfigManager) (cs : List (Io × Call)) → IsValid m → IsValid (run m cs)
unfolding run step
run-IsValid m [] v = v
run-IsValid m ((io, loads) ∷ cs) v = run-IsValid (load io m).0 cs (load-IsValid io m)
run-IsValid m ((io, updates f) ∷ cs) v = run-IsValid (update io f m).0 cs (update-IsValid io f m v)
run-IsValid m ((io, resets) ∷ cs) v =
    run-IsValid (reset_to_defaults io m).0 cs (reset-IsValid io m v)

-- A file that does not parse, or parses to a configuration that is not valid.
abbrev pub IsCorrupt : Content → Type 0
IsCorrupt c = is_ok (try_parse (some c)).1 ≡ false

-- With a corrupt file and a backup of valid settings, with a finite gain, loading succeeds with the
-- backup's settings; the corrupt file is kept aside, and the file parses to the backup's settings
-- again, if the renaming and the write are carried out.
pub load_recovers :
    (io : Io) (m : ConfigManager) (bad : Content) (good : ConfigJson)
    → m.disk.primary ≡ some bad
    → IsCorrupt bad
    → m.disk.bak ≡ some (json good)
    → is_ok (validate (from_json good)) ≡ true
    → is_finite (from_json good).audio.gain_db ≡ true
    → io.rename_ok ≡ true
    → io.write ≡ success
    → let (m', s) = load io m in
      (s ≡ success)
      × (m'.config ≡ from_json good)
      × (try_parse m'.disk.primary ≡ (from_json good, validate (from_json good)))
      × (m'.disk.corrupt ≡ some bad)
      × (m'.disk.bak ≡ some (json good))
unfolding load from_backup recover persist write_file back_up set_aside try_parse file_of
load_recovers io m bad good prim corrupt bak valid finite ren wr =
    ground (arith, from_json-to_json (from_json good), unnamed-from_json good)

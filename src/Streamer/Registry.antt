-- ===== src/Streamer/Registry.antt =====
-- streamer/src/group/SpeakerRegistry.h. Each operation holds the mutex from beginning to end.
use nexus_firmware.Prelude.{
  String, str_eq, Bool, true, false, Option, none, some, List, [], ◌∷◌, if◌then◌else◌,
}
use nexus_firmware.Prelude.Int.{ℤ}

pub record Speaker : Type 0 where
  pub device_id : String
  pub name : String
  pub host : String
  pub control_port : ℤ

abbrev pub SpeakerRegistry : Type 0
SpeakerRegistry = List Speaker

-- The registry, and whether the speaker is new.
unfoldable pub upsert : Speaker → SpeakerRegistry → SpeakerRegistry × Bool
upsert s [] = (s ∷ [], true)
upsert s (e ∷ es) =
    let rest = upsert s es in
    if str_eq e.device_id s.device_id then (s ∷ es, false) else (e ∷ rest.0, rest.1)

unfoldable pub remove : String → SpeakerRegistry → SpeakerRegistry × Bool
remove device_id [] = ([], false)
remove device_id (e ∷ es) =
    let rest = remove device_id es in
    if str_eq e.device_id device_id then (es, true) else (e ∷ rest.0, rest.1)

unfoldable pub get : SpeakerRegistry → String → Option Speaker
get [] device_id = none
get (e ∷ es) device_id = if str_eq e.device_id device_id then some e else get es device_id

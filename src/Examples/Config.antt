-- ===== src/Examples/Config.antt =====
-- The results on the configuration at concrete inputs.
use nexus_firmware.Prelude.{true, false, none, some, [], ◌∷◌, ◌≡◌, refl, ap, ◌⊎◌}
use nexus_firmware.Prelude.Int.{pos}
use nexus_firmware.Core.Status.{success, is_ok}
use nexus_firmware.Core.Event.{event, config_changed}
use nexus_firmware.Core.Bus.{notify}
use nexus_firmware.Config.Speaker.{
  SpeakerConfig, defaults, validate, defaults_valid, eq_int, is_connection_mode, is_log_level,
}
use nexus_firmware.Config.Json.{
  to_json, from_json, fresh, get_part, value_or, device_to_json, device_from_json, pairing_to_json,
  pairing_from_json, network_to_json, network_from_json, audio_to_json, audio_from_json,
  system_to_json, system_from_json, is_finite, unnamed,
}
use nexus_firmware.Config.Manager.{json, garbage, Io, ConfigManager, load, update, try_parse}
use nexus_firmware.Config.Manager.Updates.{update_atomic}
use nexus_firmware.Config.Manager.Loading.{
  loads, updates, resets, run, IsValid, run-IsValid, load_recovers,
}

abbrev fine : Io
fine = record { copy_ok = true; rename_ok = true; write = success }

abbrev damaged : ConfigManager
damaged = record {
  bus = none;
  config = defaults;
  disk = record { primary = some garbage; bak = some (json (to_json defaults)); corrupt = none };
}

abbrev louder : SpeakerConfig → SpeakerConfig
louder c = record c { audio = record c.audio { volume = pos 80 } }

louder_finite : is_finite (louder defaults).audio.gain_db ≡ true
unfolding is_finite defaults
louder_finite = refl

update_atomic_example :
    let (m', s) = update fine louder damaged in
    ((s ≡ success)
      × (is_ok (validate (louder defaults)) ≡ true)
      × (m'.config ≡ louder defaults)
      × (m'.bus ≡ notify none (event config_changed "config" []))
      × ((later : Io)
          → load later m' ≡ (record m' { config = unnamed (louder defaults) }, success)))
    ⊎ ((is_ok s ≡ false)
        × (m'.config ≡ defaults)
        × (m'.disk.primary ≡ some garbage)
        × (m'.bus ≡ none))
update_atomic_example = update_atomic fine louder damaged louder_finite

defaults_good : is_ok (validate defaults) ≡ true
defaults_good = ap is_ok defaults_valid

run-IsValid_example :
    IsValid (run damaged ((fine, loads) ∷ (fine, updates louder) ∷ (fine, resets) ∷ []))
run-IsValid_example =
    run-IsValid damaged ((fine, loads) ∷ (fine, updates louder) ∷ (fine, resets) ∷ []) defaults_good

garbage_refused : is_ok (try_parse (some garbage)).1 ≡ false
unfolding try_parse
garbage_refused = refl

defaults_reread : is_ok (validate (from_json (to_json defaults))) ≡ true
unfolding from_json to_json fresh get_part value_or device_to_json device_from_json pairing_to_json
    pairing_from_json network_to_json network_from_json audio_to_json audio_from_json system_to_json
    system_from_json validate defaults eq_int is_connection_mode is_log_level
defaults_reread = refl

reread_finite : is_finite (from_json (to_json defaults)).audio.gain_db ≡ true
unfolding from_json to_json get_part value_or audio_to_json audio_from_json defaults is_finite
reread_finite = refl

load_recovers_example :
    let (m', s) = load fine damaged in
    (s ≡ success)
    × (m'.config ≡ from_json (to_json defaults))
    × (try_parse m'.disk.primary
        ≡ (from_json (to_json defaults), validate (from_json (to_json defaults))))
    × (m'.disk.corrupt ≡ some garbage)
    × (m'.disk.bak ≡ some (json (to_json defaults)))
load_recovers_example =
    load_recovers fine damaged garbage (to_json defaults) refl garbage_refused refl defaults_reread
      reread_finite refl refl

-- ===== src/Config/Manager/Updates.antt =====
-- Updates of the configuration (src/config/ConfigManager.cpp).
use nexus_firmware.Prelude.{◌≡◌, refl, ◌⊎◌, inl, inr, true, false, some, [], arith, Bool-cases}
use nexus_firmware.Core.Status.{Status, success, error, is_ok}
use nexus_firmware.Core.Event.{event, config_changed}
use nexus_firmware.Core.Bus.{notify}
use nexus_firmware.Config.Speaker.{SpeakerConfig, validate}
use nexus_firmware.Config.Json.{is_finite, unnamed, from_json-to_json}
use nexus_firmware.Config.Manager.{
  file_of, Disk, Io, ConfigManager, back_up, write_file, persist, commit, update, load, try_parse,
}

pub success_of_is_ok : (s : Status) → is_ok s ≡ true → s ≡ success
success_of_is_ok success h = refl
success_of_is_ok (error c m) h = cc

-- Validation does not read the name.
validate-unnamed : (c : SpeakerConfig) → validate (unnamed c) ≡ validate c
unfolding validate unnamed
validate-unnamed c = refl

pub load_stored :
    (io : Io) (c : SpeakerConfig) (m : ConfigManager)
    → is_finite c.audio.gain_db ≡ true
    → m.disk.primary ≡ some (file_of c)
    → is_ok (validate c) ≡ true
    → load io m ≡ (record m { config = unnamed c }, success)
unfolding load try_parse file_of
load_stored io c m finite stored valid =
    rw (stored, finite, from_json-to_json c, validate-unnamed c, valid) refl

back_up_primary : (io : Io) (d : Disk) → (back_up io d).primary ≡ d.primary
unfolding back_up
back_up_primary io d = ground arith

-- The three ways of an update.
update_invalid :
    (io : Io) (mutator : SpeakerConfig → SpeakerConfig) (m : ConfigManager)
    → is_ok (validate (mutator m.config)) ≡ false
    → update io mutator m ≡ (m, validate (mutator m.config))
unfolding update
update_invalid io mutator m bad = rw bad

update_refused :
    (io : Io) (mutator : SpeakerConfig → SpeakerConfig) (m : ConfigManager)
    → is_ok (validate (mutator m.config)) ≡ true
    → is_ok io.write ≡ false
    → update io mutator m ≡ (record m { disk = back_up io m.disk }, io.write)
unfolding update commit persist write_file
update_refused io mutator m good bad = rw (good, bad, bad)

pub update_done :
    (io : Io) (mutator : SpeakerConfig → SpeakerConfig) (m : ConfigManager)
    → is_ok (validate (mutator m.config)) ≡ true
    → is_ok io.write ≡ true
    → update io mutator m ≡ (
      record m {
        config = mutator m.config;
        disk = record (back_up io m.disk) { primary = some (file_of (mutator m.config)) };
        bus = notify m.bus (event config_changed "config" []);
      },
      success,
    )
unfolding update commit persist write_file
update_done io mutator m good fine = rw (good, fine)

-- An update either succeeds: the new settings are valid, they are in memory, the file is written from
-- them and the change is announced; or it fails: memory and file hold what they held and nothing is
-- announced.
pub update_settles :
    (io : Io) (mutator : SpeakerConfig → SpeakerConfig) (m : ConfigManager)
    → let (m', s) = update io mutator m in
      ((s ≡ success)
        × (is_ok (validate (mutator m.config)) ≡ true)
        × (m'.config ≡ mutator m.config)
        × (m'.disk.primary ≡ some (file_of (mutator m.config)))
        × (m'.bus ≡ notify m.bus (event config_changed "config" [])))
      ⊎ ((is_ok s ≡ false)
          × (m'.config ≡ m.config)
          × (m'.disk.primary ≡ m.disk.primary)
          × (m'.bus ≡ m.bus))
update_settles io mutator m = elim (Bool-cases (is_ok (validate (mutator m.config)))) [
  | inr bad ↦ rw (update_invalid io mutator m bad) (inr (bad, refl, refl, refl))
  | inl good ↦ elim (Bool-cases (is_ok io.write)) [
    | inr bad ↦
        rw (update_refused io mutator m good bad) (inr (bad, refl, back_up_primary io m.disk, refl))
    | inl fine ↦ rw (update_done io mutator m good fine) (inl (refl, good, refl, refl, refl))
  ]
]

-- For a mutator that leaves the gain a finite number: an update either succeeds, the new settings are
-- valid and in memory, the change is announced, and loading the file gives the settings back, less the
-- device's name; or it fails, memory and file hold what they held and nothing is announced.
pub update_atomic :
    (io : Io) (mutator : SpeakerConfig → SpeakerConfig) (m : ConfigManager)
    → is_finite (mutator m.config).audio.gain_db ≡ true
    → let (m', s) = update io mutator m in
      ((s ≡ success)
        × (is_ok (validate (mutator m.config)) ≡ true)
        × (m'.config ≡ mutator m.config)
        × (m'.bus ≡ notify m.bus (event config_changed "config" []))
        × ((later : Io)
            → load later m' ≡ (record m' { config = unnamed (mutator m.config) }, success)))
      ⊎ ((is_ok s ≡ false)
          × (m'.config ≡ m.config)
          × (m'.disk.primary ≡ m.disk.primary)
          × (m'.bus ≡ m.bus))
update_atomic io mutator m finite = elim (update_settles io mutator m) [
  | inr failed ↦ inr failed
  | inl (done, good, same, stored, told) ↦
      inl
        (done, good, same, told, λ later. load_stored later (mutator m.config) _ finite stored good)
]

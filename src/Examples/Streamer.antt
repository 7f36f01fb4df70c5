-- ===== src/Examples/Streamer.antt =====
-- The results on the streamer at concrete inputs.
use nexus_firmware.Prelude.{
  ℕ, ◌<◌, ◌≡◌, refl, String, Bool, true, false, ◌&&◌, ltb, none, some, List, [], ◌∷◌, map, arith,
}
use nexus_firmware.Prelude.Int.{pos}
use nexus_firmware.Core.Status.{value}
use nexus_firmware.Core.Event.{Value}
use nexus_firmware.Examples.Audio.{whole}
use nexus_firmware.Audio.Buffer.{init}
use nexus_firmware.Audio.Buffer.Loss.{push_all}
use nexus_firmware.Streamer.Registry.{Speaker}
use nexus_firmware.Streamer.Speakers.{SpeakerStateStore, at_or_fresh, find}
use nexus_firmware.Streamer.Speakers.Reachable.{
  Exchange, answered, unreachable, failures_since, heard_from, record_all, online_lem,
}
use nexus_firmware.Streamer.Zones.{
  is_taken, contains, Zone, ZoneManager, find_zone, endpoint_of, resolve_targets, members,
}
use nexus_firmware.Streamer.Zones.Owners.{owners, HasUniqueIds}
use nexus_firmware.Streamer.Zones.Kept.{
  IsValid, Request, creating, adding, dropping, serve_all, serve_all-IsValid,
}
use nexus_firmware.Streamer.Zones.Targets.{audible, resolve_targets-members}
use nexus_firmware.Streamer.Sending.{StreamSender, packets, total_frames}
use nexus_firmware.Streamer.Sending.Lossless.{
  pcm, unread, unread_samples, pcm-packets, packets-lossless,
}
use nexus_firmware.Streamer.AutoPair.{DiscoveredSpeaker, open_window, sweep_once}
use nexus_firmware.Streamer.AutoPair.Allowed.{IsAllowedSweep, sweep_once-IsAllowed}

abbrev is_object : Value → Bool
is_object v = false

abbrev empty_store : SpeakerStateStore
empty_store = record { bus = none; states = [] }

abbrev exchanges : List Exchange
exchanges = answered 7 none ∷ unreachable "timeout" ∷ unreachable "timeout" ∷ []

unknown : find empty_store.states "SPK-1" ≡ none
unfolding find
unknown = refl

online_lem_example :
    (at_or_fresh (record_all whole is_object empty_store "SPK-1" exchanges).states "SPK-1").online
    ≡ (heard_from false exchanges && ltb (failures_since 0 exchanges) 3)
online_lem_example = online_lem whole is_object "SPK-1" exchanges empty_store unknown

abbrev kitchen : Speaker
kitchen = record {
  device_id = "SPK-1";
  name = "Kitchen";
  host = "10.0.0.5";
  control_port = pos 45455;
}

abbrev house : Zone
house = record { zone_id = "zone-1"; name = "House"; members = "SPK-1" ∷ [] }

abbrev zones : ZoneManager
zones = record {
  registry = kitchen ∷ [];
  store = some empty_store;
  zones = house ∷ [];
  next = 2;
  calls = 0;
}

zones-IsValid : IsValid zones
unfolding IsValid owners HasUniqueIds is_taken contains
zones-IsValid = ((refl, tt), λ d. ground arith)

abbrev requests : List Request
requests = creating "Garden" ∷ adding "zone-1" "SPK-1" ∷ dropping "zone-1" "SPK-1" ∷ []

abbrev number : ℕ → String
number n = "zone-2"

serve_all-IsValid_example : IsValid (serve_all none number requests zones)
serve_all-IsValid_example = serve_all-IsValid none number requests zones zones-IsValid

house_found : find_zone zones.zones "zone-1" ≡ some house
unfolding find_zone
house_found = refl

resolve_targets-members_example :
    resolve_targets zones "zone-1"
    ≡ value (map endpoint_of (audible zones.store (members zones "zone-1")))
resolve_targets-members_example = resolve_targets-members zones "zone-1" house house_found

abbrev sender : StreamSender
sender = record {
  source = record { samples = 1 ∷ 2 ∷ 3 ∷ 4 ∷ 5 ∷ 6 ∷ []; channels = 2; pos_frames = 0 };
  ts = record { block_seconds = 0; lead_seconds = 0; next_timestamp = 0; started = true };
  sequence = 0;
  block_frames = 2;
}

three_unread : unread sender.source < 5
unfolding unread total_frames
three_unread = omega arith

pcm-packets_example : pcm (packets whole 5 sender) ≡ unread_samples sender.source
pcm-packets_example = pcm-packets whole 5 sender (omega arith) three_unread

packets-lossless_example : (push_all (init 2 8) (packets whole 5 sender)).metrics.lost ≡ 0
packets-lossless_example = packets-lossless whole 5 sender 2 8 (omega arith)

abbrev found : List DiscoveredSpeaker
found =
    record { device_id = "SPK-ABCD"; host = "10.0.0.5"; box_public_key = "key"; setup_mode = true }
    ∷ record {
      device_id = "SPK-WXYZ";
      host = "10.0.0.6";
      box_public_key = "key";
      setup_mode = false;
    }
    ∷ []

sweep_once-IsAllowed_example :
    IsAllowedSweep
      (λ k. pos 100)
      (λ id. false)
      (λ a. true)
      (open_window (pos 90) (pos 60))
      (sweep_once
        (λ k. pos 100)
        (λ id. false)
        (λ a. true)
        (open_window (pos 90) (pos 60))
        (value found))
sweep_once-IsAllowed_example =
    sweep_once-IsAllowed (λ k. pos 100) (λ id. false) (λ a. true) (open_window (pos 90) (pos 60))
      (value found)

-- ===== src/Streamer/Zones/Targets.antt =====
-- The two fan-outs of streamer/src/group/ZoneManager.h: the speakers that get the audio are those
-- that get the commands, less those known to be offline.
use text.Mathlib.TextEquality.{eq_iff}
use nexus_firmware.Prelude.{
  ◌≡◌, refl, sym, ap, ◌∙◌, String, str_eq, List, [], ◌∷◌, map, if◌then◌else◌, Bool-cases, inl, inr,
  Option, some, Option-cases,
}
use nexus_firmware.Core.Status.{value}
use nexus_firmware.Streamer.Registry.{Speaker, SpeakerRegistry}
use nexus_firmware.Streamer.Registry
use nexus_firmware.Streamer.Speakers.{SpeakerStateStore}
use nexus_firmware.Streamer.Zones.{
  Zone, ZoneManager, ZoneEndpoint, find_zone, known_offline, endpoint_of, endpoints,
  resolve_targets, speakers_of, members,
}
use mathlib.Core.Option.{some-injective}

unfoldable pub audible : Option SpeakerStateStore → List Speaker → List Speaker
audible st [] = []
audible st (sp ∷ sps) =
    if known_offline st sp.device_id then audible st sps else sp ∷ audible st sps

get-device_id :
    (r : SpeakerRegistry) (d : String) (sp : Speaker)
    → Registry.get r d ≡ some sp
    → sp.device_id ≡ d
unfolding Registry.get
get-device_id [] d sp h = absurd (cc)
get-device_id (e ∷ es) d sp h = elim (Bool-cases (str_eq e.device_id d)) [
  | inl t ↦
      ap Speaker.device_id (sym (some-injective e sp (rw t at h))) ∙ (eq_iff e.device_id d).0 t
  | inr t ↦ get-device_id es d sp (rw t at h)
]

endpoints-audible :
    (s : ZoneManager) (ds : List String)
    → endpoints s ds ≡ map endpoint_of (audible s.store (speakers_of s.registry ds))
unfolding endpoints speakers_of audible endpoint_of
endpoints-audible s [] = refl
endpoints-audible s (d ∷ ds) = elim (Option-cases (Registry.get s.registry d)) [
  | inl e ↦ rw (e, endpoints, speakers_of) (endpoints-audible s ds)
  | inr (sp, e) ↦
      let same = get-device_id s.registry d sp e in
      elim (Bool-cases (known_offline s.store d)) [
        | inl t ↦ rw (e, endpoints, speakers_of, audible, same, t) (endpoints-audible s ds)
        | inr t ↦
            rw (e, endpoints, speakers_of, audible, same, t)
              (ap (λ (l : List ZoneEndpoint). endpoint_of sp ∷ l) (endpoints-audible s ds))
      ]
]

-- The targets of a zone that exists are the endpoints of its members, in their order, less those
-- that the monitor knows to be offline.
pub resolve_targets-members :
    (s : ZoneManager) (zone_id : String) (z : Zone)
    → find_zone s.zones zone_id ≡ some z
    → resolve_targets s zone_id ≡ value (map endpoint_of (audible s.store (members s zone_id)))
unfolding resolve_targets members
resolve_targets-members s zone_id z h =
    rw (h, resolve_targets, members) (ap value (endpoints-audible s z.members))

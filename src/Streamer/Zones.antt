-- ===== src/Streamer/Zones.antt =====
-- streamer/src/group/Zone.h and ZoneManager.h. Each operation holds the mutex from beginning to
-- end. A message that names a zone or a speaker is given without it.
pub mod Owners
pub mod Kept
pub mod Targets
use nexus_firmware.Prelude.{
  ℕ, zero, suc, ◌+◌, String, str_eq, is_empty, Bool, true, false, ◌&&◌, ◌||◌, not, ltb, leb, Option,
  none, some, List, [], ◌∷◌, ◌++◌, if◌then◌else◌,
}
use nexus_firmware.Core.Status.{
  Status, success, error, Result, value, failed, already_exists, not_found, invalid_arg,
}
use nexus_firmware.Streamer.Registry.{Speaker, SpeakerRegistry}
use nexus_firmware.Streamer.Registry
use nexus_firmware.Streamer.Speakers.{SpeakerState, SpeakerStateStore}
use nexus_firmware.Streamer.Speakers
use Prim.Native.Nat.{max}

pub record Zone : Type 0 where
  pub zone_id : String
  pub name : String
  pub members : List String

pub record ZoneEndpoint : Type 0 where
  pub host : String
  pub port : ℕ

-- `store` is the pointer to the store, which may be null. `calls` counts the calls of the id
-- source.
pub record ZoneManager : Type 0 where
  pub registry : SpeakerRegistry
  pub store : Option SpeakerStateStore
  pub zones : List Zone
  pub next : ℕ
  pub calls : ℕ

unfoldable pub is_taken : List Zone → String → Bool
is_taken [] candidate = false
is_taken (z ∷ zs) candidate = str_eq z.zone_id candidate || is_taken zs candidate

unfoldable pub contains : List String → String → Bool
contains [] d = false
contains (m ∷ ms) d = str_eq m d || contains ms d

-- The id that the loop of `create` settles on, with the counters after it.
pub data Allocation : Type 0 where
  allocated : String → Allocation
  repeated : Allocation
  exhausted : Allocation

-- `ids` is the injected source, by the number of the call; `number` prints a counter.
module _ (ids : Option (ℕ → String)) (number : ℕ → String) where
  unfoldable pub candidate : ZoneManager → String × ZoneManager
  candidate s = elim ids [
    | some source ↦ (source s.calls, record s { calls = s.calls + 1 })
    | none ↦ (number s.next, record s { next = s.next + 1 })
  ]

  unfoldable pub has_source : Bool
  has_source = elim ids [ some source ↦ true | none ↦ false ]

  -- `n` turns of the loop, from `guard`.
  unfoldable pub allocate : ℕ → ℕ → ZoneManager → Allocation × ZoneManager
  allocate zero guard s = (exhausted, s)
  allocate (suc n) guard s =
      let rest = allocate n (suc guard) ((candidate s).1) in
      if is_taken s.zones ((candidate s).0)
      then if has_source && ltb 0 guard then (repeated, (candidate s).1) else rest
      else (allocated ((candidate s).0), (candidate s).1)

  -- An empty id counts as none.
  unfoldable pub add_zone : String → Allocation × ZoneManager → Result Zone × ZoneManager
  add_zone name (repeated, s) = (failed already_exists "zone id already exists", s)
  add_zone name (exhausted, s) = (failed already_exists "could not allocate a zone id", s)
  add_zone name (allocated id, s) =
      let z : Zone = record {
        zone_id = id;
        name = if is_empty name then id else name;
        members = [];
      } in
      if is_empty id
      then (failed already_exists "could not allocate a zone id", s)
      else (value z, record s { zones = s.zones ++ (z ∷ []) })

  unfoldable pub create : String → ZoneManager → Result Zone × ZoneManager
  create name s = add_zone name (allocate 10000 0 s)

unfoldable pub erase_zones : String → List Zone → List Zone
erase_zones zone_id [] = []
erase_zones zone_id (z ∷ zs) =
    let rest = erase_zones zone_id zs in if str_eq z.zone_id zone_id then rest else z ∷ rest

unfoldable pub remove : String → ZoneManager → Bool × ZoneManager
remove zone_id s = (is_taken s.zones zone_id, record s { zones = erase_zones zone_id s.zones })

-- The first zone with the id is changed; the status says whether there is one.
unfoldable pub change_zone : (Zone → Zone) → String → List Zone → Status × List Zone
change_zone f zone_id [] = (error not_found "unknown zone", [])
change_zone f zone_id (z ∷ zs) =
    let rest = change_zone f zone_id zs in
    if str_eq z.zone_id zone_id then (success, f z ∷ zs) else (rest.0, z ∷ rest.1)

unfoldable pub rename : String → String → ZoneManager → Status × ZoneManager
rename zone_id name s =
    let done = change_zone (λ z. record z { name = name }) zone_id s.zones in
    (done.0, record s { zones = done.1 })

-- Whether a zone with another id has the speaker.
unfoldable pub elsewhere : List Zone → String → String → Bool
elsewhere [] zone_id d = false
elsewhere (z ∷ zs) zone_id d =
    (not (str_eq z.zone_id zone_id) && contains z.members d) || elsewhere zs zone_id d

unfoldable pub join : String → Zone → Zone
join d z = if contains z.members d then z else record z { members = z.members ++ (d ∷ []) }

unfoldable pub is_known : SpeakerRegistry → String → Bool
is_known r d = elim (Registry.get r d) [ some sp ↦ true | none ↦ false ]

unfoldable pub add_member : String → String → ZoneManager → Status × ZoneManager
add_member zone_id d s =
    let done = change_zone (join d) zone_id s.zones in
    if not (is_known s.registry d)
    then (error not_found "unknown speaker", s)
    else if elsewhere s.zones zone_id d
    then (error invalid_arg "already belongs to zone", s)
    else (done.0, record s { zones = done.1 })

unfoldable pub erase_member : String → List String → List String
erase_member d [] = []
erase_member d (m ∷ ms) = let rest = erase_member d ms in if str_eq m d then rest else m ∷ rest

unfoldable pub remove_member : String → String → ZoneManager → Status × ZoneManager
remove_member zone_id d s =
    let done = change_zone (λ z. record z { members = erase_member d z.members }) zone_id s.zones in
    (done.0, record s { zones = done.1 })

unfoldable pub find_zone : List Zone → String → Option Zone
find_zone [] zone_id = none
find_zone (z ∷ zs) zone_id = if str_eq z.zone_id zone_id then some z else find_zone zs zone_id

unfoldable pub zone_of_list : List Zone → String → Option String
zone_of_list [] d = none
zone_of_list (z ∷ zs) d = if contains z.members d then some z.zone_id else zone_of_list zs d

unfoldable pub zone_of : ZoneManager → String → Option String
zone_of s d = zone_of_list s.zones d

-- `parsed` reads the number of an id of the form "zone-N", where it has that form and N fits.
unfoldable pub advance : (String → Option ℕ) → ℕ → List Zone → ℕ
advance parsed next [] = next
advance parsed next (z ∷ zs) = elim (parsed z.zone_id) [
  | some n ↦ advance parsed (max next (n + 1)) zs
  | none ↦ advance parsed next zs
]

unfoldable pub replace_all : (String → Option ℕ) → List Zone → ZoneManager → ZoneManager
replace_all parsed zones s = record s { zones = zones; next = advance parsed s.next zones }

-- Known to be offline: the store has a state of the speaker, and it is not online.
unfoldable pub known_offline : Option SpeakerStateStore → String → Bool
known_offline none d = false
known_offline (some st) d = elim (Speakers.get st d) [
  | some x ↦ not (SpeakerState.online x)
  | none ↦ false
]

unfoldable pub endpoint_of : Speaker → ZoneEndpoint
endpoint_of sp = record { host = sp.host; port = 50005 }

unfoldable pub endpoints : ZoneManager → List String → List ZoneEndpoint
endpoints s [] = []
endpoints s (d ∷ ds) =
    let rest = endpoints s ds in
    elim (Registry.get s.registry d) [
      | none ↦ rest
      | some sp ↦ if known_offline s.store d then rest else endpoint_of sp ∷ rest
    ]

unfoldable pub resolve_targets : ZoneManager → String → Result (List ZoneEndpoint)
resolve_targets s zone_id = elim (find_zone s.zones zone_id) [
  | none ↦ failed not_found "unknown zone"
  | some z ↦ value (endpoints s z.members)
]

unfoldable pub speakers_of : SpeakerRegistry → List String → List Speaker
speakers_of r [] = []
speakers_of r (d ∷ ds) =
    let rest = speakers_of r ds in elim (Registry.get r d) [ some sp ↦ sp ∷ rest | none ↦ rest ]

unfoldable pub members : ZoneManager → String → List Speaker
members s zone_id = elim (find_zone s.zones zone_id) [
  | none ↦ []
  | some z ↦ speakers_of s.registry z.members
]

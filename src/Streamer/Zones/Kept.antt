-- ===== src/Streamer/Zones/Kept.antt =====
-- A speaker is in one zone at most, and zone ids are unique, whatever is done to the zones of
-- streamer/src/group/ZoneManager.h, except the hydration from disk.
use text.Mathlib.TextEquality.{eq_iff}
use nexus_firmware.Prelude.{
  ℕ, zero, suc, ◌≤◌, ◌≡◌, refl, ap, subst, ◌∙◌, String, str_eq, Bool, false, ◌&&◌, ◌||◌, ltb,
  is_empty, arith, List, [], ◌∷◌, if◌then◌else◌, Bool-cases, inl, inr, Option, none, some,
}
use nexus_firmware.Core.Status.{success}
use nexus_firmware.Streamer.Zones.{
  Zone, ZoneManager, Allocation, allocated, repeated, exhausted, candidate, allocate, has_source,
  add_zone, create, remove, rename, add_member, remove_member, is_taken, contains, change_zone,
  elsewhere, join, erase_member, is_known, zone_of, zone_of_list,
}
use nexus_firmware.Streamer.Zones.Owners.{
  owners, HasUniqueIds, append-HasUniqueIds, owners-append, erase-HasUniqueIds, owners-erase,
  change-HasUniqueIds, owners-change, contains-erase_member, contains-join_ne, join-zone_id,
  contains-join, elsewhere-change, owners-elsewhere,
}

unfoldable pub IsValid : ZoneManager → Type 0
IsValid s = HasUniqueIds s.zones × ((d : String) → owners s.zones d ≤ 1)

candidate-zones :
    (ids : Option (ℕ → String)) (number : ℕ → String) (s : ZoneManager)
    → ZoneManager.zones ((candidate ids number s).1) ≡ s.zones
unfolding candidate
candidate-zones (some source) number s = refl
candidate-zones none number s = refl

-- The loop leaves the zones alone, and settles on an id that is free.
IsFree : List Zone → Allocation × ZoneManager → Type 0
IsFree zs (allocated id, s) = (s.zones ≡ zs) × (is_taken zs id ≡ false)
IsFree zs (repeated, s) = s.zones ≡ zs
IsFree zs (exhausted, s) = s.zones ≡ zs

module _ (ids : Option (ℕ → String)) (number : ℕ → String) where
  allocate-IsFree : (n guard : ℕ) (s : ZoneManager) → IsFree s.zones (allocate ids number n guard s)
  unfolding allocate IsFree
  allocate-IsFree zero guard s = refl
  allocate-IsFree (suc n) guard s =
      let same = candidate-zones ids number s in
      elim (Bool-cases (is_taken s.zones ((candidate ids number s).0))) [
        | inr e ↦ rw e (same, e)
        | inl e ↦ elim (Bool-cases (has_source ids number && ltb 0 guard)) [
          | inl t ↦ rw (e, t) same
          | inr t ↦
              rw (e, t)
                (subst
                  (λ zs. IsFree zs (allocate ids number n (suc guard) ((candidate ids number s).1)))
                  same (allocate-IsFree n (suc guard) ((candidate ids number s).1)))
        ]
      ]

  add_zone-IsValid :
      (name : String) (a : Allocation × ZoneManager) (zs : List Zone)
      → IsFree zs a
      → HasUniqueIds zs
      → ((d : String) → owners zs d ≤ 1)
      → IsValid ((add_zone ids number name a).1)
  unfolding add_zone IsFree IsValid contains
  add_zone-IsValid name (repeated, s) zs e u o = rw e (u, o)
  add_zone-IsValid name (exhausted, s) zs e u o = rw e (u, o)
  add_zone-IsValid name (allocated id, s) zs (e, free) u o = elim (Bool-cases (is_empty id)) [
    | inl t ↦ rw (t, e) (u, o)
    | inr t ↦
        let z : Zone = record {
          zone_id = id;
          name = if is_empty name then id else name;
          members = [];
        } in
        rw (t, e) (append-HasUniqueIds zs z u free, λ d. omega (arith, owners-append zs z d, o d))
  ]

  create-IsValid :
      (name : String) (s : ZoneManager) → IsValid s → IsValid ((create ids number name s).1)
  unfolding create IsValid
  create-IsValid name s (u, o) =
      add_zone-IsValid name (allocate ids number 10000 0 s) s.zones (allocate-IsFree 10000 0 s) u o

remove-IsValid : (id : String) (s : ZoneManager) → IsValid s → IsValid ((remove id s).1)
unfolding remove IsValid
remove-IsValid id s (u, o) =
    (erase-HasUniqueIds s.zones id u, λ d. omega (arith, owners-erase s.zones id d, o d))

rename-IsValid : (id name : String) (s : ZoneManager) → IsValid s → IsValid ((rename id name s).1)
unfolding rename IsValid
rename-IsValid id name s (u, o) = (
  change-HasUniqueIds (λ z. record z { name = name }) (λ z. refl) s.zones id u,
  λ d. omega (arith, owners-change (λ z. record z { name = name }) d (λ z h. h) s.zones id, o d),
)

remove_member-IsValid :
    (id d : String) (s : ZoneManager) → IsValid s → IsValid ((remove_member id d s).1)
unfolding remove_member IsValid
remove_member-IsValid id d s (u, o) =
    let f : Zone → Zone = λ z. record z { members = erase_member d z.members } in
    (
      change-HasUniqueIds f (λ z. refl) s.zones id u,
      λ x.
          omega (
            arith,
            o x,
            owners-change f x (λ z h. contains-erase_member z.members d x h) s.zones id,
          ),
    )

joined-owners :
    (zs : List Zone) (id d x : String)
    → HasUniqueIds zs
    → ((x : String) → owners zs x ≤ 1)
    → elsewhere zs id d ≡ false
    → owners ((change_zone (join d) id zs).1) x ≤ 1
joined-owners zs id d x u o e = elim (Bool-cases (str_eq d x)) [
  | inr n ↦ omega (
    arith,
    o x,
    owners-change (join d) x (contains-join_ne d x (ground (arith, eq_iff d x))) zs id,
  )
  | inl t ↦
      subst (λ y. owners ((change_zone (join d) id zs).1) y ≤ 1) ((eq_iff d x).0 t)
        (at_most (is_taken ((change_zone (join d) id zs).1) id) (
          owners-elsewhere ((change_zone (join d) id zs).1) id d
            (change-HasUniqueIds (join d) (join-zone_id d) zs id u) (elsewhere-change zs id d ∙ e)))
]
  where
    at_most : {n : ℕ} (b : Bool) → n ≤ (if b then 1 else 0) → n ≤ 1
    at_most b h = ground arith

add_member-IsValid : (id d : String) (s : ZoneManager) → IsValid s → IsValid ((add_member id d s).1)
unfolding add_member IsValid
add_member-IsValid id d s (u, o) = elim (Bool-cases (is_known s.registry d)) [
  | inr k ↦ rw k (u, o)
  | inl k ↦ elim (Bool-cases (elsewhere s.zones id d)) [
    | inl e ↦ rw (k, e) (u, o)
    | inr e ↦
        rw (k, e)
          (
            change-HasUniqueIds (join d) (join-zone_id d) s.zones id u,
            λ x. joined-owners s.zones id d x u o e,
          )
  ]
]

-- The requests that change the zones.
pub data Request : Type 0 where
  creating : String → Request
  removing : String → Request
  renaming : String → String → Request
  adding : String → String → Request
  dropping : String → String → Request

module _ (ids : Option (ℕ → String)) (number : ℕ → String) where
  unfoldable pub serve : Request → ZoneManager → ZoneManager
  serve (creating name) s = (create ids number name s).1
  serve (removing id) s = (remove id s).1
  serve (renaming id name) s = (rename id name s).1
  serve (adding id d) s = (add_member id d s).1
  serve (dropping id d) s = (remove_member id d s).1

  unfoldable pub serve_all : List Request → ZoneManager → ZoneManager
  serve_all [] s = s
  serve_all (r ∷ rs) s = serve_all rs (serve r s)

  serve-IsValid : (r : Request) (s : ZoneManager) → IsValid s → IsValid (serve r s)
  unfolding serve
  serve-IsValid (creating name) s h = create-IsValid ids number name s h
  serve-IsValid (removing id) s h = remove-IsValid id s h
  serve-IsValid (renaming id name) s h = rename-IsValid id name s h
  serve-IsValid (adding id d) s h = add_member-IsValid id d s h
  serve-IsValid (dropping id d) s h = remove_member-IsValid id d s h

  -- No two zones share an id and no speaker is in two zones, whatever requests are served.
  pub serve_all-IsValid :
      (rs : List Request) (s : ZoneManager) → IsValid s → IsValid (serve_all rs s)
  unfolding serve_all
  serve_all-IsValid [] s h = h
  serve_all-IsValid (r ∷ rs) s h = serve_all-IsValid rs (serve r s) (serve-IsValid r s h)

zone_of-join :
    (zs : List Zone) (id d : String)
    → elsewhere zs id d ≡ false
    → (change_zone (join d) id zs).0 ≡ success
    → zone_of_list ((change_zone (join d) id zs).1) d ≡ some id
unfolding zone_of_list change_zone elsewhere
zone_of-join [] id d e h = absurd (cc)
zone_of-join (z ∷ zs) id d e h = elim (Bool-cases (str_eq z.zone_id id)) [
  | inl t ↦ rw (t, contains-join d z, join-zone_id d z) (ap some ((eq_iff z.zone_id id).0 t))
  | inr t ↦
      let parts = both (contains z.members d) (elsewhere zs id d) (rw t at e) in
      rw (t, parts.0) (zone_of-join zs id d parts.1 (rw t at h))
]
  where
    both : (a b : Bool) → (a || b) ≡ false → (a ≡ false) × (b ≡ false)
    both a b h = ground arith

-- A speaker that was added is in the zone that it was added to, and `zoneOf` says so.
pub zone_of-add_member :
    (id d : String) (s : ZoneManager)
    → (add_member id d s).0 ≡ success
    → zone_of ((add_member id d s).1) d ≡ some id
unfolding add_member zone_of
zone_of-add_member id d s h = elim (Bool-cases (is_known s.registry d)) [
  | inr k ↦ absurd (cc (rw k at h))
  | inl k ↦ elim (Bool-cases (elsewhere s.zones id d)) [
    | inl e ↦ absurd (cc (rw (k, e) at h))
    | inr e ↦ rw (k, e) (zone_of-join s.zones id d e (rw (k, e) at h))
  ]
]

-- ===== src/Streamer/Zones/Owners.antt =====
-- How many zones have a speaker, through the changes of streamer/src/group/ZoneManager.h.
use text.Mathlib.TextEquality.{eq_iff}
use nexus_firmware.Prelude.{
  ℕ, ◌+◌, ◌≤◌, ◌≡◌, ◌≢◌, refl, String, str_eq, true, false, ◌||◌, arith, List, [], ◌∷◌, ◌++◌,
  if◌then◌else◌, Bool-cases, inl, inr,
}
use nexus_firmware.Streamer.Zones.{
  Zone, is_taken, contains, erase_zones, change_zone, elsewhere, join, erase_member,
}

unfoldable pub owners : List Zone → String → ℕ
owners [] d = 0
owners (z ∷ zs) d = (if contains z.members d then 1 else 0) + owners zs d

-- No two zones have the same id.
unfoldable pub HasUniqueIds : List Zone → Type 0
HasUniqueIds [] = Unit {0}
HasUniqueIds (z ∷ zs) = (is_taken zs z.zone_id ≡ false) × HasUniqueIds zs

is_taken-append :
    (zs : List Zone) (z : Zone) (id : String)
    → is_taken (zs ++ (z ∷ [])) id ≡ (is_taken zs id || str_eq z.zone_id id)
unfolding is_taken
is_taken-append [] z id = ground arith
is_taken-append (y ∷ zs) z id = ground (arith, is_taken-append zs z id)

pub append-HasUniqueIds :
    (zs : List Zone) (z : Zone)
    → HasUniqueIds zs
    → is_taken zs z.zone_id ≡ false
    → HasUniqueIds (zs ++ (z ∷ []))
unfolding HasUniqueIds is_taken
append-HasUniqueIds [] z u t = (refl, tt)
append-HasUniqueIds (y ∷ zs) z u t = (
  ground (
    arith,
    is_taken-append zs z y.zone_id,
    eq_iff z.zone_id y.zone_id,
    eq_iff y.zone_id z.zone_id,
    u.0,
  ),
  append-HasUniqueIds zs z (u.1) (ground (arith)),
)

pub owners-append :
    (zs : List Zone) (z : Zone) (d : String)
    → owners (zs ++ (z ∷ [])) d ≡ owners zs d + (if contains z.members d then 1 else 0)
unfolding owners
owners-append [] z d = omega arith
owners-append (y ∷ zs) z d = omega (arith, owners-append zs z d)

is_taken-erase :
    (zs : List Zone) (id x : String)
    → is_taken zs x ≡ false
    → is_taken (erase_zones id zs) x ≡ false
unfolding is_taken erase_zones
is_taken-erase [] id x h = refl
is_taken-erase (z ∷ zs) id x h = ground (arith, is_taken-erase zs id x)

pub erase-HasUniqueIds :
    (zs : List Zone) (id : String) → HasUniqueIds zs → HasUniqueIds (erase_zones id zs)
unfolding HasUniqueIds erase_zones
erase-HasUniqueIds [] id u = tt
erase-HasUniqueIds (z ∷ zs) id u = elim (Bool-cases (str_eq z.zone_id id)) [
  | inl e ↦ rw e (erase-HasUniqueIds zs id (u.1))
  | inr e ↦ rw e (is_taken-erase zs id z.zone_id (u.0), erase-HasUniqueIds zs id (u.1))
]

pub owners-erase : (zs : List Zone) (id d : String) → owners (erase_zones id zs) d ≤ owners zs d
unfolding owners erase_zones
owners-erase [] id d = omega arith
owners-erase (z ∷ zs) id d = ground (arith, owners-erase zs id d)

-- A change that keeps the ids.
module _ (f : Zone → Zone) (keeps : (z : Zone) → (f z).zone_id ≡ z.zone_id) where
  is_taken-change :
      (zs : List Zone) (id x : String) → is_taken ((change_zone f id zs).1) x ≡ is_taken zs x
  unfolding is_taken change_zone
  is_taken-change [] id x = refl
  is_taken-change (z ∷ zs) id x = elim (Bool-cases (str_eq z.zone_id id)) [
    | inl e ↦ rw (e, keeps z) refl
    | inr e ↦ rw (e, is_taken-change zs id x) refl
  ]

  pub change-HasUniqueIds :
      (zs : List Zone) (id : String) → HasUniqueIds zs → HasUniqueIds ((change_zone f id zs).1)
  unfolding HasUniqueIds change_zone
  change-HasUniqueIds [] id u = tt
  change-HasUniqueIds (z ∷ zs) id u = elim (Bool-cases (str_eq z.zone_id id)) [
    | inl e ↦ rw (e, keeps z) u
    | inr e ↦ rw (e, is_taken-change zs id z.zone_id) (u.0, change-HasUniqueIds zs id (u.1))
  ]

-- A change that gives no zone a speaker that it did not have.
pub owners-change :
    (f : Zone → Zone) (d : String)
    → ((z : Zone) → contains (f z).members d ≡ true → contains z.members d ≡ true)
    → (zs : List Zone) (id : String) → owners ((change_zone f id zs).1) d ≤ owners zs d
unfolding owners change_zone
owners-change f d less [] id = omega arith
owners-change f d less (z ∷ zs) id = ground (arith, owners-change f d less zs id, less z)

contains-append :
    (ms : List String) (d x : String) → contains (ms ++ (d ∷ [])) x ≡ (contains ms x || str_eq d x)
unfolding contains
contains-append [] d x = ground arith
contains-append (m ∷ ms) d x = ground (arith, contains-append ms d x)

pub contains-erase_member :
    (ms : List String) (d x : String) → contains (erase_member d ms) x ≡ true → contains ms x ≡ true
unfolding contains erase_member
contains-erase_member [] d x h = h
contains-erase_member (m ∷ ms) d x h = ground (arith, contains-erase_member ms d x)

pub contains-join_ne :
    (d x : String)
    → d ≢ x
    → (z : Zone) → contains (join d z).members x ≡ true
    → contains z.members x ≡ true
unfolding join
contains-join_ne d x n z h = elim (Bool-cases (contains z.members d)) [
  | inl e ↦ rw e at h
  | inr e ↦ ground (arith, contains-append z.members d x, eq_iff d x, n, rw e at h)
]

pub contains-join : (d : String) (z : Zone) → contains (join d z).members d ≡ true
unfolding join
contains-join d z = elim (Bool-cases (contains z.members d)) [
  | inl e ↦ rw e e
  | inr e ↦ rw e (ground (arith, contains-append z.members d d, eq_iff d d))
]

pub join-zone_id : (d : String) (z : Zone) → (join d z).zone_id ≡ z.zone_id
unfolding join
join-zone_id d z = ground arith

pub elsewhere-change :
    (zs : List Zone) (id d : String)
    → elsewhere ((change_zone (join d) id zs).1) id d ≡ elsewhere zs id d
unfolding elsewhere change_zone
elsewhere-change [] id d = refl
elsewhere-change (z ∷ zs) id d = elim (Bool-cases (str_eq z.zone_id id)) [
  | inl e ↦ rw (e, join-zone_id d z, e) refl
  | inr e ↦ rw (e, elsewhere-change zs id d, e) refl
]

-- A speaker that no zone with another id has is in one zone at most.
pub owners-elsewhere :
    (zs : List Zone) (id d : String)
    → HasUniqueIds zs
    → elsewhere zs id d ≡ false
    → owners zs d ≤ (if is_taken zs id then 1 else 0)
unfolding owners elsewhere is_taken HasUniqueIds
owners-elsewhere [] id d u e = omega arith
owners-elsewhere (z ∷ zs) id d u e =
    ground (arith, owners-elsewhere zs id d (u.1), eq_iff z.zone_id id, u.0)

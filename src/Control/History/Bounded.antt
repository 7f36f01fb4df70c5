-- ===== src/Control/History/Bounded.antt =====
-- Bounds and retention of the command history (src/control/CommandHistory.cpp).
use text.Mathlib.TextEquality.{eq_iff}
use text.Mathlib.TextPositions.{eq_refl}
use nexus_firmware.Prelude.{
  suc, ◌+◌, ◌-◌, ◌≤◌, ◌<◌, ◌≡◌, ◌≢◌, refl, sym, ap, subst, ◌∙◌, String, str_eq, true, false, some,
  List, [], ◌∷◌, ◌++◌, length, length-append, leb, arith, All, All-append, Bool-cases, inl, inr,
  if◌then◌else◌,
}
use nexus_firmware.Control.Command.{CommandResult}
use nexus_firmware.Control.History.{
  Results, CommandHistory, find, assign, erase_key, is_found, seen, evict, add, remember,
}

pub find-assign :
    (rs : Results) (k j : String) (r : CommandResult)
    → find (assign rs k r) j ≡ (if str_eq k j then some r else find rs j)
unfolding find assign
find-assign [] k j r = refl
find-assign ((i, q) ∷ rs) k j r =
    ground (arith, eq_iff i k, eq_iff i j, eq_iff k j, find-assign rs k j r)

-- Erasing a key does not touch another.
pub find-erase_ne : (rs : Results) (k j : String) → k ≢ j → find (erase_key rs k) j ≡ find rs j
unfolding find erase_key
find-erase_ne [] k j ne = refl
find-erase_ne ((i, q) ∷ rs) k j ne = ground (arith, eq_iff i k, eq_iff i j, find-erase_ne rs k j ne)

length-assign :
    (rs : Results) (k : String) (r : CommandResult)
    → length (assign rs k r) ≡ (if is_found (find rs k) then length rs else suc (length rs))
unfolding find assign is_found
length-assign [] k r = refl
length-assign ((i, q) ∷ rs) k r = ground (arith, eq_iff i k, length-assign rs k r)

length-erase :
    (rs : Results) (k : String)
    → is_found (find rs k) ≡ true
    → length (erase_key rs k) + 1 ≡ length rs
unfolding find erase_key is_found
length-erase [] k h = cc
length-erase ((i, q) ∷ rs) k h = ground (arith, eq_iff i k, length-erase rs k)

-- Texts that are all different.
abbrev pub Distinct : List String → Type 0
Distinct [] = Unit {0}
Distinct (x ∷ xs) = All (λ (y : String). x ≢ y) xs × Distinct xs

-- The order has the ids of the map, each once, and no more of them than the capacity.
pub record IsValid (h : CommandHistory) : Type 0 where
  pub distinct : Distinct h.order
  pub found : All (λ (k : String). is_found (find h.results k) ≡ true) h.order
  pub sized : length h.results ≡ length h.order
  pub bounded : length h.order ≤ h.capacity

-- Assigning keeps what was found, and so does erasing for other keys.
found-assign :
    (rs : Results) (k : String) (r : CommandResult) (xs : List String)
    → All (λ (j : String). is_found (find rs j) ≡ true) xs
    → All (λ (j : String). is_found (find (assign rs k r) j) ≡ true) xs
unfolding is_found
found-assign rs k r [] h = tt
found-assign rs k r (x ∷ xs) h =
    (ground (arith, find-assign rs k x r, h.0), found-assign rs k r xs h.1)

found-erase :
    (rs : Results) (k : String) (xs : List String)
    → All (λ (j : String). k ≢ j) xs
    → All (λ (j : String). is_found (find rs j) ≡ true) xs
    → All (λ (j : String). is_found (find (erase_key rs k) j) ≡ true) xs
found-erase rs k [] ne h = tt
found-erase rs k (x ∷ xs) ne h = (rw (find-erase_ne rs k x ne.0) h.0, found-erase rs k xs ne.1 h.1)

-- An id that is not found is none of those that are.
pub not-among :
    (rs : Results) (k : String) (xs : List String)
    → is_found (find rs k) ≡ false
    → All (λ (j : String). is_found (find rs j) ≡ true) xs
    → All (λ (j : String). j ≢ k) xs
not-among rs k [] miss h = tt
not-among rs k (x ∷ xs) miss h = (
  (λ e. absurd_eq (sym (subst (λ j. is_found (find rs j) ≡ true) e h.0) ∙ miss)),
  not-among rs k xs miss h.1,
)
  where
    absurd_eq : true ≡ false → ⊥
    absurd_eq e = cc

Distinct-snoc :
    (xs : List String) (k : String)
    → Distinct xs
    → All (λ (j : String). j ≢ k) xs
    → Distinct (xs ++ (k ∷ []))
Distinct-snoc [] k d n = (tt, tt)
Distinct-snoc (x ∷ xs) k d n =
    (All-append (λ (y : String). x ≢ y) xs (k ∷ []) d.0 (n.0, tt), Distinct-snoc xs k d.1 n.1)

evict-IsValid :
    (order : List String) (h : CommandHistory)
    → h.order ≡ order
    → IsValid h
    → IsValid (evict order h) × (length (evict order h).order ≡ length order - 1)
unfolding evict
evict-IsValid [] h e v = (v, ap length e)
evict-IsValid (x ∷ rest) h e v =
    let d = subst Distinct e v.distinct in
    let found = subst (All (λ (k : String). is_found (find h.results k) ≡ true)) e v.found in
    (
      record {
        distinct = d.1;
        found = found-erase h.results x rest d.0 found.1;
        sized = omega (arith, length-erase h.results x found.0, v.sized, ap length e);
        bounded = omega (arith, v.bounded, ap length e);
      },
      omega arith,
    )

add-IsValid :
    (h : CommandHistory) (k : String) (r : CommandResult)
    → IsValid h
    → is_found (find h.results k) ≡ false
    → length h.order < h.capacity
    → IsValid (add h k r)
unfolding add is_found
add-IsValid h k r v new room = record {
  distinct = Distinct-snoc h.order k v.distinct (not-among h.results k h.order new v.found);
  found =
      All-append (λ (j : String). is_found (find (assign h.results k r) j) ≡ true) h.order (k ∷ [])
        (found-assign h.results k r h.order v.found)
        (ap is_found (find-assign h.results k k r ∙ self), tt);
  sized = omega (arith, grown, length-append h.order (k ∷ []), v.sized);
  bounded = omega (arith, length-append h.order (k ∷ []));
}
  where
    self : (if str_eq k k then some r else find h.results k) ≡ some r
    self = ground (arith, eq_refl k)

    grown : length (assign h.results k r) ≡ suc (length h.results)
    grown = ground (arith, length-assign h.results k r)

pub capacity-evict :
    (order : List String) (h : CommandHistory) → (evict order h).capacity ≡ h.capacity
unfolding evict
capacity-evict [] h = refl
capacity-evict (x ∷ rest) h = refl

evict_misses :
    (order : List String) (h : CommandHistory) (k : String)
    → h.order ≡ order
    → IsValid h
    → is_found (find h.results k) ≡ false
    → is_found (find (evict order h).results k) ≡ false
unfolding evict
evict_misses [] h k e v new = new
evict_misses (x ∷ rest) h k e v new =
    let found = subst (All (λ (j : String). is_found (find h.results j) ≡ true)) e v.found in
    let other = not-among h.results k (x ∷ rest) new found in
    rw (find-erase_ne h.results x k other.0) new

-- Remembering a result keeps the order and the map in step and within the capacity.
pub remember-IsValid :
    (h : CommandHistory) (k : String) (r : CommandResult)
    → 0 < h.capacity
    → IsValid h
    → IsValid (remember h k r)
unfolding remember seen
remember-IsValid h k r pos v = elim (Bool-cases (is_found (find h.results k))) [
  | inl old ↦ rw old (record {
    distinct = v.distinct;
    found = found-assign h.results k r h.order v.found;
    sized = ground (arith, length-assign h.results k r, v.sized);
    bounded = v.bounded;
  })
  | inr new ↦ elim (Bool-cases (leb h.capacity (length h.order))) [
    | inl full ↦
        let (kept, shorter) = evict-IsValid h.order h refl v in
        rw (new, full)
          (add-IsValid (evict h.order h) k r kept (evict_misses h.order h k refl v new)
            (ground (arith, capacity-evict h.order h, shorter, pos, v.bounded)))
    | inr room ↦ rw (new, room) (add-IsValid h k r v new (ground arith))
  ]
]

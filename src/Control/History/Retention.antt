-- ===== src/Control/History/Retention.antt =====
-- How long the command history keeps a result (src/control/CommandHistory.cpp).
use text.Mathlib.TextEquality.{eq_iff}
use text.Mathlib.TextPositions.{eq_refl}
use mathlib.Core.List.{append_assoc}
use nexus_firmware.Prelude.{
  ℕ, ◌+◌, ◌≤◌, ◌<◌, ◌≡◌, ◌≢◌, refl, sym, subst, ◌∙◌, String, false, some, List, [], ◌∷◌, ◌++◌,
  length, length-append, leb, arith, All, Bool-cases, inl, inr,
}
use nexus_firmware.Control.Command.{CommandResult}
use nexus_firmware.Control.History.{
  CommandHistory, find, assign, is_found, seen, evict, add, remember,
}
use nexus_firmware.Control.History.Bounded.{
  find-assign, find-erase_ne, not-among, capacity-evict, IsValid,
}

-- The id is found with this result, and stands in the order behind other ids and in front of `n`.
pub record IsKept (k : String) (r : CommandResult) (n : ℕ) (h : CommandHistory) : Type 0 where
  pub before : List String
  pub after : List String
  pub stands : h.order ≡ before ++ (k ∷ after)
  pub others : All (λ (j : String). j ≢ k) before
  pub newer : length after ≤ n
  pub here : find h.results k ≡ some r

add-IsKept :
    (k j : String) (r q : CommandResult) (n : ℕ) (h : CommandHistory)
    → j ≢ k
    → IsKept k r n h
    → IsKept k r (n + 1) (add h j q)
unfolding add
add-IsKept k j r q n h other v = record {
  before = v.before;
  after = v.after ++ (j ∷ []);
  stands = ground (arith, v.stands, append_assoc v.before (k ∷ v.after) (j ∷ []));
  others = v.others;
  newer = omega (arith, length-append v.after (j ∷ []), v.newer);
  here = ground (arith, find-assign h.results j k q, eq_iff j k, v.here);
}

-- An eviction takes another id, since more than `n + 1` stand in the order.
evict_order-IsKept :
    (before after : List String) (k : String) (r : CommandResult) (n : ℕ) (h : CommandHistory)
    → All (λ (j : String). j ≢ k) before
    → length after ≤ n
    → find h.results k ≡ some r
    → n + 1 < length (before ++ (k ∷ after))
    → IsKept k r n (evict (before ++ (k ∷ after)) h)
unfolding evict
evict_order-IsKept [] after k r n h others newer here full = ground arith
evict_order-IsKept (x ∷ before) after k r n h others newer here full = record {
  before = before;
  after = after;
  stands = refl;
  others = others.1;
  newer = newer;
  here = find-erase_ne h.results x k others.0 ∙ here;
}

evict-IsKept :
    (k : String) (r : CommandResult) (n : ℕ) (h : CommandHistory)
    → n + 1 < length h.order
    → IsKept k r n h
    → IsKept k r n (evict h.order h)
evict-IsKept k r n h full v =
    subst (λ o. IsKept k r n (evict o h)) (sym v.stands)
      (evict_order-IsKept v.before v.after k r n h v.others v.newer v.here
        (subst (λ o. n + 1 < length o) v.stands full))

update-IsKept :
    (k j : String) (r q : CommandResult) (n : ℕ) (h : CommandHistory)
    → j ≢ k
    → IsKept k r n h
    → IsKept k r (n + 1) (record h { results = assign h.results j q })
update-IsKept k j r q n h other v = record {
  before = v.before;
  after = v.after;
  stands = v.stands;
  others = v.others;
  newer = omega (arith, v.newer);
  here = ground (arith, find-assign h.results j k q, eq_iff j k, v.here);
}

-- Remembering another result costs a kept one a place, and no more.
pub remember-IsKept :
    (k j : String) (r q : CommandResult) (n : ℕ) (h : CommandHistory)
    → j ≢ k
    → n + 1 < h.capacity
    → IsKept k r n h
    → IsKept k r (n + 1) (remember h j q)
unfolding remember
remember-IsKept k j r q n h other room v = elim (Bool-cases (seen h j)) [
  | inl old ↦ rw old (update-IsKept k j r q n h other v)
  | inr new ↦ elim (Bool-cases (leb h.capacity (length h.order))) [
    | inl full ↦
        rw (new, full)
          (add-IsKept k j r q n (evict h.order h) other (evict-IsKept k r n h (ground arith) v))
    | inr more ↦ rw (new, more) (add-IsKept k j r q n h other v)
  ]
]

add-IsKept_zero :
    (k : String) (r : CommandResult) (h : CommandHistory)
    → All (λ (j : String). j ≢ k) h.order
    → IsKept k r 0 (add h k r)
unfolding add
add-IsKept_zero k r h new = record {
  before = h.order;
  after = [];
  stands = refl;
  others = new;
  newer = omega arith;
  here = ground (arith, find-assign h.results k k r, eq_refl k);
}

drop_first :
    (order : List String) (h : CommandHistory) (k : String)
    → h.order ≡ order
    → All (λ (j : String). j ≢ k) order
    → All (λ (j : String). j ≢ k) (evict order h).order
unfolding evict
drop_first [] h k e new = subst (All (λ (j : String). j ≢ k)) (sym e) new
drop_first (x ∷ rest) h k e new = new.1

not_found :
    (h : CommandHistory) (k : String) → seen h k ≡ false → is_found (find h.results k) ≡ false
unfolding seen
not_found h k e = e

-- A new result is kept in the last place.
pub remember-IsKept_new :
    (k : String) (r : CommandResult) (h : CommandHistory)
    → IsValid h
    → seen h k ≡ false
    → IsKept k r 0 (remember h k r)
unfolding remember
remember-IsKept_new k r h v miss =
    let new = not-among h.results k h.order (not_found h k miss) v.found in
    elim (Bool-cases (leb h.capacity (length h.order))) [
      | inl full ↦
          rw (miss, full) (add-IsKept_zero k r (evict h.order h) (drop_first h.order h k refl new))
      | inr more ↦ rw (miss, more) (add-IsKept_zero k r h new)
    ]

pub capacity-remember :
    (h : CommandHistory) (k : String) (r : CommandResult) → (remember h k r).capacity ≡ h.capacity
unfolding remember add
capacity-remember h k r = elim (Bool-cases (seen h k)) [
  | inl old ↦ rw old refl
  | inr new ↦ elim (Bool-cases (leb h.capacity (length h.order))) [
    | inl full ↦ rw (new, full) (capacity-evict h.order h)
    | inr more ↦ rw (new, more) refl
  ]
]

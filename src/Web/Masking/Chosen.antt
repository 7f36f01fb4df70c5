-- ===== src/Web/Masking/Chosen.antt =====
-- The mask that src/web/QrEncoder.cpp chooses: none of the eight has a lower penalty.
use nexus_firmware.Prelude.{
  ℕ, zero, suc, ◌+◌, ◌-◌, ◌*◌, ◌^◌, ◌<◌, ◌≤◌, ◌≡◌, refl, subst, ◌∙◌, ◌⊎◌, inl, inr, List, [], ◌∷◌,
  Bool, true, false, ltb, Bool-cases, arith, count_up, length, length-put, count_up-keeps, at,
}
use nexus_firmware.Web.Matrix.{Grid, Matrix}
use nexus_firmware.Web.Masking.{
  Runs, penalty_step, line_step, penalty_line, penalty, masked, mask_rows, apply_format,
  write_format, k_format_m, Choice, try_mask, choose_mask,
}
use native.Mathlib.Nat.{mul-le-mul}

-- After the masks below i: no lower penalty among them, and the choice is one of them.
Chosen : Matrix → ℕ → Choice → Type 0
Chosen base i s =
    ((m : ℕ) → m < i → s.best_pen ≤ penalty (masked base m))
    × (((s.best_pen ≡ 2 ^ 30) × (i ≡ 0))
        ⊎ ((s.best_mask < i)
            × (s.best ≡ masked base s.best_mask)
            × (s.best_pen ≡ penalty (masked base s.best_mask))))

try_mask-Chosen :
    (base : Matrix) (i : ℕ) (s : Choice)
    → ((m : ℕ) → penalty (masked base m) < 2 ^ 30)
    → Chosen base i s
    → Chosen base (suc i) (try_mask base i s)
unfolding Chosen try_mask
try_mask-Chosen base i s small (least, was) =
    elim (Bool-cases (ltb (penalty (masked base i)) s.best_pen)) [
      | inl e ↦ rw e (
        (λ m p. elim (below_or_at m i p) [
          | inl q ↦ omega (arith, least m q, lower e)
          | inr q ↦ rw q (omega arith)
        ]),
        inr (omega arith, refl, refl),
      )
      | inr e ↦ rw e (
        (λ m p. elim (below_or_at m i p) [ inl q ↦ least m q | inr q ↦ rw q (higher e) ]),
        elim was [
          | inl (h, z) ↦ absurd (omega (arith, higher e, small i))
          | inr (l, b, q) ↦ inr (omega arith, b, q)
        ],
      )
    ]
  where
    below_or_at : (m i : ℕ) → m < suc i → (m < i) ⊎ (m ≡ i)
    below_or_at m i p = ground arith

    lower : {a b : ℕ} → ltb a b ≡ true → a < b
    lower e = ground arith

    higher : {a b : ℕ} → ltb a b ≡ false → b ≤ a
    higher e = ground arith

tried :
    (base : Matrix) (n i : ℕ) (s : Choice)
    → ((m : ℕ) → penalty (masked base m) < 2 ^ 30)
    → Chosen base i s
    → Chosen base (n + i) (count_up n i (try_mask base) s)
unfolding count_up
tried base zero i s small h = subst (λ t. Chosen base t s) (omega arith) h
tried base (suc n) i s small h =
    subst (λ t. Chosen base t (count_up (suc n) i (try_mask base) s)) (omega arith)
      (tried base n (suc i) (try_mask base i s) small (try_mask-Chosen base i s small h))

-- The penalty of a grid of n rows is at most 6 * n * n.
penalty_step-bound : (b : Bool) (s : Runs) → (penalty_step b s).pen ≤ s.pen + 3
unfolding penalty_step
penalty_step-bound true s = ground arith
penalty_step-bound false s = omega arith

count_up-pen :
    (n i : ℕ) (step : ℕ → Runs → Runs) (s : Runs)
    → ((i : ℕ) (s : Runs) → (step i s).pen ≤ s.pen + 3)
    → (count_up n i step s).pen ≤ s.pen + n * 3
unfolding count_up
count_up-pen zero i step s h = omega arith
count_up-pen (suc n) i step s h = omega (arith, count_up-pen n (suc i) step (step i s) h, h i s)

count_up-bound :
    (n i k : ℕ) (step : ℕ → ℕ → ℕ) (a : ℕ)
    → ((i a : ℕ) → step i a ≤ a + k)
    → count_up n i step a ≤ a + n * k
unfolding count_up
count_up-bound zero i k step a h = omega arith
count_up-bound (suc n) i k step a h =
    ground (arith, count_up-bound n (suc i) k step (step i a) h, h i a)

line_step-bound : (g : Grid) (r dir c : ℕ) (s : Runs) → (line_step g r dir c s).pen ≤ s.pen + 3
unfolding line_step
line_step-bound g r dir c s = penalty_step-bound _ s

penalty_line-bound : (g : Grid) (r dir pen : ℕ) → penalty_line g r dir pen ≤ pen + length g * 3
unfolding penalty_line
penalty_line-bound g r dir pen = omega (
  arith,
  count_up-pen (length g - 1) 1 (line_step g r dir) (record { run = 1; pen = pen })
      (line_step-bound g r dir),
)

penalty-bound : (g : Grid) → penalty g ≤ length g * (6 * length g)
unfolding penalty
penalty-bound g = omega (
  arith,
  count_up-bound (length g) 0 (6 * length g) (λ r. count_up 2 0 (penalty_line g r)) 0
      (λ r a.
        omega
          (arith, count_up-bound 2 0 (length g * 3) (penalty_line g r) a (penalty_line-bound g r))),
)

length-mask_rows :
    (mask r : ℕ) (f : List (List Bool)) (g : Grid) → length (mask_rows mask r f g) ≤ length g
unfolding mask_rows
length-mask_rows mask r [] g = omega arith
length-mask_rows mask r (f ∷ fs) [] = omega arith
length-mask_rows mask r (f ∷ fs) (v ∷ vs) = omega (arith, length-mask_rows mask (suc r) fs vs)

length-write_format : (fmt n i : ℕ) (g : Grid) → length (write_format fmt n i g) ≡ length g
unfolding write_format
length-write_format fmt n i g = length-put _ _ _ ∙ length-put _ _ _

length-apply_format : (mask n : ℕ) (g : Grid) → length (apply_format mask n g) ≡ length g
unfolding apply_format
length-apply_format mask n g =
    length-put _ _ _
    ∙ count_up-keeps (λ (t : Grid). length t ≡ length g) (write_format (at k_format_m mask) n)
        (λ i t h. length-write_format (at k_format_m mask) n i t ∙ h) 15 0 g refl

masked-small :
    (base : Matrix) (mask : ℕ) → length base.m ≤ 10000 → penalty (masked base mask) < 2 ^ 30
unfolding masked
masked-small base mask l =
    let g = mask_rows mask 0 base.fixed base.m in
    let size : length (apply_format mask base.n g) ≤ 10000 =
      omega (arith, length-apply_format mask base.n g, length-mask_rows mask 0 base.fixed base.m) in
    bound (apply_format mask base.n g) size
  where
    bound : (g : Grid) → length g ≤ 10000 → penalty g < 2 ^ 30
    bound g size = ground (arith, penalty-bound g, square (length g) size)
      where
        square : (n : ℕ) → n ≤ 10000 → n * (6 * n) ≤ 10000 * 60000
        square n l = mul-le-mul {m₂ = 60000} l (omega arith)

-- The chosen grid is one of the eight masked ones, and none of them has a lower penalty.
pub choose_mask-least :
    (base : Matrix)
    → length base.m ≤ 10000
    → let s = choose_mask base in
      (s.best_mask < 8)
      × (s.best ≡ masked base s.best_mask)
      × ((m : ℕ) → m < 8 → penalty s.best ≤ penalty (masked base m))
unfolding choose_mask Chosen
choose_mask-least base l =
    let start : Choice = record { best_mask = 0; best_pen = 2 ^ 30; best = [] } in
    let (least, was) =
      tried base 8 0 start (λ m. masked-small base m l)
        ((λ m p. absurd (omega arith)), inl (refl, refl)) in
    elim was [
      | inl (h, z) ↦ absurd (omega arith)
      | inr (b, e, q) ↦ (b, e, λ m p. rw e (omega (arith, q, least m p)))
    ]

-- ===== src/Web/ReedSolomon/Division.antt =====
-- The division of rsEncode of src/web/QrEncoder.cpp: the block with its check symbols behind it is
-- a multiple of the generator.
use nexus_firmware.Prelude.{
  ℕ, zero, suc, ◌+◌, ◌-◌, ◌≤◌, ◌≡◌, refl, sym, ap, ◌∙◌, inl, inr, List, [], ◌∷◌, ◌++◌, All, arith,
  length, at, repeat, IsByte, Bool-cases, ◌==◌, ==-true,
}
use nexus_firmware.Prelude.Bits.{xor_comm, xor_assoc, xor-zero, xor-byte, xor_self}
use nexus_firmware.Web.Galois.{mul}
use nexus_firmware.Web.Galois.Linear.{xor_swap}
use nexus_firmware.Web.Galois.Field.{
  mul_comm, mul-IsByte, mul_assoc, xor-mul, mul-xor, one-mul, zero-mul,
}
use nexus_firmware.Web.ReedSolomon.{xor_at, subtract, divide, divide_step}
use nexus_firmware.Web.ReedSolomon.Polynomial.{value, value-IsByte, power, power-IsByte, power_sum}
use Prim.Native.Nat.{bit_xor}

subtract-suc :
    (gs : List ℕ) (c k x : ℕ) (xs : List ℕ)
    → subtract gs c (suc k) (x ∷ xs) ≡ x ∷ subtract gs c k xs
unfolding subtract xor_at
subtract-suc [] c k x xs = refl
subtract-suc (g ∷ gs) c k x xs = subtract-suc gs c (suc k) x (xor_at k (mul g c) xs)

divide-suc :
    (n : ℕ) (gs : List ℕ) (k x : ℕ) (xs : List ℕ)
    → divide n gs (suc k) (x ∷ xs) ≡ x ∷ divide n gs k xs
unfolding divide divide_step
divide-suc zero gs k x xs = refl
divide-suc (suc n) gs k x xs = elim (Bool-cases (at xs k == 0)) [
  | inl e ↦ rw e (divide-suc n gs (suc k) x xs)
  | inr e ↦
      rw (e, subtract-suc gs (at xs k) k x xs)
        (divide-suc n gs (suc k) x (subtract gs (at xs k) k xs))
]

module _ (r g c v w a b : ℕ) (hr : IsByte r) (hg : IsByte g) (hc : IsByte c) (hw : IsByte w)
    (ha : IsByte a) (hb : IsByte b) where
  regroup : mul (mul g c) (mul a b) ≡ mul c (mul (mul g a) b)
  regroup =
      rw
        (
          mul_assoc g c (mul a b) hg hc (mul-IsByte a b),
          mul_assoc g a b hg ha hb,
          sym (mul_assoc g c (mul a b) hg hc (mul-IsByte a b)),
          mul_comm g c,
        )
        (mul_assoc c g (mul a b) hc hg (mul-IsByte a b))

  combine :
      bit_xor (mul (bit_xor r (mul g c)) (mul a b)) (bit_xor v (mul c (mul w b)))
      ≡ bit_xor (bit_xor (mul r (mul a b)) v) (mul c (mul (bit_xor (mul g a) w) b))
  combine =
      rw
        (
          xor-mul r (mul g c) (mul a b) hr (mul-IsByte g c) (mul-IsByte a b),
          xor-mul (mul g a) w b (mul-IsByte g a) hw hb,
          mul-xor (mul (mul g a) b) (mul w b) c (mul-IsByte (mul g a) b) (mul-IsByte w b) hc,
          regroup,
        )
        (xor_swap (mul r (mul a b)) (mul c (mul (mul g a) b)) v (mul c (mul w b)))

-- To take `coef` times a polynomial off the front takes that off the value.
subtract-value :
    (x c : ℕ) (gs rs : List ℕ)
    → IsByte x
    → IsByte c
    → All IsByte gs
    → All IsByte rs
    → length gs ≤ length rs
    → (value x (subtract gs c 0 rs)
        ≡ bit_xor (value x rs) (mul c (mul (value x gs) (power x (length rs - length gs)))))
      × All IsByte (subtract gs c 0 rs)
      × (length (subtract gs c 0 rs) ≡ length rs)
unfolding subtract value xor_at
subtract-value x c [] rs p q hg hr l =
    rw (zero-mul (power x (length rs - 0)), mul_comm c 0, zero-mul c)
      (sym (xor-zero (value x rs)), hr, refl)
subtract-value x c (g ∷ gs) [] p q hg hr l = absurd (omega arith)
subtract-value x c (g ∷ gs) (r ∷ rs) p q hg hr l =
    let ih = subtract-value x c gs rs p q (hg.1) (hr.1) (omega arith) in
    rw (subtract-suc gs c 0 (bit_xor r (mul g c)) rs) (
      rw (ih.2, ih.0, less (length gs) (length rs), split (length gs) (length rs) (omega arith))
          (combine r g c (value x rs) (value x gs) (power x (length gs))
            (power x (length rs - length gs)) (hr.0) (hg.0) q (value-IsByte x gs)
            (power-IsByte x (length gs)) (power-IsByte x (length rs - length gs))),
      (xor-byte r (mul g c) (hr.0) (mul-IsByte g c), ih.1),
      omega (arith, ih.2),
    )
  where
    less : (a b : ℕ) → suc b - suc a ≡ b - a
    less a b = omega arith

    split : (a b : ℕ) → a ≤ b → power x b ≡ mul (power x a) (power x (b - a))
    split a b l = ap (power x) (whole a b l) ∙ power_sum x a (b - a) p
      where
        whole : (a b : ℕ) → a ≤ b → b ≡ a + (b - a)
        whole a b l = omega arith

xor_cancel : (a b : ℕ) → bit_xor a b ≡ 0 → b ≡ a
xor_cancel a b h =
    sym (xor_comm 0 b ∙ xor-zero b)
    ∙ ap (λ t. bit_xor t b) (sym (xor_self a))
    ∙ xor_assoc a a b
    ∙ ap (bit_xor a) h
    ∙ xor-zero a

-- One turn: the first coefficient goes, and the value at a root of the divisor stays.
Reduces : ℕ → List ℕ → List ℕ → Type 0
Reduces c rs ds =
    (rs' : List ℕ) × (divide_step (1 ∷ ds) 0 (c ∷ rs) ≡ 0 ∷ rs')
    × (length rs' ≡ length rs)
    × All IsByte rs'
    × ((x : ℕ) → IsByte x → value x (1 ∷ ds) ≡ 0 → value x (c ∷ rs) ≡ value x rs')

subtracted :
    (x c : ℕ) (rs ds : List ℕ)
    → IsByte x
    → IsByte c
    → All IsByte rs
    → All IsByte ds
    → length ds ≤ length rs
    → value x (1 ∷ ds) ≡ 0
    → value x (c ∷ rs) ≡ value x (subtract ds c 0 rs)
unfolding value
subtracted x c rs ds p q hr hd l root =
    rw
      (
        (subtract-value x c ds rs p q hd hr l).0,
        xor_cancel (mul 1 (power x (length ds))) (value x ds) root,
        one-mul (power x (length ds)) (power-IsByte x (length ds)),
        sym (power_sum x (length ds) (length rs - length ds) p),
        whole (length ds) (length rs) l,
      )
      (xor_comm (mul c (power x (length rs))) (value x rs))
  where
    whole : (a b : ℕ) → a ≤ b → a + (b - a) ≡ b
    whole a b l = omega arith

zero_in_front : (x : ℕ) (rs : List ℕ) → value x (0 ∷ rs) ≡ value x rs
unfolding value
zero_in_front x rs =
    rw (zero-mul (power x (length rs))) (xor_comm 0 (value x rs) ∙ xor-zero (value x rs))

front_goes :
    (c : ℕ) (rs ds : List ℕ) → IsByte c → subtract (1 ∷ ds) c 0 (c ∷ rs) ≡ 0 ∷ subtract ds c 0 rs
unfolding subtract xor_at
front_goes c rs ds q =
    subtract-suc ds c 0 (bit_xor c (mul 1 c)) rs ∙ rw (one-mul c q, xor_self c) refl

divide_step-Reduces :
    (c : ℕ) (rs ds : List ℕ)
    → IsByte c
    → All IsByte rs
    → All IsByte ds
    → length ds ≤ length rs
    → Reduces c rs ds
unfolding divide_step Reduces
divide_step-Reduces c rs ds q hr hd l = elim (Bool-cases (c == 0)) [
  | inl e ↦
      (rs, rw (==-true c 0 e) refl, refl, hr, λ x p root. rw (==-true c 0 e) (zero_in_front x rs))
  | inr e ↦ (
    subtract ds c 0 rs,
    rw e (front_goes c rs ds q),
    (subtract-value 0 c ds rs (omega arith) q hd hr l).2,
    (subtract-value 0 c ds rs (omega arith) q hd hr l).1,
    λ x p root. subtracted x c rs ds p q hr hd l root,
  )
]

-- All turns: zeros come in front, and the value at a root of the divisor stays.
unfoldable pub Divides : ℕ → List ℕ → List ℕ → Type 0
Divides n res ds =
    (tail : List ℕ) × (divide n (1 ∷ ds) 0 res ≡ repeat n 0 ++ tail)
    × (length tail ≡ length ds)
    × All IsByte tail
    × ((x : ℕ) → IsByte x → value x (1 ∷ ds) ≡ 0 → value x res ≡ value x tail)

pub divide-Divides :
    (n : ℕ) (res ds : List ℕ)
    → All IsByte res
    → All IsByte ds
    → length res ≡ n + length ds
    → Divides n res ds
unfolding divide Divides Reduces
divide-Divides zero res ds h hd l = (res, refl, omega arith, h, λ x p root. refl)
divide-Divides (suc n) [] ds h hd l = absurd (omega arith)
divide-Divides (suc n) (c ∷ rs) ds h hd l =
    let (rs', e, l', h', keep) = divide_step-Reduces c rs ds (h.0) (h.1) hd (omega arith) in
    let (tail, e2, l2, h2, keep2) = divide-Divides n rs' ds h' hd (omega arith) in
    (
      tail,
      ap (divide n (1 ∷ ds) 1) e ∙ divide-suc n (1 ∷ ds) 0 0 rs' ∙ ap (λ (t : List ℕ). 0 ∷ t) e2,
      l2,
      h2,
      λ x p root. keep x p root ∙ keep2 x p root,
    )

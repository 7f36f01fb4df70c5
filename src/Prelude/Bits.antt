-- ===== src/Prelude/Bits.antt =====
-- Exclusive or on native numbers, with its laws at variables: the operator `^` of the source on
-- values that are not negative.
use Prim.Native.Nat.{
  ℕ, zero, suc, ◌+◌, ◌*◌, ◌/◌, ◌%◌, ◌^◌, ◌≤◌, ◌<◌, bit_xor, digits, bit_xor-bitwise, differ,
}
use native.Mathlib.Nat.{le_refl, pow-suc}
use mathlib.Core.Path.{◌≡◌, refl, ap, ◌∙◌}
use native.Mathlib.Omega.{arith}

-- The digits do not depend on the fuel, where there is enough.
xor_fuel :
    (n m a b : ℕ) → a ≤ n → a ≤ m → digits (λ y. y) differ n a b ≡ digits (λ y. y) differ m a b
xor_fuel zero zero a b p q = refl
xor_fuel zero (suc m) zero b p q = refl
xor_fuel zero (suc m) (suc a) b p q = absurd (omega arith)
xor_fuel (suc n) zero zero b p q = refl
xor_fuel (suc n) zero (suc a) b p q = absurd (omega arith)
xor_fuel (suc n) (suc m) zero b p q = refl
xor_fuel (suc n) (suc m) (suc a) b p q =
    rw (xor_fuel n m (suc a / 2) (b / 2) (omega arith) (omega arith))

differ_sum : (x y : ℕ) → x < 2 → y < 2 → differ x y ≡ (x + y) % 2
differ_sum zero zero p q = refl
differ_sum zero (suc zero) p q = refl
differ_sum (suc zero) zero p q = refl
differ_sum (suc zero) (suc zero) p q = refl
differ_sum (suc (suc x)) y p q = absurd (omega arith)
differ_sum zero (suc (suc y)) p q = absurd (omega arith)
differ_sum (suc zero) (suc (suc y)) p q = absurd (omega arith)

zero-xor : (b : ℕ) → bit_xor 0 b ≡ b
zero-xor b = bit_xor-bitwise 0 b

-- One equation for the lowest digit.
pub xor_step : (a b : ℕ) → bit_xor a b ≡ bit_xor (a / 2) (b / 2) * 2 + (a % 2 + b % 2) % 2
xor_step zero b = omega (arith, zero-xor b, zero-xor (b / 2))
xor_step (suc a) b = omega (
  arith,
  bit_xor-bitwise (suc a) b,
  bit_xor-bitwise (suc a / 2) (b / 2),
  xor_fuel a (suc a / 2) (suc a / 2) (b / 2) (omega arith) (le_refl _),
  differ_sum (suc a % 2) (b % 2) (omega arith) (omega arith),
)

pub halves :
    (a b : ℕ)
    → (bit_xor a b / 2 ≡ bit_xor (a / 2) (b / 2)) × (bit_xor a b % 2 ≡ (a % 2 + b % 2) % 2)
halves a b = (omega (arith, xor_step a b), omega (arith, xor_step a b))

xor_comm_fuel : (n a b : ℕ) → a ≤ n → b ≤ n → bit_xor a b ≡ bit_xor b a
xor_comm_fuel zero zero zero p q = refl
xor_comm_fuel zero (suc a) b p q = absurd (omega arith)
xor_comm_fuel zero zero (suc b) p q = absurd (omega arith)
xor_comm_fuel (suc n) a b p q =
    omega (
      arith,
      xor_step a b,
      xor_step b a,
      xor_comm_fuel n (a / 2) (b / 2) (omega arith) (omega arith),
    )

pub xor_comm : (a b : ℕ) → bit_xor a b ≡ bit_xor b a
xor_comm a b = xor_comm_fuel (a + b) a b (omega arith) (omega arith)

xor_assoc_fuel :
    (n a b c : ℕ) → a ≤ n → b ≤ n → c ≤ n → bit_xor (bit_xor a b) c ≡ bit_xor a (bit_xor b c)
xor_assoc_fuel zero zero zero zero p q r = refl
xor_assoc_fuel zero (suc a) b c p q r = absurd (omega arith)
xor_assoc_fuel zero zero (suc b) c p q r = absurd (omega arith)
xor_assoc_fuel zero zero zero (suc c) p q r = absurd (omega arith)
xor_assoc_fuel (suc n) a b c p q r =
    let ih = xor_assoc_fuel n (a / 2) (b / 2) (c / 2) (omega arith) (omega arith) (omega arith) in
    let left = xor_step (bit_xor a b) c in
    let right = xor_step a (bit_xor b c) in
    let ab = halves a b in
    let bc = halves b c in
    let up = ap (λ (t : ℕ). bit_xor t (c / 2)) ab.0 in
    let down = ap (bit_xor (a / 2)) bc.0 in omega (arith, left, right, ab.1, bc.1, up, down, ih)

pub xor_assoc : (a b c : ℕ) → bit_xor (bit_xor a b) c ≡ bit_xor a (bit_xor b c)
xor_assoc a b c = xor_assoc_fuel (a + b + c) a b c (omega arith) (omega arith) (omega arith)

xor_self_fuel : (n a : ℕ) → a ≤ n → bit_xor a a ≡ 0
xor_self_fuel zero zero p = refl
xor_self_fuel zero (suc a) p = absurd (omega arith)
xor_self_fuel (suc n) a p = omega (arith, xor_step a a, xor_self_fuel n (a / 2) (omega arith))

pub xor_self : (a : ℕ) → bit_xor a a ≡ 0
xor_self a = xor_self_fuel a a (le_refl a)

pub xor-zero : (a : ℕ) → bit_xor a 0 ≡ a
xor-zero a = xor_comm a 0 ∙ zero-xor a

-- The result fits the width of the operands.
pub xor-fits : (k a b : ℕ) → a < 2 ^ k → b < 2 ^ k → bit_xor a b < 2 ^ k
xor-fits zero zero zero p q = p
xor-fits zero (suc a) b p q = absurd (omega arith)
xor-fits zero zero (suc b) p q = absurd (omega arith)
xor-fits (suc k) a b p q = omega (
  arith,
  pow-suc 2 k,
  xor_step a b,
  xor-fits k (a / 2) (b / 2) (omega (arith, pow-suc 2 k)) (omega (arith, pow-suc 2 k)),
)

pub xor-byte : (a b : ℕ) → a < 256 → b < 256 → bit_xor a b < 256
xor-byte a b p q = xor-fits 8 a b p q

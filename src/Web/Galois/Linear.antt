-- ===== src/Web/Galois/Linear.antt =====
-- Multiplication of polynomials over one bit, modulo 0x11D: what the tables of
-- src/web/QrEncoder.cpp stand for. It respects exclusive or.
use nexus_firmware.Prelude.{
  ℕ, zero, suc, ◌+◌, ◌*◌, ◌/◌, ◌%◌, ◌≡◌, refl, sym, inl, inr, ◌==◌, arith, Bool-cases,
  if◌then◌else◌,
}
use nexus_firmware.Prelude.Bits.{xor_step, xor_comm, xor_assoc, xor_self, xor-zero, halves}
use nexus_firmware.Web.Galois.{double}
use Prim.Native.Nat.{bit_xor}

-- Shift and add, over the `k` lowest bits of `b`.
unfoldable pub product : ℕ → ℕ → ℕ → ℕ
product zero a b = 0
product (suc k) a b = bit_xor (if b % 2 == 1 then a else 0) (product k (double a) (b / 2))

-- The middle two of four change places.
pub xor_swap :
    (a b c d : ℕ) → bit_xor (bit_xor a b) (bit_xor c d) ≡ bit_xor (bit_xor a c) (bit_xor b d)
xor_swap a b c d =
    rw
      (
        xor_assoc a b (bit_xor c d),
        sym (xor_assoc b c d),
        xor_comm b c,
        xor_assoc c b d,
        sym (xor_assoc a c (bit_xor b d)),
      )
      refl

shifted : ℕ → ℕ → ℕ
shifted zero a = a
shifted (suc k) a = shifted k (a / 2)

shifted-xor : (k a b : ℕ) → shifted k (bit_xor a b) ≡ bit_xor (shifted k a) (shifted k b)
unfolding shifted
shifted-xor zero a b = refl
shifted-xor (suc k) a b = rw ((halves a b).0) (shifted-xor k (a / 2) (b / 2))

shifted_seven : (a : ℕ) → (a * 2 / 256) % 2 ≡ shifted 7 a % 2
unfolding shifted
shifted_seven a = omega arith

top_bit : (a b : ℕ) → (bit_xor a b * 2 / 256) % 2 ≡ ((a * 2 / 256) % 2 + (b * 2 / 256) % 2) % 2
top_bit a b =
    rw (shifted_seven (bit_xor a b), shifted_seven a, shifted_seven b, shifted-xor 7 a b)
      ((halves (shifted 7 a) (shifted 7 b)).1)

shift : (a b : ℕ) → bit_xor a b * 2 ≡ bit_xor (a * 2) (b * 2)
shift a b = omega (arith, xor_step (a * 2) (b * 2), doubled a b)
  where
    doubled : (a b : ℕ) → bit_xor (a * 2 / 2) (b * 2 / 2) ≡ bit_xor a b
    doubled a b = rw (halved a, halved b) refl
      where
        halved : (a : ℕ) → a * 2 / 2 ≡ a
        halved a = omega arith

pub double-xor : (a b : ℕ) → double (bit_xor a b) ≡ bit_xor (double a) (double b)
unfolding double
double-xor a b = ground (
  arith,
  top_bit a b,
  shift a b,
  xor_swap (a * 2) 0x11d (b * 2) 0x11d,
  xor_self 0x11d,
  xor-zero (bit_xor (a * 2) (b * 2)),
  xor_assoc (a * 2) (b * 2) 0x11d,
  xor_assoc (a * 2) 0x11d (b * 2),
  xor_comm 0x11d (b * 2),
)

pub product-xor :
    (k a b c : ℕ) → product k (bit_xor a b) c ≡ bit_xor (product k a c) (product k b c)
unfolding product
product-xor zero a b c = refl
product-xor (suc k) a b c = elim (Bool-cases (c % 2 == 1)) [
  | inl e ↦
      rw (e, double-xor a b, product-xor k (double a) (double b) (c / 2))
        (xor_swap a b (product k (double a) (c / 2)) (product k (double b) (c / 2)))
  | inr e ↦
      rw (e, double-xor a b, product-xor k (double a) (double b) (c / 2))
        (xor_swap 0 0 (product k (double a) (c / 2)) (product k (double b) (c / 2)))
]

double_zero : 0 ≡ double 0
unfolding double
double_zero = refl

pub product-double : (k a b : ℕ) → product k (double a) b ≡ double (product k a b)
unfolding product
product-double zero a b = double_zero
product-double (suc k) a b = elim (Bool-cases (b % 2 == 1)) [
  | inl e ↦
      rw (e, product-double k (double a) (b / 2), double-xor a (product k (double a) (b / 2))) refl
  | inr e ↦
      rw
        (
          e,
          product-double k (double a) (b / 2),
          double-xor 0 (product k (double a) (b / 2)),
          sym double_zero,
        )
        refl
]

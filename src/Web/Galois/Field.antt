-- ===== src/Web/Galois/Field.antt =====
-- The laws of `mul` of src/web/QrEncoder.cpp on bytes.
use nexus_firmware.Prelude.{
  ℕ, zero, suc, ◌+◌, ◌%◌, ◌<◌, ◌≡◌, refl, sym, ap, ◌∙◌, ◌⊎◌, inl, inr, arith, at, IsByte,
}
use nexus_firmware.Prelude.Bits.{xor-byte}
use nexus_firmware.Web.Galois.{gf, mul, double}
use nexus_firmware.Web.Galois.Linear.{product, product-xor, product-double}
use nexus_firmware.Web.Galois.Tables.{
  exp_step, log_exp, exp_log, product-one, product-zero, exp_zero, exp-IsByte, exp_nonzero,
}
use Prim.Native.Nat.{bit_xor}

exp_sum :
    (i j : ℕ)
    → i < 255
    → j < 255
    → product 8 (at gf.exp i) (at gf.exp j) ≡ at gf.exp ((i + j) % 255)
exp_sum zero j p q =
    rw (exp_zero, product-one (at gf.exp j) (exp-IsByte j)) (ap (at gf.exp) (omega arith))
exp_sum (suc i) j p q =
    ap (λ t. product 8 t (at gf.exp j)) (ap (at gf.exp) (omega arith) ∙ exp_step i (omega arith))
    ∙ product-double 8 (at gf.exp i) (at gf.exp j)
    ∙ ap double (exp_sum i j (omega arith) q)
    ∙ sym (exp_step ((i + j) % 255) (omega arith))
    ∙ ap (at gf.exp) (omega arith)

zero_or : (a : ℕ) → (a ≡ 0) ⊎ (0 < a)
zero_or zero = inl refl
zero_or (suc a) = inr (omega arith)

pub zero-mul : (a : ℕ) → mul 0 a ≡ 0
unfolding mul
zero-mul a = refl

mul_logs : (a b : ℕ) → 0 < a → 0 < b → mul a b ≡ at gf.exp ((at gf.log a + at gf.log b) % 255)
unfolding mul
mul_logs a b p q = ground arith

pub mul_comm : (a b : ℕ) → mul a b ≡ mul b a
unfolding mul
mul_comm a b = ground arith

pub mul-IsByte : (a b : ℕ) → IsByte (mul a b)
unfolding mul
mul-IsByte a b = ground (arith, exp-IsByte ((at gf.log a + at gf.log b) % 255))

product-right : (k a : ℕ) → product k a 0 ≡ 0
unfolding product
product-right zero a = refl
product-right (suc k) a = rw (product-right k (double a)) refl

-- On bytes, the product by the tables is the product of the polynomials over one bit modulo 0x11D.
pub mul_lem : (a b : ℕ) → IsByte a → IsByte b → mul a b ≡ product 8 a b
mul_lem a b p q = elim (zero_or a) [
  | inl e ↦ rw (e, product-zero b q) (zero-mul b)
  | inr u ↦ elim (zero_or b) [
    | inl e ↦ rw (e, mul_comm a 0, zero-mul a) (sym (product-right 8 a))
    | inr v ↦
        mul_logs a b u v
        ∙ sym (exp_sum (at gf.log a) (at gf.log b) ((exp_log a u p).1) ((exp_log b v q).1))
        ∙ ap (λ t. product 8 t (at gf.exp (at gf.log b))) ((exp_log a u p).0)
        ∙ ap (product 8 a) ((exp_log b v q).0)
  ]
]

pub xor-mul :
    (a b c : ℕ) → IsByte a → IsByte b → IsByte c → mul (bit_xor a b) c ≡ bit_xor (mul a c) (mul b c)
xor-mul a b c p q r =
    rw (mul_lem (bit_xor a b) c (xor-byte a b p q) r, mul_lem a c p r, mul_lem b c q r)
      (product-xor 8 a b c)

pub mul-xor :
    (a b c : ℕ) → IsByte a → IsByte b → IsByte c → mul c (bit_xor a b) ≡ bit_xor (mul c a) (mul c b)
mul-xor a b c p q r =
    rw (mul_comm c (bit_xor a b), mul_comm c a, mul_comm c b) (xor-mul a b c p q r)

pub one-mul : (a : ℕ) → IsByte a → mul 1 a ≡ a
one-mul a p = mul_lem 1 a (omega arith) p ∙ product-one a p

log_mul :
    (a b : ℕ)
    → 0 < a
    → 0 < b
    → IsByte a
    → IsByte b
    → (0 < mul a b) × (at gf.log (mul a b) ≡ (at gf.log a + at gf.log b) % 255)
log_mul a b u v p q = rw (mul_logs a b u v) (
  exp_nonzero ((at gf.log a + at gf.log b) % 255) (omega arith),
  log_exp ((at gf.log a + at gf.log b) % 255) (omega arith),
)

pub mul_assoc : (a b c : ℕ) → IsByte a → IsByte b → IsByte c → mul (mul a b) c ≡ mul a (mul b c)
mul_assoc a b c p q r = elim (zero_or a) [
  | inl e ↦ rw (e, zero-mul b, zero-mul c, zero-mul (mul b c)) refl
  | inr u ↦ elim (zero_or b) [
    | inl e ↦ rw (e, mul_comm a 0, zero-mul a, zero-mul c, mul_comm a 0, zero-mul a) refl
    | inr v ↦ elim (zero_or c) [
      | inl e ↦
          rw
            (
              e,
              mul_comm (mul a b) 0,
              zero-mul (mul a b),
              mul_comm b 0,
              zero-mul b,
              mul_comm a 0,
              zero-mul a,
            )
            refl
      | inr w ↦
          let ab = log_mul a b u v p q in
          let bc = log_mul b c v w q r in
          mul_logs (mul a b) c ab.0 w
          ∙ ap (at gf.exp) (omega (arith, ab.1, bc.1))
          ∙ sym (mul_logs a (mul b c) u bc.0)
    ]
  ]
]

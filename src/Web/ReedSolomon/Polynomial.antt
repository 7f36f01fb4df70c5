-- ===== src/Web/ReedSolomon/Polynomial.antt =====
-- Polynomials over the bytes, and their values: what rsEncode of src/web/QrEncoder.cpp computes on.
use nexus_firmware.Prelude.{
  ℕ, zero, suc, ◌+◌, ◌≡◌, refl, sym, ap, ◌∙◌, List, [], ◌∷◌, ◌++◌, All, arith, length,
  length-append, All-append, reverse, reverse-cons, repeat, IsByte,
}
use nexus_firmware.Prelude.Bits.{xor_comm, xor_assoc, xor-zero, xor-byte}
use nexus_firmware.Web.Galois.{mul}
use nexus_firmware.Web.Galois.Field.{mul_comm, mul-IsByte, mul_assoc, xor-mul, one-mul, zero-mul}
use Prim.Native.Nat.{bit_xor}

unfoldable pub power : ℕ → ℕ → ℕ
power x zero = 1
power x (suc n) = mul x (power x n)

-- The value at x of the polynomial whose coefficients stand highest first.
unfoldable pub value : ℕ → List ℕ → ℕ
value x [] = 0
value x (c ∷ cs) = bit_xor (mul c (power x (length cs))) (value x cs)

-- The value at x of the polynomial whose coefficients stand lowest first.
unfoldable pub value_low : ℕ → List ℕ → ℕ
value_low x [] = 0
value_low x (c ∷ cs) = bit_xor c (mul x (value_low x cs))

pub power-IsByte : (x n : ℕ) → IsByte (power x n)
unfolding power
power-IsByte x zero = omega arith
power-IsByte x (suc n) = mul-IsByte x (power x n)

pub value-IsByte : (x : ℕ) (cs : List ℕ) → IsByte (value x cs)
unfolding value
value-IsByte x [] = omega arith
value-IsByte x (c ∷ cs) = xor-byte _ _ (mul-IsByte c (power x (length cs))) (value-IsByte x cs)

pub value_low-IsByte : (x : ℕ) (cs : List ℕ) → All IsByte cs → IsByte (value_low x cs)
unfolding value_low
value_low-IsByte x [] h = omega arith
value_low-IsByte x (c ∷ cs) h = xor-byte _ _ (h.0) (mul-IsByte x (value_low x cs))

zero_plus : (n : ℕ) → 0 + n ≡ n
zero_plus n = omega arith

suc_plus : (m n : ℕ) → suc m + n ≡ suc (m + n)
suc_plus m n = omega arith

pub power_sum : (x m n : ℕ) → IsByte x → power x (m + n) ≡ mul (power x m) (power x n)
unfolding power
power_sum x zero n p = rw (zero_plus n) (sym (one-mul (power x n) (power-IsByte x n)))
power_sum x (suc m) n p = rw (suc_plus m n) (
    ap (mul x) (power_sum x m n p)
    ∙ sym (mul_assoc x (power x m) (power x n) p (power-IsByte x m) (power-IsByte x n)))

pub value-append :
    (x : ℕ) (cs ds : List ℕ)
    → IsByte x
    → All IsByte cs
    → value x (cs ++ ds) ≡ bit_xor (mul (value x cs) (power x (length ds))) (value x ds)
unfolding value
value-append x [] ds p h =
    rw (zero-mul (power x (length ds)), xor_comm 0 (value x ds), xor-zero (value x ds)) refl
value-append x (c ∷ cs) ds p h =
    rw
      (
        length-append cs ds,
        power_sum x (length cs) (length ds) p,
        value-append x cs ds p (h.1),
        xor-mul (mul c (power x (length cs))) (value x cs) (power x (length ds))
            (mul-IsByte c (power x (length cs))) (value-IsByte x cs) (power-IsByte x (length ds)),
        mul_assoc c (power x (length cs)) (power x (length ds)) (h.0) (power-IsByte x (length cs))
            (power-IsByte x (length ds)),
        xor_assoc (mul c (mul (power x (length cs)) (power x (length ds))))
            (mul (value x cs) (power x (length ds))) (value x ds),
      )
      refl

pub value-zeros : (x n : ℕ) → value x (repeat n 0) ≡ 0
unfolding value
value-zeros x zero = refl
value-zeros x (suc n) = rw (zero-mul (power x (length {A = ℕ} (repeat n 0))), value-zeros x n) refl

pub All-reverse : (cs : List ℕ) → All IsByte cs → All IsByte (reverse cs)
All-reverse [] h = h
All-reverse (c ∷ cs) h =
    rw (reverse-cons c cs)
      (All-append IsByte (reverse cs) (c ∷ []) (All-reverse cs (h.1)) (h.0, tt))

pub value-reverse :
    (x : ℕ) (cs : List ℕ) → IsByte x → All IsByte cs → value x (reverse cs) ≡ value_low x cs
unfolding value value_low power
value-reverse x [] p h = refl
value-reverse x (c ∷ cs) p h =
    rw
      (
        reverse-cons c cs,
        value-append x (reverse cs) (c ∷ []) p (All-reverse cs (h.1)),
        value-reverse x cs p (h.1),
        mul_comm x 1,
        one-mul x p,
        mul_comm c 1,
        one-mul c (h.0),
        xor-zero c,
        mul_comm (value_low x cs) x,
      )
      (xor_comm (mul x (value_low x cs)) c)

pub length-reverse : (cs : List ℕ) → length (reverse cs) ≡ length cs
length-reverse [] = refl
length-reverse (c ∷ cs) =
    rw (reverse-cons c cs) (omega (arith, length-append (reverse cs) (c ∷ []), length-reverse cs))

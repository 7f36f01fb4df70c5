-- ===== src/Web/Galois/Tables.antt =====
-- The tables of src/web/QrEncoder.cpp, as the constructor's loop leaves them.
use nexus_firmware.Prelude.{
  ℕ, zero, suc, List, [], ◌∷◌, ◌%◌, ◌<◌, ◌≡◌, refl, Bool, true, ◌&&◌, ◌||◌, ◌==◌, ltb, arith, at,
  all_below, all_below_lem, IsByte,
}
use nexus_firmware.Web.Galois.{Gf, gf, fill, wrap, double}
use nexus_firmware.Web.Galois.Linear.{product}

abbrev steps : Gf → ℕ → Bool
steps t i =
    ltb 0 (at t.exp i)
    && at t.log (at t.exp i) == i
    && at t.exp (suc i % 255) == double (at t.exp i)

abbrev covers : Gf → ℕ → Bool
covers t a = a == 0 || (at t.exp (at t.log a) == a && ltb (at t.log a) 255)

abbrev unit : ℕ → Bool
unit b = product 8 1 b == b && product 8 0 b == 0

powers : all_below 255 (steps gf) ≡ true
unfolding gf fill double wrap
powers = refl

logarithms : all_below 256 (covers gf) ≡ true
unfolding gf fill double wrap
logarithms = refl

units : all_below 256 unit ≡ true
unfolding product double
units = refl

pub exp_step : (i : ℕ) → i < 255 → at gf.exp (suc i % 255) ≡ double (at gf.exp i)
exp_step i p = ground (arith, all_below_lem 255 (steps gf) i powers p)

pub log_exp : (i : ℕ) → i < 255 → at gf.log (at gf.exp i) ≡ i
log_exp i p = ground (arith, all_below_lem 255 (steps gf) i powers p)

pub exp_log : (a : ℕ) → 0 < a → IsByte a → (at gf.exp (at gf.log a) ≡ a) × (at gf.log a < 255)
exp_log a p q = ground (arith, all_below_lem 256 (covers gf) a logarithms q)

pub product-one : (b : ℕ) → IsByte b → product 8 1 b ≡ b
product-one b q = ground (arith, all_below_lem 256 unit b units q)

pub product-zero : (b : ℕ) → IsByte b → product 8 0 b ≡ 0
product-zero b q = ground (arith, all_below_lem 256 unit b units q)

pub exp_zero : at gf.exp 0 ≡ 1
unfolding gf fill double wrap
exp_zero = refl

bytes : List ℕ → Bool
bytes [] = true
bytes (x ∷ xs) = ltb x 256 && bytes xs

bytes_lem : (xs : List ℕ) (i : ℕ) → bytes xs ≡ true → IsByte (at xs i)
unfolding bytes
bytes_lem [] i h = omega arith
bytes_lem (x ∷ xs) zero h = ground arith
bytes_lem (x ∷ xs) (suc i) h = bytes_lem xs i (ground arith)

exp_bytes : bytes gf.exp ≡ true
unfolding gf fill double wrap bytes
exp_bytes = refl

pub exp-IsByte : (i : ℕ) → IsByte (at gf.exp i)
exp-IsByte i = bytes_lem gf.exp i exp_bytes

pub exp_nonzero : (i : ℕ) → i < 255 → 0 < at gf.exp i
exp_nonzero i p = ground (arith, all_below_lem 255 (steps gf) i powers p)

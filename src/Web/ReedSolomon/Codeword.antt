-- ===== src/Web/ReedSolomon/Codeword.antt =====
-- A block of src/web/QrEncoder.cpp with the check symbols of rsEncode behind it is a codeword of the
-- Reed-Solomon code.
use nexus_firmware.Prelude.{
  ℕ, zero, suc, ◌-◌, ◌<◌, ◌≡◌, refl, ap, ◌∙◌, List, ◌++◌, All, All-append, arith, length,
  length-append, drop, at, reverse, repeat, IsByte, length-repeat,
}
use nexus_firmware.Prelude.Bits.{xor-zero, xor_self}
use nexus_firmware.Web.Galois.{gf, mul}
use nexus_firmware.Web.Galois.Tables.{exp-IsByte}
use nexus_firmware.Web.ReedSolomon.{remainder, rs_encode, generator}
use nexus_firmware.Web.ReedSolomon.Polynomial.{value, power, value-append, value-zeros}
use nexus_firmware.Web.ReedSolomon.Generator.{IsDivisor, generator-IsDivisor}
use Prim.Native.Nat.{bit_xor}
use nexus_firmware.Web.ReedSolomon.Division.{Divides, divide-Divides}

drop_zeros : (n : ℕ) (tail : List ℕ) → drop n (repeat n 0 ++ tail) ≡ tail
drop_zeros zero tail = refl
drop_zeros (suc n) tail = drop_zeros n tail

repeat-IsByte : (n : ℕ) → All IsByte (repeat n 0)
repeat-IsByte zero = tt
repeat-IsByte (suc n) = (omega arith, repeat-IsByte n)

remainder_lem :
    (block : List ℕ) (ec_len : ℕ) (gen : List ℕ)
    → All IsByte block
    → IsDivisor ec_len gen
    → (length (remainder block ec_len gen) ≡ ec_len)
      × All IsByte (remainder block ec_len gen)
      × ((k : ℕ) → k < ec_len → value (at gf.exp k) (block ++ remainder block ec_len gen) ≡ 0)
unfolding remainder IsDivisor Divides
remainder_lem block ec_len gen h (ds, e, l, hd, roots) =
    let (tail, e2, l2, h2, keep) =
      divide-Divides (length block) (block ++ repeat ec_len 0) ds
        (All-append IsByte block (repeat ec_len 0) h (repeat-IsByte ec_len)) hd
        (omega (arith, length-append block (repeat ec_len 0), length-repeat {A = ℕ} ec_len 0)) in
    rw (e, e2, front (length block) tail ec_len (l2 ∙ l), drop_zeros (length block) tail)
      (
        l2 ∙ l,
        h2,
        λ k p.
            value-append (at gf.exp k) block tail (exp-IsByte k) h
            ∙ ap (λ t. bit_xor t (value (at gf.exp k) tail))
                (shifted_value (at gf.exp k) (exp-IsByte k) tail (l2 ∙ l)
                  ∙ keep (at gf.exp k) (exp-IsByte k) (roots k p))
            ∙ xor_self (value (at gf.exp k) tail),
      )
  where
    front : (n : ℕ) (tail : List ℕ) (m : ℕ) → length tail ≡ m → length (repeat n 0 ++ tail) - m ≡ n
    front n tail m l = omega (arith, length-append (repeat n 0) tail, length-repeat {A = ℕ} n 0)

    shifted_value :
        (x : ℕ)
        → IsByte x
        → (tail : List ℕ) → length tail ≡ ec_len
        → mul (value x block) (power x (length tail)) ≡ value x (block ++ repeat ec_len 0)
    shifted_value x p tail l =
        rw
          (
            value-append x block (repeat ec_len 0) p h,
            value-zeros x ec_len,
            length-repeat {A = ℕ} ec_len 0,
            l,
            xor-zero (mul (value x block) (power x ec_len)),
          )
          refl

-- The block with its check symbols behind it is 0 at the first `ec_len` powers of the field's
-- generator: the block is a codeword of the Reed-Solomon code with `ec_len` check symbols.
pub rs_encode-roots :
    (block : List ℕ) (ec_len k : ℕ)
    → All IsByte block
    → k < ec_len
    → value (at gf.exp k) (block ++ rs_encode block ec_len) ≡ 0
unfolding rs_encode
rs_encode-roots block ec_len k h p =
    (remainder_lem block ec_len (reverse (generator ec_len)) h (generator-IsDivisor ec_len)).2 k p

pub length-rs_encode :
    (block : List ℕ) (ec_len : ℕ) → All IsByte block → length (rs_encode block ec_len) ≡ ec_len
unfolding rs_encode
length-rs_encode block ec_len h =
    (remainder_lem block ec_len (reverse (generator ec_len)) h (generator-IsDivisor ec_len)).0

pub rs_encode-IsByte :
    (block : List ℕ) (ec_len : ℕ) → All IsByte block → All IsByte (rs_encode block ec_len)
unfolding rs_encode
rs_encode-IsByte block ec_len h =
    (remainder_lem block ec_len (reverse (generator ec_len)) h (generator-IsDivisor ec_len)).1

-- ===== src/Web/ReedSolomon.antt =====
-- rsEncode of src/web/QrEncoder.cpp: the check symbols of a block.
pub mod Polynomial
pub mod Generator
pub mod Division
pub mod Codeword
use nexus_firmware.Prelude.{
  ℕ, zero, suc, ◌+◌, ◌-◌, List, [], ◌∷◌, ◌++◌, ◌==◌, if◌then◌else◌, at, repeat, reverse, length,
  drop,
}
use nexus_firmware.Web.Galois.{gf, mul}
use Prim.Native.Nat.{bit_xor}

-- v[k] ^= a.
unfoldable pub xor_at : ℕ → ℕ → List ℕ → List ℕ
xor_at k a [] = []
xor_at zero a (x ∷ xs) = bit_xor x a ∷ xs
xor_at (suc k) a (x ∷ xs) = x ∷ xor_at k a xs

-- The inner loop for the generator, from j on: next is gen * x + gen * factor.
unfoldable pub grow : ℕ → List ℕ → ℕ → List ℕ → List ℕ
grow factor [] j next = next
grow factor (g ∷ gs) j next =
    grow factor gs (suc j) (xor_at j (mul g factor) (xor_at (suc j) g next))

-- `n` turns of the loop for the generator, from i.
unfoldable pub generator_from : ℕ → ℕ → List ℕ → List ℕ
generator_from zero i gen = gen
generator_from (suc n) i gen =
    generator_from n (suc i) (grow (at gf.exp i) gen 0 (repeat (length gen + 1) 0))

unfoldable pub generator : ℕ → List ℕ
generator ec_len = generator_from ec_len 0 (1 ∷ [])

-- The inner loop of the division, from position k = i + j on.
unfoldable pub subtract : List ℕ → ℕ → ℕ → List ℕ → List ℕ
subtract [] coef k res = res
subtract (g ∷ gs) coef k res = subtract gs coef (suc k) (xor_at k (mul g coef) res)

unfoldable pub divide_step : List ℕ → ℕ → List ℕ → List ℕ
divide_step gen i res = if at res i == 0 then res else subtract gen (at res i) i res

-- `n` turns of the division's loop, from i.
unfoldable pub divide : ℕ → List ℕ → ℕ → List ℕ → List ℕ
divide zero gen i res = res
divide (suc n) gen i res = divide n gen (suc i) (divide_step gen i res)

unfoldable pub remainder : List ℕ → ℕ → List ℕ → List ℕ
remainder block ec_len gen =
    let res = divide (length block) gen 0 (block ++ repeat ec_len 0) in
    drop (length res - ec_len) res

unfoldable pub rs_encode : List ℕ → ℕ → List ℕ
rs_encode block ec_len = remainder block ec_len (reverse (generator ec_len))

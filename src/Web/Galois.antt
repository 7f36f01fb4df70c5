-- ===== src/Web/Galois.antt =====
-- The arithmetic on bytes of src/web/QrEncoder.cpp: the tables of powers and of logarithms of the
-- field of 256 elements, and the product by them.
pub mod Linear
pub mod Tables
pub mod Field
use nexus_firmware.Prelude.{
  ℕ, zero, suc, ◌+◌, ◌*◌, ◌-◌, ◌/◌, ◌%◌, Bool, ◌||◌, ◌==◌, if◌then◌else◌, List, at, put, repeat,
}
use Prim.Native.Nat.{bit_xor}

pub record Gf : Type 0 where
  pub exp : List ℕ
  pub log : List ℕ

-- x <<= 1; if (x & 0x100) x ^= 0x11D.
unfoldable pub double : ℕ → ℕ
double x = if (x * 2 / 256) % 2 == 1 then bit_xor (x * 2) 0x11d else (x * 2)

-- `n` turns of the constructor's loop, from i.
unfoldable pub fill : ℕ → ℕ → ℕ → Gf → Gf
fill zero i x t = t
fill (suc n) i x t = fill n (suc i) (double x) (record { exp = put i x t.exp; log = put x i t.log })

-- The second loop of the constructor, which runs once, at i = 255.
unfoldable pub wrap : Gf → Gf
wrap t = record { exp = put 255 (at t.exp 0) t.exp; log = t.log }

unfoldable pub gf : Gf
gf = wrap (fill 255 0 1 (record { exp = repeat 256 0; log = repeat 256 0 }))

unfoldable pub mul : ℕ → ℕ → ℕ
mul a b = if a == 0 || b == 0 then 0 else at gf.exp ((at gf.log a + at gf.log b) % 255)

-- ===== src/Audio/Wire/Words.antt =====
-- Big-endian words and little-endian samples: the readers undo the writers.
use nexus_firmware.Prelude.{
  ℕ, zero, suc, ◌*◌, ◌<◌, ◌≡◌, refl, ap, List, [], ◌∷◌, ◌++◌, arith, length, drop, All, IsU32,
  IsU64,
}
use nexus_firmware.Audio.Wire.{
  read_be32, read_be64, write_be32, write_be64, read_loop, write_loop, read_samples, write_samples,
}

pub read-write_be32 : (v : ℕ) (rest : List ℕ) → IsU32 v → read_be32 (write_be32 v ++ rest) ≡ v
unfolding read_be32 write_be32
read-write_be32 v rest h = omega arith

pub read-write_be64 : (v : ℕ) (rest : List ℕ) → IsU64 v → read_be64 (write_be64 v ++ rest) ≡ v
unfolding read_be64 write_be64 read_loop write_loop
read-write_be64 v rest h = omega arith

pub drop-write_be64 : (v : ℕ) (rest : List ℕ) → drop 8 (write_be64 v ++ rest) ≡ rest
unfolding write_be64 write_loop
drop-write_be64 v rest = refl

pub drop-write_be32 : (v : ℕ) (rest : List ℕ) → drop 4 (write_be32 v ++ rest) ≡ rest
unfolding write_be32
drop-write_be32 v rest = refl

pub read-write_samples :
    (ss : List ℕ) → All (λ (s : ℕ). s < 65536) ss → read_samples (length ss) (write_samples ss) ≡ ss
unfolding read_samples write_samples
read-write_samples [] h = refl
read-write_samples (s ∷ ss) h = ground (arith, read-write_samples ss h.1)

pub length-write_samples : (ss : List ℕ) → length (write_samples ss) ≡ length ss * 2
unfolding write_samples
length-write_samples [] = refl
length-write_samples (s ∷ ss) = omega (arith, length-write_samples ss)

pub length-read_samples : (n : ℕ) (bs : List ℕ) → length (read_samples n bs) ≡ n
unfolding read_samples
length-read_samples zero bs = refl
length-read_samples (suc n) bs = ap suc (length-read_samples n (drop 2 bs))

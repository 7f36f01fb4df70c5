-- ===== src/Web/Matrix.antt =====
-- The matrix of src/web/QrEncoder.cpp: the function patterns and the data. A loop from -1 or from -2 counts from 0 here.
pub mod Kept
use nexus_firmware.Prelude.{
  ℕ, zero, suc, ◌+◌, ◌-◌, ◌*◌, ◌/◌, ◌%◌, ◌^◌, List, [], ◌∷◌, ◌++◌, Option, none, some, Bool, true,
  false, not, ◌&&◌, ◌||◌, ◌==◌, ltb, leb, if◌then◌else◌, at, put, repeat, length, count_up,
}
use nexus_firmware.Web.Codewords.{module_count, put_bits, choose_version, build_codewords}
use Prim.Native.Nat.{bit_xor}
use mathlib.Core.Option

abbrev pub Grid : Type 0
Grid = List (List (Option ℕ))

-- `none` stands for the -1 of a module that is not set.
pub record Matrix : Type 0 where
  pub n : ℕ
  pub m : Grid
  pub fixed : List (List Bool)

abbrev pub look {ℓ} : {A : Type ℓ} → A → List A → ℕ → A
look a [] i = a
look a (x ∷ xs) zero = x
look a (x ∷ xs) (suc i) = look a xs i

abbrev pub cell : Grid → ℕ → ℕ → Option ℕ
cell g r c = look none (look [] g r) c

abbrev pub write {ℓ} : {A : Type ℓ} → ℕ → ℕ → A → List (List A) → List (List A)
write r c a g = put r (put c a (look [] g r)) g

unfoldable pub blank : ℕ → Matrix
blank size = record {
  n = size;
  m = repeat size (repeat size none);
  fixed = repeat size (repeat size false);
}

unfoldable pub set : ℕ → ℕ → ℕ → Bool → Matrix → Matrix
set r c v fx mx = record { n = mx.n; m = write r c (some v) mx.m; fixed = write r c fx mx.fixed }

abbrev pub bit : Bool → ℕ
bit b = if b then 1 else 0

abbrev pub is_unset : Option ℕ → Bool
is_unset none = true
is_unset (some v) = false

abbrev between : ℕ → ℕ → ℕ → Bool
between a b k = leb a k && leb k b

-- With dr = i - 1 and dc = j - 1.
unfoldable pub finder_dark : ℕ → ℕ → Bool
finder_dark i j =
    if between 1 7 i && between 1 7 j
    then (i == 1 || i == 7 || j == 1 || j == 7 || (between 3 5 i && between 3 5 j))
    else false

unfoldable pub finder_cell : ℕ → ℕ → ℕ → ℕ → Matrix → Matrix
finder_cell r c i j mx =
    if r + i == 0 || c + j == 0 || leb mx.n (r + i - 1) || leb mx.n (c + j - 1)
    then mx
    else set (r + i - 1) (c + j - 1) (bit (finder_dark i j)) true mx

unfoldable pub place_finder : ℕ → ℕ → Matrix → Matrix
place_finder r c mx = count_up 9 0 (λ i. count_up 9 0 (finder_cell r c i)) mx

unfoldable pub k_align_pos : List (List ℕ)
k_align_pos =
    []
    ∷ []
    ∷ (6 ∷ 18 ∷ [])
    ∷ (6 ∷ 22 ∷ [])
    ∷ (6 ∷ 26 ∷ [])
    ∷ (6 ∷ 30 ∷ [])
    ∷ (6 ∷ 34 ∷ [])
    ∷ (6 ∷ 22 ∷ 38 ∷ [])
    ∷ (6 ∷ 24 ∷ 42 ∷ [])
    ∷ (6 ∷ 26 ∷ 46 ∷ [])
    ∷ (6 ∷ 28 ∷ 50 ∷ [])
    ∷ []

-- With dr = i - 2 and dc = j - 2.
unfoldable pub alignment_cell : ℕ → ℕ → ℕ → ℕ → Matrix → Matrix
alignment_cell r c i j mx =
    set (r + i - 2) (c + j - 2) (bit (i == 0 || i == 4 || j == 0 || j == 4 || (i == 2 && j == 2)))
      true mx

unfoldable pub near_finder : ℕ → ℕ → ℕ → Bool
near_finder n r c = (leb r 8 && leb c 8) || (leb r 8 && leb (n - 9) c) || (leb (n - 9) r && leb c 8)

abbrev each : List ℕ → (ℕ → Matrix → Matrix) → Matrix → Matrix
each [] step mx = mx
each (x ∷ xs) step mx = each xs step (step x mx)

unfoldable pub place_alignment : ℕ → Matrix → Matrix
place_alignment version mx =
    let pos = look [] k_align_pos version in
    each pos
      (λ r. each pos (λ c mx.
        if near_finder mx.n r c
        then mx
        else count_up 5 0 (λ i. count_up 5 0 (alignment_cell r c i)) mx))
      mx

unfoldable pub set_unset : ℕ → ℕ → ℕ → Matrix → Matrix
set_unset r c v mx = if is_unset (cell mx.m r c) then set r c v true mx else mx

unfoldable pub place_timing : Matrix → Matrix
place_timing mx =
    count_up (mx.n - 16) 8
      (λ i mx. let v = bit (i % 2 == 0) in set_unset i 6 v (set_unset 6 i v mx)) mx

unfoldable pub reserve_format : Matrix → Matrix
reserve_format mx =
    let first = count_up 9 0 (λ i mx. set_unset i 8 0 (set_unset 8 i 0 mx)) mx in
    let second =
      count_up 8 0 (λ i mx. set_unset (mx.n - 1 - i) 8 0 (set_unset 8 (mx.n - 1 - i) 0 mx)) first in
    set (mx.n - 8) 8 1 true second

unfoldable pub bits_of : List ℕ → List ℕ
bits_of [] = []
bits_of (cw ∷ codewords) = put_bits cw 8 [] ++ bits_of codewords

-- What is left of the bits, and the matrix.
pub record Placing : Type 0 where
  pub bits : List ℕ
  pub matrix : Matrix

abbrev pub next_bit : List ℕ → ℕ
next_bit [] = 0
next_bit (b ∷ bits) = b

abbrev pub later_bits : List ℕ → List ℕ
later_bits [] = []
later_bits (b ∷ bits) = bits

unfoldable pub place_bit : ℕ → ℕ → Placing → Placing
place_bit row cc p =
    if is_unset (cell p.matrix.m row cc)
    then record { bits = later_bits p.bits; matrix = set row cc (next_bit p.bits) false p.matrix }
    else p

unfoldable pub place_pair : Bool → ℕ → ℕ → Placing → Placing
place_pair upward col i p =
    let row = if upward then p.matrix.n - 1 - i else i in
    count_up 2 0 (λ c. place_bit row (col - c)) p

-- The loop over the pairs of columns, with at most `fuel` turns.
unfoldable pub place_columns : ℕ → ℕ → Bool → Placing → Placing
place_columns zero col upward p = p
place_columns (suc fuel) col upward p =
    let col' = if col == 6 then 5 else col in
    let rest =
      place_columns fuel (col' - 2) (not upward)
        (count_up p.matrix.n 0 (place_pair upward col') p) in
    if col == 0 then p else rest

unfoldable pub place_data : List ℕ → Matrix → Matrix
place_data codewords mx =
    (place_columns mx.n (mx.n - 1) true (record { bits = bits_of codewords; matrix = mx })).matrix

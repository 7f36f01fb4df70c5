-- ===== src/Web/Masking.antt =====
-- The masks of src/web/QrEncoder.cpp, the format, the penalty, and the choice of a mask.
pub mod Format
pub mod Chosen
use nexus_firmware.Prelude.{
  ℕ, zero, suc, ◌+◌, ◌-◌, ◌*◌, ◌/◌, ◌%◌, ◌^◌, List, [], ◌∷◌, Option, none, some, Bool, true, false,
  ◌==◌, ltb, if◌then◌else◌, at, length, count_up, map,
}
use nexus_firmware.Web.Codewords.{module_count, choose_version, build_codewords}
use nexus_firmware.Web.Matrix.{
  Grid, Matrix, look, cell, write, blank, bit, place_finder, place_alignment, place_timing,
  reserve_format, place_data,
}
use Prim.Native.Nat.{bit_xor}
use mathlib.Core.Option

unfoldable pub mask_bit : ℕ → ℕ → ℕ → Bool
mask_bit mask r c =
    if mask == 0
    then (r + c) % 2 == 0
    else if mask == 1
    then r % 2 == 0
    else if mask == 2
    then c % 3 == 0
    else if mask == 3
    then (r + c) % 3 == 0
    else if mask == 4
    then (r / 2 + c / 3) % 2 == 0
    else if mask == 5
    then (r * c) % 2 + (r * c) % 3 == 0
    else if mask == 6
    then ((r * c) % 2 + (r * c) % 3) % 2 == 0
    else if mask == 7
    then ((r + c) % 2 + (r * c) % 3) % 2 == 0
    else false

unfoldable pub k_format_m : List ℕ
k_format_m = 0x5412 ∷ 0x5125 ∷ 0x5e7c ∷ 0x5b4b ∷ 0x45f9 ∷ 0x40ce ∷ 0x4f97 ∷ 0x4aa0 ∷ []

-- The rows and the columns of copy1.
unfoldable pub copy1_rows : List ℕ
copy1_rows = 8 ∷ 8 ∷ 8 ∷ 8 ∷ 8 ∷ 8 ∷ 8 ∷ 8 ∷ 7 ∷ 5 ∷ 4 ∷ 3 ∷ 2 ∷ 1 ∷ 0 ∷ []

unfoldable pub copy1_columns : List ℕ
copy1_columns = 0 ∷ 1 ∷ 2 ∷ 3 ∷ 4 ∷ 5 ∷ 7 ∷ 8 ∷ 8 ∷ 8 ∷ 8 ∷ 8 ∷ 8 ∷ 8 ∷ 8 ∷ []

unfoldable pub copy2_row : ℕ → ℕ → ℕ
copy2_row n i = if ltb i 7 then n - 1 - i else 8

unfoldable pub copy2_column : ℕ → ℕ → ℕ
copy2_column n i = if ltb i 7 then 8 else n - 15 + i

unfoldable pub write_format : ℕ → ℕ → ℕ → Grid → Grid
write_format fmt n i g =
    let b = some ((fmt / 2 ^ (14 - i)) % 2) in
    write (copy2_row n i) (copy2_column n i) b (write (at copy1_rows i) (at copy1_columns i) b g)

unfoldable pub apply_format : ℕ → ℕ → Grid → Grid
apply_format mask n g =
    write (n - 8) 8 (some 1) (count_up 15 0 (write_format (at k_format_m mask) n) g)

abbrev same : Option ℕ → Option ℕ → Bool
same none none = true
same (some a) (some b) = a == b
same a b = false

pub record Runs : Type 0 where
  pub run : ℕ
  pub pen : ℕ

-- One step along a line: the run goes on, and counts from its fifth module, or starts again.
unfoldable pub penalty_step : Bool → Runs → Runs
penalty_step true s = record {
  run = s.run + 1;
  pen = if s.run + 1 == 5 then s.pen + 3 else if ltb 5 (s.run + 1) then s.pen + 1 else s.pen;
}
penalty_step false s = record { run = 1; pen = s.pen }

-- Modules c and c - 1 of row r, or of column r where `dir` is 1.
unfoldable pub line_step : Grid → ℕ → ℕ → ℕ → Runs → Runs
line_step g r dir c s =
    let a = if dir == 0 then cell g r c else cell g c r in
    let b = if dir == 0 then cell g r (c - 1) else cell g (c - 1) r in penalty_step (same a b) s

unfoldable pub penalty_line : Grid → ℕ → ℕ → ℕ → ℕ
penalty_line g r dir pen =
    (count_up (length g - 1) 1 (line_step g r dir) (record { run = 1; pen = pen })).pen

unfoldable pub penalty : Grid → ℕ
penalty g = count_up (length g) 0 (λ r. count_up 2 0 (penalty_line g r)) 0

unfoldable pub mask_cell : ℕ → ℕ → ℕ → Bool → Option ℕ → Option ℕ
mask_cell mask r c true v = v
mask_cell mask r c false v = Option.map (λ x. bit_xor x (bit (mask_bit mask r c))) v

unfoldable pub mask_row : ℕ → ℕ → ℕ → List Bool → List (Option ℕ) → List (Option ℕ)
mask_row mask r c (f ∷ fs) (v ∷ vs) = mask_cell mask r c f v ∷ mask_row mask r (suc c) fs vs
mask_row mask r c fs vs = []

unfoldable pub mask_rows : ℕ → ℕ → List (List Bool) → Grid → Grid
mask_rows mask r (f ∷ fs) (v ∷ vs) = mask_row mask r 0 f v ∷ mask_rows mask (suc r) fs vs
mask_rows mask r fs vs = []

unfoldable pub masked : Matrix → ℕ → Grid
masked base mask = apply_format mask base.n (mask_rows mask 0 base.fixed base.m)

pub record Choice : Type 0 where
  pub best_mask : ℕ
  pub best_pen : ℕ
  pub best : Grid

unfoldable pub try_mask : Matrix → ℕ → Choice → Choice
try_mask base mask s =
    let g = masked base mask in
    let p = penalty g in
    if ltb p s.best_pen then record { best_mask = mask; best_pen = p; best = g } else s

unfoldable pub choose_mask : Matrix → Choice
choose_mask base =
    count_up 8 0 (try_mask base) (record { best_mask = 0; best_pen = 2 ^ 30; best = [] })

unfoldable pub base_matrix : ℕ → Matrix
base_matrix version =
    let n = module_count version in
    reserve_format (
      place_timing (
        place_alignment version
          (place_finder (n - 7) 0 (place_finder 0 (n - 7) (place_finder 0 0 (blank n))))))

abbrev dark : Option ℕ → Bool
dark none = false
dark (some v) = v == 1

-- `none` is the exception of a text that is too long.
unfoldable pub encode : List ℕ → Option (List (List Bool))
encode text =
    Option.map
      (λ version.
        let base = place_data (build_codewords text version) (base_matrix version) in
        map (map dark) (choose_mask base).best)
      (choose_version (length text))

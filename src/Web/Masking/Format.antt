-- ===== src/Web/Masking/Format.antt =====
-- The format words of src/web/QrEncoder.cpp against the code that defines them, and the room for
-- the data in a version's matrix.
use nexus_firmware.Prelude.{
  ℕ, zero, suc, ◌+◌, ◌*◌, ◌/◌, ◌%◌, ◌^◌, ◌<◌, ◌≤◌, ◌≡◌, refl, ◌⊎◌, List, [], ◌∷◌, Option, none,
  some, Bool, true, ◌||◌, ◌&&◌, ◌==◌, ==-true, leb, ltb, if◌then◌else◌, at, all_below,
  all_below_lem, arith, count_up,
}
use nexus_firmware.Web.Codewords.{ver_info, k_ver_m, module_count}
use nexus_firmware.Web.Matrix.{
  Grid, blank, set, place_finder, finder_cell, finder_dark, place_alignment, k_align_pos,
  alignment_cell, near_finder, set_unset, place_timing, reserve_format,
}
use nexus_firmware.Web.Masking.{k_format_m, base_matrix}
use Prim.Native.Nat.{bit_xor}

-- The remainder by x^10 + x^8 + x^5 + x^4 + x^2 + x + 1 of a word of `n` + 10 digits.
unfoldable pub bch : ℕ → ℕ → ℕ
bch zero a = a
bch (suc n) a = bch n (if (a / 2 ^ (10 + n)) % 2 == 1 then bit_xor a (0x537 * 2 ^ n) else a)

-- Level M is 00; the mask stands in the three digits behind; the word is masked with 0x5412.
unfoldable pub format_word : ℕ → ℕ
format_word mask = bit_xor (mask * 2 ^ 10 + bch 5 (mask * 2 ^ 10)) 0x5412

abbrev right : ℕ → Bool
right mask = at k_format_m mask == format_word mask

all_right : all_below 8 right ≡ true
unfolding k_format_m format_word bch
all_right = refl

pub k_format_m_lem : (mask : ℕ) → mask < 8 → at k_format_m mask ≡ format_word mask
k_format_m_lem mask l =
    ==-true (at k_format_m mask) (format_word mask) (all_below_lem 8 right mask all_right l)

-- How many places two words differ in, of `n`.
unfoldable pub distance : ℕ → ℕ → ℕ → ℕ
distance zero a b = 0
distance (suc n) a b = (if a % 2 == b % 2 then 0 else 1) + distance n (a / 2) (b / 2)

-- Any two of the eight words differ in seven places at least.
abbrev apart : ℕ → ℕ → Bool
apart a b = a == b || leb 7 (distance 15 (at k_format_m a) (at k_format_m b))

all_apart : all_below 8 (λ a. all_below 8 (apart a)) ≡ true
unfolding k_format_m distance
all_apart = refl

pub k_format_m-apart :
    (a b : ℕ) → a < 8 → b < 8 → (a ≡ b) ⊎ (7 ≤ distance 15 (at k_format_m a) (at k_format_m b))
k_format_m-apart a b p q = ground (
  arith,
  all_below_lem 8 (apart a) b (all_below_lem 8 (λ a. all_below 8 (apart a)) a all_apart p) q,
)

unfoldable pub unset_in_row : List (Option ℕ) → ℕ
unset_in_row [] = 0
unset_in_row (none ∷ cs) = suc (unset_in_row cs)
unset_in_row (some v ∷ cs) = unset_in_row cs

unfoldable pub unset_in : Grid → ℕ
unset_in [] = 0
unset_in (r ∷ g) = unset_in_row r + unset_in g

abbrev pub room : ℕ → ℕ
room version = unset_in (base_matrix version).m

abbrev pub taken : ℕ → ℕ
taken v = ((ver_info v).data_codewords + (ver_info v).ec_per_block * (ver_info v).num_blocks) * 8

abbrev filled : ℕ → Bool
filled v = leb (taken (suc v)) (room (suc v)) && ltb (room (suc v)) (taken (suc v) + 8)

all_filled : all_below 6 filled ≡ true
unfolding unset_in unset_in_row base_matrix module_count blank set place_finder finder_cell
    finder_dark place_alignment k_align_pos alignment_cell near_finder set_unset place_timing
    reserve_format count_up ver_info k_ver_m
all_filled = refl

-- Up to version 6, the function patterns leave room for the codewords, and for less than one more.
pub base_matrix-room : (v : ℕ) → 1 ≤ v → v ≤ 6 → (taken v ≤ room v) × (room v < taken v + 8)
base_matrix-room zero l u = absurd (omega arith)
base_matrix-room (suc v) l u = ground (arith, all_below_lem 6 filled v all_filled)

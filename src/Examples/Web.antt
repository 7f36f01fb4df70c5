-- ===== src/Examples/Web.antt =====
-- The results on the QR encoder at concrete inputs.
use nexus_firmware.Prelude.{
  ℕ, ◌+◌, ◌*◌, ◌<◌, ◌≤◌, ◌≡◌, refl, some, List, [], ◌∷◌, ◌++◌, length, All, at, arith, count_up,
}
use nexus_firmware.Web.Galois.{gf, mul}
use nexus_firmware.Web.Galois.Linear.{product}
use nexus_firmware.Web.Galois.Field.{mul_lem}
use nexus_firmware.Web.ReedSolomon.{rs_encode}
use nexus_firmware.Web.ReedSolomon.Polynomial.{value}
use nexus_firmware.Web.ReedSolomon.Codeword.{rs_encode-roots}
use nexus_firmware.Web.Codewords.{
  ver_info, k_ver_m, choose_version, choose_from, need_bits, char_count_bits, data_codewords_of,
  blocks_of, build_codewords, module_count,
}
use nexus_firmware.Web.Codewords.RoundTrip.{read_text, read_text-data_codewords_of}
use nexus_firmware.Web.Codewords.Blocks.{concat, IsCodeword, blocks_of-Codewords}
use nexus_firmware.Web.Matrix.{
  blank, set, place_finder, finder_cell, finder_dark, place_alignment, k_align_pos, alignment_cell,
  near_finder, set_unset, place_timing, reserve_format,
}
use nexus_firmware.Web.Masking.{penalty, masked, choose_mask, base_matrix}
use nexus_firmware.Web.Masking.Chosen.{choose_mask-least}
use nexus_firmware.Web.Masking.Format.{room, taken, base_matrix-room}

mul_lem_example : mul 87 131 ≡ product 8 87 131
mul_lem_example = mul_lem 87 131 (omega arith) (omega arith)

rs_encode-roots_example :
    value (at gf.exp 3) ((32 ∷ 91 ∷ 11 ∷ []) ++ rs_encode (32 ∷ 91 ∷ 11 ∷ []) 10) ≡ 0
rs_encode-roots_example =
    rs_encode-roots (32 ∷ 91 ∷ 11 ∷ []) 10 3 (omega arith, (omega arith, (omega arith, tt)))
      (omega arith)

-- "WIFI".
abbrev text : List ℕ
text = 87 ∷ 73 ∷ 70 ∷ 73 ∷ []

text_fits : choose_version (length text) ≡ some 1
unfolding choose_version choose_from need_bits char_count_bits ver_info k_ver_m
text_fits = refl

read_text-data_codewords_of_example : read_text 1 (data_codewords_of text 1) ≡ some text
read_text-data_codewords_of_example =
    read_text-data_codewords_of text 1
      (omega arith, (omega arith, (omega arith, (omega arith, tt)))) text_fits

blocks_of-Codewords_example :
    let i = ver_info 1 in
    let blocks = blocks_of i (data_codewords_of text 1) in
    (concat blocks ≡ data_codewords_of text 1)
    × All (IsCodeword i.ec_per_block) blocks
    × (length (build_codewords text 1) ≡ i.data_codewords + i.ec_per_block * i.num_blocks)
blocks_of-Codewords_example = blocks_of-Codewords text 1 text_fits

size : length (base_matrix 1).m ≡ 21
unfolding base_matrix module_count blank set place_finder finder_cell finder_dark place_alignment
    k_align_pos alignment_cell near_finder set_unset place_timing reserve_format count_up
size = refl

choose_mask-least_example :
    let base = base_matrix 1 in
    let s = choose_mask base in
    (s.best_mask < 8)
    × (s.best ≡ masked base s.best_mask)
    × ((m : ℕ) → m < 8 → penalty s.best ≤ penalty (masked base m))
choose_mask-least_example = choose_mask-least (base_matrix 1) (omega (arith, size))

base_matrix-room_example : (taken 5 ≤ room 5) × (room 5 < taken 5 + 8)
base_matrix-room_example = base_matrix-room 5 (omega arith) (omega arith)

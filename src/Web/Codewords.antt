-- ===== src/Web/Codewords.antt =====
-- chooseVersion and buildCodewords of src/web/QrEncoder.cpp, with the table of the versions. A
-- text is the list of its bytes.
pub mod Digits
pub mod Padding
pub mod Version
pub mod RoundTrip
pub mod Blocks
use nexus_firmware.Prelude.{
  ℕ, zero, suc, ◌+◌, ◌-◌, ◌*◌, ◌/◌, ◌%◌, ◌^◌, List, [], ◌∷◌, ◌++◌, Option, none, some, ◌==◌, ltb,
  leb, if◌then◌else◌, at, repeat, length, take, drop,
}
use nexus_firmware.Web.ReedSolomon.{rs_encode}
use Prim.Native.Nat.{min, max, bit_xor}

pub record VerInfo : Type 0 where
  pub data_codewords : ℕ
  pub ec_per_block : ℕ
  pub num_blocks : ℕ

abbrev info : ℕ → ℕ → ℕ → VerInfo
info d e n = record { data_codewords = d; ec_per_block = e; num_blocks = n }

-- kVerM.
unfoldable pub k_ver_m : List VerInfo
k_ver_m =
    info 0 0 0
    ∷ info 16 10 1
    ∷ info 28 16 1
    ∷ info 44 26 1
    ∷ info 64 18 2
    ∷ info 86 24 2
    ∷ info 108 16 4
    ∷ info 124 18 4
    ∷ info 154 22 2
    ∷ info 182 22 3
    ∷ info 216 26 4
    ∷ []

abbrev entry : List VerInfo → ℕ → VerInfo
entry [] v = info 0 0 0
entry (i ∷ is) zero = i
entry (i ∷ is) (suc v) = entry is v

unfoldable pub ver_info : ℕ → VerInfo
ver_info v = entry k_ver_m v

unfoldable pub module_count : ℕ → ℕ
module_count version = version * 4 + 17

unfoldable pub char_count_bits : ℕ → ℕ
char_count_bits version = if leb version 9 then 8 else 16

unfoldable pub need_bits : ℕ → ℕ → ℕ
need_bits v data_bytes = 4 + char_count_bits v + data_bytes * 8

-- `n` turns of the loop of chooseVersion, from v; `none` is the exception.
unfoldable pub choose_from : ℕ → ℕ → ℕ → Option ℕ
choose_from zero v data_bytes = none
choose_from (suc n) v data_bytes =
    if leb (need_bits v data_bytes) ((ver_info v).data_codewords * 8)
    then some v
    else choose_from n (suc v) data_bytes

unfoldable pub choose_version : ℕ → Option ℕ
choose_version data_bytes = choose_from 10 1 data_bytes

-- BitBuf::put: the `len` low bits of `val`, highest first, behind those already there.
unfoldable pub put_bits : ℕ → ℕ → List ℕ → List ℕ
put_bits val zero bits = bits
put_bits val (suc i) bits = put_bits val i (bits ++ ((val / 2 ^ i) % 2 ∷ []))

unfoldable pub put_text : List ℕ → List ℕ → List ℕ
put_text [] bits = bits
put_text (c ∷ text) bits = put_text text (put_bits c 8 bits)

unfoldable pub terminate : ℕ → List ℕ → List ℕ
terminate total bits = bits ++ repeat (min 4 (total - length bits)) 0

-- while (size % 8 != 0), with at most `n` turns.
unfoldable pub pad_bits : ℕ → List ℕ → List ℕ
pad_bits zero bits = bits
pad_bits (suc n) bits = if length bits % 8 == 0 then bits else pad_bits n (bits ++ (0 ∷ []))

-- The eight bits from i on; `(b << 1) | bit` is a sum, since the lowest digit is free.
unfoldable pub byte_at : ℕ → ℕ → ℕ → List ℕ → ℕ
byte_at zero i b bits = b
byte_at (suc k) i b bits = byte_at k (suc i) (b * 2 + at bits i) bits

-- `n` turns of the loop that steps by 8, from i.
unfoldable pub to_bytes : ℕ → ℕ → List ℕ → List ℕ
to_bytes zero i bits = []
to_bytes (suc n) i bits = byte_at 8 i 0 bits ∷ to_bytes n (i + 8) bits

-- `n` turns of the loop that fills up with 0xEC and 0x11 in turn.
unfoldable pub pad_bytes : ℕ → ℕ → List ℕ → List ℕ
pad_bytes zero pi block = block
pad_bytes (suc n) pi block =
    pad_bytes n (bit_xor pi 1) (block ++ ((if pi == 0 then 0xec else 0x11) ∷ []))

unfoldable pub message_bits : List ℕ → ℕ → List ℕ
message_bits text version =
    put_text text (put_bits (length text) (char_count_bits version) (put_bits 4 4 []))

unfoldable pub padded_bits : List ℕ → ℕ → List ℕ
padded_bits text version =
    pad_bits 7 (terminate ((ver_info version).data_codewords * 8) (message_bits text version))

-- The first half of buildCodewords: the data codewords.
unfoldable pub data_codewords_of : List ℕ → ℕ → List ℕ
data_codewords_of text version =
    let bits = padded_bits text version in
    let bytes = to_bytes (length bits / 8) 0 bits in
    pad_bytes ((ver_info version).data_codewords - length bytes) 0 bytes

-- `n` turns of the loop over the blocks, from block b and from `off` on: the last `rem` blocks
-- have one codeword more.
unfoldable pub split : ℕ → ℕ → ℕ → ℕ → ℕ → ℕ → List ℕ → List (List ℕ)
split zero b nb per rem off codewords = []
split (suc n) b nb per rem off codewords =
    let cnt = per + (if leb (nb - rem) b then 1 else 0) in
    take cnt (drop off codewords) ∷ split n (suc b) nb per rem (off + cnt) codewords

abbrev pub longest : List (List ℕ) → ℕ
longest [] = 0
longest (b ∷ bs) = max (length b) (longest bs)

-- The codewords at position i of the blocks that have one.
unfoldable pub column : ℕ → List (List ℕ) → List ℕ
column i [] = []
column i (b ∷ bs) = if ltb i (length b) then at b i ∷ column i bs else column i bs

-- `n` turns of the loop that interleaves, from i.
unfoldable pub interleave : ℕ → ℕ → List (List ℕ) → List ℕ
interleave zero i bs = []
interleave (suc n) i bs = column i bs ++ interleave n (suc i) bs

unfoldable pub ecc_blocks : ℕ → List (List ℕ) → List (List ℕ)
ecc_blocks ec [] = []
ecc_blocks ec (b ∷ bs) = rs_encode b ec ∷ ecc_blocks ec bs

-- The check symbols at position i: each block has as many.
unfoldable pub row : ℕ → List (List ℕ) → List ℕ
row i [] = []
row i (b ∷ bs) = at b i ∷ row i bs

unfoldable pub interleave_ecc : ℕ → ℕ → List (List ℕ) → List ℕ
interleave_ecc zero i bs = []
interleave_ecc (suc n) i bs = row i bs ++ interleave_ecc n (suc i) bs

unfoldable pub blocks_of : VerInfo → List ℕ → List (List ℕ)
blocks_of vi codewords =
    split vi.num_blocks 0 vi.num_blocks (vi.data_codewords / vi.num_blocks)
      (vi.data_codewords % vi.num_blocks) 0 codewords

unfoldable pub build_codewords : List ℕ → ℕ → List ℕ
build_codewords text version =
    let vi = ver_info version in
    let dblocks = blocks_of vi (data_codewords_of text version) in
    let eblocks = ecc_blocks vi.ec_per_block dblocks in
    interleave (longest dblocks) 0 dblocks ++ interleave_ecc vi.ec_per_block 0 eblocks

-- ===== src/Web/Codewords/RoundTrip.antt =====
-- The data codewords of src/web/QrEncoder.cpp, read back as a scanner reads them.
use nexus_firmware.Prelude.{
  ℕ, zero, suc, ◌≡◌, refl, ap, List, [], ◌∷◌, ◌++◌, ◌==◌, if◌then◌else◌, Option, none, some, arith,
  length, take, drop, All, IsByte,
}
use nexus_firmware.Web.Codewords.{data_codewords_of, choose_version, char_count_bits}
use nexus_firmware.Web.Codewords.Digits.{msb, number, expand, length-msb, number-msb}
use mathlib.Core.List.{append_assoc}
use nexus_firmware.Web.Codewords.Padding.{Extends, data_codewords_of-Extends}
use nexus_firmware.Web.Codewords.Version.{choose_version_lem, count_lem}

unfoldable pub read_bytes : ℕ → List ℕ → List ℕ
read_bytes zero bits = []
read_bytes (suc n) bits = number 0 (take 8 bits) ∷ read_bytes n (drop 8 bits)

-- Byte mode, the number of bytes, the bytes.
unfoldable pub read_text : ℕ → List ℕ → Option (List ℕ)
read_text version codewords =
    let bits = expand codewords in
    let body = drop 4 bits in
    let count = char_count_bits version in
    if number 0 (take 4 bits) == 4
    then some (read_bytes (number 0 (take count body)) (drop count body))
    else none

take_front : (xs ys : List ℕ) (n : ℕ) → length xs ≡ n → take n (xs ++ ys) ≡ xs
take_front [] ys zero e = refl
take_front [] ys (suc n) e = absurd (omega arith)
take_front (x ∷ xs) ys zero e = absurd (omega arith)
take_front (x ∷ xs) ys (suc n) e = ap (λ (t : List ℕ). x ∷ t) (take_front xs ys n (omega arith))

drop_front : (xs ys : List ℕ) (n : ℕ) → length xs ≡ n → drop n (xs ++ ys) ≡ ys
drop_front [] ys zero e = refl
drop_front [] ys (suc n) e = absurd (omega arith)
drop_front (x ∷ xs) ys zero e = absurd (omega arith)
drop_front (x ∷ xs) ys (suc n) e = drop_front xs ys n (omega arith)

read_bytes-expand :
    (text rest : List ℕ) → All IsByte text → read_bytes (length text) (expand text ++ rest) ≡ text
unfolding read_bytes expand
read_bytes-expand [] rest h = refl
read_bytes-expand (c ∷ text) rest h =
    rw
      (
        append_assoc (msb 8 c) (expand text) rest,
        take_front (msb 8 c) (expand text ++ rest) 8 (length-msb 8 c),
        drop_front (msb 8 c) (expand text ++ rest) 8 (length-msb 8 c),
        number-msb 8 c (h.0),
        read_bytes-expand text rest (h.1),
      )
      refl

-- The data codewords of a text that fits the chosen version, read back, give the text.
pub read_text-data_codewords_of :
    (text : List ℕ) (version : ℕ)
    → All IsByte text
    → choose_version (length text) ≡ some version
    → read_text version (data_codewords_of text version) ≡ some text
unfolding read_text Extends
read_text-data_codewords_of text version h chosen =
    let (low, high, fits, least) = choose_version_lem (length text) version chosen in
    let (rest, e) = data_codewords_of-Extends text version in
    let k = char_count_bits version in
    let n = length text in
    rw
      (
        e,
        append_assoc (msb 4 4) (msb k n ++ expand text) rest,
        take_front (msb 4 4) ((msb k n ++ expand text) ++ rest) 4 (length-msb 4 4),
        drop_front (msb 4 4) ((msb k n ++ expand text) ++ rest) 4 (length-msb 4 4),
        number-msb 4 4 (omega arith),
        append_assoc (msb k n) (expand text) rest,
        take_front (msb k n) (expand text ++ rest) k (length-msb k n),
        drop_front (msb k n) (expand text ++ rest) k (length-msb k n),
        number-msb k n (count_lem version n high fits),
        read_bytes-expand text rest h,
      )
      refl

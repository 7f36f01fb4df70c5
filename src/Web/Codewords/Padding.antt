-- ===== src/Web/Codewords/Padding.antt =====
-- The padding of src/web/QrEncoder.cpp: what buildCodewords puts behind the text.
use nexus_firmware.Prelude.{
  ℕ, zero, suc, ◌+◌, ◌-◌, ◌*◌, ◌/◌, ◌%◌, ◌≤◌, ◌≡◌, refl, sym, ap, subst, ◌∙◌, List, [], ◌∷◌, ◌++◌,
  inl, inr, Bool-cases, ◌==◌, ==-true, if◌then◌else◌, arith, repeat, length, length-append,
  length-repeat, All, All-append, IsByte,
}
use nexus_firmware.Web.Codewords.{
  pad_bits, padded_bits, to_bytes, pad_bytes, terminate, message_bits, data_codewords_of, ver_info,
  need_bits, char_count_bits,
}
use nexus_firmware.Web.Codewords.Digits.{
  msb, expand, IsBit, put_bits_lem, put_text_lem, length-msb, msb-IsBit, expand-IsBit,
  length-expand, expand-append, expand-to_bytes, to_bytes-IsByte, pad_bytes-IsByte,
}
use mathlib.Core.List.{append-nil, append_assoc}
use Prim.Native.Nat.{bit_xor, min}

-- What stands behind a list that was only added to.
unfoldable pub Extends : List ℕ → List ℕ → Type 0
Extends xs ys = (rest : List ℕ) × (ys ≡ xs ++ rest)

extend_twice : (xs ys zs : List ℕ) → Extends xs ys → Extends ys zs → Extends xs zs
unfolding Extends
extend_twice xs ys zs (r, e) (t, f) =
    (r ++ t, f ∙ ap (λ (u : List ℕ). u ++ t) e ∙ append_assoc xs r t)

pad_bytes-Extends : (n pi : ℕ) (block : List ℕ) → Extends block (pad_bytes n pi block)
unfolding Extends pad_bytes
pad_bytes-Extends zero pi block = ([], sym (append-nil block))
pad_bytes-Extends (suc n) pi block =
    let pad = if pi == 0 then 0xec else 0x11 in
    let (r, e) = pad_bytes-Extends n (bit_xor pi 1) (block ++ (pad ∷ [])) in
    (pad ∷ r, e ∙ append_assoc block (pad ∷ []) r)

-- The padding to whole bytes: it ends on one, with at most `n` bits more.
IsPadded : ℕ → List ℕ → List ℕ → Type 0
IsPadded n bits padded =
    Extends bits padded
    × (length padded % 8 ≡ 0)
    × (length padded ≤ length bits + n)
    × All IsBit padded

pad_bits-IsPadded :
    (n : ℕ) (bits : List ℕ)
    → (8 - length bits % 8) % 8 ≤ n
    → All IsBit bits
    → IsPadded n bits (pad_bits n bits)
unfolding IsPadded Extends pad_bits
pad_bits-IsPadded zero bits l h = (([], sym (append-nil bits)), omega arith, omega arith, h)
pad_bits-IsPadded (suc n) bits l h = elim (Bool-cases (length bits % 8 == 0)) [
  | inl e ↦ rw e (([], sym (append-nil bits)), ==-true (length bits % 8) 0 e, omega arith, h)
  | inr e ↦ rw e (
      let ((r, f), m, k, b) =
        pad_bits-IsPadded n (bits ++ (0 ∷ [])) (rw (length-append bits (0 ∷ [])) (ground arith))
          (All-append IsBit bits (0 ∷ []) h (omega arith, tt)) in
      ((0 ∷ r, f ∙ append_assoc bits (0 ∷ []) r), m, omega (arith, length-append bits (0 ∷ [])), b))
]

terminate-Extends : (total : ℕ) (bits : List ℕ) → Extends bits (terminate total bits)
unfolding Extends terminate
terminate-Extends total bits = (repeat (min 4 (total - length bits)) 0, refl)

zeros-IsBit : (n : ℕ) → All IsBit (repeat n 0)
zeros-IsBit zero = tt
zeros-IsBit (suc n) = (omega arith, zeros-IsBit n)

terminate-IsBit : (total : ℕ) (bits : List ℕ) → All IsBit bits → All IsBit (terminate total bits)
unfolding terminate
terminate-IsBit total bits h =
    All-append IsBit bits (repeat (min 4 (total - length bits)) 0) h
      (zeros-IsBit (min 4 (total - length bits)))

length-terminate :
    (total : ℕ) (bits : List ℕ) → length bits ≤ total → length (terminate total bits) ≤ total
unfolding terminate
length-terminate total bits l = ground (
  arith,
  length-append bits (repeat (min 4 (total - length bits)) 0),
  length-repeat {A = ℕ} (min 4 (total - length bits)) 0,
)

abbrev pub header : List ℕ → ℕ → List ℕ
header text version = msb 4 4 ++ (msb (char_count_bits version) (length text) ++ expand text)

message_bits_lem : (text : List ℕ) (version : ℕ) → message_bits text version ≡ header text version
unfolding message_bits
message_bits_lem text version =
    rw
      (
        put_bits_lem 4 4 [],
        put_bits_lem (char_count_bits version) (length text) (msb 4 4),
        put_text_lem text (msb 4 4 ++ msb (char_count_bits version) (length text)),
      )
      (append_assoc (msb 4 4) (msb (char_count_bits version) (length text)) (expand text))

header-IsBit : (text : List ℕ) (version : ℕ) → All IsBit (header text version)
header-IsBit text version =
    All-append IsBit (msb 4 4) (msb (char_count_bits version) (length text) ++ expand text)
      (msb-IsBit 4 4)
      (All-append IsBit (msb (char_count_bits version) (length text)) (expand text)
        (msb-IsBit (char_count_bits version) (length text)) (expand-IsBit text))

length-header :
    (text : List ℕ) (version : ℕ) → length (header text version) ≡ need_bits version (length text)
unfolding need_bits
length-header text version = omega (
  arith,
  length-append (msb 4 4) (msb (char_count_bits version) (length text) ++ expand text),
  length-append (msb (char_count_bits version) (length text)) (expand text),
  length-msb 4 4,
  length-msb (char_count_bits version) (length text),
  length-expand text,
)

length-to_bytes : (n i : ℕ) (bits : List ℕ) → length (to_bytes n i bits) ≡ n
unfolding to_bytes
length-to_bytes zero i bits = refl
length-to_bytes (suc n) i bits = omega (arith, length-to_bytes n (i + 8) bits)

length-pad_bytes : (n pi : ℕ) (block : List ℕ) → length (pad_bytes n pi block) ≡ length block + n
unfolding pad_bytes
length-pad_bytes zero pi block = omega arith
length-pad_bytes (suc n) pi block =
    let pad : ℕ = if pi == 0 then 0xec else 0x11 in
    omega (
      arith,
      length-pad_bytes n (bit_xor pi 1) (block ++ (pad ∷ [])),
      length-append block (pad ∷ []),
    )

padded_bits-IsPadded :
    (text : List ℕ) (version : ℕ)
    → let total = (ver_info version).data_codewords * 8 in
      IsPadded 7 (terminate total (message_bits text version)) (padded_bits text version)
unfolding padded_bits
padded_bits-IsPadded text version =
    let total = (ver_info version).data_codewords * 8 in
    pad_bits-IsPadded 7 (terminate total (message_bits text version)) (omega arith) (
      terminate-IsBit total (message_bits text version)
        (subst (All IsBit) (sym (message_bits_lem text version)) (header-IsBit text version)))

padded_bits-Extends :
    (text : List ℕ) (version : ℕ) → Extends (header text version) (padded_bits text version)
unfolding IsPadded
padded_bits-Extends text version =
    let bits = message_bits text version in
    let ended = terminate ((ver_info version).data_codewords * 8) bits in
    subst (λ t. Extends t (padded_bits text version)) (message_bits_lem text version)
      (extend_twice bits ended (padded_bits text version)
        (terminate-Extends ((ver_info version).data_codewords * 8) bits)
        ((padded_bits-IsPadded text version).0))

bytes_of-padded_bits :
    (text : List ℕ) (version : ℕ)
    → expand (to_bytes (length (padded_bits text version) / 8) 0 (padded_bits text version))
      ≡ padded_bits text version
unfolding IsPadded
bytes_of-padded_bits text version =
    let (e, m, k, b) = padded_bits-IsPadded text version in
    expand-to_bytes (length (padded_bits text version) / 8) (padded_bits text version) (omega arith)
      b

-- The data codewords' bits go on from the mode, the count and the text.
pub data_codewords_of-Extends :
    (text : List ℕ) (version : ℕ)
    → Extends (header text version) (expand (data_codewords_of text version))
unfolding data_codewords_of Extends
data_codewords_of-Extends text version =
    let bits = padded_bits text version in
    let bytes = to_bytes (length bits / 8) 0 bits in
    let (r, e) = pad_bytes-Extends ((ver_info version).data_codewords - length bytes) 0 bytes in
    let (q, f) = padded_bits-Extends text version in
    (
      q ++ expand r,
      ap expand e
          ∙ expand-append bytes r
          ∙ ap (λ (t : List ℕ). t ++ expand r) (bytes_of-padded_bits text version ∙ f)
          ∙ append_assoc (header text version) q (expand r),
    )

-- A text that fits fills the version's data codewords, no more and no fewer.
pub length-data_codewords_of :
    (text : List ℕ) (version : ℕ)
    → need_bits version (length text) ≤ (ver_info version).data_codewords * 8
    → length (data_codewords_of text version) ≡ (ver_info version).data_codewords
unfolding data_codewords_of IsPadded
length-data_codewords_of text version fits =
    let bits = padded_bits text version in
    let bytes = to_bytes (length bits / 8) 0 bits in
    let (e, m, k, b) = padded_bits-IsPadded text version in
    let total = (ver_info version).data_codewords in
    let ended =
      length-terminate (total * 8) (message_bits text version)
        (rw (message_bits_lem text version, length-header text version) fits) in
    omega (
      arith,
      length-to_bytes (length bits / 8) 0 bits,
      length-pad_bytes (total - length bytes) 0 bytes,
    )

pub data_codewords_of-IsByte :
    (text : List ℕ) (version : ℕ) → All IsByte (data_codewords_of text version)
unfolding data_codewords_of IsPadded
data_codewords_of-IsByte text version =
    let bits = padded_bits text version in
    let bytes = to_bytes (length bits / 8) 0 bits in
    let (e, m, k, b) = padded_bits-IsPadded text version in
    pad_bytes-IsByte ((ver_info version).data_codewords - length bytes) 0 bytes
      (to_bytes-IsByte (length bits / 8) 0 bits b)

-- ===== src/Web/Codewords/Blocks.antt =====
-- The blocks of buildCodewords of src/web/QrEncoder.cpp.
use nexus_firmware.Prelude.{
  ℕ, zero, suc, ◌+◌, ◌-◌, ◌*◌, ◌/◌, ◌%◌, ◌<◌, ◌≤◌, ◌≡◌, refl, sym, ap, ◌∙◌, List, [], ◌∷◌, ◌++◌,
  if◌then◌else◌, some, Bool, true, leb, ◌==◌, ==-true, arith, at, length, length-append, take, drop,
  take-drop, drop-drop, All, IsByte, all_below, all_below_lem,
}
use nexus_firmware.Web.Codewords.{
  split, column, interleave, row, interleave_ecc, ecc_blocks, blocks_of, build_codewords, longest,
  ver_info, choose_version, k_ver_m, data_codewords_of,
}
use nexus_firmware.Web.Galois.{gf}
use nexus_firmware.Web.ReedSolomon.{rs_encode}
use nexus_firmware.Web.ReedSolomon.Polynomial.{value}
use nexus_firmware.Web.ReedSolomon.Codeword.{rs_encode-roots}
use nexus_firmware.Web.Codewords.Padding.{data_codewords_of-IsByte, length-data_codewords_of}
use nexus_firmware.Web.Codewords.Version.{Fits, choose_version_lem}

unfoldable pub concat : List (List ℕ) → List ℕ
concat [] = []
concat (b ∷ bs) = b ++ concat bs

drop_all : (n : ℕ) (xs : List ℕ) → length xs ≤ n → drop n xs ≡ []
drop_all zero [] l = refl
drop_all zero (x ∷ xs) l = absurd (omega arith)
drop_all (suc n) [] l = refl
drop_all (suc n) (x ∷ xs) l = drop_all n xs (omega arith)

-- How many codewords `n` blocks from block b on hold.
held : ℕ → ℕ → ℕ → ℕ → ℕ → ℕ
held zero b nb per rem = 0
held (suc n) b nb per rem = (per + (if leb (nb - rem) b then 1 else 0)) + held n (suc b) nb per rem

split-concat :
    (n b nb per rem off : ℕ) (xs : List ℕ)
    → length xs ≤ off + held n b nb per rem
    → concat (split n b nb per rem off xs) ≡ drop off xs
unfolding split concat held
split-concat zero b nb per rem off xs l = sym (drop_all off xs (omega arith))
split-concat (suc n) b nb per rem off xs l =
    let cnt : ℕ = per + (if leb (nb - rem) b then 1 else 0) in
    ap (λ (t : List ℕ). take cnt (drop off xs) ++ t)
      (split-concat n (suc b) nb per rem (off + cnt) xs (omega arith) ∙ sym (drop-drop off cnt xs))
    ∙ take-drop cnt (drop off xs)

length-split : (n b nb per rem off : ℕ) (xs : List ℕ) → length (split n b nb per rem off xs) ≡ n
unfolding split
length-split zero b nb per rem off xs = refl
length-split (suc n) b nb per rem off xs = omega (
  arith,
  length-split n (suc b) nb per rem (off + (per + (if leb (nb - rem) b then 1 else 0))) xs,
)

take-IsByte : (n : ℕ) (xs : List ℕ) → All IsByte xs → All IsByte (take n xs)
take-IsByte zero xs h = tt
take-IsByte (suc n) [] h = tt
take-IsByte (suc n) (x ∷ xs) h = (h.0, take-IsByte n xs (h.1))

drop-IsByte : (n : ℕ) (xs : List ℕ) → All IsByte xs → All IsByte (drop n xs)
drop-IsByte zero xs h = h
drop-IsByte (suc n) [] h = tt
drop-IsByte (suc n) (x ∷ xs) h = drop-IsByte n xs (h.1)

split-IsByte :
    (n b nb per rem off : ℕ) (xs : List ℕ)
    → All IsByte xs
    → All (All IsByte) (split n b nb per rem off xs)
unfolding split
split-IsByte zero b nb per rem off xs h = tt
split-IsByte (suc n) b nb per rem off xs h =
    let cnt : ℕ = per + (if leb (nb - rem) b then 1 else 0) in
    (
      take-IsByte cnt (drop off xs) (drop-IsByte off xs h),
      split-IsByte n (suc b) nb per rem (off + cnt) xs h,
    )

-- All the blocks hold all the codewords.
abbrev whole : ℕ → Bool
whole v =
    let i = ver_info v in
    held i.num_blocks 0 i.num_blocks (i.data_codewords / i.num_blocks)
      (i.data_codewords % i.num_blocks)
    == i.data_codewords

wholes : all_below 11 whole ≡ true
unfolding ver_info k_ver_m held
wholes = refl

concat-blocks_of :
    (text : List ℕ) (version : ℕ)
    → version ≤ 10
    → Fits version (length text)
    → concat (blocks_of (ver_info version) (data_codewords_of text version))
      ≡ data_codewords_of text version
unfolding blocks_of
concat-blocks_of text version u f =
    let i = ver_info version in
    split-concat i.num_blocks 0 i.num_blocks (i.data_codewords / i.num_blocks)
      (i.data_codewords % i.num_blocks) 0 (data_codewords_of text version)
      (omega (
        arith,
        length-data_codewords_of text version f,
        ==-true
            (held i.num_blocks 0 i.num_blocks (i.data_codewords / i.num_blocks)
              (i.data_codewords % i.num_blocks))
            i.data_codewords (all_below_lem 11 whole version wholes (omega arith)),
      ))

-- A block that its check symbols make a codeword: 0 at the first `ec` powers.
unfoldable pub IsCodeword : ℕ → List ℕ → Type 0
IsCodeword ec block = (k : ℕ) → k < ec → value (at gf.exp k) (block ++ rs_encode block ec) ≡ 0

codewords : (ec : ℕ) (bs : List (List ℕ)) → All (All IsByte) bs → All (IsCodeword ec) bs
unfolding IsCodeword
codewords ec [] h = tt
codewords ec (b ∷ bs) h = (λ k p. rs_encode-roots b ec k (h.0) p, codewords ec bs (h.1))

-- What the blocks hold from position i on.
left : ℕ → List (List ℕ) → ℕ
left i [] = 0
left i (b ∷ bs) = (length b - i) + left i bs

left-suc : (i : ℕ) (bs : List (List ℕ)) → length (column i bs) + left (suc i) bs ≡ left i bs
unfolding column left
left-suc i [] = omega arith
left-suc i (b ∷ bs) = ground (arith, left-suc i bs)

none_left : (i : ℕ) (bs : List (List ℕ)) → longest bs ≤ i → left i bs ≡ 0
unfolding left
none_left i [] l = refl
none_left i (b ∷ bs) l = omega (arith, none_left i bs (omega arith))

length-interleave :
    (n i : ℕ) (bs : List (List ℕ)) → longest bs ≤ n + i → length (interleave n i bs) ≡ left i bs
unfolding interleave
length-interleave zero i bs l = sym (none_left i bs (omega arith))
length-interleave (suc n) i bs l = omega (
  arith,
  length-append (column i bs) (interleave n (suc i) bs),
  length-interleave n (suc i) bs (omega arith),
  left-suc i bs,
)

left-concat : (bs : List (List ℕ)) → left 0 bs ≡ length (concat bs)
unfolding left concat
left-concat [] = refl
left-concat (b ∷ bs) = omega (arith, length-append b (concat bs), left-concat bs)

length-row : (i : ℕ) (bs : List (List ℕ)) → length (row i bs) ≡ length bs
unfolding row
length-row i [] = refl
length-row i (b ∷ bs) = omega (arith, length-row i bs)

length-interleave_ecc :
    (n i : ℕ) (bs : List (List ℕ)) → length (interleave_ecc n i bs) ≡ n * length bs
unfolding interleave_ecc
length-interleave_ecc zero i bs = omega arith
length-interleave_ecc (suc n) i bs = ground (
  arith,
  length-append (row i bs) (interleave_ecc n (suc i) bs),
  length-row i bs,
  length-interleave_ecc n (suc i) bs,
)

length-ecc_blocks : (ec : ℕ) (bs : List (List ℕ)) → length (ecc_blocks ec bs) ≡ length bs
unfolding ecc_blocks
length-ecc_blocks ec [] = refl
length-ecc_blocks ec (b ∷ bs) = omega (arith, length-ecc_blocks ec bs)

blocks_of-IsCodeword :
    (text : List ℕ) (version : ℕ)
    → All
        (IsCodeword (ver_info version).ec_per_block)
        (blocks_of (ver_info version) (data_codewords_of text version))
unfolding blocks_of
blocks_of-IsCodeword text version =
    let i = ver_info version in
    codewords i.ec_per_block (blocks_of i (data_codewords_of text version)) (
      split-IsByte i.num_blocks 0 i.num_blocks (i.data_codewords / i.num_blocks)
        (i.data_codewords % i.num_blocks) 0 (data_codewords_of text version)
        (data_codewords_of-IsByte text version))

length-blocks_of :
    (version : ℕ) (xs : List ℕ)
    → length (blocks_of (ver_info version) xs) ≡ (ver_info version).num_blocks
unfolding blocks_of
length-blocks_of version xs =
    let i = ver_info version in
    length-split i.num_blocks 0 i.num_blocks (i.data_codewords / i.num_blocks)
      (i.data_codewords % i.num_blocks) 0 xs

length-build_codewords :
    (text : List ℕ) (version : ℕ)
    → version ≤ 10
    → Fits version (length text)
    → length (build_codewords text version)
      ≡ (ver_info version).data_codewords
        + (ver_info version).ec_per_block * (ver_info version).num_blocks
unfolding build_codewords
length-build_codewords text version u f =
    let i = ver_info version in
    let bs = blocks_of i (data_codewords_of text version) in
    let many =
      ap (λ (t : ℕ). i.ec_per_block * t)
        (length-ecc_blocks i.ec_per_block bs
          ∙ length-blocks_of version (data_codewords_of text version)) in
    omega (
      arith,
      length-append (interleave (longest bs) 0 bs)
          (interleave_ecc i.ec_per_block 0 (ecc_blocks i.ec_per_block bs)),
      length-interleave (longest bs) 0 bs (omega arith),
      left-concat bs ∙ ap (λ (t : List ℕ). length t) (concat-blocks_of text version u f),
      length-data_codewords_of text version f,
      length-interleave_ecc i.ec_per_block 0 (ecc_blocks i.ec_per_block bs),
      many,
    )

-- For a text that fits the chosen version: the blocks hold the data codewords in order, each block
-- with its check symbols behind it is a codeword of the Reed-Solomon code, and what comes out of
-- the interleaving has the version's number of codewords.
pub blocks_of-Codewords :
    (text : List ℕ) (version : ℕ)
    → choose_version (length text) ≡ some version
    → let i = ver_info version in
      let blocks = blocks_of i (data_codewords_of text version) in
      (concat blocks ≡ data_codewords_of text version)
      × All (IsCodeword i.ec_per_block) blocks
      × (length (build_codewords text version) ≡ i.data_codewords + i.ec_per_block * i.num_blocks)
blocks_of-Codewords text version h =
    let (low, high, fits, least) = choose_version_lem (length text) version h in
    (
      concat-blocks_of text version high fits,
      blocks_of-IsCodeword text version,
      length-build_codewords text version high fits,
    )

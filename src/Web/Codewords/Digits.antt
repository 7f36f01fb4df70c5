-- ===== src/Web/Codewords/Digits.antt =====
-- The bits of src/web/QrEncoder.cpp: BitBuf::put, the padding, and the change to bytes, against
-- the digits of a number, highest first.
use nexus_firmware.Prelude.{
  ℕ, zero, suc, ◌+◌, ◌*◌, ◌/◌, ◌%◌, ◌^◌, ◌<◌, ◌≡◌, refl, sym, ap, ◌∙◌, List, [], ◌∷◌, ◌++◌, ◌==◌,
  if◌then◌else◌, arith, at, length, length-append, All, All-append, IsByte,
}
use nexus_firmware.Web.Codewords.{put_bits, put_text, byte_at, to_bytes, pad_bytes}
use native.Mathlib.Nat.{div-div-eq-div-mul, pow-suc}
use mathlib.Core.List.{append-nil, append_assoc}
use Prim.Native.Nat.{bit_xor}

-- The `k` lowest digits, the highest first.
unfoldable pub msb : ℕ → ℕ → List ℕ
msb zero a = []
msb (suc k) a = msb k (a / 2) ++ (a % 2 ∷ [])

unfoldable pub number : ℕ → List ℕ → ℕ
number a [] = a
number a (b ∷ bs) = number (a * 2 + b) bs

unfoldable pub expand : List ℕ → List ℕ
expand [] = []
expand (c ∷ cs) = msb 8 c ++ expand cs

abbrev pub IsBit : ℕ → Type 0
IsBit b = b < 2

msb_front : (k a : ℕ) → msb (suc k) a ≡ (a / 2 ^ k) % 2 ∷ msb k a
unfolding msb
msb_front zero a = ap (λ (t : ℕ). t ∷ []) (omega arith)
msb_front (suc k) a =
    ap (λ (t : List ℕ). t ++ (a % 2 ∷ [])) (msb_front k (a / 2))
    ∙ ap (λ (t : ℕ). t % 2 ∷ (msb k (a / 2) ++ (a % 2 ∷ [])))
        (div-div-eq-div-mul a 2 (2 ^ k) ∙ ap (λ (t : ℕ). a / t) (omega (arith, pow-suc 2 k)))

pub put_bits_lem : (k a : ℕ) (bits : List ℕ) → put_bits a k bits ≡ bits ++ msb k a
unfolding put_bits msb
put_bits_lem zero a bits = sym (append-nil bits)
put_bits_lem (suc k) a bits = rw (msb_front k a) (
    put_bits_lem k a (bits ++ ((a / 2 ^ k) % 2 ∷ []))
    ∙ append_assoc bits ((a / 2 ^ k) % 2 ∷ []) (msb k a))

pub put_text_lem : (text bits : List ℕ) → put_text text bits ≡ bits ++ expand text
unfolding put_text expand
put_text_lem [] bits = sym (append-nil bits)
put_text_lem (c ∷ text) bits =
    put_text_lem text (put_bits c 8 bits)
    ∙ rw (put_bits_lem 8 c bits) (append_assoc bits (msb 8 c) (expand text))

pub length-msb : (k a : ℕ) → length (msb k a) ≡ k
unfolding msb
length-msb zero a = refl
length-msb (suc k) a =
    omega (arith, length-append (msb k (a / 2)) (a % 2 ∷ []), length-msb k (a / 2))

pub msb-IsBit : (k a : ℕ) → All IsBit (msb k a)
unfolding msb
msb-IsBit zero a = tt
msb-IsBit (suc k) a =
    All-append IsBit (msb k (a / 2)) (a % 2 ∷ []) (msb-IsBit k (a / 2)) (omega arith, tt)

pub expand-IsBit : (cs : List ℕ) → All IsBit (expand cs)
unfolding expand
expand-IsBit [] = tt
expand-IsBit (c ∷ cs) = All-append IsBit (msb 8 c) (expand cs) (msb-IsBit 8 c) (expand-IsBit cs)

pub length-expand : (cs : List ℕ) → length (expand cs) ≡ length cs * 8
unfolding expand
length-expand [] = refl
length-expand (c ∷ cs) =
    omega (arith, length-append (msb 8 c) (expand cs), length-msb 8 c, length-expand cs)

pub expand-append : (cs ds : List ℕ) → expand (cs ++ ds) ≡ expand cs ++ expand ds
unfolding expand
expand-append [] ds = refl
expand-append (a ∷ cs) ds =
    rw (expand-append cs ds) (sym (append_assoc (msb 8 a) (expand cs) (expand ds)))

number-append : (a : ℕ) (cs : List ℕ) (b : ℕ) → number a (cs ++ (b ∷ [])) ≡ number a cs * 2 + b
unfolding number
number-append a [] b = refl
number-append a (c ∷ cs) b = number-append (a * 2 + c) cs b

pub number-msb : (k a : ℕ) → a < 2 ^ k → number 0 (msb k a) ≡ a
unfolding number msb
number-msb zero a p = omega arith
number-msb (suc k) a p = omega (
  arith,
  number-append 0 (msb k (a / 2)) (a % 2),
  number-msb k (a / 2) (omega (arith, pow-suc 2 k)),
)

byte_at-suc : (k i b x : ℕ) (xs : List ℕ) → byte_at k (suc i) b (x ∷ xs) ≡ byte_at k i b xs
unfolding byte_at
byte_at-suc zero i b x xs = refl
byte_at-suc (suc k) i b x xs = byte_at-suc k (suc i) (b * 2 + at xs i) x xs

to_bytes-suc : (n i x : ℕ) (xs : List ℕ) → to_bytes n (suc i) (x ∷ xs) ≡ to_bytes n i xs
unfolding to_bytes
to_bytes-suc zero i x xs = refl
to_bytes-suc (suc n) i x xs =
    rw (byte_at-suc 8 i 0 x xs, plus_eight i)
      (ap (λ (t : List ℕ). byte_at 8 i 0 xs ∷ t) (to_bytes-suc n (i + 8) x xs))
  where
    plus_eight : (i : ℕ) → suc i + 8 ≡ suc (i + 8)
    plus_eight i = omega arith

msb_step : (k a b : ℕ) → b < 2 → msb (suc k) (a * 2 + b) ≡ msb k a ++ (b ∷ [])
unfolding msb
msb_step k a b p = rw (half a b p, odd a b p) refl
  where
    half : (a b : ℕ) → b < 2 → (a * 2 + b) / 2 ≡ a
    half a b p = omega arith

    odd : (a b : ℕ) → b < 2 → (a * 2 + b) % 2 ≡ b
    odd a b p = omega arith

msb_none : (a : ℕ) → msb 0 a ≡ []
unfolding msb
msb_none a = refl

-- The byte made of eight bits has those for its digits.
msb-byte_at :
    (b0 b1 b2 b3 b4 b5 b6 b7 : ℕ) (rest : List ℕ)
    → All IsBit (b0 ∷ b1 ∷ b2 ∷ b3 ∷ b4 ∷ b5 ∷ b6 ∷ b7 ∷ rest)
    → msb 8 (byte_at 8 0 0 (b0 ∷ b1 ∷ b2 ∷ b3 ∷ b4 ∷ b5 ∷ b6 ∷ b7 ∷ rest))
      ≡ b0 ∷ b1 ∷ b2 ∷ b3 ∷ b4 ∷ b5 ∷ b6 ∷ b7 ∷ []
unfolding byte_at
msb-byte_at b0 b1 b2 b3 b4 b5 b6 b7 rest (p0, (p1, (p2, (p3, (p4, (p5, (p6, (p7, p)))))))) =
    rw
      (
        msb_step 7 ((((((((0 * 2 + b0) * 2 + b1) * 2 + b2) * 2 + b3) * 2 + b4) * 2 + b5) * 2 + b6))
            b7 p7,
        msb_step 6 (((((((0 * 2 + b0) * 2 + b1) * 2 + b2) * 2 + b3) * 2 + b4) * 2 + b5)) b6 p6,
        msb_step 5 ((((((0 * 2 + b0) * 2 + b1) * 2 + b2) * 2 + b3) * 2 + b4)) b5 p5,
        msb_step 4 (((((0 * 2 + b0) * 2 + b1) * 2 + b2) * 2 + b3)) b4 p4,
        msb_step 3 ((((0 * 2 + b0) * 2 + b1) * 2 + b2)) b3 p3,
        msb_step 2 (((0 * 2 + b0) * 2 + b1)) b2 p2,
        msb_step 1 ((0 * 2 + b0)) b1 p1,
        msb_step 0 0 b0 p0,
        msb_none 0,
      )
      refl

-- The change to bytes keeps the bits, where there are whole bytes of them.
pub expand-to_bytes :
    (n : ℕ) (bits : List ℕ)
    → length bits ≡ n * 8
    → All IsBit bits
    → expand (to_bytes n 0 bits) ≡ bits
unfolding to_bytes expand
expand-to_bytes zero [] l h = refl
expand-to_bytes zero (b ∷ bits) l h = absurd (omega arith)
expand-to_bytes (suc n) (b0 ∷ b1 ∷ b2 ∷ b3 ∷ b4 ∷ b5 ∷ b6 ∷ b7 ∷ rest) l h =
    rw
      (
        msb-byte_at b0 b1 b2 b3 b4 b5 b6 b7 rest h,
        to_bytes-suc n 7 b0 (b1 ∷ b2 ∷ b3 ∷ b4 ∷ b5 ∷ b6 ∷ b7 ∷ rest),
        to_bytes-suc n 6 b1 (b2 ∷ b3 ∷ b4 ∷ b5 ∷ b6 ∷ b7 ∷ rest),
        to_bytes-suc n 5 b2 (b3 ∷ b4 ∷ b5 ∷ b6 ∷ b7 ∷ rest),
        to_bytes-suc n 4 b3 (b4 ∷ b5 ∷ b6 ∷ b7 ∷ rest),
        to_bytes-suc n 3 b4 (b5 ∷ b6 ∷ b7 ∷ rest),
        to_bytes-suc n 2 b5 (b6 ∷ b7 ∷ rest),
        to_bytes-suc n 1 b6 (b7 ∷ rest),
        to_bytes-suc n 0 b7 rest,
        expand-to_bytes n rest (omega arith) (h.1.1.1.1.1.1.1.1),
      )
      refl
expand-to_bytes (suc n) bits l h = absurd (omega arith)

at-IsBit : (bits : List ℕ) (i : ℕ) → All IsBit bits → at bits i < 2
at-IsBit [] i h = omega arith
at-IsBit (b ∷ bits) zero h = h.0
at-IsBit (b ∷ bits) (suc i) h = at-IsBit bits i (h.1)

byte_at-IsByte : (bits : List ℕ) (i : ℕ) → All IsBit bits → IsByte (byte_at 8 i 0 bits)
unfolding byte_at
byte_at-IsByte bits i h = omega (
  arith,
  at-IsBit bits i h,
  at-IsBit bits (suc i) h,
  at-IsBit bits (suc (suc i)) h,
  at-IsBit bits (suc (suc (suc i))) h,
  at-IsBit bits (suc (suc (suc (suc i)))) h,
  at-IsBit bits (suc (suc (suc (suc (suc i))))) h,
  at-IsBit bits (suc (suc (suc (suc (suc (suc i)))))) h,
  at-IsBit bits (suc (suc (suc (suc (suc (suc (suc i))))))) h,
)

pub to_bytes-IsByte : (n i : ℕ) (bits : List ℕ) → All IsBit bits → All IsByte (to_bytes n i bits)
unfolding to_bytes
to_bytes-IsByte zero i bits h = tt
to_bytes-IsByte (suc n) i bits h = (byte_at-IsByte bits i h, to_bytes-IsByte n (i + 8) bits h)

pub pad_bytes-IsByte :
    (n pi : ℕ) (block : List ℕ) → All IsByte block → All IsByte (pad_bytes n pi block)
unfolding pad_bytes
pad_bytes-IsByte zero pi block h = h
pad_bytes-IsByte (suc n) pi block h =
    let pad : ℕ = if pi == 0 then 0xec else 0x11 in
    pad_bytes-IsByte n (bit_xor pi 1) (block ++ (pad ∷ []))
      (All-append IsByte block (pad ∷ []) h (ground arith, tt))

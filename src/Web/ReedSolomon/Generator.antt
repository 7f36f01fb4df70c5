-- ===== src/Web/ReedSolomon/Generator.antt =====
-- The generator polynomial of rsEncode of src/web/QrEncoder.cpp: its coefficients and its roots.
use nexus_firmware.Prelude.{
  ℕ, zero, suc, ◌+◌, ◌<◌, ◌≡◌, refl, sym, ap, subst, ◌∙◌, ◌⊎◌, inl, inr, List, [], ◌∷◌, ◌++◌, All,
  arith, length, at, reverse, reverse-cons, repeat, IsByte,
}
use nexus_firmware.Prelude.Bits.{xor_comm, xor_assoc, xor-zero, xor-byte, xor_self}
use nexus_firmware.Web.Galois.{gf, mul}
use nexus_firmware.Web.Galois.Field.{mul_comm, mul-IsByte, mul_assoc, xor-mul, mul-xor, zero-mul}
use nexus_firmware.Web.Galois.Tables.{exp-IsByte}
use nexus_firmware.Web.ReedSolomon.{xor_at, grow, generator_from, generator}
use nexus_firmware.Web.ReedSolomon.Polynomial.{
  value, value-reverse, All-reverse, length-reverse, value_low, value_low-IsByte,
}
use Prim.Native.Nat.{bit_xor}

grow-suc :
    (f : ℕ) (gs : List ℕ) (j x : ℕ) (next : List ℕ)
    → grow f gs (suc j) (x ∷ next) ≡ x ∷ grow f gs j next
unfolding grow xor_at
grow-suc f [] j x next = refl
grow-suc f (g ∷ gs) j x next = grow-suc f gs (suc j) x (xor_at j (mul g f) (xor_at (suc j) g next))

-- One coefficient after the other, with the carry from the one below.
scaled : ℕ → List ℕ → ℕ → List ℕ
scaled f [] c = c ∷ []
scaled f (g ∷ gs) c = bit_xor c (mul g f) ∷ scaled f gs (bit_xor 0 g)

grow-scaled : (f : ℕ) (gs : List ℕ) (c : ℕ) → grow f gs 0 (c ∷ repeat (length gs) 0) ≡ scaled f gs c
unfolding grow xor_at scaled
grow-scaled f [] c = refl
grow-scaled f (g ∷ gs) c =
    grow-suc f gs 0 (bit_xor c (mul g f)) (bit_xor 0 g ∷ repeat (length gs) 0)
    ∙ ap (λ (t : List ℕ). bit_xor c (mul g f) ∷ t) (grow-scaled f gs (bit_xor 0 g))

zero-xor : (a : ℕ) → bit_xor 0 a ≡ a
zero-xor a = xor_comm 0 a ∙ xor-zero a

shuffle : (c a b d : ℕ) → bit_xor (bit_xor c a) (bit_xor b d) ≡ bit_xor c (bit_xor (bit_xor b a) d)
shuffle c a b d = rw (xor_assoc c a (bit_xor b d), sym (xor_assoc a b d), xor_comm a b) refl

scaled-value :
    (x f : ℕ) (gs : List ℕ) (c : ℕ)
    → IsByte x
    → IsByte f
    → All IsByte gs
    → IsByte c
    → value_low x (scaled f gs c) ≡ bit_xor c (mul (bit_xor x f) (value_low x gs))
unfolding scaled value_low
scaled-value x f [] c p q h b =
    rw (mul_comm x 0, zero-mul x, mul_comm (bit_xor x f) 0, zero-mul (bit_xor x f)) refl
scaled-value x f (g ∷ gs) c p q h b =
    let v = value_low x gs in
    let w = value_low-IsByte x gs (h.1) in
    let s = xor-byte x f p q in
    rw
      (
        zero-xor g,
        scaled-value x f gs g p q (h.1) (h.0),
        mul-xor g (mul (bit_xor x f) v) x (h.0) (mul-IsByte (bit_xor x f) v) p,
        mul-xor g (mul x v) (bit_xor x f) (h.0) (mul-IsByte x v) s,
        xor-mul x f g p q (h.0),
        mul_comm f g,
        sym (mul_assoc (bit_xor x f) x v s p w),
        mul_comm (bit_xor x f) x,
        mul_assoc x (bit_xor x f) v p s w,
      )
      (shuffle c (mul g f) (mul x g) (mul x (mul (bit_xor x f) v)))

scaled-bytes : (f : ℕ) (gs : List ℕ) (c : ℕ) → All IsByte gs → IsByte c → All IsByte (scaled f gs c)
unfolding scaled
scaled-bytes f [] c h b = (b, tt)
scaled-bytes f (g ∷ gs) c h b = (
  xor-byte c (mul g f) b (mul-IsByte g f),
  scaled-bytes f gs (bit_xor 0 g) (h.1) (rw (zero-xor g) (h.0)),
)

pub last : ℕ → List ℕ → ℕ
last c [] = c
last c (x ∷ xs) = last x xs

scaled-last : (f d : ℕ) (gs : List ℕ) (c : ℕ) → last d (scaled f gs c) ≡ last c gs
unfolding scaled last
scaled-last f d [] c = refl
scaled-last f d (g ∷ gs) c = rw (zero-xor g) (scaled-last f (bit_xor c (mul g f)) gs g)

scaled-length : (f : ℕ) (gs : List ℕ) (c : ℕ) → length (scaled f gs c) ≡ length gs + 1
unfolding scaled
scaled-length f [] c = refl
scaled-length f (g ∷ gs) c = omega (arith, scaled-length f gs (bit_xor 0 g))

plus_one : (n : ℕ) → n + 1 ≡ suc n
plus_one n = omega arith

grow_lem : (f : ℕ) (gen : List ℕ) → grow f gen 0 (repeat (length gen + 1) 0) ≡ scaled f gen 0
grow_lem f gen = rw (plus_one (length gen)) (grow-scaled f gen 0)

-- After i turns: bytes, i + 1 of them, the last one 1, and the first i powers are roots.
unfoldable pub IsGenerator : ℕ → List ℕ → Type 0
IsGenerator i gen =
    All IsByte gen
    × (last 0 gen ≡ 1)
    × (length gen ≡ i + 1)
    × ((k : ℕ) → k < i → value_low (at gf.exp k) gen ≡ 0)

step-IsGenerator :
    (i : ℕ) (gen : List ℕ)
    → IsGenerator i gen
    → IsGenerator (suc i) (grow (at gf.exp i) gen 0 (repeat (length gen + 1) 0))
unfolding IsGenerator
step-IsGenerator i gen (bytes, monic, size, roots) = rw (grow_lem (at gf.exp i) gen) (
  scaled-bytes (at gf.exp i) gen 0 bytes (omega arith),
  last_lem gen monic,
  omega (arith, scaled-length (at gf.exp i) gen 0),
  λ k p.
      rw
        (
          scaled-value (at gf.exp k) (at gf.exp i) gen 0 (exp-IsByte k) (exp-IsByte i) bytes
              (omega arith),
          zero-xor (mul (bit_xor (at gf.exp k) (at gf.exp i)) (value_low (at gf.exp k) gen)),
        )
        (vanishes k p),
)
  where
    last_lem : (gs : List ℕ) → last 0 gs ≡ 1 → last 0 (scaled (at gf.exp i) gs 0) ≡ 1
    last_lem gs h = scaled-last (at gf.exp i) 0 gs 0 ∙ h

    vanishes :
        (k : ℕ)
        → k < suc i
        → mul (bit_xor (at gf.exp k) (at gf.exp i)) (value_low (at gf.exp k) gen) ≡ 0
    vanishes k p = elim (eq_or_lt k i p) [
      | inl e ↦ rw (e, xor_self (at gf.exp i)) (zero-mul (value_low (at gf.exp i) gen))
      | inr l ↦
          rw (roots k l, mul_comm (bit_xor (at gf.exp k) (at gf.exp i)) 0)
            (zero-mul (bit_xor (at gf.exp k) (at gf.exp i)))
    ]
      where
        eq_or_lt : (k i : ℕ) → k < suc i → (k ≡ i) ⊎ (k < i)
        eq_or_lt k i p = ground arith

generator_from-IsGenerator :
    (n i : ℕ) (gen : List ℕ) → IsGenerator i gen → IsGenerator (n + i) (generator_from n i gen)
unfolding generator_from
generator_from-IsGenerator zero i gen h = subst (λ k. IsGenerator k gen) (omega arith) h
generator_from-IsGenerator (suc n) i gen h =
    subst (λ k. IsGenerator k (generator_from (suc n) i gen)) (omega arith)
      (generator_from-IsGenerator n (suc i) (grow (at gf.exp i) gen 0 (repeat (length gen + 1) 0))
        (step-IsGenerator i gen h))

pub generator-IsGenerator : (ec_len : ℕ) → IsGenerator ec_len (generator ec_len)
unfolding generator IsGenerator last
generator-IsGenerator ec_len =
    subst (λ k. IsGenerator k (generator ec_len)) (omega arith)
      (generator_from-IsGenerator ec_len 0 (1 ∷ []) one-IsGenerator)
  where
    one-IsGenerator : IsGenerator 0 (1 ∷ [])
    one-IsGenerator = ((omega arith, tt), refl, omega arith, λ k p. absurd (omega arith))

reverse-last : (c : ℕ) (cs : List ℕ) → (ds : List ℕ) × (reverse (c ∷ cs) ≡ last c cs ∷ ds)
unfolding last
reverse-last c [] = ([], refl)
reverse-last c (d ∷ cs) =
    let (ds, e) = reverse-last d cs in
    (ds ++ (c ∷ []), reverse-cons c (d ∷ cs) ∙ ap (λ (t : List ℕ). t ++ (c ∷ [])) e)

-- Highest first, the generator has the coefficient 1 in front, `ec_len` more, and the roots.
unfoldable pub IsDivisor : ℕ → List ℕ → Type 0
IsDivisor ec_len gen =
    (ds : List ℕ) × (gen ≡ 1 ∷ ds)
    × (length ds ≡ ec_len)
    × All IsByte ds
    × ((k : ℕ) → k < ec_len → value (at gf.exp k) (1 ∷ ds) ≡ 0)

reverse-IsDivisor :
    (ec_len : ℕ) (gen : List ℕ) → IsGenerator ec_len gen → IsDivisor ec_len (reverse gen)
unfolding IsGenerator IsDivisor last
reverse-IsDivisor ec_len [] (bytes, monic, size, roots) = absurd (omega arith)
reverse-IsDivisor ec_len (c ∷ cs) (bytes, monic, size, roots) =
    let (ds, e) = reverse-last c cs in
    let front = e ∙ ap (λ (t : ℕ). t ∷ ds) monic in
    let long = ap (λ (t : List ℕ). length t) front in
    (
      ds,
      front,
      omega (arith, sym long ∙ length-reverse (c ∷ cs)),
      (subst (All IsByte) front (All-reverse (c ∷ cs) bytes)).1,
      λ k p.
          ap (value (at gf.exp k)) (sym front)
          ∙ value-reverse (at gf.exp k) (c ∷ cs) (exp-IsByte k) bytes
          ∙ roots k p,
    )

pub generator-IsDivisor : (ec_len : ℕ) → IsDivisor ec_len (reverse (generator ec_len))
generator-IsDivisor ec_len =
    reverse-IsDivisor ec_len (generator ec_len) (generator-IsGenerator ec_len)

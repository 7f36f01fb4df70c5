-- ===== src/Web/Codewords/Version.antt =====
-- chooseVersion of src/web/QrEncoder.cpp.
use nexus_firmware.Prelude.{
  ℕ, zero, suc, ◌+◌, ◌-◌, ◌*◌, ◌^◌, ◌<◌, ◌≤◌, ◌≡◌, refl, subst, ◌⊎◌, inl, inr, Bool-cases, Bool,
  true, some, leb, arith, all_below, all_below_lem,
}
use nexus_firmware.Web.Codewords.{
  ver_info, k_ver_m, choose_version, choose_from, need_bits, char_count_bits,
}
use mathlib.Core.Option.{some-injective}
use native.Mathlib.Nat.{one-le-pow}

-- What chooseVersion returns fits, and no smaller version does.
abbrev pub Fits : ℕ → ℕ → Type 0
Fits v n = need_bits v n ≤ (ver_info v).data_codewords * 8

choose_from_lem :
    (k v n w : ℕ)
    → choose_from k v n ≡ some w
    → (v ≤ w)
      × (w < v + k)
      × Fits w n
      × ((u : ℕ) → v ≤ u → u < w → (ver_info u).data_codewords * 8 < need_bits u n)
unfolding choose_from
choose_from_lem zero v n w h = absurd (cc)
choose_from_lem (suc k) v n w h =
    elim (Bool-cases (leb (need_bits v n) ((ver_info v).data_codewords * 8))) [
      | inl e ↦
          let q = some-injective v w (rw e at h) in
          (
            omega (arith, q),
            omega (arith, q),
            subst (λ t. Fits t n) q (ground arith),
            λ u l r. absurd (omega (arith, q)),
          )
      | inr e ↦
          let (l, r, f, m) = choose_from_lem k (suc v) n w (rw e at h) in
          (
            omega arith,
            omega arith,
            f,
            λ u p q. elim (eq_or_above v u p) [
              | inl x ↦
                  subst (λ t. (ver_info t).data_codewords * 8 < need_bits t n) x (ground arith)
              | inr x ↦ m u x q
            ],
          )
    ]
  where
    eq_or_above : (v u : ℕ) → v ≤ u → (v ≡ u) ⊎ (suc v ≤ u)
    eq_or_above v u p = ground arith

-- The version is between 1 and 10, the text fits it, and no smaller version is wide enough.
pub choose_version_lem :
    (n w : ℕ)
    → choose_version n ≡ some w
    → (1 ≤ w)
      × (w ≤ 10)
      × Fits w n
      × ((u : ℕ) → 1 ≤ u → u < w → (ver_info u).data_codewords * 8 < need_bits u n)
unfolding choose_version
choose_version_lem n w h = let (l, r, f, m) = choose_from_lem 10 1 n w h in (l, omega arith, f, m)

-- The count of the bytes fits its field.
abbrev short : ℕ → Bool
short v =
    leb ((ver_info v).data_codewords * 8) (4 + char_count_bits v + (2 ^ char_count_bits v - 1) * 8)

all_short : all_below 11 short ≡ true
unfolding ver_info k_ver_m char_count_bits
all_short = refl

pub count_lem : (v n : ℕ) → v ≤ 10 → Fits v n → n < 2 ^ char_count_bits v
unfolding need_bits
count_lem v n l f =
    ground (arith, all_below_lem 11 short v all_short, one-le-pow (char_count_bits v) 2)

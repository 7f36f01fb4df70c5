-- ===== src/Web/Matrix/Kept.antt =====
-- The zig-zag of src/web/QrEncoder.cpp writes only where no module stands.
use nexus_firmware.Prelude.{
  ℕ, zero, suc, ◌-◌, ◌≡◌, ◌≢◌, refl, sym, ap, ◌∙◌, ◌⊎◌, inl, inr, List, [], ◌∷◌, Option, none, some,
  Bool, true, not, ◌==◌, if◌then◌else◌, put, Bool-cases, arith, count_up, count_up-keeps,
}
use nexus_firmware.Web.Matrix.{
  Grid, Matrix, Placing, look, cell, write, set, place_bit, place_pair, place_columns, place_data,
  bits_of, next_bit, is_unset,
}

eq_or : (a b : ℕ) → (a ≡ b) ⊎ (a ≢ b)
eq_or a b = ground arith

look-put_other {ℓ} :
    {A : Type ℓ} (d a : A) (i j : ℕ) (xs : List A) → i ≢ j → look d (put i a xs) j ≡ look d xs j
look-put_other d a i j [] n = refl
look-put_other d a zero zero (x ∷ xs) n = absurd (n refl)
look-put_other d a zero (suc j) (x ∷ xs) n = refl
look-put_other d a (suc i) zero (x ∷ xs) n = refl
look-put_other d a (suc i) (suc j) (x ∷ xs) n = look-put_other d a i j xs (λ e. n (ap suc e))

-- A row that is replaced, where there is one.
look-put_same :
    (a : List (Option ℕ)) (i : ℕ) (g : Grid)
    → (look [] (put i a g) i ≡ a) ⊎ (look [] (put i a g) i ≡ look [] g i)
look-put_same a i [] = inr refl
look-put_same a zero (x ∷ g) = inl refl
look-put_same a (suc i) (x ∷ g) = look-put_same a i g

cell-write_row :
    (r c r' c' : ℕ) (a : Option ℕ) (g : Grid) → r ≢ r' → cell (write r c a g) r' c' ≡ cell g r' c'
cell-write_row r c r' c' a g n =
    ap (λ (t : List (Option ℕ)). look none t c')
      (look-put_other [] (put c a (look [] g r)) r r' g n)

cell-write_other :
    (r c r' c' : ℕ) (a : Option ℕ) (g : Grid)
    → (r ≢ r') ⊎ (c ≢ c')
    → cell (write r c a g) r' c' ≡ cell g r' c'
cell-write_other r c r' c' a g (inl n) = cell-write_row r c r' c' a g n
cell-write_other r c r' c' a g (inr n) = elim (eq_or r r') [
  | inr m ↦ cell-write_row r c r' c' a g m
  | inl e ↦ rw (sym e) (elim (look-put_same (put c a (look [] g r)) r g) [
    | inl f ↦
        ap (λ (t : List (Option ℕ)). look none t c') f ∙ look-put_other none a c c' (look [] g r) n
    | inr f ↦ ap (λ (t : List (Option ℕ)). look none t c') f
  ])
]

-- The module at (r, c) is set to v.
Stands : ℕ → ℕ → ℕ → Placing → Type 0
Stands r c v p = cell p.matrix.m r c ≡ some v

place_bit-Stands :
    (r c v row col : ℕ) (p : Placing) → Stands r c v p → Stands r c v (place_bit row col p)
unfolding place_bit Stands set
place_bit-Stands r c v row col p h = elim (Bool-cases (is_unset (cell p.matrix.m row col))) [
  | inr e ↦ rw e h
  | inl e ↦
      rw e (cell-write_other row col r c (some (next_bit p.bits)) p.matrix.m (elsewhere e) ∙ h)
]
  where
    elsewhere : is_unset (cell p.matrix.m row col) ≡ true → (row ≢ r) ⊎ (col ≢ c)
    elsewhere e = elim (eq_or row r) [
      | inr m ↦ inl m
      | inl x ↦ elim (eq_or col c) [
        | inr m ↦ inr m
        | inl y ↦
            let here : cell p.matrix.m row col ≡ some v =
              ap (λ t. cell p.matrix.m t col) x ∙ ap (cell p.matrix.m r) y ∙ h in
            absurd (cc (e, ap is_unset here))
      ]
    ]

place_pair-Stands :
    (r c v : ℕ) (upward : Bool) (col i : ℕ) (p : Placing)
    → Stands r c v p
    → Stands r c v (place_pair upward col i p)
unfolding place_pair
place_pair-Stands r c v upward col i p h =
    let row = if upward then p.matrix.n - 1 - i else i in
    count_up-keeps (Stands r c v) (λ c. place_bit row (col - c))
      (λ k q. place_bit-Stands r c v row (col - k) q) 2 0 p h

place_columns-Stands :
    (r c v fuel col : ℕ) (upward : Bool) (p : Placing)
    → Stands r c v p
    → Stands r c v (place_columns fuel col upward p)
unfolding place_columns
place_columns-Stands r c v zero col upward p h = h
place_columns-Stands r c v (suc fuel) col upward p h = elim (Bool-cases (col == 0)) [
  | inl e ↦ rw e h
  | inr e ↦ rw e (
      let col' : ℕ = if col == 6 then 5 else col in
      place_columns-Stands r c v fuel (col' - 2) (not upward)
        (count_up p.matrix.n 0 (place_pair upward col') p)
        (count_up-keeps (Stands r c v) (place_pair upward col')
          (λ i q. place_pair-Stands r c v upward col' i q) p.matrix.n 0 p h))
]

-- A module of the function patterns is as it was when the data have been placed.
pub place_data_keeps :
    (codewords : List ℕ) (mx : Matrix) (r c v : ℕ)
    → cell mx.m r c ≡ some v
    → cell (place_data codewords mx).m r c ≡ some v
unfolding place_data Stands
place_data_keeps codewords mx r c v h =
    place_columns-Stands r c v mx.n (mx.n - 1) true
      (record { bits = bits_of codewords; matrix = mx }) h

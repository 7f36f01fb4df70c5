-- ===== src/Prelude/Arrays.antt =====
-- Vectors that are read and written by their indices. An index out of range is undefined in the
-- source; here such a read gives 0 and such a write changes nothing.
use Prim.Native.Nat.{ℕ, zero, suc, ◌<◌}
use mathlib.Core.Path.{◌≡◌, refl}
use mathlib.Core.Bool.{Bool, true, ◌&&◌}
use mathlib.Core.List.{List, [], ◌∷◌}
use native.Mathlib.Omega.{arith}
use nexus_firmware.Prelude.Lists.{length}

abbrev pub at : List ℕ → ℕ → ℕ
at [] i = 0
at (x ∷ xs) zero = x
at (x ∷ xs) (suc i) = at xs i

abbrev pub put {ℓ} : {A : Type ℓ} → ℕ → A → List A → List A
put i a [] = []
put zero a (x ∷ xs) = a ∷ xs
put (suc i) a (x ∷ xs) = x ∷ put i a xs

-- `std::vector<A>(n, a)`.
abbrev pub repeat {ℓ} : {A : Type ℓ} → ℕ → A → List A
repeat zero a = []
repeat (suc n) a = a ∷ repeat n a

pub length-repeat {ℓ} : {A : Type ℓ} (n : ℕ) (a : A) → length (repeat n a) ≡ n
length-repeat zero a = refl
length-repeat (suc n) a = omega (arith, length-repeat n a)

pub length-put {ℓ} : {A : Type ℓ} (i : ℕ) (a : A) (xs : List A) → length (put i a xs) ≡ length xs
length-put i a [] = refl
length-put zero a (x ∷ xs) = refl
length-put (suc i) a (x ∷ xs) = omega (arith, length-put i a xs)

-- Every number below a bound, checked by evaluation.
abbrev pub all_below : ℕ → (ℕ → Bool) → Bool
all_below zero p = true
all_below (suc n) p = p n && all_below n p

pub all_below_lem : (n : ℕ) (p : ℕ → Bool) (x : ℕ) → all_below n p ≡ true → x < n → p x ≡ true
all_below_lem zero p x h lt = absurd (omega arith)
all_below_lem (suc n) p x h lt = ground (arith, all_below_lem n p x)

-- `n` turns of a loop that counts up from i.
unfoldable pub count_up {ℓ} : {A : Type ℓ} → ℕ → ℕ → (ℕ → A → A) → A → A
count_up zero i step a = a
count_up (suc n) i step a = count_up n (suc i) step (step i a)

pub count_up-keeps {ℓ κ} :
    {A : Type ℓ} (P : A → Type κ) (step : ℕ → A → A)
    → ((i : ℕ) (a : A) → P a → P (step i a))
    → (n i : ℕ) (a : A) → P a
    → P (count_up n i step a)
unfolding count_up
count_up-keeps P step keep zero i a h = h
count_up-keeps P step keep (suc n) i a h =
    count_up-keeps P step keep n (suc i) (step i a) (keep i a h)

-- ===== src/Dsp/Delay/Line.antt =====
-- The ring buffer of src/dsp/Delay.h is a queue of a fixed length.
use nexus_firmware.Prelude.{
  ℕ, zero, suc, ◌+◌, ◌%◌, ◌<◌, ◌≤◌, ◌≡◌, refl, sym, ap, ◌∙◌, ◌⊎◌, inl, inr, List, [], ◌∷◌, ◌++◌,
  length, length-put, at, put, take, drop, arith,
}
use nexus_firmware.Dsp.Delay.{Delay, turn, loop}
use native.Mathlib.Nat.{mod-eq_of_lt, mod_self}
use mathlib.Core.List.{append-nil, append_assoc}

-- The samples in the order in which they will come out.
unfoldable pub queue : Delay → List ℕ
queue d = drop d.pos d.buffer ++ take d.pos d.buffer

drop-at : (i : ℕ) (xs : List ℕ) → i < length xs → drop i xs ≡ at xs i ∷ drop (suc i) xs
drop-at i [] l = absurd (omega arith)
drop-at zero (x ∷ xs) l = refl
drop-at (suc i) (x ∷ xs) l = drop-at i xs (omega arith)

drop-put : (i x : ℕ) (xs : List ℕ) → drop (suc i) (put i x xs) ≡ drop (suc i) xs
drop-put i x [] = refl
drop-put zero x (y ∷ xs) = refl
drop-put (suc i) x (y ∷ xs) = drop-put i x xs

take-put :
    (i x : ℕ) (xs : List ℕ) → i < length xs → take (suc i) (put i x xs) ≡ take i xs ++ (x ∷ [])
take-put i x [] l = absurd (omega arith)
take-put zero x (y ∷ xs) l = refl
take-put (suc i) x (y ∷ xs) l = ap (λ (t : List ℕ). y ∷ t) (take-put i x xs (omega arith))

take_all : (i : ℕ) (xs : List ℕ) → length xs ≤ i → take i xs ≡ xs
take_all zero [] l = refl
take_all (suc i) [] l = refl
take_all zero (x ∷ xs) l = absurd (omega arith)
take_all (suc i) (x ∷ xs) l = ap (λ (t : List ℕ). x ∷ t) (take_all i xs (omega arith))

drop_all : (i : ℕ) (xs : List ℕ) → length xs ≤ i → drop i xs ≡ []
drop_all zero [] l = refl
drop_all (suc i) [] l = refl
drop_all zero (x ∷ xs) l = absurd (omega arith)
drop_all (suc i) (x ∷ xs) l = drop_all i xs (omega arith)

-- Where the next place is: one further, or the front.
next_place :
    (p n : ℕ) → p < n → (((p + 1) % n ≡ suc p) × (suc p < n)) ⊎ (((p + 1) % n ≡ 0) × (suc p ≡ n))
next_place p n l = elim (further p n l) [
  | inl e ↦ inl (mod-eq_of_lt {n = p + 1} (omega arith) ∙ plus_one p, e)
  | inr e ↦ inr (ap (λ t. t % n) (plus_one p ∙ e) ∙ mod_self n, e)
]
  where
    further : (p n : ℕ) → p < n → (suc p < n) ⊎ (suc p ≡ n)
    further p n l = ground arith

    plus_one : (p : ℕ) → p + 1 ≡ suc p
    plus_one p = omega arith

-- The ring read from either next place.
from_next :
    (p n x : ℕ) (xs : List ℕ)
    → p < length xs
    → ((n ≡ suc p) × (suc p < length xs)) ⊎ ((n ≡ 0) × (suc p ≡ length xs))
    → (drop n (put p x xs) ++ take n (put p x xs) ≡ (drop (suc p) xs ++ take p xs) ++ (x ∷ []))
      × (n < length (put p x xs))
from_next p n x xs l (inl (e, m)) =
    rw (e, length-put p x xs, drop-put p x xs, take-put p x xs l)
      (sym (append_assoc (drop (suc p) xs) (take p xs) (x ∷ [])), m)
from_next p n x xs l (inr (e, m)) =
    rw (e, length-put p x xs)
      (
        append-nil (put p x xs)
            ∙ sym (take_all (suc p) (put p x xs) (omega (arith, length-put p x xs)))
            ∙ take-put p x xs l
            ∙ ap (λ (t : List ℕ). (t ++ take p xs) ++ (x ∷ []))
                (sym (drop_all (suc p) xs (omega arith))),
        omega arith,
      )

-- A turn takes the first of the queue, and puts the new sample behind.
queue-turn :
    (x : ℕ) (d : Delay)
    → d.pos < length d.buffer
    → (ys : List ℕ) × (queue d ≡ at d.buffer d.pos ∷ ys)
      × (queue (turn x d) ≡ ys ++ (x ∷ []))
      × ((turn x d).pos < length (turn x d).buffer)
unfolding queue turn
queue-turn x d l = (
  drop (suc d.pos) d.buffer ++ take d.pos d.buffer,
  ap (λ (t : List ℕ). t ++ take d.pos d.buffer) (drop-at d.pos d.buffer l),
  (from_next d.pos ((d.pos + 1) % length d.buffer) x d.buffer l
      (next_place d.pos (length d.buffer) l)).0,
  (from_next d.pos ((d.pos + 1) % length d.buffer) x d.buffer l
      (next_place d.pos (length d.buffer) l)).1,
)

-- With the position inside the buffer, what comes out is what stood in the queue, and behind it what
-- went in.
pub loop-queue :
    (io : List ℕ) (d : Delay)
    → d.pos < length d.buffer
    → (loop io d).0 ≡ take (length io) (queue d ++ io)
unfolding loop
loop-queue [] d l = refl
loop-queue (x ∷ io) d l =
    let (ys, e, e', l') = queue-turn x d l in
    rw e (
      ap (λ (t : List ℕ). at d.buffer d.pos ∷ t)
        (loop-queue io (turn x d) l'
          ∙ ap (λ (t : List ℕ). take (length io) (t ++ io)) e'
          ∙ ap (take (length io)) (append_assoc ys (x ∷ []) io)))

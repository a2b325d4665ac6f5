-- ===== src/Prelude/Order.antt =====
-- Three-way comparison (Rust's `Ord::cmp` and `Ordering::then_with`).
use Prim.Native.Nat.{ℕ, compare, Ordering}
use mathlib.Core.Path.{◌≡◌, refl}
use mathlib.Core.Logic.{◌⊎◌, inl, inr}
use mathlib.Core.Bool.{Bool, true, false}
use mathlib.Core.List.{List, [], ◌∷◌}
use native.Mathlib.Omega.{arith}

abbrev pub then_with : Ordering → Ordering → Ordering
then_with Ordering.lt other = Ordering.lt
then_with Ordering.eq other = other
then_with Ordering.gt other = Ordering.gt

abbrev pub is_equal : Ordering → Bool
is_equal Ordering.lt = false
is_equal Ordering.eq = true
is_equal Ordering.gt = false

abbrev pub is_greater : Ordering → Bool
is_greater Ordering.lt = false
is_greater Ordering.eq = false
is_greater Ordering.gt = true

-- The lexicographic order of two slices.
abbrev pub compare_slices {ℓ} : {A : Type ℓ} → (A → A → Ordering) → List A → List A → Ordering
compare_slices cmp [] [] = Ordering.eq
compare_slices cmp [] (y ∷ ys) = Ordering.lt
compare_slices cmp (x ∷ xs) [] = Ordering.gt
compare_slices cmp (x ∷ xs) (y ∷ ys) = then_with (cmp x y) (compare_slices cmp xs ys)

-- Tuples of numbers are compared as slices.
abbrev pub compare_keys : List ℕ → List ℕ → Ordering
compare_keys = compare_slices compare

pub compare_self : (n : ℕ) → compare n n ≡ Ordering.eq
compare_self n = ground arith

pub compare_slices_self {ℓ} :
    {A : Type ℓ} (cmp : A → A → Ordering)
    → ((x : A) → cmp x x ≡ Ordering.eq)
    → (xs : List A) → compare_slices cmp xs xs ≡ Ordering.eq
compare_slices_self cmp same [] = refl
compare_slices_self cmp same (x ∷ xs) = rw (same x, compare_slices_self cmp same xs)

pub compare_keys_self : (xs : List ℕ) → compare_keys xs xs ≡ Ordering.eq
compare_keys_self xs = compare_slices_self compare compare_self xs

-- Keys that compare equal are equal.
pub eq_of_keys : (xs ys : List ℕ) → compare_keys xs ys ≡ Ordering.eq → xs ≡ ys
eq_of_keys [] [] h = refl
eq_of_keys [] (y ∷ ys) h = cc
eq_of_keys (x ∷ xs) [] h = cc
eq_of_keys (x ∷ xs) (y ∷ ys) h = ground (arith, eq_of_keys xs ys)

pub Ordering-cases : (o : Ordering) → (o ≡ Ordering.lt) ⊎ (o ≡ Ordering.eq) ⊎ (o ≡ Ordering.gt)
Ordering-cases Ordering.lt = inl refl
Ordering-cases Ordering.eq = inr (inl refl)
Ordering-cases Ordering.gt = inr (inr refl)

-- `xs` is not greater than `ys`.
abbrev pub AtMost : List ℕ → List ℕ → Type 0
AtMost xs ys = is_greater (compare_keys xs ys) ≡ false

pub AtMost-flips : (xs ys : List ℕ) → is_greater (compare_keys xs ys) ≡ true → AtMost ys xs
AtMost-flips [] [] h = cc
AtMost-flips [] (y ∷ ys) h = cc
AtMost-flips (x ∷ xs) [] h = refl
AtMost-flips (x ∷ xs) (y ∷ ys) h = ground (arith, AtMost-flips xs ys)

pub AtMost-less :
    (xs ys zs : List ℕ)
    → AtMost xs ys
    → compare_keys ys zs ≡ Ordering.lt
    → compare_keys xs zs ≡ Ordering.lt
AtMost-less xs [] [] h k = cc
AtMost-less xs (y ∷ ys) [] h k = cc
AtMost-less [] ys (z ∷ zs) h k = refl
AtMost-less (x ∷ xs) [] (z ∷ zs) h k = cc
AtMost-less (x ∷ xs) (y ∷ ys) (z ∷ zs) h k = ground (arith, AtMost-less xs ys zs)

pub AtMost-greater :
    (xs ys zs : List ℕ)
    → AtMost xs ys
    → compare_keys xs zs ≡ Ordering.gt
    → compare_keys ys zs ≡ Ordering.gt
AtMost-greater [] ys [] h k = cc
AtMost-greater [] ys (z ∷ zs) h k = cc
AtMost-greater (x ∷ xs) [] zs h k = cc
AtMost-greater (x ∷ xs) (y ∷ ys) [] h k = refl
AtMost-greater (x ∷ xs) (y ∷ ys) (z ∷ zs) h k = ground (arith, AtMost-greater xs ys zs)

pub AtMost-trans : (xs ys zs : List ℕ) → AtMost xs ys → AtMost ys zs → AtMost xs zs
AtMost-trans [] ys [] h k = refl
AtMost-trans [] ys (z ∷ zs) h k = refl
AtMost-trans (x ∷ xs) [] zs h k = cc
AtMost-trans (x ∷ xs) (y ∷ ys) [] h k = cc
AtMost-trans (x ∷ xs) (y ∷ ys) (z ∷ zs) h k = ground (arith, AtMost-trans xs ys zs)

-- ===== src/Prelude/Sorted.antt =====
-- Lists in order, and that `sort_by` puts a list in order.
use mathlib.Core.Path.{◌≡◌, refl}
use mathlib.Core.Bool.{Bool, true, false}
use mathlib.Core.List.{List, [], ◌∷◌}
use kickoutchi.Prelude.Tests.{if◌then◌else◌}
use kickoutchi.Prelude.Lists.{All, All-weaken}
use kickoutchi.Prelude.Sorting.{insert_by, insert_by-All, sort_by}

-- Every element comes before all that follow it.
abbrev pub IsSorted : {A : Type 0} → (A → A → Type 0) → List A → Type 0
IsSorted R [] = Unit
IsSorted R (x ∷ xs) = All (R x) xs × IsSorted R xs

pub IsSorted-weaken :
    {A : Type 0} (R S : A → A → Type 0) (xs : List A)
    → ((x y : A) → R x y → S x y)
    → IsSorted R xs
    → IsSorted S xs
IsSorted-weaken R S [] f h = tt
IsSorted-weaken R S (x ∷ xs) f h =
    (All-weaken (R x) (S x) xs (f x) h.0, IsSorted-weaken R S xs f h.1)

-- `R` is an order that the test `before` decides.
module _ {A : Type 0} (before : A → A → Bool) (R : A → A → Type 0)
    (holds : (x y : A) → before x y ≡ true → R x y) (flips : (x y : A) → before x y ≡ false → R y x)
    (chains : (x y z : A) → R x y → R y z → R x z) where
  insert_by-IsSorted : (x : A) (xs : List A) → IsSorted R xs → IsSorted R (insert_by before x xs)
  unfolding insert_by
  insert_by-IsSorted x [] h = (tt, tt)
  insert_by-IsSorted x (y ∷ ys) h =
      elim (before x y)
          as (λ b.
            before x y ≡ b → IsSorted R (if b then x ∷ y ∷ ys else y ∷ insert_by before x ys)) [
              | true ↦ λ e.
                  let first : R x y = holds x y e in
                  ((first, All-weaken (R y) (R x) ys (λ z. chains x y z first) h.0), h)
              | false ↦ λ e.
                  (insert_by-All before (R y) x ys (flips x y e) h.0, insert_by-IsSorted x ys h.1)
            ]
        refl

  pub sort_by-IsSorted : (xs : List A) → IsSorted R (sort_by before xs)
  unfolding sort_by
  sort_by-IsSorted [] = tt
  sort_by-IsSorted (x ∷ xs) = insert_by-IsSorted x (sort_by before xs) (sort_by-IsSorted xs)

-- ===== src/Prelude/Sorting.antt =====
-- Rust's stable `sort_by`, as insertion: equal keys keep their order.
use Prim.Native.Nat.{suc}
use mathlib.Core.Path.{◌≡◌, refl}
use mathlib.Core.Bool.{Bool, true, false}
use mathlib.Core.List.{List, [], ◌∷◌, Perm}
use mathlib.Core.List.Perm
use mathlib.Core.Logic.{inl, inr}
use native.Mathlib.Omega.{arith}
use kickoutchi.Prelude.Tests.{if◌then◌else◌}
use kickoutchi.Prelude.Lists.{length, All, Some, any, times}

module _ {ℓ} {A : Type ℓ} (before : A → A → Bool) where
  -- `x` goes in front of the first element that must come after it.
  unfoldable pub insert_by : A → List A → List A
  insert_by x [] = x ∷ []
  insert_by x (y ∷ ys) = if before x y then x ∷ y ∷ ys else y ∷ insert_by x ys

  unfoldable pub sort_by : List A → List A
  unfolding insert_by
  sort_by [] = []
  sort_by (x ∷ xs) = insert_by x (sort_by xs)

  pub length-insert_by : (x : A) (xs : List A) → length (insert_by x xs) ≡ suc (length xs)
  unfolding insert_by
  length-insert_by x [] = refl
  length-insert_by x (y ∷ ys) = ground (arith, length-insert_by x ys)

  pub length-sort_by : (xs : List A) → length (sort_by xs) ≡ length xs
  unfolding sort_by
  length-sort_by [] = refl
  length-sort_by (x ∷ xs) = omega (arith, length-insert_by x (sort_by xs), length-sort_by xs)

  insert_by-perm : (x : A) (xs : List A) → Perm (insert_by x xs) (x ∷ xs)
  unfolding insert_by
  insert_by-perm x [] = Perm.refl _
  insert_by-perm x (y ∷ ys) = go (before x y) (insert_by-perm x ys)
    where
      go :
          (b : Bool)
          → Perm (insert_by x ys) (x ∷ ys)
          → Perm (if b then x ∷ y ∷ ys else y ∷ insert_by x ys) (x ∷ y ∷ ys)
      go true ih = Perm.refl _
      go false ih = Perm.trans (Perm.cons y ih) (Perm.swap _ _ _)

  pub sort_by-perm : (xs : List A) → Perm (sort_by xs) xs
  unfolding sort_by
  sort_by-perm [] = Perm.refl _
  sort_by-perm (x ∷ xs) = Perm.trans (insert_by-perm x (sort_by xs)) (Perm.cons x (sort_by-perm xs))

  pub insert_by-All {κ} :
      (P : A → Type κ) (x : A) (xs : List A) → P x → All P xs → All P (insert_by x xs)
  unfolding insert_by
  insert_by-All P x [] h k = (h, k)
  insert_by-All P x (y ∷ ys) h k = ground (arith, insert_by-All P x ys)

  pub sort_by-All {κ} : (P : A → Type κ) (xs : List A) → All P xs → All P (sort_by xs)
  unfolding sort_by
  sort_by-All P [] h = h
  sort_by-All P (x ∷ xs) h = insert_by-All P x (sort_by xs) h.0 (sort_by-All P xs h.1)

  insert_by-any : (p : A → Bool) (x : A) (xs : List A) → any p (insert_by x xs) ≡ any p (x ∷ xs)
  unfolding insert_by
  insert_by-any p x [] = refl
  insert_by-any p x (y ∷ ys) = ground (arith, insert_by-any p x ys)

  pub sort_by-any : (p : A → Bool) (xs : List A) → any p (sort_by xs) ≡ any p xs
  unfolding sort_by
  sort_by-any p [] = refl
  sort_by-any p (x ∷ xs) = rw (insert_by-any p x (sort_by xs), sort_by-any p xs)

module _ {A : Type 0} (before : A → A → Bool) (p : A → Bool) where
  insert_by-times : (x : A) (xs : List A) → times p (insert_by before x xs) ≡ times p (x ∷ xs)
  unfolding insert_by
  insert_by-times x [] = refl
  insert_by-times x (y ∷ ys) = ground (arith, insert_by-times x ys)

  pub sort_by-times : (xs : List A) → times p (sort_by before xs) ≡ times p xs
  unfolding sort_by
  sort_by-times [] = refl
  sort_by-times (x ∷ xs) = ground (arith, insert_by-times x (sort_by before xs), sort_by-times xs)

module _ {A : Type 0} (before : A → A → Bool) (P : A → Type 0) where
  insert_by-Some : (x : A) (xs : List A) → Some P (x ∷ xs) → Some P (insert_by before x xs)
  unfolding insert_by
  insert_by-Some x [] m = m
  insert_by-Some x (y ∷ ys) m =
      elim (before x y) as (λ b. Some P (if b then x ∷ y ∷ ys else y ∷ insert_by before x ys)) [
        | true ↦ m
        | false ↦ elim m [
          | inl p ↦ inr (insert_by-Some x ys (inl p))
          | inr (inl p) ↦ inl p
          | inr (inr k) ↦ inr (insert_by-Some x ys (inr k))
        ]
      ]

  pub sort_by-Some : (xs : List A) → Some P xs → Some P (sort_by before xs)
  unfolding sort_by
  sort_by-Some [] m = m
  sort_by-Some (x ∷ xs) (inl p) = insert_by-Some x (sort_by before xs) (inl p)
  sort_by-Some (x ∷ xs) (inr m) = insert_by-Some x (sort_by before xs) (inr (sort_by-Some xs m))

-- ===== src/Prelude/Lists.antt =====
-- Lists measured by native numbers, and Boolean searches (Rust's iterator methods).
use Prim.Native.Nat.{ℕ, zero, suc, ◌+◌}
use mathlib.Core.Path.{◌≡◌, refl, subst}
use mathlib.Core.Logic.{◌⊎◌, inl, inr}
use mathlib.Core.Bool.{Bool, true, false, ◌||◌}
use mathlib.Core.Option.{Option, none, some}
use mathlib.Core.List.{List, [], ◌∷◌, ◌++◌, map, reverse, reverse-cons}
use native.Mathlib.Omega.{arith}
use kickoutchi.Prelude.Tests.{if◌then◌else◌}

module _ {ℓ} {A : Type ℓ} where
  abbrev pub length : List A → ℕ
  length [] = 0
  length (x ∷ xs) = suc (length xs)

  pub length-append : (xs ys : List A) → length (xs ++ ys) ≡ length xs + length ys
  length-append [] ys = omega arith
  length-append (x ∷ xs) ys = omega (arith, length-append xs ys)

  abbrev pub take : ℕ → List A → List A
  take zero xs = []
  take (suc n) [] = []
  take (suc n) (x ∷ xs) = x ∷ take n xs

  -- `Iterator::any`, `all`, `find` and `filter` with a Boolean closure.
  abbrev pub any : (A → Bool) → List A → Bool
  any p [] = false
  any p (x ∷ xs) = if p x then true else any p xs

  abbrev pub all : (A → Bool) → List A → Bool
  all p [] = true
  all p (x ∷ xs) = if p x then all p xs else false

  abbrev pub find : (A → Bool) → List A → Option A
  find p [] = none
  find p (x ∷ xs) = if p x then some x else find p xs

  abbrev pub keep : (A → Bool) → List A → List A
  keep p [] = []
  keep p (x ∷ xs) = if p x then x ∷ keep p xs else keep p xs

  -- `slice::first`.
  abbrev pub first : List A → Option A
  first [] = none
  first (x ∷ xs) = some x

  pub keep-append : (p : A → Bool) (xs ys : List A) → keep p (xs ++ ys) ≡ keep p xs ++ keep p ys
  keep-append p [] ys = refl
  keep-append p (x ∷ xs) ys = ground (arith, keep-append p xs ys)

  pub any-append : (p : A → Bool) (xs ys : List A) → any p xs ≡ true → any p (xs ++ ys) ≡ true
  any-append p [] ys h = cc
  any-append p (x ∷ xs) ys h = ground (arith, any-append p xs ys)

  pub any_ext : (p q : A → Bool) (xs : List A) → ((x : A) → p x ≡ q x) → any p xs ≡ any q xs
  any_ext p q xs h = λ i. any (λ x. h x i) xs

  -- How many elements satisfy the test.
  abbrev pub times : (A → Bool) → List A → ℕ
  times p xs = length (keep p xs)

  pub times-append : (p : A → Bool) (xs ys : List A) → times p (xs ++ ys) ≡ times p xs + times p ys
  times-append p xs ys = rw (keep-append p xs ys, length-append (keep p xs) (keep p ys))

  pub times_one : (p : A → Bool) (x : A) → times p (x ∷ []) ≡ (if p x then 1 else 0)
  times_one p x = ground arith

  -- What `find` returns satisfies the test.
  pub find_holds : (p : A → Bool) (xs : List A) {a : A} → find p xs ≡ some a → p a ≡ true
  find_holds p [] h = cc
  find_holds p (x ∷ xs) {a} h = ground (arith, find_holds p xs {a = a})

  -- Every element satisfies `P`.
  abbrev pub All {κ} : (A → Type κ) → List A → Type κ
  All P [] = Unit
  All P (x ∷ xs) = P x × All P xs

  -- Some element satisfies `P`, with its place.
  abbrev pub Some : (A → Type 0) → List A → Type 0
  Some P [] = ⊥
  Some P (x ∷ xs) = P x ⊎ Some P xs

  pub All-append {κ} : (P : A → Type κ) (xs ys : List A) → All P xs → All P ys → All P (xs ++ ys)
  All-append P [] ys h k = k
  All-append P (x ∷ xs) ys h k = (h.0, All-append P xs ys h.1 k)

  pub All-weaken {κ} :
      (P Q : A → Type κ) (xs : List A) → ((x : A) → P x → Q x) → All P xs → All Q xs
  All-weaken P Q [] f h = tt
  All-weaken P Q (x ∷ xs) f h = (f x h.0, All-weaken P Q xs f h.1)

  pub keep-All {κ} : (P : A → Type κ) (p : A → Bool) (xs : List A) → All P xs → All P (keep p xs)
  keep-All P p [] h = tt
  keep-All P p (x ∷ xs) h = elim (p x) as (λ b. All P (if b then x ∷ keep p xs else keep p xs)) [
    | true ↦ (h.0, keep-All P p xs h.1)
    | false ↦ keep-All P p xs h.1
  ]

  pub keep_holds : (p : A → Bool) (xs : List A) → All (λ x. p x ≡ true) (keep p xs)
  keep_holds p [] = tt
  keep_holds p (x ∷ xs) =
      elim (p x)
          as (λ b. p x ≡ b → All (λ y. p y ≡ true) (if b then x ∷ keep p xs else keep p xs)) [
            | true ↦ λ e. (e, keep_holds p xs)
            | false ↦ λ e. keep_holds p xs
          ]
        refl

  pub any-or : (p : A → Bool) (xs ys : List A) → any p (xs ++ ys) ≡ any p xs || any p ys
  any-or p [] ys = refl
  any-or p (x ∷ xs) ys = ground (arith, any-or p xs ys)

  pub any-reverse : (p : A → Bool) (xs : List A) → any p (reverse xs) ≡ any p xs
  any-reverse p [] = refl
  any-reverse p (x ∷ xs) =
      rw (reverse-cons x xs, any-or p (reverse xs) (x ∷ []), any-reverse p xs) (ground arith)

  pub length-reverse : (xs : List A) → length (reverse xs) ≡ length xs
  length-reverse [] = refl
  length-reverse (x ∷ xs) =
      rw (reverse-cons x xs) (omega (arith, length-append (reverse xs) (x ∷ []), length-reverse xs))

  pub List-cases : (xs : List A) → (xs ≡ []) ⊎ ((y : A) × (ys : List A) × (xs ≡ y ∷ ys))
  List-cases [] = inl refl
  List-cases (y ∷ ys) = inr (y, ys, refl)

pub any-map {ℓ κ} :
    {A : Type ℓ} {B : Type κ} (f : B → A) (p : A → Bool) (xs : List B)
    → any p (map f xs) ≡ any (λ x. p (f x)) xs
any-map f p [] = refl
any-map f p (x ∷ xs) = rw (any-map f p xs)

module _ {A : Type 0} where
  -- A property of every element holds of each.
  pub All-Some {κ} : (P : A → Type κ) (xs : List A) (a : A) → All P xs → Some (λ x. x ≡ a) xs → P a
  All-Some P [] a h m = absurd m
  All-Some P (x ∷ xs) a h (inl e) = subst P e h.0
  All-Some P (x ∷ xs) a h (inr m) = All-Some P xs a h.1 m

  pub keep-Some :
      (p : A → Bool) (xs : List A) (a : A)
      → p a ≡ true
      → Some (λ x. x ≡ a) xs
      → Some (λ x. x ≡ a) (keep p xs)
  keep-Some p [] a h m = absurd m
  keep-Some p (x ∷ xs) a h (inl e) = rw (e, h) (inl refl)
  keep-Some p (x ∷ xs) a h (inr m) =
      elim (p x) as (λ b. Some (λ y. y ≡ a) (if b then x ∷ keep p xs else keep p xs)) [
        | true ↦ inr (keep-Some p xs a h m)
        | false ↦ keep-Some p xs a h m
      ]

pub length-map {ℓ κ} :
    {A : Type ℓ} {B : Type κ} (f : A → B) (xs : List A) → length (map f xs) ≡ length xs
length-map f [] = refl
length-map f (x ∷ xs) = omega (arith, length-map f xs)

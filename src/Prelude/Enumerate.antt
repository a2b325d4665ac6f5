-- ===== src/Prelude/Enumerate.antt =====
-- Numbered lists, and that a list sorted by its numbers is determined by what it holds.
use Prim.Native.Nat.{ℕ, ◌+◌, ◌≤◌, ◌<◌}
use mathlib.Core.Path.{◌≡◌, refl, ap, ◌∙◌, sym}
use mathlib.Core.Bool.{Bool, false}
use mathlib.Core.Logic.{inl, inr}
use mathlib.Core.List.{List, [], ◌∷◌, map}
use native.Mathlib.Omega.{arith}
use kickoutchi.Prelude.Tests.{nat_beq, Bool-cases}
use kickoutchi.Prelude.Lists.{All, All-weaken, All-Some, Some, times}
use kickoutchi.Prelude.Sorted.{IsSorted}

-- `iter().enumerate()` from a first number.
abbrev pub enumerate : {A : Type 0} → ℕ → List A → List (ℕ × A)
enumerate k [] = []
enumerate k (x ∷ xs) = (k, x) ∷ enumerate (k + 1) xs

-- An element is in the list.
abbrev pub In : {A : Type 0} → List A → A → Type 0
In xs x = Some (λ y. y ≡ x) xs

pub All-In : {A : Type 0} → (xs : List A) → All (In xs) xs
All-In [] = tt
All-In (x ∷ xs) = (inl refl, All-weaken (In xs) (In (x ∷ xs)) xs (λ y m. inr m) (All-In xs))

enumerate_from : {A : Type 0} → (k : ℕ) (xs : List A) → All (λ e. k ≤ e.0) (enumerate k xs)
enumerate_from k [] = tt
enumerate_from k (x ∷ xs) = (
  omega arith,
  All-weaken (λ e. k + 1 ≤ e.0) (λ e. k ≤ e.0) (enumerate (k + 1) xs) (λ e h. omega (arith, h))
      (enumerate_from (k + 1) xs),
)

module _ {X : Type 0} (index : X → ℕ) where
  abbrev pub at : ℕ → X → Bool
  at i x = nat_beq (index x) i

  times_absent : (i : ℕ) (xs : List X) → All (λ x. i < index x) xs → times (at i) xs ≡ 0
  times_absent i [] h = refl
  times_absent i (x ∷ xs) h = ground (arith, h.0, times_absent i xs h.1)

  times_present : (i : ℕ) (xs : List X) → times (at i) xs ≡ 0 → All (λ x. at i x ≡ false) xs
  times_present i [] h = tt
  times_present i (x ∷ xs) h = elim (Bool-cases (at i x)) [
    | inl e ↦ absurd (ground (arith, h, e))
    | inr e ↦ (e, times_present i xs (ground (arith, h, e)))
  ]

module _ {A X : Type 0} (key : X → ℕ × A) where
  abbrev index : X → ℕ
  index x = (key x).0

  -- The elements that are not the first number's are in the rest of the numbered list.
  later :
      (k : ℕ) (a : A) (rest : List A) (xs : List X)
      → All (λ x. at index k x ≡ false) xs
      → All (λ x. In (enumerate k (a ∷ rest)) (key x)) xs
      → All (λ x. In (enumerate (k + 1) rest) (key x)) xs
  later k a rest [] h m = tt
  later k a rest (x ∷ xs) h (inr m, ms) = (m, later k a rest xs h.1 ms)
  later k a rest (x ∷ xs) h (inl e, ms) =
      let same : k ≡ index x = ap (λ (p : ℕ × A). p.0) e in absurd (ground (arith, h.0, same))

  -- A list in the order of its numbers that has each number as often as a numbered list, and only
  -- elements of it, is that list.
  pub eq-enumerate :
      (k : ℕ) (all : List A) (xs : List X)
      → IsSorted (λ x y. index x ≤ index y) xs
      → ((i : ℕ) → times (at index i) xs ≡ times (at (λ (e : ℕ × A). e.0) i) (enumerate k all))
      → All (λ x. In (enumerate k all) (key x)) xs
      → map key xs ≡ enumerate k all
  eq-enumerate k [] [] s c m = refl
  eq-enumerate k [] (x ∷ xs) s c m = absurd m.0
  eq-enumerate k (a ∷ rest) [] s c m = absurd (ground (arith, c k))
  eq-enumerate k (a ∷ rest) (x ∷ xs) s c (inl e, ms) =
      let same : k ≡ index x = ap (λ (p : ℕ × A). p.0) e in
      let none_below : times (at (λ (e : ℕ × A). e.0) k) (enumerate (k + 1) rest) ≡ 0 =
        times_absent (λ (e : ℕ × A). e.0) k (enumerate (k + 1) rest)
          (All-weaken (λ e. k + 1 ≤ e.0) (λ e. k < e.0) (enumerate (k + 1) rest)
            (λ e h. omega (arith, h)) (enumerate_from (k + 1) rest)) in
      let tail : (i : ℕ)
          → times (at index i) xs ≡ times (at (λ (e : ℕ × A). e.0) i) (enumerate (k + 1) rest) =
        λ i. ground (arith, c i, same) in
      rw
        (eq-enumerate (k + 1) rest xs s.1 tail
          (later k a rest xs (times_present index k xs (tail k ∙ none_below)) ms))
        (ap (λ p. p ∷ enumerate (k + 1) rest) (sym e))
  eq-enumerate k (a ∷ rest) (x ∷ xs) s c (inr m, ms) =
      let above : k + 1 ≤ index x =
        All-Some (λ (e : ℕ × A). k + 1 ≤ e.0) (enumerate (k + 1) rest) (key x)
          (enumerate_from (k + 1) rest) m in
      let absent : times (at index k) xs ≡ 0 = times_absent index k xs (
        All-weaken (λ y. index x ≤ index y) (λ y. k < index y) xs (λ y h. omega (arith, h, above))
          s.0) in
      absurd (ground (arith, c k, above, absent))

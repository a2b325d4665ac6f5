-- ===== src/Prelude/BinarySearch.antt =====
-- Rust's `slice::binary_search_by`, as far as it tells whether the element is found: halving, on
-- fuel. On a list that is not in order it may miss an element that is there.
use Prim.Native.Nat.{ℕ, zero, suc, ◌+◌, ◌≤◌, ◌/◌, Ordering}
use mathlib.Core.Path.{◌≡◌, refl, sym, ap, ◌∙◌, subst}
use mathlib.Core.Bool.{Bool, true, false}
use mathlib.Core.Logic.{inl, inr}
use mathlib.Core.List.{List, [], ◌∷◌, ◌++◌}
use native.Mathlib.Omega.{arith}
use kickoutchi.Prelude.Lists.{length, length-append, take, any, any-or, All, All-weaken}
use kickoutchi.Prelude.Order.{is_equal, Ordering-cases}
use kickoutchi.Prelude.Sorted.{IsSorted}

module _ {A : Type 0} where
  abbrev pub drop : ℕ → List A → List A
  drop zero xs = xs
  drop (suc n) [] = []
  drop (suc n) (x ∷ xs) = drop n xs

  append-take-drop : (n : ℕ) (xs : List A) → take n xs ++ drop n xs ≡ xs
  append-take-drop zero xs = refl
  append-take-drop (suc n) [] = refl
  append-take-drop (suc n) (x ∷ xs) = ap (◌∷◌ x) (append-take-drop n xs)

  length-take : (n : ℕ) (xs : List A) → length (take n xs) ≤ n
  length-take zero xs = omega arith
  length-take (suc n) [] = omega arith
  length-take (suc n) (x ∷ xs) = omega (arith, length-take n xs)

  -- The two parts of a sorted list are sorted, and no element of the first comes after one of the
  -- second.
  IsSorted-parts :
      (R : A → A → Type 0) (xs ys : List A)
      → IsSorted R (xs ++ ys)
      → IsSorted R xs × IsSorted R ys × All (λ x. All (R x) ys) xs
  IsSorted-parts R [] ys h = (tt, h, tt)
  IsSorted-parts R (x ∷ xs) ys h =
      let parts = IsSorted-parts R xs ys h.1 in
      let split = all_parts xs h.0 in ((split.0, parts.0), parts.1, (split.1, parts.2))
    where
      all_parts : (zs : List A) → All (R x) (zs ++ ys) → All (R x) zs × All (R x) ys
      all_parts [] k = (tt, k)
      all_parts (z ∷ zs) k = let rest = all_parts zs k.1 in ((k.0, rest.0), rest.1)

  -- `cmp` compares an element with the one that is sought.
  module _ (cmp : A → Ordering) where
    unfoldable pub binary_search : ℕ → List A → Bool
    binary_search zero xs = false
    binary_search (suc fuel) xs =
        let half = length xs / 2 in
        let before = binary_search fuel (take half xs) in
        elim (drop half xs) [
          | [] ↦ false
          | mid ∷ after ↦ elim (cmp mid) [
            | Ordering.eq ↦ true
            | Ordering.gt ↦ before
            | Ordering.lt ↦ binary_search fuel after
          ]
        ]

    -- In order: what precedes a lesser element is less, and what follows a greater one is greater.
    abbrev pub InOrder : A → A → Type 0
    InOrder x y =
        (cmp y ≡ Ordering.lt → cmp x ≡ Ordering.lt) × (cmp x ≡ Ordering.gt → cmp y ≡ Ordering.gt)

    abbrev found : A → Bool
    found x = is_equal (cmp x)

    none_found : (xs : List A) → All (λ x. found x ≡ false) xs → any found xs ≡ false
    none_found [] h = refl
    none_found (x ∷ xs) h = ground (arith, h.0, none_found xs h.1)

    less_before :
        (mid : A) (after xs : List A)
        → cmp mid ≡ Ordering.lt
        → All (λ x. All (InOrder x) (mid ∷ after)) xs
        → any found xs ≡ false
    less_before mid after xs e h = none_found xs (
        All-weaken (λ x. All (InOrder x) (mid ∷ after)) (λ x. found x ≡ false) xs
          (λ x k. ap is_equal (k.0.0 e)) h)

    greater_after :
        (mid : A) (after : List A)
        → cmp mid ≡ Ordering.gt
        → All (InOrder mid) after
        → any found after ≡ false
    greater_after mid after e h =
        none_found after
          (All-weaken (InOrder mid) (λ x. found x ≡ false) after (λ x k. ap is_equal (k.1 e)) h)

    -- One halving, from the two parts and the searches of what is shorter.
    halved :
        (fuel : ℕ) (front back : List A)
        → ((ys : List A)
            → length ys ≤ fuel
            → IsSorted InOrder ys
            → binary_search fuel ys ≡ any found ys)
        → length front ≤ fuel
        → length back ≤ suc fuel
        → length front ≤ length back
        → IsSorted InOrder (front ++ back)
        → (elim back [
          | [] ↦ false
          | mid ∷ after ↦ elim (cmp mid) [
            | Ordering.eq ↦ true
            | Ordering.gt ↦ binary_search fuel front
            | Ordering.lt ↦ binary_search fuel after
          ]
        ])
          ≡ any found (front ++ back)
    halved fuel [] [] searches p q shorter s = refl
    halved fuel (x ∷ front) [] searches p q shorter s = absurd (omega (arith, shorter))
    halved fuel front (mid ∷ after) searches p q shorter s =
        let parts = IsSorted-parts InOrder front (mid ∷ after) s in
        elim (Ordering-cases (cmp mid)) [
          | inr (inl e) ↦ rw (e, any-or found front (mid ∷ after)) (ground arith)
          | inl e ↦
              rw (e, any-or found front (mid ∷ after), less_before mid after front e parts.2)
                (rw (e) (searches after (omega (arith, q)) parts.1.1))
          | inr (inr e) ↦
              rw (e, any-or found front (mid ∷ after))
                (rw (e, greater_after mid after e parts.1.0)
                  (ground (arith, searches front p parts.0)))
        ]

    -- On a list in order, with fuel for its length, the search is membership.
    pub binary_search-any :
        (fuel : ℕ) (xs : List A)
        → length xs ≤ fuel
        → IsSorted InOrder xs
        → binary_search fuel xs ≡ any found xs
    unfolding binary_search
    binary_search-any zero [] h s = refl
    binary_search-any zero (x ∷ xs) h s = absurd (omega (arith, h))
    binary_search-any (suc fuel) xs h s =
        let half = length xs / 2 in
        let whole = append-take-drop half xs in
        let sum : length (take half xs) + length (drop half xs) ≡ length xs =
          sym (length-append (take half xs) (drop half xs)) ∙ ap length whole in
        halved fuel (take half xs) (drop half xs) (binary_search-any fuel)
          (omega (arith, length-take half xs, h)) (omega (arith, sum, h))
          (omega (arith, sum, length-take half xs)) (subst (IsSorted InOrder) (sym whole) s)
        ∙ ap (any found) whole

-- ===== src/Watch/Counts.antt =====
-- How many sockets of each bucket the expected events of src/watch.rs release and bind.
use kickoutchi.Prelude.{
  ℕ, zero, suc, ◌+◌, ◌-◌, ◌≤◌, ◌≡◌, refl, sym, ap, Bool, true, false, List, [], ◌∷◌, ◌++◌, map,
  arith, length, Ordering, inl, inr, if◌then◌else◌, All, Bool-cases, compare_keys, eq_of_keys,
  is_equal, ◌==◌,
}
use kickoutchi.Observation.Sockets.{SocketObservation}
use kickoutchi.Watch.{
  EventSides, baseline, bind, release, replacement, WatchEvent, bucket_key, compare_bucket,
  compare_socket,
}
use kickoutchi.Watch.Diff.{
  RemainderSide, RemainderSide-discrete, side_eq, count_remaining, bucket_rest, after_bucket,
  same_bucket, remainder_event,
}
use kickoutchi.Watch.Expected.{drop, on_side, surplus}

-- How many of the sockets are in the bucket of `k`.
abbrev pub count : SocketObservation → List SocketObservation → ℕ
count k [] = 0
count k (x ∷ xs) = (if same_bucket k x then 1 else 0) + count k xs

abbrev pub released_by : SocketObservation → EventSides → ℕ
released_by k (baseline x) = 0
released_by k (bind x) = 0
released_by k (release x) = if same_bucket k x then 1 else 0
released_by k (replacement p c) = if same_bucket k p then 1 else 0

abbrev pub bound_by : SocketObservation → EventSides → ℕ
bound_by k (baseline x) = 0
bound_by k (bind x) = if same_bucket k x then 1 else 0
bound_by k (release x) = 0
bound_by k (replacement p c) = if same_bucket k c then 1 else 0

abbrev pub released : SocketObservation → List WatchEvent → ℕ
released k [] = 0
released k (e ∷ es) = released_by k e.sides + released k es

abbrev pub bound : SocketObservation → List WatchEvent → ℕ
bound k [] = 0
bound k (e ∷ es) = bound_by k e.sides + bound k es

pub released-append :
    (k : SocketObservation) (xs ys : List WatchEvent)
    → released k (xs ++ ys) ≡ released k xs + released k ys
released-append k [] ys = omega arith
released-append k (e ∷ xs) ys = omega (arith, released-append k xs ys)

pub bound-append :
    (k : SocketObservation) (xs ys : List WatchEvent) → bound k (xs ++ ys) ≡ bound k xs + bound k ys
bound-append k [] ys = omega arith
bound-append k (e ∷ xs) ys = omega (arith, bound-append k xs ys)

-- Two sockets of one bucket are in the same bucket as any third one.
pub same_bucket-congr :
    (k a b : SocketObservation) → same_bucket a b ≡ true → same_bucket k a ≡ same_bucket k b
unfolding same_bucket compare_bucket
same_bucket-congr k a b h =
    ap (λ key. is_equal (compare_keys (bucket_key k) key))
      (eq_of_keys (bucket_key a) (bucket_key b) (ground arith))

-- The sockets are in the bucket of `k`, or are not, as the test says.
abbrev pub AllIn : Bool → SocketObservation → List SocketObservation → Type 0
AllIn b k xs = All (λ x. same_bucket k x ≡ b) xs

pub bucket_rest-AllIn :
    (k first : SocketObservation) (xs : List SocketObservation)
    → AllIn (same_bucket k first) k (bucket_rest first xs)
unfolding bucket_rest
bucket_rest-AllIn k first [] = tt
bucket_rest-AllIn k first (x ∷ xs) = elim (Bool-cases (same_bucket first x)) [
  | inl e ↦ rw e (sym (same_bucket-congr k first x e), bucket_rest-AllIn k first xs)
  | inr e ↦ rw e tt
]

pub count-bucket :
    (k first : SocketObservation) (xs : List SocketObservation)
    → count k (bucket_rest first xs) + count k (after_bucket first xs) ≡ count k xs
unfolding bucket_rest after_bucket
count-bucket k first [] = refl
count-bucket k first (x ∷ xs) = ground (arith, count-bucket k first xs)

on_side-AllIn :
    (b : Bool) (k : SocketObservation) (o : Bool) (x : SocketObservation)
    (xs : List SocketObservation)
    → same_bucket k x ≡ b
    → AllIn b k xs
    → AllIn b k (on_side o x xs)
on_side-AllIn b k true x xs h hs = (h, hs)
on_side-AllIn b k false x xs h hs = hs

pub surplus-AllIn :
    (b : Bool) (k : SocketObservation) (side : RemainderSide) (ps cs : List SocketObservation)
    → AllIn b k ps
    → AllIn b k cs
    → AllIn b k (surplus side ps cs)
unfolding surplus
surplus-AllIn b k side [] [] hp hc = tt
surplus-AllIn b k side (p ∷ ps) [] hp hc =
    on_side-AllIn b k (side == RemainderSide.release) p (surplus side ps []) hp.0
      (surplus-AllIn b k side ps [] hp.1 tt)
surplus-AllIn b k side [] (c ∷ cs) hp hc =
    on_side-AllIn b k (side == RemainderSide.bind) c (surplus side [] cs) hc.0
      (surplus-AllIn b k side [] cs tt hc.1)
surplus-AllIn b k side (p ∷ ps) (c ∷ cs) hp hc =
    elim (compare_socket p c)
      as (λ o. AllIn b k (elim o [
        | Ordering.lt ↦ on_side (side == RemainderSide.release) p (surplus side ps (c ∷ cs))
        | Ordering.gt ↦ on_side (side == RemainderSide.bind) c (surplus side (p ∷ ps) cs)
        | Ordering.eq ↦ surplus side ps cs
      ])) [
        | Ordering.lt ↦
            on_side-AllIn b k (side == RemainderSide.release) p (surplus side ps (c ∷ cs)) hp.0
              (surplus-AllIn b k side ps (c ∷ cs) hp.1 hc)
        | Ordering.gt ↦
            on_side-AllIn b k (side == RemainderSide.bind) c (surplus side (p ∷ ps) cs) hc.0
              (surplus-AllIn b k side (p ∷ ps) cs hp hc.1)
        | Ordering.eq ↦ surplus-AllIn b k side ps cs hp.1 hc.1
      ]

pub drop-AllIn :
    (b : Bool) (k : SocketObservation) (n : ℕ) (xs : List SocketObservation)
    → AllIn b k xs
    → AllIn b k (drop n xs)
drop-AllIn b k zero xs h = h
drop-AllIn b k (suc n) [] h = h
drop-AllIn b k (suc n) (x ∷ xs) h = drop-AllIn b k n xs h.1

abbrev pub weight : Bool → ℕ → ℕ
weight true n = n
weight false n = 0

pub count-AllIn :
    (b : Bool) (k : SocketObservation) (xs : List SocketObservation)
    → AllIn b k xs
    → count k xs ≡ weight b (length xs)
count-AllIn true k [] h = refl
count-AllIn false k [] h = refl
count-AllIn true k (x ∷ xs) h = ground (arith, count-AllIn true k xs h.1)
count-AllIn false k (x ∷ xs) h = ground (arith, count-AllIn false k xs h.1)

pub length-drop : (n : ℕ) (xs : List SocketObservation) → length (drop n xs) ≡ length xs - n
length-drop zero xs = omega arith
length-drop (suc n) [] = omega arith
length-drop (suc n) (x ∷ xs) = omega (arith, length-drop n xs)

count_remaining-nil :
    (ps : List SocketObservation)
    → ((count_remaining ps []).0 ≡ length ps) × ((count_remaining ps []).1 ≡ 0)
unfolding count_remaining
count_remaining-nil [] = (refl, refl)
count_remaining-nil (p ∷ ps) = (refl, refl)

-- The surplus of each side is what `count_remaining` counts.
pub length-surplus :
    (ps cs : List SocketObservation)
    → (length (surplus RemainderSide.release ps cs) ≡ (count_remaining ps cs).0)
      × (length (surplus RemainderSide.bind ps cs) ≡ (count_remaining ps cs).1)
unfolding surplus count_remaining RemainderSide-discrete
length-surplus [] [] = (refl, refl)
length-surplus (p ∷ ps) [] = (
  ground (arith, length-surplus ps [], count_remaining-nil ps),
  ground (arith, length-surplus ps [], count_remaining-nil ps),
)
length-surplus [] (c ∷ cs) =
    (ground (arith, length-surplus [] cs), ground (arith, length-surplus [] cs))
length-surplus (p ∷ ps) (c ∷ cs) = (
  ground (arith, length-surplus ps (c ∷ cs), length-surplus (p ∷ ps) cs, length-surplus ps cs),
  ground (arith, length-surplus ps (c ∷ cs), length-surplus (p ∷ ps) cs, length-surplus ps cs),
)

pub count_remaining-le :
    (ps cs : List SocketObservation)
    → ((count_remaining ps cs).0 ≤ length ps) × ((count_remaining ps cs).1 ≤ length cs)
unfolding count_remaining
count_remaining-le [] cs = omega arith
count_remaining-le (p ∷ ps) [] = omega arith
count_remaining-le (p ∷ ps) (c ∷ cs) = (
  ground (
    arith,
    count_remaining-le ps (c ∷ cs),
    count_remaining-le (p ∷ ps) cs,
    count_remaining-le ps cs,
  ),
  ground (
    arith,
    count_remaining-le ps (c ∷ cs),
    count_remaining-le (p ∷ ps) cs,
    count_remaining-le ps cs,
  ),
)

-- Pairing takes one socket of each slice.
pub count_remaining-balance :
    (ps cs : List SocketObservation)
    → length ps + (count_remaining ps cs).1 ≡ length cs + (count_remaining ps cs).0
unfolding count_remaining
count_remaining-balance [] cs = omega arith
count_remaining-balance (p ∷ ps) [] = omega arith
count_remaining-balance (p ∷ ps) (c ∷ cs) = ground (
  arith,
  count_remaining-balance ps (c ∷ cs),
  count_remaining-balance (p ∷ ps) cs,
  count_remaining-balance ps cs,
)

pub released-map :
    (k : SocketObservation) (xs : List SocketObservation)
    → (released k (map (remainder_event RemainderSide.release) xs) ≡ count k xs)
      × (released k (map (remainder_event RemainderSide.bind) xs) ≡ 0)
unfolding remainder_event
released-map k [] = (refl, refl)
released-map k (x ∷ xs) = (ground (arith, released-map k xs), ground (arith, released-map k xs))

pub bound-map :
    (k : SocketObservation) (xs : List SocketObservation)
    → (bound k (map (remainder_event RemainderSide.bind) xs) ≡ count k xs)
      × (bound k (map (remainder_event RemainderSide.release) xs) ≡ 0)
unfolding remainder_event
bound-map k [] = (refl, refl)
bound-map k (x ∷ xs) = (ground (arith, bound-map k xs), ground (arith, bound-map k xs))

-- ===== src/Watch/Buckets.antt =====
-- The slices that `prepare_next_bucket` of src/watch.rs takes, counted by bucket.
use mathlib.Core.Path.{subst}
use kickoutchi.Prelude.{
  Ordering-cases, ◌+◌, ◌≡◌, refl, sym, Bool, true, Option, some, List, [], ◌∷◌, arith, Ordering,
  inl, inr,
}
use kickoutchi.Observation.Sockets.{SocketObservation}
use kickoutchi.Watch.{compare_bucket}
use kickoutchi.Watch.Diff.{side_eq, Slices, next_slices, bucket_rest, after_bucket, same_bucket}
use kickoutchi.Watch.Counts.{count, same_bucket-congr, AllIn, bucket_rest-AllIn, count-bucket}

-- The slices lie in the bucket of `k`, or outside of it; and they take sockets away.
abbrev pub Fits :
    SocketObservation → List SocketObservation → List SocketObservation → Slices → Type 0
Fits k ps cs slices =
    (b : Bool) × AllIn b k slices.previous
    × AllIn b k slices.current
    × (count k ps ≡ count k slices.previous + count k slices.previous_after)
    × (count k cs ≡ count k slices.current + count k slices.current_after)

pub some_inj : (a b : Slices) → ◌≡◌ {A = Option Slices} (some a) (some b) → a ≡ b
some_inj a b h = cc

pub bucket-AllIn :
    (k first : SocketObservation) (xs : List SocketObservation)
    → AllIn (same_bucket k first) k (first ∷ bucket_rest first xs)
bucket-AllIn k first xs = (refl, bucket_rest-AllIn k first xs)

pub count-first :
    (k first : SocketObservation) (xs : List SocketObservation)
    → count k (first ∷ xs)
      ≡ count k (first ∷ bucket_rest first xs) + count k (after_bucket first xs)
count-first k first xs = omega (arith, count-bucket k first xs)

pub previous-Fits :
    (k p : SocketObservation) (ps cs : List SocketObservation)
    → Fits k (p ∷ ps) cs (record {
      previous = p ∷ bucket_rest p ps;
      current = [];
      previous_after = after_bucket p ps;
      current_after = cs;
    })
previous-Fits k p ps cs =
    (same_bucket k p, bucket-AllIn k p ps, tt, count-first k p ps, omega arith)

pub current-Fits :
    (k c : SocketObservation) (ps cs : List SocketObservation)
    → Fits k ps (c ∷ cs) (record {
      previous = [];
      current = c ∷ bucket_rest c cs;
      previous_after = ps;
      current_after = after_bucket c cs;
    })
current-Fits k c ps cs = (same_bucket k c, tt, bucket-AllIn k c cs, omega arith, count-first k c cs)

pub both-Fits :
    (k p c : SocketObservation) (ps cs : List SocketObservation)
    → compare_bucket p c ≡ Ordering.eq
    → Fits k (p ∷ ps) (c ∷ cs) (record {
      previous = p ∷ bucket_rest p ps;
      current = c ∷ bucket_rest c cs;
      previous_after = after_bucket p ps;
      current_after = after_bucket c cs;
    })
unfolding same_bucket
both-Fits k p c ps cs e =
    let same : same_bucket p c ≡ true = rw e refl in
    (
      same_bucket k p,
      bucket-AllIn k p ps,
      subst (λ b. AllIn b k (c ∷ bucket_rest c cs)) (sym (same_bucket-congr k p c same))
          (bucket-AllIn k c cs),
      count-first k p ps,
      count-first k c cs,
    )

pub next_slices-Fits :
    (k : SocketObservation) (ps cs : List SocketObservation) (slices : Slices)
    → next_slices ps cs ≡ some slices
    → Fits k ps cs slices
unfolding next_slices
next_slices-Fits k [] [] slices h = cc
next_slices-Fits k (p ∷ ps) [] slices h =
    subst (Fits k (p ∷ ps) []) (some_inj _ slices h) (previous-Fits k p ps [])
next_slices-Fits k [] (c ∷ cs) slices h =
    subst (Fits k [] (c ∷ cs)) (some_inj _ slices h) (current-Fits k c [] cs)
next_slices-Fits k (p ∷ ps) (c ∷ cs) slices h = elim (Ordering-cases (compare_bucket p c)) [
  | inl e ↦
      subst (Fits k (p ∷ ps) (c ∷ cs)) (some_inj _ slices (rw (e, next_slices) at h))
        (previous-Fits k p ps (c ∷ cs))
  | inr (inl e) ↦
      subst (Fits k (p ∷ ps) (c ∷ cs)) (some_inj _ slices (rw (e, next_slices) at h))
        (both-Fits k p c ps cs e)
  | inr (inr e) ↦
      subst (Fits k (p ∷ ps) (c ∷ cs)) (some_inj _ slices (rw (e, next_slices) at h))
        (current-Fits k c (p ∷ ps) cs)
]

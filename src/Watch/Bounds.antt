-- ===== src/Watch/Bounds.antt =====
-- There are expected events for all sockets, and no more events than sockets.
use kickoutchi.Prelude.{
  ℕ, zero, suc, ◌+◌, ◌<◌, ◌≤◌, ◌≡◌, refl, none, some, List, [], ◌∷◌, ◌++◌, arith, length,
  length-append, length-map, inl, inr, Option-cases,
}
use kickoutchi.Observation.Sockets.{SocketObservation}
use kickoutchi.Watch.{WatchEvent, ReplacementReadiness}
use kickoutchi.Watch.Diff.{
  remainder_event, Slices, next_slices, remainder_of, reconcile_single, reconcile_bucket,
  RemainderSide, count_remaining, bucket_rest, after_bucket,
}
use kickoutchi.Watch.Expected.{drop, surplus, pending_events, Expected, finished, bucket}
use kickoutchi.Watch.Steps.{left, slices_shrink}
use kickoutchi.Watch.Counts.{length-drop, length-surplus, count_remaining-le}

pub Expected-none :
    (before after : ReplacementReadiness) (ps cs : List SocketObservation)
    → next_slices ps cs ≡ none
    → Expected before after ps cs []
unfolding next_slices
Expected-none before after [] [] h = finished
Expected-none before after (p ∷ ps) [] h = let bad : ⊥ = cc in absurd bad
Expected-none before after [] (c ∷ cs) h = let bad : ⊥ = cc in absurd bad
Expected-none before after (p ∷ ps) (c ∷ cs) h = let bad : ⊥ = ground arith in absurd bad

-- The buckets run out, so there are expected events.
pub Expected-exists :
    (before after : ReplacementReadiness) (rounds : ℕ) (ps cs : List SocketObservation)
    → left ps cs < rounds
    → (es : List WatchEvent) × Expected before after ps cs es
unfolding next_slices
Expected-exists before after zero ps cs enough = absurd (omega arith)
Expected-exists before after (suc rounds) ps cs enough = elim (Option-cases (next_slices ps cs)) [
  | inl e ↦ ([], Expected-none before after ps cs e)
  | inr (slices, e) ↦
      let shrink = slices_shrink ps cs slices e in
      let (es, rest) =
        Expected-exists before after rounds slices.previous_after slices.current_after
          (omega arith) in
      (
        pending_events (reconcile_bucket before after slices.previous slices.current) ++ es,
        bucket slices e rest,
      )
]

pub remainder_of-le :
    (ps cs : List SocketObservation)
    → length (pending_events (remainder_of ps cs)) ≤ length ps + length cs
unfolding remainder_of
remainder_of-le ps cs = ground (
  arith,
  count_remaining-le ps cs,
  length-surplus ps cs,
  length-drop (count_remaining ps cs).1 (surplus RemainderSide.release ps cs),
  length-drop (count_remaining ps cs).0 (surplus RemainderSide.bind ps cs),
  length-map (remainder_event RemainderSide.release)
      (drop (count_remaining ps cs).1 (surplus RemainderSide.release ps cs)),
  length-map (remainder_event RemainderSide.bind)
      (drop (count_remaining ps cs).0 (surplus RemainderSide.bind ps cs)),
)

pub reconcile_single-le :
    (before after : ReplacementReadiness) (p c : SocketObservation)
    → length (pending_events (reconcile_single before after p c)) ≤ 2
unfolding reconcile_single
reconcile_single-le before after p c = ground (arith, remainder_of-le (p ∷ []) (c ∷ []))

pub reconcile_bucket-le :
    (before after : ReplacementReadiness) (ps cs : List SocketObservation)
    → length (pending_events (reconcile_bucket before after ps cs)) ≤ length ps + length cs
unfolding reconcile_bucket
reconcile_bucket-le before after (p ∷ []) (c ∷ []) = reconcile_single-le before after p c
reconcile_bucket-le before after [] cs = remainder_of-le [] cs
reconcile_bucket-le before after (p ∷ ps) [] = remainder_of-le (p ∷ ps) []
reconcile_bucket-le before after (p ∷ q ∷ ps) (c ∷ cs) = remainder_of-le (p ∷ q ∷ ps) (c ∷ cs)
reconcile_bucket-le before after (p ∷ []) (c ∷ d ∷ cs) = remainder_of-le (p ∷ []) (c ∷ d ∷ cs)

pub bucket-length :
    (first : SocketObservation) (xs : List SocketObservation)
    → length (bucket_rest first xs) + length (after_bucket first xs) ≡ length xs
unfolding bucket_rest after_bucket
bucket-length first [] = refl
bucket-length first (x ∷ xs) = ground (arith, bucket-length first xs)

pub slices-length :
    (ps cs : List SocketObservation) (slices : Slices)
    → next_slices ps cs ≡ some slices
    → (length slices.previous + length slices.previous_after ≡ length ps)
      × (length slices.current + length slices.current_after ≡ length cs)
unfolding next_slices
slices-length [] [] slices h = cc
slices-length (p ∷ ps) [] slices h =
    (ground (arith, bucket-length p ps), ground (arith, bucket-length p ps))
slices-length [] (c ∷ cs) slices h =
    (ground (arith, bucket-length c cs), ground (arith, bucket-length c cs))
slices-length (p ∷ ps) (c ∷ cs) slices h = (
  ground (arith, bucket-length p ps, bucket-length c cs),
  ground (arith, bucket-length p ps, bucket-length c cs),
)

pub length-Expected :
    {before after : ReplacementReadiness} {ps cs : List SocketObservation} {es : List WatchEvent}
    → Expected before after ps cs es
    → length es ≤ length ps + length cs
length-Expected finished = omega arith
length-Expected {before} {after} (bucket {ps} {cs} {events} slices e rest) = omega (
  arith,
  length-Expected rest,
  slices-length ps cs slices e,
  reconcile_bucket-le before after slices.previous slices.current,
  length-append (pending_events (reconcile_bucket before after slices.previous slices.current))
      events,
)

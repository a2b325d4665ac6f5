-- ===== src/Watch/Balance.antt =====
-- The events expected of src/watch.rs turn the bucket counts of one snapshot into those of the other.
use kickoutchi.Prelude.{
  ℕ, ◌+◌, ◌≤◌, ◌≡◌, refl, ap, ◌∙◌, Bool, true, false, none, some, List, [], ◌∷◌, map, arith, length,
  Ordering, inl, inr, Bool-cases, is_equal, compare,
}
use kickoutchi.Observation.Sockets.{SocketObservation}
use kickoutchi.Watch.{WatchEvent, ReplacementReadiness, compare_socket, replacement_certainty}
use kickoutchi.Watch.Diff.{
  RemainderSide, side_eq, count_remaining, same_bucket, nothing, replaced, remainder, remainder_of,
  reconcile_single, reconcile_bucket, replacement_event, remainder_event,
}
use kickoutchi.Watch.Expected.{drop, surplus, pending_events, Expected, finished, bucket}
use kickoutchi.Watch.Counts.{
  count, released, bound, released-append, bound-append, AllIn, surplus-AllIn, drop-AllIn, weight,
  count-AllIn, length-drop, length-surplus, count_remaining-balance, released-map, bound-map,
}
use kickoutchi.Watch.Buckets.{next_slices-Fits}

-- The events turn the number of the one slice into that of the other.
abbrev pub Balances :
    SocketObservation → List SocketObservation → List SocketObservation → List WatchEvent → Type 0
Balances k ps cs es = count k cs + released k es ≡ count k ps + bound k es

release-Balances :
    (b : Bool) (k : SocketObservation) (ps cs : List SocketObservation)
    → AllIn b k ps
    → AllIn b k cs
    → (count_remaining ps cs).1 ≤ (count_remaining ps cs).0
    → Balances k ps cs (
        map
          (remainder_event RemainderSide.release)
          (drop (count_remaining ps cs).1 (surplus RemainderSide.release ps cs)))
release-Balances b k ps cs hp hc less =
    let n = (count_remaining ps cs).1 in
    let rest = surplus RemainderSide.release ps cs in
    let left = drop n rest in
    let all = drop-AllIn b k n rest (surplus-AllIn b k RemainderSide.release ps cs hp hc) in
    weighed b (length ps) (length cs) (length left)
      (omega (arith, count_remaining-balance ps cs, length-drop n rest, length-surplus ps cs))
      (count-AllIn b k ps hp) (count-AllIn b k cs hc)
      ((released-map k left).0 ∙ count-AllIn b k left all) (bound-map k left).1
  where
    weighed :
        (b : Bool) (m n d : ℕ) {i j r u : ℕ}
        → m ≡ n + d
        → i ≡ weight b m
        → j ≡ weight b n
        → r ≡ weight b d
        → u ≡ 0
        → j + r ≡ i + u
    weighed true m n d e hi hj hr hu = omega arith
    weighed false m n d e hi hj hr hu = omega arith

bind-Balances :
    (b : Bool) (k : SocketObservation) (ps cs : List SocketObservation)
    → AllIn b k ps
    → AllIn b k cs
    → (count_remaining ps cs).0 ≤ (count_remaining ps cs).1
    → Balances k ps cs (
        map
          (remainder_event RemainderSide.bind)
          (drop (count_remaining ps cs).0 (surplus RemainderSide.bind ps cs)))
bind-Balances b k ps cs hp hc less =
    let n = (count_remaining ps cs).0 in
    let rest = surplus RemainderSide.bind ps cs in
    let left = drop n rest in
    let all = drop-AllIn b k n rest (surplus-AllIn b k RemainderSide.bind ps cs hp hc) in
    weighed b (length ps) (length cs) (length left)
      (omega (arith, count_remaining-balance ps cs, length-drop n rest, length-surplus ps cs))
      (count-AllIn b k ps hp) (count-AllIn b k cs hc) (released-map k left).1
      ((bound-map k left).0 ∙ count-AllIn b k left all)
  where
    weighed :
        (b : Bool) (m n d : ℕ) {i j r u : ℕ}
        → n ≡ m + d
        → i ≡ weight b m
        → j ≡ weight b n
        → r ≡ 0
        → u ≡ weight b d
        → j + r ≡ i + u
    weighed true m n d e hi hj hr hu = omega arith
    weighed false m n d e hi hj hr hu = omega arith

nothing-Balances :
    (b : Bool) (k : SocketObservation) (ps cs : List SocketObservation)
    → AllIn b k ps
    → AllIn b k cs
    → length ps ≡ length cs
    → Balances k ps cs []
nothing-Balances b k ps cs hp hc e =
    omega (arith, count-AllIn b k ps hp, count-AllIn b k cs hc, ap (weight b) e)

remainder_of-Balances :
    (b : Bool) (k : SocketObservation) (ps cs : List SocketObservation)
    → AllIn b k ps
    → AllIn b k cs
    → Balances k ps cs (pending_events (remainder_of ps cs))
unfolding remainder_of
remainder_of-Balances b k ps cs hp hc =
    let (m, n) = count_remaining ps cs in
    elim (compare m n)
        as (λ o.
          compare m n ≡ o
          → Balances k ps cs (
              pending_events (elim o [
                | Ordering.gt ↦ remainder (record {
                  side = RemainderSide.release;
                  previous = ps;
                  current = cs;
                  paired_to_skip = n;
                })
                | Ordering.lt ↦ remainder (record {
                  side = RemainderSide.bind;
                  previous = ps;
                  current = cs;
                  paired_to_skip = m;
                })
                | Ordering.eq ↦ nothing
              ]))) [
                | Ordering.gt ↦ λ e. release-Balances b k ps cs hp hc (ground (arith, e))
                | Ordering.lt ↦ λ e. bind-Balances b k ps cs hp hc (ground (arith, e))
                | Ordering.eq ↦ λ e.
                    nothing-Balances b k ps cs hp hc
                      (ground (arith, e, count_remaining-balance ps cs))
              ]
      refl

module _ (before after : ReplacementReadiness) (b : Bool) (k : SocketObservation) where
  single-Balances :
      (p c : SocketObservation)
      → same_bucket k p ≡ b
      → same_bucket k c ≡ b
      → Balances k (p ∷ []) (c ∷ []) (pending_events (reconcile_single before after p c))
  unfolding reconcile_single replacement_event
  single-Balances p c hp hc = elim (Bool-cases (is_equal (compare_socket p c))) [
    | inl e ↦ rw e (nothing-Balances b k (p ∷ []) (c ∷ []) (hp, tt) (hc, tt) refl)
    | inr e ↦
        rw e
          (elim (replacement_certainty before p after c)
            as (λ o. Balances k (p ∷ []) (c ∷ []) (
              pending_events (elim o [
                | some certainty ↦ replaced p c certainty
                | none ↦ remainder_of (p ∷ []) (c ∷ [])
              ]))) [
                | some certainty ↦ rw (hp, hc) (omega arith)
                | none ↦ remainder_of-Balances b k (p ∷ []) (c ∷ []) (hp, tt) (hc, tt)
              ])
  ]

  reconcile-Balances :
      (ps cs : List SocketObservation)
      → AllIn b k ps
      → AllIn b k cs
      → Balances k ps cs (pending_events (reconcile_bucket before after ps cs))
  unfolding reconcile_bucket
  reconcile-Balances (p ∷ []) (c ∷ []) hp hc = single-Balances p c hp.0 hc.0
  reconcile-Balances [] cs hp hc = remainder_of-Balances b k [] cs hp hc
  reconcile-Balances (p ∷ ps) [] hp hc = remainder_of-Balances b k (p ∷ ps) [] hp hc
  reconcile-Balances (p ∷ q ∷ ps) (c ∷ cs) hp hc =
      remainder_of-Balances b k (p ∷ q ∷ ps) (c ∷ cs) hp hc
  reconcile-Balances (p ∷ []) (c ∷ d ∷ cs) hp hc =
      remainder_of-Balances b k (p ∷ []) (c ∷ d ∷ cs) hp hc

module _ {before after : ReplacementReadiness} where
  -- In each bucket, what the events release and bind makes up the difference.
  pub Expected-Balances :
      (k : SocketObservation) {ps cs : List SocketObservation} {es : List WatchEvent}
      → Expected before after ps cs es
      → Balances k ps cs es
  Expected-Balances k finished = refl
  Expected-Balances k (bucket {ps} {cs} {events} slices e rest) =
      let (b, hp, hc, sum_p, sum_c) = next_slices-Fits k ps cs slices e in
      let here = pending_events (reconcile_bucket before after slices.previous slices.current) in
      omega (
        arith,
        reconcile-Balances before after b k slices.previous slices.current hp hc,
        Expected-Balances k rest,
        released-append k here events,
        bound-append k here events,
      )

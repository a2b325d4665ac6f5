-- ===== src/Watch/Expected.antt =====
-- The events that two sorted lists of sockets should give, bucket by bucket, against which the
-- iterator of src/watch.rs is checked.
use kickoutchi.Prelude.{
  ℕ, zero, suc, ◌≡◌, refl, Bool, true, false, Option, none, some, List, [], ◌∷◌, ◌++◌, map,
  Ordering, ◌==◌,
}
use kickoutchi.Observation.Sockets.{SocketObservation}
use kickoutchi.Watch.{WatchEvent, ReplacementReadiness, compare_socket}
use kickoutchi.Watch.Diff.{
  RemainderSide, side_eq, RemainderCursor, Surfaced, surface, advance, Slices, next_slices, Pending,
  nothing, replaced, remainder, reconcile_bucket, replacement_event, remainder_event,
}

abbrev pub drop : ℕ → List SocketObservation → List SocketObservation
drop zero xs = xs
drop (suc n) [] = []
drop (suc n) (x ∷ xs) = drop n xs

abbrev pub on_side : Bool → SocketObservation → List SocketObservation → List SocketObservation
on_side true x xs = x ∷ xs
on_side false x xs = xs

-- The sockets of one slice that have no equal in the other.
unfoldable pub surplus :
    RemainderSide → List SocketObservation → List SocketObservation → List SocketObservation
surplus side [] [] = []
surplus side (p ∷ ps) [] = on_side (side == RemainderSide.release) p (surplus side ps [])
surplus side [] (c ∷ cs) = on_side (side == RemainderSide.bind) c (surplus side [] cs)
surplus side (p ∷ ps) (c ∷ cs) = elim (compare_socket p c) [
  | Ordering.lt ↦ on_side (side == RemainderSide.release) p (surplus side ps (c ∷ cs))
  | Ordering.gt ↦ on_side (side == RemainderSide.bind) c (surplus side (p ∷ ps) cs)
  | Ordering.eq ↦ surplus side ps cs
]

abbrev pub cursor_events : RemainderCursor → List WatchEvent
cursor_events cursor =
    map (remainder_event cursor.side)
      (drop cursor.paired_to_skip (surplus cursor.side cursor.previous cursor.current))

abbrev pub pending_events : Pending → List WatchEvent
pending_events nothing = []
pending_events (replaced p c certainty) = replacement_event p c certainty ∷ []
pending_events (remainder cursor) = cursor_events cursor

-- `Expected before after ps cs events`: the buckets of `ps` and `cs` give `events` in this order.
pub data Expected (before after : ReplacementReadiness)
    : List SocketObservation → List SocketObservation → List WatchEvent → Type 0 where
  finished : Expected before after [] [] []
  bucket :
      {ps cs : List SocketObservation} {events : List WatchEvent} (slices : Slices)
      → next_slices ps cs ≡ some slices
      → Expected before after slices.previous_after slices.current_after events
      → Expected before after ps cs
          (pending_events (reconcile_bucket before after slices.previous slices.current) ++ events)

-- What the cursor has still to surface.
abbrev pub surfaced : RemainderSide → Option Surfaced → List SocketObservation
surfaced side none = []
surfaced side (some found) =
    found.socket ∷ drop found.paired_to_skip (surplus side found.previous found.current)

surfaced-surface :
    (side : RemainderSide) (b : Bool) (x : SocketObservation) (ps cs : List SocketObservation)
    (skip : ℕ) (next : ℕ → Option Surfaced)
    → ((k : ℕ) → surfaced side (next k) ≡ drop k (surplus side ps cs))
    → surfaced side (surface b x ps cs skip next) ≡ drop skip (on_side b x (surplus side ps cs))
unfolding surface
surfaced-surface side false x ps cs skip next h = h skip
surfaced-surface side true x ps cs zero next h = refl
surfaced-surface side true x ps cs (suc skip) next h = h skip

pub surfaced-advance :
    (side : RemainderSide) (ps cs : List SocketObservation) (skip : ℕ)
    → surfaced side (advance side ps cs skip) ≡ drop skip (surplus side ps cs)
unfolding advance surplus
surfaced-advance side [] [] zero = refl
surfaced-advance side [] [] (suc skip) = refl
surfaced-advance side (p ∷ ps) [] skip =
    surfaced-surface side (side == RemainderSide.release) p ps [] skip (advance side ps [])
      (surfaced-advance side ps [])
surfaced-advance side [] (c ∷ cs) skip =
    surfaced-surface side (side == RemainderSide.bind) c [] cs skip (advance side [] cs)
      (surfaced-advance side [] cs)
surfaced-advance side (p ∷ ps) (c ∷ cs) skip =
    elim (compare_socket p c)
      as (λ o.
        surfaced side (elim o [
          | Ordering.lt ↦
              surface (side == RemainderSide.release) p ps (c ∷ cs) skip (advance side ps (c ∷ cs))
          | Ordering.gt ↦
              surface (side == RemainderSide.bind) c (p ∷ ps) cs skip (advance side (p ∷ ps) cs)
          | Ordering.eq ↦ advance side ps cs skip
        ])
        ≡ drop skip (elim o [
          | Ordering.lt ↦ on_side (side == RemainderSide.release) p (surplus side ps (c ∷ cs))
          | Ordering.gt ↦ on_side (side == RemainderSide.bind) c (surplus side (p ∷ ps) cs)
          | Ordering.eq ↦ surplus side ps cs
        ])) [
          | Ordering.lt ↦
              surfaced-surface side (side == RemainderSide.release) p ps (c ∷ cs) skip
                (advance side ps (c ∷ cs)) (surfaced-advance side ps (c ∷ cs))
          | Ordering.gt ↦
              surfaced-surface side (side == RemainderSide.bind) c (p ∷ ps) cs skip
                (advance side (p ∷ ps) cs) (surfaced-advance side (p ∷ ps) cs)
          | Ordering.eq ↦ surfaced-advance side ps cs skip
        ]

-- ===== src/Watch/Steps.antt =====
-- Each call of `next_event` of src/watch.rs yields the first of the events that are expected.
use mathlib.Core.Path.{subst}
use kickoutchi.Prelude.{
  ℕ, zero, suc, ◌+◌, ◌<◌, ◌≤◌, ◌≡◌, refl, sym, ap, ◌∙◌, Bool, true, false, Option, none, some, List,
  [], ◌∷◌, ◌++◌, map, arith, length, ◌⊎◌, inl, inr,
}
use kickoutchi.Observation.Sockets.{SocketObservation}
use kickoutchi.Watch.{Certainty, WatchEvent, ReplacementReadiness}
use kickoutchi.Watch.Diff.{
  RemainderCursor, SnapshotDiff, Surfaced, advance, Slices, next_slices, after_bucket, Pending,
  nothing, replaced, remainder, reconcile_bucket, with_pending, unless_nothing, take_slices,
  prepare_next_bucket, rounds_of, replacement_event, remainder_event,
}
use kickoutchi.Watch.Iterate.{
  take_replacement, surfaced_event, take_remainder, or_continue, if_prepared, next_event,
}
use kickoutchi.Watch.Expected.{
  drop, surplus, cursor_events, pending_events, Expected, finished, bucket, surfaced,
  surfaced-advance,
}

abbrev pub left : List SocketObservation → List SocketObservation → ℕ
left ps cs = length ps + length cs

after_bucket-le :
    (first : SocketObservation) (xs : List SocketObservation)
    → length (after_bucket first xs) ≤ length xs
unfolding after_bucket
after_bucket-le first [] = omega arith
after_bucket-le first (x ∷ xs) = ground (arith, after_bucket-le first xs)

-- A bucket takes at least one socket.
pub slices_shrink :
    (ps cs : List SocketObservation) (slices : Slices)
    → next_slices ps cs ≡ some slices
    → left slices.previous_after slices.current_after < left ps cs
unfolding next_slices
slices_shrink [] [] slices h = cc
slices_shrink (p ∷ ps) [] slices h = ground (arith, after_bucket-le p ps)
slices_shrink [] (c ∷ cs) slices h = ground (arith, after_bucket-le c cs)
slices_shrink (p ∷ ps) (c ∷ cs) slices h =
    ground (arith, after_bucket-le p ps, after_bucket-le c cs)

pub Expected-cases :
    (before after : ReplacementReadiness) {ps cs : List SocketObservation} {es : List WatchEvent}
    → Expected before after ps cs es
    → ((next_slices ps cs ≡ none) × (es ≡ []))
      ⊎ ((slices : Slices) × (rest : List WatchEvent) × (next_slices ps cs ≡ some slices)
          × (es
              ≡ pending_events (reconcile_bucket before after slices.previous slices.current)
                ++ rest)
          × Expected before after slices.previous_after slices.current_after rest)
unfolding next_slices
Expected-cases before after finished = inl (refl, refl)
Expected-cases before after (bucket {events} slices e rest) = inr (slices, events, e, refl, rest)

abbrev pub replacement_events :
    Option (SocketObservation × SocketObservation × Certainty) → List WatchEvent
replacement_events none = []
replacement_events (some (p, c, certainty)) = replacement_event p c certainty ∷ []

abbrev pub remainder_events : Option RemainderCursor → List WatchEvent
remainder_events none = []
remainder_events (some cursor) = cursor_events cursor

module _ (yielded limit : ℕ) where
  -- The events that a state has still to yield.
  abbrev pub Owes : SnapshotDiff → List WatchEvent → Type 0
  Owes s es =
      (rest : List WatchEvent) × Expected s.previous_readiness s.current_readiness s.previous
        s.current rest
      × (es
          ≡ replacement_events s.pending_replacement
            ++ (remainder_events s.pending_remainder ++ rest))
      × (s.yielded ≡ yielded)
      × (s.event_limit ≡ limit)

  -- An answer is the first of the events, or there is none and `More` holds.
  abbrev pub Answers :
      (SnapshotDiff → Type 0) → List WatchEvent → Option WatchEvent × SnapshotDiff → Type 0
  Answers More es (some event, s) = (rest : List WatchEvent) × (es ≡ event ∷ rest) × Owes s rest
  Answers More es (none, s) = More s

  or_continue-Answers :
      (More Last : SnapshotDiff → Type 0) (es : List WatchEvent)
      (first : Option WatchEvent × SnapshotDiff)
      (next : SnapshotDiff → Option WatchEvent × SnapshotDiff)
      → Answers More es first
      → ((s : SnapshotDiff) → More s → Answers Last es (next s))
      → Answers Last es (or_continue first next)
  or_continue-Answers More Last es (some event, s) next h k = h
  or_continue-Answers More Last es (none, s) next h k = k s h

  -- What holds once the replacement, and then the remainder, is used up.
  abbrev NoReplacement : ℕ → List WatchEvent → SnapshotDiff → Type 0
  NoReplacement n es s =
      Owes s es × (s.pending_replacement ≡ none) × (left s.previous s.current < n)

  abbrev NoPending : ℕ → List WatchEvent → SnapshotDiff → Type 0
  NoPending n es s =
      Expected s.previous_readiness s.current_readiness s.previous s.current es
      × (s.yielded ≡ yielded)
      × (s.event_limit ≡ limit)
      × (left s.previous s.current < n)

  take_replacement-Answers :
      (n : ℕ) (es : List WatchEvent)
      (o : Option (SocketObservation × SocketObservation × Certainty)) (s : SnapshotDiff)
      → o ≡ s.pending_replacement
      → Owes s es
      → left s.previous s.current < n
      → Answers (NoReplacement n es) es (take_replacement o s)
  unfolding take_replacement
  take_replacement-Answers n es none s e h bound = (h, sym e, bound)
  take_replacement-Answers n es (some (p, c, certainty)) s e (rest, expected, sum, y, l) bound =
      let queue = remainder_events s.pending_remainder ++ rest in
      (queue, sum ∙ ap (λ o. replacement_events o ++ queue) (sym e), (rest, expected, refl, y, l))

  surfaced_event-Answers :
      (n : ℕ) (es rest : List WatchEvent) (cursor : RemainderCursor) (found : Option Surfaced)
      (s : SnapshotDiff)
      → surfaced cursor.side found
        ≡ drop cursor.paired_to_skip (surplus cursor.side cursor.previous cursor.current)
      → es ≡ cursor_events cursor ++ rest
      → s.pending_replacement ≡ none
      → NoPending n rest s
      → Answers (NoPending n es) es (surfaced_event cursor found s)
  unfolding surfaced_event
  surfaced_event-Answers n es rest cursor none s e sum none_left (expected, y, l, bound) =
      let same : es ≡ rest =
        sum ∙ ap (λ xs. map (remainder_event cursor.side) xs ++ rest) (sym e) in
      (
        subst (Expected s.previous_readiness s.current_readiness s.previous s.current) (sym same)
            expected,
        y,
        l,
        bound,
      )
  surfaced_event-Answers n es rest cursor (some found) s e sum none_left (expected, y, l, bound) =
      let queue =
        map (remainder_event cursor.side)
          (drop found.paired_to_skip (surplus cursor.side found.previous found.current))
        ++ rest in
      (
        queue,
        sum ∙ ap (λ xs. map (remainder_event cursor.side) xs ++ rest) (sym e),
        (rest, expected, ap (λ o. replacement_events o ++ queue) (sym none_left), y, l),
      )

  take_remainder-Answers :
      (n : ℕ) (es : List WatchEvent) (o : Option RemainderCursor) (s : SnapshotDiff)
      → o ≡ s.pending_remainder
      → NoReplacement n es s
      → Answers (NoPending n es) es (take_remainder o s)
  unfolding take_remainder
  take_remainder-Answers n es none s e ((rest, expected, sum, y, l), none_left, bound) =
      let same : es ≡ rest =
        sum
        ∙ ap (λ o. replacement_events o ++ (remainder_events s.pending_remainder ++ rest)) none_left
        ∙ ap (λ o. remainder_events o ++ rest) (sym e) in
      (
        subst (Expected s.previous_readiness s.current_readiness s.previous s.current) (sym same)
            expected,
        y,
        l,
        bound,
      )
  take_remainder-Answers n es (some cursor) s e ((rest, expected, sum, y, l), none_left, bound) =
      surfaced_event-Answers n es rest cursor
        (advance cursor.side cursor.previous cursor.current cursor.paired_to_skip) s
        (surfaced-advance cursor.side cursor.previous cursor.current cursor.paired_to_skip)
        (sum
          ∙ ap (λ o. replacement_events o ++ (remainder_events s.pending_remainder ++ rest))
              none_left
          ∙ ap (λ o. remainder_events o ++ rest) (sym e))
        none_left (expected, y, l, bound)

  abbrev Prepared : ℕ → List WatchEvent → Bool × SnapshotDiff → Type 0
  Prepared n es (true, s) = Owes s es × (left s.previous s.current < n)
  Prepared n es (false, s) = es ≡ []

  unless_nothing-Prepared :
      (n : ℕ) (es rest : List WatchEvent) (pending : Pending) (s : SnapshotDiff)
      (loop : SnapshotDiff → Bool × SnapshotDiff)
      → es ≡ pending_events pending ++ rest
      → NoPending n rest s
      → ((t : SnapshotDiff)
          → NoPending n rest t
          → left t.previous t.current ≤ left s.previous s.current
          → Prepared n rest (loop t))
      → Prepared n es (unless_nothing pending s loop)
  unfolding unless_nothing
  unless_nothing-Prepared n es rest nothing s loop sum h k =
      subst (λ xs. Prepared n xs (loop (with_pending nothing s))) (sym sum)
        (k (with_pending nothing s) h (omega arith))
  unless_nothing-Prepared n es rest (replaced p c certainty) s loop sum (expected, y, l, bound) k =
      ((rest, expected, sum, y, l), bound)
  unless_nothing-Prepared n es rest (remainder cursor) s loop sum (expected, y, l, bound) k =
      ((rest, expected, sum, y, l), bound)

  prepare-Prepared :
      (rounds n : ℕ) (es : List WatchEvent) (s : SnapshotDiff)
      → left s.previous s.current < rounds
      → left s.previous s.current ≤ n
      → Expected s.previous_readiness s.current_readiness s.previous s.current es
      → s.yielded ≡ yielded
      → s.event_limit ≡ limit
      → Prepared n es (prepare_next_bucket rounds s)
  unfolding prepare_next_bucket
  prepare-Prepared zero n es s enough bound expected y l = absurd (omega arith)
  prepare-Prepared (suc rounds) n es s enough bound expected y l =
      elim (Expected-cases s.previous_readiness s.current_readiness expected) [
        | inl (e, empty) ↦ rw (e, take_slices) empty
        | inr (slices, rest, e, sum, expected') ↦
            let shrink = slices_shrink s.previous s.current slices e in
            rw (e, take_slices)
              (unless_nothing-Prepared n es rest
                (reconcile_bucket s.previous_readiness s.current_readiness slices.previous
                  slices.current)
                (record s { previous = slices.previous_after; current = slices.current_after })
                (prepare_next_bucket rounds) sum (expected', y, l, omega arith)
                (λ t (x, y', l', b) less.
                  prepare-Prepared rounds n rest t (omega arith) (omega arith) x y' l'))
      ]

  if_prepared-Answers :
      (n : ℕ) (es : List WatchEvent) (r : Bool × SnapshotDiff)
      (loop : SnapshotDiff → Option WatchEvent × SnapshotDiff)
      → Prepared n es r
      → ((s : SnapshotDiff)
          → Owes s es
          → left s.previous s.current < n
          → Answers (λ s. es ≡ []) es (loop s))
      → Answers (λ s. es ≡ []) es (if_prepared r loop)
  if_prepared-Answers n es (true, s) loop h k = k s h.0 h.1
  if_prepared-Answers n es (false, s) loop h k = h

  pub next_event-Answers :
      (rounds : ℕ) (es : List WatchEvent) (s : SnapshotDiff)
      → left s.previous s.current < rounds
      → Owes s es
      → Answers (λ t. es ≡ []) es (next_event rounds s)
  unfolding next_event
  next_event-Answers zero es s enough h = absurd (omega arith)
  next_event-Answers (suc rounds) es s enough h =
      or_continue-Answers (NoReplacement (suc rounds) es) (λ t. es ≡ []) es
        (take_replacement s.pending_replacement s)
        (λ s1.
          or_continue (take_remainder s1.pending_remainder s1)
            (λ s2. if_prepared (prepare_next_bucket (rounds_of s2) s2) (next_event rounds)))
        (take_replacement-Answers (suc rounds) es s.pending_replacement s refl h enough)
        λ s1 k.
          or_continue-Answers (NoPending (suc rounds) es) (λ t. es ≡ []) es
            (take_remainder s1.pending_remainder s1)
            (λ s2. if_prepared (prepare_next_bucket (rounds_of s2) s2) (next_event rounds))
            (take_remainder-Answers (suc rounds) es s1.pending_remainder s1 refl k)
            λ s2 (expected, y, l, bound).
              if_prepared-Answers rounds es (prepare_next_bucket (rounds_of s2) s2)
                (next_event rounds)
                (prepare-Prepared (rounds_of s2) rounds es s2 (omega arith) (omega arith) expected y
                  l)
                (λ t owes b. next_event-Answers rounds es t b owes)

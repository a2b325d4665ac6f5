-- ===== src/Watch/Drain.antt =====
-- The whole poll of src/watch.rs: what the iterator yields from the start to its end.
use kickoutchi.Prelude.{
  ℕ, zero, suc, ◌+◌, ◌<◌, ◌≤◌, ◌≡◌, refl, sym, ap, ◌∙◌, true, false, ◌||◌, Option, none, some, List,
  [], ◌∷◌, map, arith, length, inl, inr, ltb, Bool-cases, sort_by, insert_by, length-sort_by,
  Result, ok,
}
use kickoutchi.ProcessEvidence.{usize_max}
use kickoutchi.Observation.Sockets.{SocketObservation, NetworkSnapshot, socket_set_diff_safe}
use kickoutchi.Watch.{WatchEvent, DiffError, readiness}
use kickoutchi.Watch.Diff.{
  SnapshotDiff, with_limit, diff_snapshots, in_order, rounds_of, socket_observations_max,
  watch_events_per_poll_max,
}
use kickoutchi.Watch.Iterate.{next_event, yield_event, next, take_item, drain}
use kickoutchi.Watch.Expected.{Expected}
use kickoutchi.Watch.Steps.{left, Owes, Answers, next_event-Answers}
use kickoutchi.Watch.Counts.{count, released, bound}
use kickoutchi.Watch.Balance.{Expected-Balances}
use kickoutchi.Watch.Bounds.{Expected-exists, length-Expected}

module _ (limit : ℕ) where
  item-Owes :
      (y : ℕ) (es : List WatchEvent) (r : Option WatchEvent × SnapshotDiff)
      (rest : SnapshotDiff → List (Result WatchEvent DiffError))
      → Answers y limit (λ t. es ≡ []) es r
      → y + length es ≤ limit
      → limit ≤ usize_max
      → ((more : List WatchEvent) (t : SnapshotDiff)
          → length es ≡ suc (length more)
          → Owes (suc y) limit t more
          → rest t ≡ map (λ e. ok e) more)
      → take_item (yield_event r) rest ≡ map (λ e. ok e) es
  unfolding yield_event
  item-Owes y es (none, s) rest empty room small k = sym (ap (map (λ e. ok e)) empty)
  item-Owes y es (some event, s) rest (more, sum, (queue, expected, parts, ye, le)) room small k =
      let fits : (ltb usize_max (suc s.yielded) || ltb s.event_limit (suc s.yielded)) ≡ false =
        ground (arith, ye, le, ap length sum) in
      rw fits (
        ap (λ xs. ok event ∷ xs)
          (k more (record s { yielded = suc s.yielded }) (ap length sum)
            (queue, expected, parts, ap suc ye, le))
        ∙ sym (ap (map (λ e. ok e)) sum))

  -- With room for the events, the iterator yields them and then ends.
  pub drain-Owes :
      (n y : ℕ) (es : List WatchEvent) (s : SnapshotDiff)
      → Owes y limit s es
      → length es < n
      → y + length es ≤ limit
      → limit ≤ usize_max
      → drain n s ≡ map (λ e. ok e) es
  unfolding drain next
  drain-Owes zero y es s owes enough room small = absurd (omega arith)
  drain-Owes (suc n) y es s owes enough room small =
      item-Owes y es (next_event (rounds_of s) s) (drain n)
        (next_event-Answers y limit (rounds_of s) es s (omega arith) owes) room small
        λ more t sum owes'. drain-Owes n (suc y) more t owes' (omega arith) (omega arith) small

count-insert_by :
    (k x : SocketObservation) (xs : List SocketObservation)
    → count k (insert_by in_order x xs) ≡ count k (x ∷ xs)
unfolding insert_by
count-insert_by k x [] = refl
count-insert_by k x (y ∷ ys) = elim (Bool-cases (in_order x y)) [
  | inl e ↦ rw e refl
  | inr e ↦ rw e (omega (arith, count-insert_by k x ys))
]

count-sort_by :
    (k : SocketObservation) (xs : List SocketObservation)
    → count k (sort_by in_order xs) ≡ count k xs
unfolding sort_by
count-sort_by k [] = refl
count-sort_by k (x ∷ xs) =
    omega (arith, count-insert_by k x (sort_by in_order xs), count-sort_by k xs)

abbrev pub start_of : NetworkSnapshot → NetworkSnapshot → ℕ → SnapshotDiff
start_of previous current limit = record {
  previous = sort_by in_order previous.sockets;
  current = sort_by in_order current.sockets;
  previous_readiness = readiness previous;
  current_readiness = readiness current;
  pending_replacement = none;
  pending_remainder = none;
  yielded = 0;
  event_limit = limit;
}

pub start-Owes :
    (previous current : NetworkSnapshot) (limit : ℕ)
    → (es : List WatchEvent) × Owes 0 limit (start_of previous current limit) es
      × Expected
          (readiness previous)
          (readiness current)
          (sort_by in_order previous.sockets)
          (sort_by in_order current.sockets)
          es
start-Owes previous current limit =
    let (es, expected) =
      Expected-exists (readiness previous) (readiness current)
        (suc (left (sort_by in_order previous.sockets) (sort_by in_order current.sockets)))
        (sort_by in_order previous.sockets) (sort_by in_order current.sockets) (omega arith) in
    (es, (es, expected, refl, refl, refl), expected)

poll-with_limit :
    (previous current : NetworkSnapshot) (k : SocketObservation) (n limit : ℕ)
    → length previous.sockets + length current.sockets ≤ limit
    → limit < n
    → limit ≤ usize_max
    → (es : List WatchEvent) × (drain n (start_of previous current limit) ≡ map (λ e. ok e) es)
      × (length es ≤ limit)
      × (count k current.sockets + released k es ≡ count k previous.sockets + bound k es)
poll-with_limit previous current k n limit room enough small =
    let (es, owes, expected) = start-Owes previous current limit in
    let fits : length es ≤ limit = omega (
      arith,
      length-Expected expected,
      length-sort_by in_order previous.sockets,
      length-sort_by in_order current.sockets,
    ) in
    (
      es,
      drain-Owes limit n 0 es (start_of previous current limit) owes (omega arith) (omega arith)
          small,
      fits,
      omega (
        arith,
        Expected-Balances k expected,
        count-sort_by k previous.sockets,
        count-sort_by k current.sockets,
      ),
    )

-- Between two snapshots that are safe to compare and within the socket limit, the iterator ends
-- without an error after at most `WATCH_EVENTS_PER_POLL_MAX` events; and for every bucket, what the
-- events release and bind turns its number of sockets before into that after.
pub diff_snapshots-count :
    (previous current : NetworkSnapshot) (k : SocketObservation)
    → socket_set_diff_safe previous ≡ true
    → socket_set_diff_safe current ≡ true
    → length previous.sockets ≤ socket_observations_max
    → length current.sockets ≤ socket_observations_max
    → (s : SnapshotDiff) × (es : List WatchEvent) × (diff_snapshots previous current ≡ ok s)
      × (drain (suc watch_events_per_poll_max) s ≡ map (λ e. ok e) es)
      × (length es ≤ watch_events_per_poll_max)
      × (count k current.sockets + released k es ≡ count k previous.sockets + bound k es)
unfolding diff_snapshots with_limit
diff_snapshots-count previous current k safe_p safe_c small_p small_c =
    let (es, drained, bounded, counts) =
      poll-with_limit previous current k (suc watch_events_per_poll_max) watch_events_per_poll_max
        (omega arith) (omega arith) (omega arith) in
    (
      start_of previous current watch_events_per_poll_max,
      es,
      rw (safe_p, safe_c) refl,
      drained,
      bounded,
      counts,
    )

-- ===== src/Watch/Iterate.antt =====
-- The events that the iterator `SnapshotDiff` of src/watch.rs yields.
use kickoutchi.Prelude.{
  ℕ, zero, suc, Bool, true, false, ◌||◌, Option, none, some, List, [], ◌∷◌, if◌then◌else◌, ltb,
  Result, ok, err,
}
use kickoutchi.ProcessEvidence.{usize_max}
use kickoutchi.Observation.Sockets.{SocketObservation}
use kickoutchi.Watch.{Certainty, WatchEvent, DiffError}
use kickoutchi.Watch.Diff.{
  RemainderCursor, SnapshotDiff, Surfaced, advance, prepare_next_bucket, rounds_of,
  replacement_event, remainder_event,
}

unfoldable pub take_replacement :
    Option (SocketObservation × SocketObservation × Certainty)
    → SnapshotDiff
    → Option WatchEvent × SnapshotDiff
take_replacement none s = (none, s)
take_replacement (some (p, c, certainty)) s =
    (some (replacement_event p c certainty), record s { pending_replacement = none })

unfoldable pub surfaced_event :
    RemainderCursor → Option Surfaced → SnapshotDiff → Option WatchEvent × SnapshotDiff
surfaced_event cursor none s = (none, record s { pending_remainder = none })
surfaced_event cursor (some found) s = (
  some (remainder_event cursor.side found.socket),
  record s {
    pending_remainder = some (record {
      side = cursor.side;
      previous = found.previous;
      current = found.current;
      paired_to_skip = found.paired_to_skip;
    });
  },
)

unfoldable pub take_remainder :
    Option RemainderCursor → SnapshotDiff → Option WatchEvent × SnapshotDiff
unfolding surfaced_event
take_remainder none s = (none, s)
take_remainder (some cursor) s =
    surfaced_event cursor (advance cursor.side cursor.previous cursor.current cursor.paired_to_skip)
      s

-- An early `return Some(event)`, or the code after it.
abbrev pub or_continue :
    Option WatchEvent × SnapshotDiff
    → (SnapshotDiff → Option WatchEvent × SnapshotDiff)
    → Option WatchEvent × SnapshotDiff
or_continue (some event, s) next = (some event, s)
or_continue (none, s) next = next s

abbrev pub if_prepared :
    Bool × SnapshotDiff
    → (SnapshotDiff → Option WatchEvent × SnapshotDiff)
    → Option WatchEvent × SnapshotDiff
if_prepared (true, s) loop = loop s
if_prepared (false, s) loop = (none, s)

-- The loop, with a round for each socket that is left.
unfoldable pub next_event : ℕ → SnapshotDiff → Option WatchEvent × SnapshotDiff
unfolding take_replacement take_remainder
next_event zero s = (none, s)
next_event (suc rounds) s = or_continue (take_replacement s.pending_replacement s) λ s1.
    or_continue (take_remainder s1.pending_remainder s1)
      λ s2. if_prepared (prepare_next_bucket (rounds_of s2) s2) (next_event rounds)

unfoldable pub yield_event :
    Option WatchEvent × SnapshotDiff → Option (Result WatchEvent DiffError) × SnapshotDiff
yield_event (none, s) = (none, s)
yield_event (some event, s) =
    if ltb usize_max (suc s.yielded) || ltb s.event_limit (suc s.yielded)
    then (some (err DiffError.event_limit_exceeded), s)
    else (some (ok event), record s { yielded = suc s.yielded })

unfoldable pub next : SnapshotDiff → Option (Result WatchEvent DiffError) × SnapshotDiff
unfolding yield_event
next s = yield_event (next_event (rounds_of s) s)

abbrev pub take_item :
    Option (Result WatchEvent DiffError) × SnapshotDiff
    → (SnapshotDiff → List (Result WatchEvent DiffError))
    → List (Result WatchEvent DiffError)
take_item (none, s) rest = []
take_item (some item, s) rest = item ∷ rest s

-- What a consumer sees in `n` calls of `next`, up to the first that answers nothing.
unfoldable pub drain : ℕ → SnapshotDiff → List (Result WatchEvent DiffError)
drain zero s = []
drain (suc n) s = take_item (next s) (drain n)

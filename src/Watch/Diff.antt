-- ===== src/Watch/Diff.antt =====
-- The iterator `SnapshotDiff` of src/watch.rs. A position in a sorted table of indices is the list
-- of the sockets from that position on, and a slice between two positions is a list.
use kickoutchi.Prelude.{
  ℕ, zero, suc, ◌+◌, Bool, true, false, not, ◌||◌, Option, none, some, List, [], ◌∷◌, if◌then◌else◌,
  length, ◌==◌, nat_eq, Ordering, compare, is_equal, is_greater, sort_by, Result, ok, err,
  PartialEq, derive_eq,
}
use kickoutchi.Observation.Sockets.{SocketObservation, NetworkSnapshot, socket_set_diff_safe}
use kickoutchi.Watch.{
  Certainty, EventSides, WatchEvent, DiffError, compare_bucket, compare_socket,
  ReplacementReadiness, readiness, replacement_certainty,
}

-- `SOCKET_OBSERVATIONS_MAX`, and twice as many.
abbrev pub socket_observations_max : ℕ
socket_observations_max = 262144

abbrev pub watch_events_per_poll_max : ℕ
watch_events_per_poll_max = 524288

pub data RemainderSide : Type 0 where
  release bind : RemainderSide

unfoldable pub RemainderSide-discrete : Discrete RemainderSide
RemainderSide-discrete = hlevel

instance abbrev pub side_eq : PartialEq RemainderSide
side_eq = derive_eq RemainderSide-discrete

pub record RemainderCursor : Type 0 where
  pub side : RemainderSide
  pub previous : List SocketObservation
  pub current : List SocketObservation
  pub paired_to_skip : ℕ

pub record SnapshotDiff : Type 0 where
  pub previous : List SocketObservation
  pub current : List SocketObservation
  pub previous_readiness : ReplacementReadiness
  pub current_readiness : ReplacementReadiness
  pub pending_replacement : Option (SocketObservation × SocketObservation × Certainty)
  pub pending_remainder : Option RemainderCursor
  pub yielded : ℕ
  pub event_limit : ℕ

unfoldable pub in_order : SocketObservation → SocketObservation → Bool
in_order left right = not (is_greater (compare_socket left right))

unfoldable pub with_limit : NetworkSnapshot → NetworkSnapshot → ℕ → Result SnapshotDiff DiffError
with_limit previous current event_limit =
    if not (socket_set_diff_safe previous) || not (socket_set_diff_safe current)
    then err DiffError.unsafe_snapshot
    else ok (record {
      previous = sort_by in_order previous.sockets;
      current = sort_by in_order current.sockets;
      previous_readiness = readiness previous;
      current_readiness = readiness current;
      pending_replacement = none;
      pending_remainder = none;
      yielded = 0;
      event_limit = event_limit;
    })

unfoldable pub diff_snapshots : NetworkSnapshot → NetworkSnapshot → Result SnapshotDiff DiffError
diff_snapshots previous current = with_limit previous current watch_events_per_poll_max

-- `next_remainder_index`: the next socket on the side of the cursor that is not skipped, and the
-- cursor after it.
pub record Surfaced : Type 0 where
  pub socket : SocketObservation
  pub previous : List SocketObservation
  pub current : List SocketObservation
  pub paired_to_skip : ℕ

unfoldable pub surface :
    Bool
    → SocketObservation
    → List SocketObservation
    → List SocketObservation
    → ℕ
    → (ℕ → Option Surfaced)
    → Option Surfaced
surface false socket previous current skip next = next skip
surface true socket previous current zero next =
    some (record { socket = socket; previous = previous; current = current; paired_to_skip = 0 })
surface true socket previous current (suc skip) next = next skip

unfoldable pub advance :
    RemainderSide → List SocketObservation → List SocketObservation → ℕ → Option Surfaced
unfolding surface
advance side [] [] skip = none
advance side (p ∷ ps) [] skip =
    surface (side == RemainderSide.release) p ps [] skip (advance side ps [])
advance side [] (c ∷ cs) skip =
    surface (side == RemainderSide.bind) c [] cs skip (advance side [] cs)
advance side (p ∷ ps) (c ∷ cs) skip = elim (compare_socket p c) [
  | Ordering.lt ↦
      surface (side == RemainderSide.release) p ps (c ∷ cs) skip (advance side ps (c ∷ cs))
  | Ordering.gt ↦ surface (side == RemainderSide.bind) c (p ∷ ps) cs skip (advance side (p ∷ ps) cs)
  | Ordering.eq ↦ advance side ps cs skip
]

-- `count_remaining`: how many sockets of each slice have no equal in the other.
unfoldable pub count_remaining : List SocketObservation → List SocketObservation → ℕ × ℕ
count_remaining [] current = (0, length current)
count_remaining (p ∷ ps) [] = (suc (length ps), 0)
count_remaining (p ∷ ps) (c ∷ cs) = elim (compare_socket p c) [
  | Ordering.lt ↦ let (m, n) = count_remaining ps (c ∷ cs) in (suc m, n)
  | Ordering.gt ↦ let (m, n) = count_remaining (p ∷ ps) cs in (m, suc n)
  | Ordering.eq ↦ count_remaining ps cs
]

-- `bucket_end`: the sockets of the same bucket as the first, and those after them.
unfoldable pub same_bucket : SocketObservation → SocketObservation → Bool
same_bucket first socket = is_equal (compare_bucket first socket)

unfoldable pub bucket_rest : SocketObservation → List SocketObservation → List SocketObservation
bucket_rest first [] = []
bucket_rest first (x ∷ xs) = if same_bucket first x then x ∷ bucket_rest first xs else []

unfoldable pub after_bucket : SocketObservation → List SocketObservation → List SocketObservation
after_bucket first [] = []
after_bucket first (x ∷ xs) = if same_bucket first x then after_bucket first xs else x ∷ xs

-- The slices of the next bucket, and the sockets after them.
pub record Slices : Type 0 where
  pub previous : List SocketObservation
  pub current : List SocketObservation
  pub previous_after : List SocketObservation
  pub current_after : List SocketObservation

unfoldable pub next_slices : List SocketObservation → List SocketObservation → Option Slices
next_slices [] [] = none
next_slices (p ∷ ps) [] = some (record {
  previous = p ∷ bucket_rest p ps;
  current = [];
  previous_after = after_bucket p ps;
  current_after = [];
})
next_slices [] (c ∷ cs) = some (record {
  previous = [];
  current = c ∷ bucket_rest c cs;
  previous_after = [];
  current_after = after_bucket c cs;
})
next_slices (p ∷ ps) (c ∷ cs) = elim (compare_bucket p c) [
  | Ordering.lt ↦ some (record {
    previous = p ∷ bucket_rest p ps;
    current = [];
    previous_after = after_bucket p ps;
    current_after = c ∷ cs;
  })
  | Ordering.gt ↦ some (record {
    previous = [];
    current = c ∷ bucket_rest c cs;
    previous_after = p ∷ ps;
    current_after = after_bucket c cs;
  })
  | Ordering.eq ↦ some (record {
    previous = p ∷ bucket_rest p ps;
    current = c ∷ bucket_rest c cs;
    previous_after = after_bucket p ps;
    current_after = after_bucket c cs;
  })
]

-- What `reconcile_bucket` leaves pending.
pub data Pending : Type 0 where
  nothing : Pending
  replaced : SocketObservation → SocketObservation → Certainty → Pending
  remainder : RemainderCursor → Pending

unfoldable pub remainder_of : List SocketObservation → List SocketObservation → Pending
remainder_of previous current =
    let (m, n) = count_remaining previous current in
    elim (compare m n) [
      | Ordering.gt ↦ remainder (record {
        side = RemainderSide.release;
        previous = previous;
        current = current;
        paired_to_skip = n;
      })
      | Ordering.lt ↦ remainder (record {
        side = RemainderSide.bind;
        previous = previous;
        current = current;
        paired_to_skip = m;
      })
      | Ordering.eq ↦ nothing
    ]

module _ (before after : ReplacementReadiness) where
  unfoldable pub reconcile_single : SocketObservation → SocketObservation → Pending
  reconcile_single p c =
      if is_equal (compare_socket p c)
      then nothing
      else elim (replacement_certainty before p after c) [
        | some certainty ↦ replaced p c certainty
        | none ↦ remainder_of (p ∷ []) (c ∷ [])
      ]

  unfoldable pub reconcile_bucket : List SocketObservation → List SocketObservation → Pending
  unfolding reconcile_single
  reconcile_bucket (p ∷ []) (c ∷ []) = reconcile_single p c
  reconcile_bucket [] current = remainder_of [] current
  reconcile_bucket (p ∷ ps) [] = remainder_of (p ∷ ps) []
  reconcile_bucket (p ∷ q ∷ ps) (c ∷ cs) = remainder_of (p ∷ q ∷ ps) (c ∷ cs)
  reconcile_bucket (p ∷ []) (c ∷ d ∷ cs) = remainder_of (p ∷ []) (c ∷ d ∷ cs)

unfoldable pub with_pending : Pending → SnapshotDiff → SnapshotDiff
with_pending nothing s = record s { pending_replacement = none; pending_remainder = none }
with_pending (replaced p c certainty) s = record s {
  pending_replacement = some (p, c, certainty);
  pending_remainder = none;
}
with_pending (remainder cursor) s = record s {
  pending_replacement = none;
  pending_remainder = some cursor;
}

-- A bucket that leaves nothing pending is followed by the next one.
unfoldable pub unless_nothing :
    Pending → SnapshotDiff → (SnapshotDiff → Bool × SnapshotDiff) → Bool × SnapshotDiff
unfolding with_pending
unless_nothing nothing s loop = loop (with_pending nothing s)
unless_nothing (replaced p c certainty) s loop = (true, with_pending (replaced p c certainty) s)
unless_nothing (remainder cursor) s loop = (true, with_pending (remainder cursor) s)

unfoldable pub take_slices :
    Option Slices → SnapshotDiff → (SnapshotDiff → Bool × SnapshotDiff) → Bool × SnapshotDiff
unfolding unless_nothing
take_slices none s loop = (false, s)
take_slices (some slices) s loop =
    unless_nothing
      (reconcile_bucket s.previous_readiness s.current_readiness slices.previous slices.current)
      (record s { previous = slices.previous_after; current = slices.current_after }) loop

-- `prepare_next_bucket`, with a round for each socket that is left.
unfoldable pub prepare_next_bucket : ℕ → SnapshotDiff → Bool × SnapshotDiff
unfolding take_slices
prepare_next_bucket zero s = (false, s)
prepare_next_bucket (suc rounds) s =
    take_slices (next_slices s.previous s.current) s (prepare_next_bucket rounds)

abbrev pub rounds_of : SnapshotDiff → ℕ
rounds_of s = suc (length s.previous + length s.current)

unfoldable pub replacement_event : SocketObservation → SocketObservation → Certainty → WatchEvent
replacement_event p c certainty = record {
  sides = EventSides.replacement p c;
  multiplicity = 1;
  certainty = certainty;
}

unfoldable pub remainder_event : RemainderSide → SocketObservation → WatchEvent
remainder_event RemainderSide.release socket = record {
  sides = EventSides.release socket;
  multiplicity = 1;
  certainty = Certainty.proven;
}
remainder_event RemainderSide.bind socket = record {
  sides = EventSides.bind socket;
  multiplicity = 1;
  certainty = Certainty.proven;
}

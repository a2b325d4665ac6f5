-- ===== src/Watch/Tests.antt =====
-- Polls of src/watch.rs on concrete snapshots.
use kickoutchi.Prelude.{
  ℕ, suc, ◌+◌, ◌≤◌, ◌≡◌, refl, Bool, true, false, none, List, [], ◌∷◌, map, arith, length, ok, err,
  Result, ℕ_discrete, sort_by, insert_by,
}
use kickoutchi.Model.{tcp}
use kickoutchi.Observation.{v4, linux_start_ticks, ProcessIdentity}
use kickoutchi.Observation.Sockets.{
  current_network_namespace, SocketState, SocketObservation, verified, OwnerCompleteness,
  SnapshotCompleteness, SnapshotCompleteness-discrete, NetworkSnapshot, socket_set_diff_safe,
  is_complete,
}
use kickoutchi.Observation.Compare.{
  endpoint_key, protocol_key, address_key, scope_key, order_key, compare_endpoint_identity,
  compare_owners, owner_key, marker_key, timer_key, compare_owner_completeness,
}
use kickoutchi.Watch.{
  bind, release, replacement, WatchEvent, DiffError, Certainty, bucket_key, compare_bucket,
  compare_token, compare_owner_set, compare_socket, readiness, note_gaps, note_sockets, allows,
  sole_owner, identity_change, owner_change, same_marker_kind, replacement_certainty,
}
use kickoutchi.Watch.Diff.{
  SnapshotDiff, diff_snapshots, in_order, watch_events_per_poll_max, surface, advance,
  count_remaining, same_bucket, bucket_rest, after_bucket, next_slices, remainder_of,
  reconcile_single, reconcile_bucket, with_pending, unless_nothing, take_slices,
  prepare_next_bucket, replacement_event, remainder_event, RemainderSide-discrete,
}
use kickoutchi.Watch.Iterate.{
  take_replacement, surfaced_event, take_remainder, next_event, yield_event, next, drain,
}
use kickoutchi.Watch.Counts.{count, released, bound}
use kickoutchi.Watch.Drain.{start_of, diff_snapshots-count}
use kickoutchi.Watch.Same.{diff_snapshots_same}

abbrev process_of : ℕ → ProcessIdentity
process_of pid = record { pid = pid; start_marker = linux_start_ticks 9 }

abbrev socket_on : ℕ → ℕ → SocketObservation
socket_on port pid = record {
  local_endpoint = record { protocol = tcp; address = v4 0; port = port; ipv6_scope = none };
  state = SocketState.listen;
  timer = none;
  owners = verified (process_of pid) ∷ [];
  owner_completeness = OwnerCompleteness.complete;
  socket_token = none;
  local_uid = none;
}

abbrev snapshot_of : List SocketObservation → NetworkSnapshot
snapshot_of sockets = record {
  scope = current_network_namespace;
  completeness = SnapshotCompleteness.complete;
  owner_completeness = OwnerCompleteness.complete;
  evidence_gaps = [];
  omitted_evidence_gap_count = 0;
  sockets = sockets;
  processes = λ identity. none;
}

abbrev is_limit_error : Result WatchEvent DiffError → Bool
is_limit_error (ok event) = false
is_limit_error (err error) = true

-- Port 80 changes its owner, port 81 loses a socket and port 82 appears.
abbrev earlier : NetworkSnapshot
earlier = snapshot_of (socket_on 81 3 ∷ socket_on 80 1 ∷ socket_on 81 4 ∷ [])

abbrev later : NetworkSnapshot
later = snapshot_of (socket_on 82 5 ∷ socket_on 81 4 ∷ socket_on 80 2 ∷ [])

drain-run :
    drain 9 (start_of earlier later 8)
    ≡ ok (record {
      sides = replacement (socket_on 80 1) (socket_on 80 2);
      multiplicity = 1;
      certainty = Certainty.heuristic;
    })
      ∷ ok (record {
        sides = release (socket_on 81 3);
        multiplicity = 1;
        certainty = Certainty.proven;
      })
      ∷ ok
          (record { sides = bind (socket_on 82 5); multiplicity = 1; certainty = Certainty.proven })
      ∷ []
unfolding drain next yield_event next_event take_replacement take_remainder surfaced_event surface
    advance count_remaining same_bucket bucket_rest after_bucket next_slices remainder_of
    reconcile_single reconcile_bucket with_pending unless_nothing take_slices prepare_next_bucket
    replacement_event remainder_event RemainderSide-discrete in_order sort_by insert_by
    compare_socket compare_bucket bucket_key compare_token compare_owner_set readiness note_gaps
    note_sockets allows sole_owner owner_change identity_change same_marker_kind
    replacement_certainty endpoint_key protocol_key address_key scope_key order_key
    compare_endpoint_identity compare_owners owner_key marker_key timer_key
    compare_owner_completeness is_complete ℕ_discrete
drain-run = refl

-- A limit of two is exceeded by the third event.
drain_limited-run :
    map is_limit_error (drain 3 (start_of earlier later 2)) ≡ false ∷ false ∷ true ∷ []
unfolding drain next yield_event next_event take_replacement take_remainder surfaced_event surface
    advance count_remaining same_bucket bucket_rest after_bucket next_slices remainder_of
    reconcile_single reconcile_bucket with_pending unless_nothing take_slices prepare_next_bucket
    replacement_event remainder_event RemainderSide-discrete in_order sort_by insert_by
    compare_socket compare_bucket bucket_key compare_token compare_owner_set readiness note_gaps
    note_sockets allows sole_owner owner_change identity_change same_marker_kind
    replacement_certainty endpoint_key protocol_key address_key scope_key order_key
    compare_endpoint_identity compare_owners owner_key marker_key timer_key
    compare_owner_completeness is_complete ℕ_discrete
drain_limited-run = refl

diff_snapshots-count_example :
    (s : SnapshotDiff) × (es : List WatchEvent) × (diff_snapshots earlier later ≡ ok s)
    × (drain (suc watch_events_per_poll_max) s ≡ map (λ e. ok e) es)
    × (length es ≤ watch_events_per_poll_max)
    × (count (socket_on 81 0) later.sockets + released (socket_on 81 0) es
        ≡ count (socket_on 81 0) earlier.sockets + bound (socket_on 81 0) es)
unfolding socket_set_diff_safe SnapshotCompleteness-discrete ℕ_discrete
diff_snapshots-count_example =
    diff_snapshots-count earlier later (socket_on 81 0) refl refl (omega arith) (omega arith)

diff_snapshots_same_example :
    (s : SnapshotDiff) × (diff_snapshots earlier earlier ≡ ok s)
    × (drain (suc watch_events_per_poll_max) s ≡ [])
unfolding socket_set_diff_safe SnapshotCompleteness-discrete ℕ_discrete
diff_snapshots_same_example = diff_snapshots_same earlier earlier refl refl refl

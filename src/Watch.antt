-- ===== src/Watch.antt =====
-- src/watch.rs: the events between two snapshots, and the order and the owners they depend on. An
-- event side is its socket; the snapshot that a side also carries is only displayed.
use kickoutchi.Prelude.{
  ℕ, ◌-◌, ◌++◌, Bool, true, false, not, ◌&&◌, ◌||◌, Option, none, some, List, [], ◌∷◌,
  if◌then◌else◌, any, length, take, ◌==◌, nat_eq, Ordering, compare, then_with, is_equal,
  is_greater, sort_by, compare_keys, PartialEq, derive_eq,
}
use kickoutchi.Prelude.BinarySearch.{binary_search}
use kickoutchi.Observation.{
  ProcessIdentity, ProcessStartMarker, marker_eq, linux_start_ticks, macos_start_time,
  windows_creation_time,
}
use kickoutchi.Observation.Sockets.{
  EndpointIdentity, EvidenceGap, EvidenceImpact, evidence_impact_eq, OwnerObservation, verified,
  unverified_pid, SocketObservation, NetworkSnapshot, PlatformSocketToken, is_complete,
}
use kickoutchi.Observation.Compare.{
  endpoint_key, order_key, compare_endpoint_identity, compare_owners, timer_key, token_key,
  compare_owner_completeness,
}
pub mod Diff
pub mod Iterate
pub mod Expected
pub mod Steps
pub mod Counts
pub mod Buckets
pub mod Bounds
pub mod Balance
pub mod Drain
pub mod Same
pub mod Tests

pub data Certainty : Type 0 where
  proven estimated heuristic unknown : Certainty

pub data EventSides : Type 0 where
  baseline bind release : SocketObservation → EventSides
  replacement : (previous current : SocketObservation) → EventSides

pub record WatchEvent : Type 0 where
  pub sides : EventSides
  pub multiplicity : ℕ
  pub certainty : Certainty

pub data DiffError : Type 0 where
  unsafe_snapshot event_limit_exceeded : DiffError

abbrev pub serialized_owners_max : ℕ
serialized_owners_max = 64

-- The endpoint and the state, which `compare_bucket` compares.
unfoldable pub bucket_key : SocketObservation → List ℕ
bucket_key socket = endpoint_key socket.local_endpoint ++ order_key socket.state

unfoldable pub compare_bucket : SocketObservation → SocketObservation → Ordering
compare_bucket left right = compare_keys (bucket_key left) (bucket_key right)

unfoldable pub compare_token : Option PlatformSocketToken → Option PlatformSocketToken → Ordering
compare_token (some left) (some right) = compare_keys (token_key left) (token_key right)
compare_token (some left) none = Ordering.lt
compare_token none (some right) = Ordering.gt
compare_token none none = Ordering.eq

unfoldable pub compare_owner_set : SocketObservation → SocketObservation → Ordering
compare_owner_set left right =
    then_with (compare_owner_completeness left.owner_completeness right.owner_completeness) (
      then_with
        (compare (length left.owners - serialized_owners_max)
          (length right.owners - serialized_owners_max))
        (compare_owners (take serialized_owners_max left.owners)
          (take serialized_owners_max right.owners)))

unfoldable pub compare_socket : SocketObservation → SocketObservation → Ordering
compare_socket left right = then_with (compare_bucket left right) (
    then_with (compare_token left.socket_token right.socket_token) (
      then_with (compare_owner_set left right) (
        then_with (compare_owners left.owners right.owners)
          (compare_keys (timer_key left.timer) (timer_key right.timer)))))

-- Which endpoints may show a replacement.
pub record ReplacementReadiness : Type 0 where
  pub globally_safe : Bool
  pub unsafe_endpoints : List EndpointIdentity

unfoldable pub note_gap :
    EvidenceGap → Option EndpointIdentity → ReplacementReadiness → ReplacementReadiness
note_gap gap endpoint r =
    if not (gap.impact == EvidenceImpact.ownership) then r else elim endpoint [
      | some e ↦ record {
        globally_safe = r.globally_safe;
        unsafe_endpoints = r.unsafe_endpoints ++ e ∷ [];
      }
      | none ↦ record { globally_safe = false; unsafe_endpoints = r.unsafe_endpoints }
    ]

unfoldable pub note_gaps : List EvidenceGap → ReplacementReadiness → ReplacementReadiness
note_gaps [] r = r
note_gaps (gap ∷ rest) r = note_gaps rest (note_gap gap gap.endpoint r)

unfoldable pub note_sockets : List SocketObservation → ReplacementReadiness → ReplacementReadiness
note_sockets [] r = r
note_sockets (socket ∷ rest) r = note_sockets rest (
    if is_complete socket.owner_completeness then r else record {
      globally_safe = r.globally_safe;
      unsafe_endpoints = r.unsafe_endpoints ++ socket.local_endpoint ∷ [];
    })

unfoldable pub noted : NetworkSnapshot → ReplacementReadiness
unfolding note_gaps note_sockets
noted s = note_sockets s.sockets (
    note_gaps s.evidence_gaps
      (record { globally_safe = is_complete s.owner_completeness; unsafe_endpoints = [] }))

unfoldable pub endpoint_order : EndpointIdentity → EndpointIdentity → Bool
unfolding compare_endpoint_identity
endpoint_order left right = not (is_greater (compare_endpoint_identity left right))

-- `dedup_by` of the sorted endpoints.
unfoldable pub dedup_endpoints_from :
    EndpointIdentity → List EndpointIdentity → List EndpointIdentity
dedup_endpoints_from kept [] = []
dedup_endpoints_from kept (endpoint ∷ rest) =
    let same = dedup_endpoints_from kept rest in
    let other = endpoint ∷ dedup_endpoints_from endpoint rest in
    if is_equal (compare_endpoint_identity endpoint kept) then same else other

unfoldable pub dedup_endpoints : List EndpointIdentity → List EndpointIdentity
unfolding dedup_endpoints_from
dedup_endpoints [] = []
dedup_endpoints (endpoint ∷ rest) = endpoint ∷ dedup_endpoints_from endpoint rest

unfoldable pub readiness : NetworkSnapshot → ReplacementReadiness
unfolding noted dedup_endpoints endpoint_order
readiness s = record (noted s) {
  unsafe_endpoints = dedup_endpoints (sort_by endpoint_order (noted s).unsafe_endpoints);
}

unfoldable pub allows : ReplacementReadiness → EndpointIdentity → Bool
unfolding binary_search
allows r endpoint =
    r.globally_safe
    && not (
        binary_search (λ candidate. compare_endpoint_identity candidate endpoint)
          (length r.unsafe_endpoints) r.unsafe_endpoints)

unfoldable pub same_marker_kind : ProcessStartMarker → ProcessStartMarker → Bool
same_marker_kind (linux_start_ticks a) (linux_start_ticks b) = true
same_marker_kind (macos_start_time a m) (macos_start_time b n) = true
same_marker_kind (windows_creation_time a) (windows_creation_time b) = true
same_marker_kind _ _ = false

-- The owner, where there is exactly one and it is verified.
unfoldable pub sole_owner : List OwnerObservation → Option ProcessIdentity
sole_owner (verified identity ∷ []) = some identity
sole_owner _ = none

unfoldable pub identity_change : ProcessIdentity → ProcessIdentity → Option Certainty
identity_change previous current =
    if (previous.pid == current.pid) && (previous.start_marker == current.start_marker)
    then none
    else if (previous.pid == current.pid)
        && same_marker_kind previous.start_marker current.start_marker
    then some Certainty.proven
    else some Certainty.heuristic

unfoldable pub owner_change : Option ProcessIdentity → Option ProcessIdentity → Option Certainty
owner_change none current = none
owner_change (some previous) none = none
owner_change (some previous) (some current) = identity_change previous current

unfoldable pub replacement_certainty :
    ReplacementReadiness
    → SocketObservation
    → ReplacementReadiness
    → SocketObservation
    → Option Certainty
replacement_certainty previous_readiness previous current_readiness current =
    if not (allows previous_readiness previous.local_endpoint)
      || not (allows current_readiness current.local_endpoint)
      || not (is_complete previous.owner_completeness)
      || not (is_complete current.owner_completeness)
    then none
    else owner_change (sole_owner previous.owners) (sole_owner current.owners)

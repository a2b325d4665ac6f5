-- ===== src/Collector.antt =====
-- src/collector.rs: the authority that a snapshot gives to a kill, and the rows it may act on.
use kickoutchi.Prelude.{
  ℕ, Bool, true, false, not, ◌&&◌, ◌||◌, Option, none, some, List, [], ◌∷◌, if◌then◌else◌, any, ltb,
  ◌==◌, nat_eq, option_eq, is_some_and, is_none, Result, ok, err, map_err, PartialEq, derive_eq,
  is_equal,
}
use kickoutchi.Prelude.Text.{Text}
use kickoutchi.Model.{tcp, udp, protocol_eq}
use kickoutchi.Observation.Sockets.{
  EndpointIdentity, EvidenceGap, EvidenceGapCode, EvidenceImpact, OwnerCompleteness,
  UnverifiedOwnerReason, OwnerObservation, verified, unverified_pid, SocketObservation, SocketState,
  SnapshotCompleteness, snapshot_completeness_eq, NetworkSnapshot, is_complete,
}
use kickoutchi.Observation.Compare.{compare_endpoint_identity}
use kickoutchi.Diagnostic.{is_listen, is_bound, is_verified, is_empty}
use kickoutchi.Process.Target.{PortEntryView}
use kickoutchi.Collector.Rows.{ObservationError, project_legacy_target}
pub mod Rows
pub mod Attribution
pub mod Ports
pub mod Owners

-- `read` is of Linux, with the path and the source of the failure, and `platform` of the others.
pub data CollectorError : Type 0 where
  read platform : Text → Text → CollectorError
  worker_exited : CollectorError
  observation : ObservationError → CollectorError
  ownership_permission_denied : CollectorError

unfoldable pub is_ownership_permission_denied : CollectorError → Bool
is_ownership_permission_denied (read path source) = false
is_ownership_permission_denied (platform operation detail) = false
is_ownership_permission_denied worker_exited = false
is_ownership_permission_denied (observation error) = false
is_ownership_permission_denied ownership_permission_denied = true

pub data DestructiveTargetMode : Type 0 where
  pid port : ℕ → DestructiveTargetMode

pub data Authority : Type 0 where
  complete partial permission_denied raced : Authority

abbrev pub rank : Authority → ℕ
rank Authority.complete = 0
rank Authority.partial = 1
rank Authority.permission_denied = 2
rank Authority.raced = 3

-- `merge`, the larger of the two.
abbrev pub merge : Authority → Authority → Authority
merge authority other = if ltb (rank authority) (rank other) then other else authority

-- A `merge` under an `if`.
abbrev pub merge_if : Bool → Authority → Authority → Authority
merge_if test other authority = if test then merge authority other else authority

unfoldable pub is_permission_reason : UnverifiedOwnerReason → Bool
is_permission_reason UnverifiedOwnerReason.permission_denied = true
is_permission_reason UnverifiedOwnerReason.disappeared = false
is_permission_reason UnverifiedOwnerReason.identity_unavailable = false
is_permission_reason UnverifiedOwnerReason.raced = false

unfoldable pub is_raced_reason : UnverifiedOwnerReason → Bool
is_raced_reason UnverifiedOwnerReason.raced = true
is_raced_reason UnverifiedOwnerReason.permission_denied = false
is_raced_reason UnverifiedOwnerReason.disappeared = false
is_raced_reason UnverifiedOwnerReason.identity_unavailable = false

unfoldable pub is_permission_code : EvidenceGapCode → Bool
is_permission_code EvidenceGapCode.owner_permission_denied = true
is_permission_code _ = false

unfoldable pub is_raced_code : EvidenceGapCode → Bool
is_raced_code EvidenceGapCode.observation_raced = true
is_raced_code _ = false

unfoldable pub is_raced_owner : OwnerCompleteness → Bool
is_raced_owner OwnerCompleteness.raced = true
is_raced_owner OwnerCompleteness.complete = false
is_raced_owner (OwnerCompleteness.partial reasons) = false

unfoldable pub has_permission_gap : OwnerCompleteness → Bool
has_permission_gap (OwnerCompleteness.partial reasons) = any is_permission_code reasons
has_permission_gap OwnerCompleteness.complete = false
has_permission_gap OwnerCompleteness.raced = false

unfoldable pub is_verified_as : ℕ → OwnerObservation → Bool
is_verified_as target_pid (verified identity) = identity.pid == target_pid
is_verified_as target_pid (unverified_pid owner_pid reason) = false

-- `find_map` of the reason why the target is not verified.
unfoldable pub unverified_reason : ℕ → List OwnerObservation → Option UnverifiedOwnerReason
unverified_reason target_pid [] = none
unverified_reason target_pid (verified identity ∷ rest) = unverified_reason target_pid rest
unverified_reason target_pid (unverified_pid owner_pid reason ∷ rest) =
    if owner_pid == target_pid then some reason else unverified_reason target_pid rest

-- `Some` where the socket matches, with the reason why the target is not verified.
unfoldable pub destructive_socket_match :
    SocketObservation → DestructiveTargetMode → Option (Option UnverifiedOwnerReason)
destructive_socket_match socket (port target_port) =
    if not (
      ((socket.local_endpoint.protocol == tcp) && is_listen socket.state)
      || ((socket.local_endpoint.protocol == udp) && is_bound socket.state))
    then none
    else if socket.local_endpoint.port == target_port
    then some none
    else none
destructive_socket_match socket (pid target_pid) =
    if not (
      ((socket.local_endpoint.protocol == tcp) && is_listen socket.state)
      || ((socket.local_endpoint.protocol == udp) && is_bound socket.state))
    then none
    else let reason = unverified_reason target_pid socket.owners in
      if any (is_verified_as target_pid) socket.owners || not (is_none reason)
      then some reason
      else none

unfoldable pub is_permission_owner : OwnerObservation → Bool
is_permission_owner (verified identity) = false
is_permission_owner (unverified_pid owner_pid reason) = is_permission_reason reason

-- The stricter rule for a port.
unfoldable pub holders_authority : SocketObservation → DestructiveTargetMode → Authority → Authority
holders_authority socket (pid target_pid) authority = authority
holders_authority socket (port target_port) authority =
    merge_if (any is_permission_owner socket.owners) Authority.permission_denied (
      merge_if (is_empty socket.owners || any (λ owner. not (is_verified owner)) socket.owners)
        Authority.partial authority)

unfoldable pub socket_authority :
    SocketObservation → DestructiveTargetMode → Option UnverifiedOwnerReason → Authority
unfolding holders_authority
socket_authority socket mode reason = holders_authority socket mode (
    merge_if (is_raced_owner socket.owner_completeness || is_some_and reason is_raced_reason)
      Authority.raced
      (merge_if
        (has_permission_gap socket.owner_completeness || is_some_and reason is_permission_reason)
        Authority.permission_denied
        (merge_if (not (is_none reason) || not (is_complete socket.owner_completeness))
          Authority.partial Authority.complete)))

unfoldable pub names_matched : Option EndpointIdentity → List EndpointIdentity → Bool
names_matched none matched = false
names_matched (some endpoint) matched =
    any (λ e. is_equal (compare_endpoint_identity e endpoint)) matched

unfoldable pub gap_applies :
    EvidenceImpact
    → Option EndpointIdentity
    → Option ℕ
    → DestructiveTargetMode
    → List EndpointIdentity
    → Bool
unfolding names_matched
gap_applies EvidenceImpact.metadata endpoint gap_pid mode matched = false
gap_applies EvidenceImpact.scope endpoint gap_pid mode matched = false
gap_applies EvidenceImpact.socket_set endpoint gap_pid (pid target_pid) matched =
    (gap_pid == some target_pid)
    || names_matched endpoint matched
    || (is_none endpoint && is_none gap_pid)
gap_applies EvidenceImpact.ownership endpoint gap_pid (pid target_pid) matched =
    names_matched endpoint matched || (is_none endpoint && (gap_pid == some target_pid))
gap_applies EvidenceImpact.socket_set endpoint gap_pid (port target_port) matched = elim endpoint [
  | none ↦ true
  | some e ↦ e.port == target_port
]
gap_applies EvidenceImpact.ownership endpoint gap_pid (port target_port) matched = elim endpoint [
  | none ↦ true
  | some e ↦ e.port == target_port
]

unfoldable pub gap_applies_to_target :
    EvidenceGap → DestructiveTargetMode → List EndpointIdentity → Bool
gap_applies_to_target gap mode matched = gap_applies gap.impact gap.endpoint gap.pid mode matched

-- The loop over the sockets: the endpoints that matched, and the authority.
unfoldable pub merge_matched :
    SocketObservation
    → DestructiveTargetMode
    → Option (Option UnverifiedOwnerReason)
    → List EndpointIdentity × Authority
    → List EndpointIdentity × Authority
merge_matched socket mode none (matched, authority) = (matched, authority)
merge_matched socket mode (some reason) (matched, authority) =
    (socket.local_endpoint ∷ matched, merge authority (socket_authority socket mode reason))

unfoldable pub merge_sockets :
    List SocketObservation
    → DestructiveTargetMode
    → List EndpointIdentity × Authority
    → List EndpointIdentity × Authority
unfolding merge_matched
merge_sockets [] mode found = found
merge_sockets (socket ∷ rest) mode found =
    merge_sockets rest mode (merge_matched socket mode (destructive_socket_match socket mode) found)

unfoldable pub merge_gaps :
    List EvidenceGap → DestructiveTargetMode → List EndpointIdentity → Authority → Authority
merge_gaps [] mode matched authority = authority
merge_gaps (gap ∷ rest) mode matched authority = merge_gaps rest mode matched (
    merge_if (gap_applies_to_target gap mode matched)
      (if is_permission_code gap.code then Authority.permission_denied else Authority.partial)
      (merge_if (is_raced_code gap.code) Authority.raced authority))

unfoldable pub snapshot_authority : NetworkSnapshot → DestructiveTargetMode → Authority
snapshot_authority s mode =
    let started =
      merge_if (s.completeness == SnapshotCompleteness.raced) Authority.raced
        (merge_if (not (s.omitted_evidence_gap_count == 0)) Authority.partial Authority.complete) in
    let (matched, authority) = merge_sockets s.sockets mode ([], started) in
    merge_gaps s.evidence_gaps mode matched authority

unfoldable pub target_mode : Option ℕ → Option ℕ → Option DestructiveTargetMode
target_mode (some target_pid) none = some (pid target_pid)
target_mode none (some target_port) = some (port target_port)
target_mode none none = none
target_mode (some target_pid) (some target_port) = none

unfoldable pub authorized_rows :
    Authority
    → Result (List PortEntryView) ObservationError
    → Result (List PortEntryView) CollectorError
authorized_rows Authority.raced rows = err (observation ObservationError.observation_raced)
authorized_rows Authority.permission_denied rows = err ownership_permission_denied
authorized_rows Authority.partial rows = err (observation ObservationError.partial_socket_set)
authorized_rows Authority.complete rows = map_err observation rows

unfoldable pub kill_ports_from_snapshot :
    NetworkSnapshot → Option ℕ → Option ℕ → Result (List PortEntryView) CollectorError
unfolding target_mode authorized_rows
kill_ports_from_snapshot s target_pid target_port = elim (target_mode target_pid target_port) [
  | none ↦ err (observation ObservationError.native_data_malformed)
  | some mode ↦
      authorized_rows (snapshot_authority s mode) (project_legacy_target s target_pid target_port)
]

-- ===== src/Collector/Rows.antt =====
-- The rows that src/observation.rs and src/observation/legacy.rs project from a snapshot. A
-- descriptor names a socket and one of its owners by their places, and a row is what it resolves to.
use kickoutchi.Prelude.{
  ℕ, ◌+◌, Bool, true, false, not, ◌&&◌, ◌||◌, Option, none, some, List, [], ◌∷◌, ◌++◌, map,
  if◌then◌else◌, keep, length, ltb, ◌==◌, nat_eq, is_some_and, Result, ok, err,
}
use kickoutchi.Prelude.Text.{Text, codes}
use kickoutchi.Model.{Platform, PermissionStatus, full, partial}
use kickoutchi.Observation.{ProcessIdentity}
use kickoutchi.Observation.Sockets.{
  OwnerObservation, verified, unverified_pid, SocketObservation, SocketState, ObservationScopeKind,
  current_network_namespace, current_host_process_visible_sockets, current_host_network_stack,
  MetadataCompleteness, ProcessObservation, NetworkSnapshot, is_complete,
}
use kickoutchi.Diagnostic.{is_listen, is_bound, is_empty}
use kickoutchi.ProcessEvidence.{usize_max}
use kickoutchi.Process.Target.{PortEntryView}

pub data ObservationError : Type 0 where
  socket_table_unavailable socket_table_permission_denied : ObservationError
  native_data_malformed native_data_oversized : ObservationError
  socket_observation_limit_exceeded process_identity_limit_exceeded : ObservationError
  owner_attribution_limit_exceeded legacy_projection_limit_exceeded : ObservationError
  platform_api_failed : Text → ObservationError
  clock_unavailable invalid_wall_clock_interval partial_socket_set : ObservationError
  observation_raced owner_reason_limit_exceeded scope_identifier_oversized : ObservationError
  scope_limitation_limit_exceeded : ObservationError

-- The messages of the errors.
unfoldable pub observation_error_text : ObservationError → Text
observation_error_text socket_table_unavailable = codes "socket table is unavailable"
observation_error_text socket_table_permission_denied =
    codes "permission was denied while reading the socket table"
observation_error_text native_data_malformed = codes "native observation data is malformed"
observation_error_text native_data_oversized =
    codes "native observation data exceeds its byte limit"
observation_error_text socket_observation_limit_exceeded = codes "socket observation limit exceeded"
observation_error_text process_identity_limit_exceeded = codes "process identity limit exceeded"
observation_error_text owner_attribution_limit_exceeded = codes "owner attribution limit exceeded"
observation_error_text legacy_projection_limit_exceeded = codes "legacy projection limit exceeded"
observation_error_text (platform_api_failed detail) = codes "platform API failed: " ++ detail
observation_error_text clock_unavailable = codes "wall clock is unavailable"
observation_error_text invalid_wall_clock_interval =
    codes "capture completion precedes capture start"
observation_error_text partial_socket_set = codes "socket set is partial"
observation_error_text observation_raced = codes "observation raced"
observation_error_text owner_reason_limit_exceeded =
    codes "owner completeness reason limit exceeded"
observation_error_text scope_identifier_oversized = codes "scope identifier exceeds its byte limit"
observation_error_text scope_limitation_limit_exceeded = codes "scope limitation limit exceeded"

abbrev pub derived_port_entries_max : ℕ
derived_port_entries_max = 262144

unfoldable pub snapshot_platform : ObservationScopeKind → Platform
snapshot_platform current_network_namespace = Platform.linux
snapshot_platform current_host_process_visible_sockets = Platform.macos
snapshot_platform current_host_network_stack = Platform.windows

-- `port_row_state().is_some()`.
unfoldable pub has_port_row_state : SocketState → Bool
has_port_row_state state = is_listen state || is_bound state

unfoldable pub owner_pid : OwnerObservation → ℕ
owner_pid (verified identity) = identity.pid
owner_pid (unverified_pid pid reason) = pid

unfoldable pub is_complete_metadata : MetadataCompleteness → Bool
is_complete_metadata MetadataCompleteness.complete = true
is_complete_metadata MetadataCompleteness.partial = false

-- `PortRowSource::permission`.
unfoldable pub row_permission : SocketObservation → Option ProcessObservation → PermissionStatus
unfolding is_complete_metadata
row_permission socket process =
    if is_some_and process (λ p. is_complete_metadata p.metadata_completeness)
      && is_complete socket.owner_completeness
    then full
    else partial

-- `legacy_entry`.
unfoldable pub legacy_entry :
    NetworkSnapshot
    → SocketObservation
    → Option ℕ
    → Option ProcessIdentity
    → Option ProcessObservation
    → PortEntryView
legacy_entry s socket pid identity process = record {
  protocol = socket.local_endpoint.protocol;
  local_addr = socket.local_endpoint.address;
  local_port = socket.local_endpoint.port;
  pid = pid;
  process_name = elim process [ none ↦ none | some p ↦ p.name ];
  executable_name = elim process [ none ↦ none | some p ↦ p.executable_name ];
  parent_pid = elim process [ none ↦ none | some p ↦ p.parent_pid ];
  parent_process_name = elim process [ none ↦ none | some p ↦ p.parent_process_name ];
  protected = false;
  platform = snapshot_platform s.scope;
  permission = row_permission socket process;
  process_identity = identity;
  ipv6_scope = socket.local_endpoint.ipv6_scope;
}

-- `port_row_source` and the row made of it.
unfoldable pub owner_row : NetworkSnapshot → SocketObservation → OwnerObservation → PortEntryView
unfolding legacy_entry
owner_row s socket (verified identity) =
    legacy_entry s socket (some identity.pid) (some identity) (s.processes identity)
owner_row s socket (unverified_pid pid reason) = legacy_entry s socket (some pid) none none

unfoldable pub socket_rows : NetworkSnapshot → Option ℕ → SocketObservation → List PortEntryView
unfolding owner_row owner_pid
socket_rows s none socket =
    if is_empty socket.owners
    then legacy_entry s socket none none none ∷ []
    else map (owner_row s socket) socket.owners
socket_rows s (some pid) socket =
    map (owner_row s socket) (keep (λ owner. owner_pid owner == pid) socket.owners)

unfoldable pub is_projected : Option ℕ → SocketObservation → Bool
unfolding has_port_row_state
is_projected target_port socket =
    not (is_some_and target_port (λ port. not (socket.local_endpoint.port == port)))
    && has_port_row_state socket.state

abbrev pub prepend :
    List PortEntryView
    → Result (List PortEntryView) ObservationError
    → Result (List PortEntryView) ObservationError
prepend rows (ok rest) = ok (rows ++ rest)
prepend rows (err error) = err error

-- The loop over the sockets, with the number of rows so far.
unfoldable pub project_sockets :
    NetworkSnapshot
    → Option ℕ
    → Option ℕ
    → ℕ
    → List SocketObservation
    → ℕ
    → Result (List PortEntryView) ObservationError
unfolding socket_rows is_projected
project_sockets s target_pid target_port max [] count = ok []
project_sockets s target_pid target_port max (socket ∷ rest) count =
    let rows = if is_projected target_port socket then socket_rows s target_pid socket else [] in
    let total = count + length rows in
    prepend rows (
      if not (length rows == 0) && (ltb usize_max total || ltb max total)
      then err ObservationError.legacy_projection_limit_exceeded
      else project_sockets s target_pid target_port max rest total)

unfoldable pub project_legacy_target :
    NetworkSnapshot → Option ℕ → Option ℕ → Result (List PortEntryView) ObservationError
project_legacy_target s target_pid target_port =
    project_sockets s target_pid target_port derived_port_entries_max s.sockets 0

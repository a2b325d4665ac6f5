-- ===== src/Kill/Tests.antt =====
-- A kill by port of src/cli/kill.rs and src/collector.rs on a concrete snapshot.
use kickoutchi.Prelude.{
  ℕ, ◌≡◌, refl, true, false, if◌then◌else◌, none, some, List, [], ◌∷◌, inl, ok, Result, insert_by,
  sort_by, ℕ_discrete,
}
use kickoutchi.Prelude.Text.{Text, codes, lossy_prefix}
use kickoutchi.Model.{
  Platform, tcp, full, Protocol-discrete, Platform-discrete, is_system_process,
  is_unix_system_process,
}
use kickoutchi.Observation.{
  v4, linux_start_ticks, ProcessIdentity, IpAddr-discrete, Ipv6Scope-discrete,
  ProcessStartMarker-discrete,
}
use kickoutchi.Observation.Sockets.{
  SocketObservation, SocketState, verified, OwnerCompleteness, SnapshotCompleteness,
  NetworkSnapshot, ProcessObservation, current_network_namespace, MetadataCompleteness,
  SnapshotCompleteness-discrete, is_complete,
}
use kickoutchi.Process.{Host, KillTarget, TerminationOutcome, unsafe_pid_reason}
use kickoutchi.Process.Target.{
  PortEntryView, ProcessContext, add_entries, add_entry, build_target, dedup, dedup_from,
  entry_is_system_process, from_entries, kill_target_has_port, port_of, port_order,
  still_consistent,
}
use kickoutchi.Diagnostic.{is_listen, is_bound, is_empty, is_verified}
use kickoutchi.Collector.{
  target_mode, snapshot_authority, merge_sockets, merge_matched, destructive_socket_match,
  socket_authority, holders_authority, merge_gaps, authorized_rows, is_permission_owner,
  is_raced_owner, has_permission_gap, kill_ports_from_snapshot,
}
use kickoutchi.Collector.Ports.{holds_port, port_authorized, rows_of, kill_ports_from_snapshot-port}
use kickoutchi.Collector.Rows.{
  project_legacy_target, project_sockets, socket_rows, is_projected, snapshot_platform,
  row_permission,
}
use kickoutchi.Collector.Owners.{held_only_by}
use kickoutchi.Kill.{
  port, revalidate_single_cli_target, revalidate_cli_target_with, check_fresh_target,
  check_resolved, dedup_after, dedup_pids, entry_pids, mark_entry, mark_protected, no_rows,
  resolve_kill_target, resolve_port_target, resolve_single_port_owner, sole_pid,
}
use kickoutchi.Kill.Holders.{revalidate_single_cli_target-held}
use kickoutchi.Kill.Total.{revalidate_single_cli_target_total}
use kickoutchi.Process.Confirm.{
  confirmed_port_owner_unavailable, marker_unchanged, name_unchanged, single_observation,
  target_still_matches_confirmation, validate_single_delivery_evidence,
}
use kickoutchi.ProcessEvidence.{
  checked_total, finish, new, observe, observe_fresh, oversized, retain, with_limits,
}
use kickoutchi.Protection.{
  is_protected_by_names, is_protected_process_name, linux_comm_prefix, name_matches,
}

abbrev server : ProcessIdentity
server = record { pid = 40; start_marker = linux_start_ticks 9 }

abbrev listener : SocketObservation
listener = record {
  local_endpoint = record { protocol = tcp; address = v4 0; port = 8080; ipv6_scope = none };
  state = SocketState.listen;
  timer = none;
  owners = verified server ∷ [];
  owner_completeness = OwnerCompleteness.complete;
  socket_token = none;
  local_uid = none;
}

-- A connection that no process owns any more does not hold the port.
abbrev orphan : SocketObservation
orphan = record listener { state = SocketState.time_wait; owners = [] }

abbrev observed : ProcessObservation
observed = record {
  name = some (codes "server");
  executable_name = none;
  parent_pid = some 7;
  parent_process_name = none;
  metadata_completeness = MetadataCompleteness.complete;
}

abbrev pub snapshot : NetworkSnapshot
snapshot = record {
  scope = current_network_namespace;
  completeness = SnapshotCompleteness.complete;
  owner_completeness = OwnerCompleteness.complete;
  evidence_gaps = [];
  omitted_evidence_gap_count = 0;
  sockets = listener ∷ orphan ∷ [];
  processes = λ identity. some observed;
}

abbrev pub host : Host
host = record { process_id = 999; user_id = 1000 }

abbrev pub context : ℕ → ProcessContext
context pid = record { owner_uid = some 1000; child_count = 0; children_truncated = false }

abbrev pub names : List Text
names = codes "sshd" ∷ []

abbrev pub confirmed : KillTarget
confirmed = record {
  pid = 40;
  process_name = some (codes "server");
  platform = Platform.linux;
  permission = full;
  protected = false;
  system_process = false;
  ports = record { protocol = tcp; local_addr = v4 0; local_port = 8080; ipv6_scope = none } ∷ [];
  owner_uid = some 1000;
  process_start_time_marker = some (linux_start_ticks 9);
  child_count = 0;
  children_truncated = false;
}

abbrev row : PortEntryView
row = record {
  protocol = tcp;
  local_addr = v4 0;
  local_port = 8080;
  pid = some 40;
  process_name = some (codes "server");
  executable_name = none;
  parent_pid = some 7;
  parent_process_name = none;
  protected = false;
  platform = Platform.linux;
  permission = full;
  process_identity = some server;
  ipv6_scope = none;
}

authorized : port_authorized 8080 snapshot ≡ true
unfolding SnapshotCompleteness-discrete Protocol-discrete is_listen is_bound is_empty is_verified
    is_complete
authorized = refl

projected : project_legacy_target snapshot none (some 8080) ≡ ok (row ∷ [])
unfolding project_legacy_target project_sockets socket_rows is_projected is_listen is_empty is_bound
    snapshot_platform row_permission is_complete
projected = refl

collected : kill_ports_from_snapshot snapshot none (some 8080) ≡ ok (row ∷ [])
unfolding kill_ports_from_snapshot target_mode snapshot_authority merge_sockets merge_matched
    destructive_socket_match socket_authority holders_authority merge_gaps authorized_rows
    SnapshotCompleteness-discrete Protocol-discrete is_listen is_bound is_empty is_verified
    is_complete is_permission_owner is_raced_owner has_permission_gap project_legacy_target
    project_sockets snapshot_platform row_permission
collected = refl

checked :
    revalidate_single_cli_target host context (port 8080) names confirmed (ok (row ∷ []))
    ≡ some (ok confirmed)
unfolding revalidate_single_cli_target revalidate_cli_target_with confirmed_port_owner_unavailable
    mark_protected resolve_kill_target resolve_single_port_owner sort_by unsafe_pid_reason
    from_entries validate_single_delivery_evidence single_observation new observe
    ProcessStartMarker-discrete ℕ_discrete finish target_still_matches_confirmation
    kill_target_has_port dedup check_fresh_target check_resolved dedup_after dedup_pids entry_pids
    mark_entry no_rows resolve_port_target sole_pid Platform-discrete Protocol-discrete
    is_system_process is_unix_system_process IpAddr-discrete Ipv6Scope-discrete insert_by
    lossy_prefix marker_unchanged name_unchanged add_entries add_entry build_target dedup_from
    entry_is_system_process port_of port_order still_consistent checked_total observe_fresh
    oversized retain with_limits is_protected_by_names is_protected_process_name linux_comm_prefix
    name_matches
checked = refl

revalidated :
    revalidate_single_cli_target host context
      (port 8080)
      names
      confirmed
      (kill_ports_from_snapshot snapshot none (some 8080))
    ≡ some (ok confirmed)
revalidated = rw collected checked

holding : holds_port 8080 listener ≡ true
unfolding Protocol-discrete is_listen
holding = refl

kill_ports_from_snapshot-port_example :
    rows_of (kill_ports_from_snapshot snapshot none (some 8080)) ≡ (
      if port_authorized 8080 snapshot
      then rows_of (project_legacy_target snapshot none (some 8080))
      else none)
kill_ports_from_snapshot-port_example = kill_ports_from_snapshot-port 8080 snapshot

revalidate_single_cli_target-held_example :
    (unsafe_pid_reason host 40 ≡ none) × (held_only_by 40 listener ≡ true)
revalidate_single_cli_target-held_example =
    revalidate_single_cli_target-held host context 8080 names confirmed confirmed snapshot listener
      revalidated (inl refl) holding

revalidate_single_cli_target_total_example :
    (outcome : Result KillTarget TerminationOutcome) × (revalidate_single_cli_target host context
        (port 8080)
        names
        confirmed
        (kill_ports_from_snapshot snapshot none (some 8080))
      ≡ some outcome)
revalidate_single_cli_target_total_example =
    revalidate_single_cli_target_total host context (port 8080) names confirmed
      (kill_ports_from_snapshot snapshot none (some 8080))

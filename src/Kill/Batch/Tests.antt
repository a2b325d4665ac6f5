-- ===== src/Kill/Batch/Tests.antt =====
-- A batch of src/cli/kill/batch.rs with two targets that name one process.
use kickoutchi.Prelude.{
  none, ℕ, ◌≡◌, refl, true, false, some, List, [], ◌∷◌, ok, insert_by, sort_by, ℕ_discrete,
}
use kickoutchi.Prelude.Text.{codes, lossy_prefix}
use kickoutchi.Model.{
  Protocol-discrete, Platform-discrete, is_system_process, is_unix_system_process,
}
use kickoutchi.Observation.{IpAddr-discrete, Ipv6Scope-discrete, ProcessStartMarker-discrete}
use kickoutchi.Observation.Sockets.{SnapshotCompleteness-discrete, is_complete}
use kickoutchi.Process.{TerminationOutcome, unsafe_pid_reason}
use kickoutchi.Process.Target.{
  add_entries, add_entry, build_target, dedup, dedup_from, entry_is_system_process, from_entries,
  kill_target_has_port, port_of, port_order, still_consistent,
}
use kickoutchi.Diagnostic.{is_listen, is_bound, is_empty, is_verified}
use kickoutchi.Collector.{
  target_mode, snapshot_authority, merge_sockets, merge_matched, destructive_socket_match,
  socket_authority, holders_authority, merge_gaps, authorized_rows, is_permission_owner,
  is_raced_owner, has_permission_gap, kill_ports_from_snapshot,
}
use kickoutchi.Collector.Rows.{
  project_legacy_target, project_sockets, socket_rows, is_projected, snapshot_platform,
  row_permission,
}
use kickoutchi.Kill.{
  port, revalidate_single_cli_target, revalidate_cli_target_with, check_fresh_target,
  check_resolved, dedup_after, dedup_pids, entry_pids, mark_entry, mark_protected, no_rows,
  resolve_kill_target, resolve_port_target, resolve_single_port_owner, sole_pid,
}
use kickoutchi.Process.Confirm.{
  confirmed_port_owner_unavailable, marker_unchanged, name_unchanged, single_observation,
  target_still_matches_confirmation, validate_single_delivery_evidence,
}
use kickoutchi.ProcessEvidence.{
  checked_total, finish, new, observe, observe_fresh, oversized, retain, with_limits,
}
use kickoutchi.Protection.{
  is_protected_by_names, is_protected_process_name, linux_comm_prefix, name_matches,
}
use kickoutchi.Process.{KillMode, KillMode-discrete}
use kickoutchi.Process.Confirm.{confirmation_requirement}
use kickoutchi.Process.Stopped.{is_success}
use kickoutchi.Prelude.Text.{eq_ignore_ascii_case, trim, trim_start}
use kickoutchi.Prelude.{◌≤◌}
use kickoutchi.Kill.{resolve_pid_target}
use kickoutchi.Kill.Batch.Run.{
  stopped, BatchEnd, is_yes, confirm_answer, rank, max_from, aggregate_exit, identity_of,
  identities_of, delivered_ports, mode_of, confirm_requirement, confirm, finish_batch,
  run_confirmed, run_planned, run_batch_kill_with,
}
use kickoutchi.Kill.Batch.{unprovable_owner, denies_ownership, refuse}
use kickoutchi.Settle.{
  ExitObservation, PortsStatus, settle, settle_loop, start_settling, report_of, split_pending,
  note_remaining, error_of, remove_error, insert_error, poll_exits, retain_running, note_exit,
  poll_ports, note_ports, see_ports, is_settled, pause, confirmed_ports_visible, is_still_visible,
  none_left,
}
use kickoutchi.Kill.{selector_pid, selector_port, pid}
use kickoutchi.Kill.Tests.{snapshot, host, context, names, confirmed}
use kickoutchi.Kill.Batch.{
  ExitReason, KillArgs, Config, BatchIo, hidden_port_owner, unprovable_port_kill, extend_ports,
  add_target, plan_resolved, plan_target, plan_targets, plan_rows, plan, exit_reason_for_outcome,
}
use kickoutchi.Kill.Batch.Deliver.{
  retain_handle, prepare_all, push_outcome, terminate_revalidated, terminate_all, deliver_against,
  deliver, revalidated,
}
use kickoutchi.Kill.Batch.Record.{Recorded, recording, nothing_sent}
use kickoutchi.Kill.Batch.Safety.{Orderly, batch_sends_confirmed}
use kickoutchi.Prelude.{◌↔◌, All}
use kickoutchi.Kill.Batch.Deliver.{Delivering}
use kickoutchi.Kill.Batch.{Planned}
use kickoutchi.Kill.Batch.Exit.{Answers, batch_accounts}
use kickoutchi.Kill.Batch.Unique.{batch_sends_once}
use kickoutchi.Kill.Batch.Counted.{sent_for}
use kickoutchi.Kill.Batch.Total.{run_batch_kill_total}

abbrev by_port : KillArgs
by_port = record { selector = port 8080; force = false; skip = false }

abbrev by_pid : KillArgs
by_pid = record by_port { selector = pid 40 }

abbrev config : Config
config = record { protected_processes = names; confirm_force_kill = true }

-- The handle of a process is its PID, and the state lists the terminated ones.
abbrev machine : BatchIo ℕ (List ℕ)
machine = record {
  context = λ w. (context, w);
  prompt = λ w. (ok (codes " Y"), w);
  fresh_snapshot = λ w. (ok snapshot, w);
  prepare = λ target w. (ok target, w);
  terminate = λ handle target protected mode w. (TerminationOutcome.success, handle ∷ w);
  settle = record {
    collect_ports = λ w. (ok [], w);
    observe_exit = λ identity w. (ExitObservation.exited, w);
    sleep = λ delay w. w;
  };
}

abbrev batch_end : BatchEnd (Recorded (List ℕ))
batch_end = record {
  exit = ExitReason.success;
  settled = some (record {
    exited = 40 ∷ [];
    running = [];
    unknown = [];
    ports = PortsStatus.cleared;
    visible_ports = [];
  });
  world = record {
    inner = 40 ∷ [];
    log = (record { retained_for = 40; target = confirmed; mode = KillMode.terminate }) ∷ [];
  };
}

batch-run :
    run_batch_kill_with
      (recording machine)
      host
      config
      snapshot
      (by_port ∷ by_pid ∷ [])
      (nothing_sent [])
    ≡ some batch_end
unfolding IpAddr-discrete Ipv6Scope-discrete KillMode-discrete Platform-discrete
    ProcessStartMarker-discrete Protocol-discrete SnapshotCompleteness-discrete add_entries
    add_entry add_target aggregate_exit authorized_rows build_target check_fresh_target
    check_resolved checked_total confirm confirm_answer confirm_requirement confirmation_requirement
    confirmed_port_owner_unavailable confirmed_ports_visible dedup dedup_after dedup_from dedup_pids
    deliver deliver_against delivered_ports denies_ownership destructive_socket_match
    entry_is_system_process entry_pids eq_ignore_ascii_case error_of exit_reason_for_outcome
    extend_ports finish finish_batch from_entries has_permission_gap hidden_port_owner
    holders_authority identities_of identity_of insert_by insert_error is_bound is_complete is_empty
    is_listen is_permission_owner is_projected is_protected_by_names is_protected_process_name
    is_raced_owner is_settled is_still_visible is_success is_system_process is_unix_system_process
    is_verified is_yes kill_ports_from_snapshot kill_target_has_port linux_comm_prefix lossy_prefix
    mark_entry mark_protected marker_unchanged max_from merge_gaps merge_matched merge_sockets
    mode_of name_matches name_unchanged new no_rows none_left note_exit note_ports note_remaining
    observe observe_fresh oversized pause plan plan_resolved plan_rows plan_target plan_targets
    poll_exits poll_ports port_of port_order prepare_all project_legacy_target project_sockets
    push_outcome rank refuse remove_error report_of resolve_kill_target resolve_pid_target
    resolve_port_target resolve_single_port_owner retain retain_handle retain_running
    revalidate_cli_target_with revalidate_single_cli_target revalidated row_permission
    run_batch_kill_with run_confirmed run_planned see_ports selector_pid selector_port settle
    settle_loop single_observation snapshot_authority snapshot_platform socket_authority socket_rows
    sole_pid sort_by split_pending start_settling still_consistent stopped target_mode
    target_still_matches_confirmation terminate_all terminate_revalidated trim trim_start
    unprovable_owner unprovable_port_kill unsafe_pid_reason validate_single_delivery_evidence
    with_limits ℕ_discrete
batch-run = refl

batch_sends_confirmed_example :
    Orderly machine host config snapshot
      (by_port ∷ by_pid ∷ [])
      []
      KillMode.terminate
      false
      batch_end.world.log
unfolding mode_of
batch_sends_confirmed_example =
    batch_sends_confirmed machine host config snapshot by_port (by_pid ∷ []) [] batch_end batch-run

batch_sends_once_example : sent_for 40 batch_end.world.log ≤ 1
batch_sends_once_example =
    batch_sends_once machine host config 40 snapshot by_port (by_pid ∷ []) [] batch_end batch-run

run_batch_kill_total_example :
    (end : BatchEnd (List ℕ)) × (run_batch_kill_with machine host config snapshot
        (by_port ∷ by_pid ∷ [])
        []
      ≡ some end)
run_batch_kill_total_example =
    run_batch_kill_total machine host config snapshot (by_port ∷ by_pid ∷ []) []

abbrev planned : List Planned
planned = (record { args = by_port; target = confirmed; extra_ports = confirmed.ports }) ∷ []

abbrev delivered : Delivering ℕ (List ℕ)
delivered = record {
  outcomes =
      (record {
        index = 0;
        planned = record { args = by_port; target = confirmed; extra_ports = confirmed.ports };
        target = confirmed;
        outcome = TerminationOutcome.success;
      })
      ∷ [];
  handles =
      (record {
        index = 0;
        planned = record { args = by_port; target = confirmed; extra_ports = confirmed.ports };
        handle = 40;
      })
      ∷ [];
  world = 40 ∷ [];
}

deliver-run : deliver machine host config KillMode.terminate planned [] ≡ some (ok delivered)
unfolding IpAddr-discrete Ipv6Scope-discrete Platform-discrete ProcessStartMarker-discrete
    Protocol-discrete SnapshotCompleteness-discrete add_entries add_entry authorized_rows
    build_target check_fresh_target check_resolved checked_total confirmed_port_owner_unavailable
    dedup dedup_after dedup_from dedup_pids deliver deliver_against destructive_socket_match
    entry_is_system_process entry_pids finish from_entries has_permission_gap holders_authority
    insert_by is_bound is_complete is_empty is_listen is_permission_owner is_projected
    is_protected_by_names is_protected_process_name is_raced_owner is_system_process
    is_unix_system_process is_verified kill_ports_from_snapshot kill_target_has_port
    linux_comm_prefix lossy_prefix mark_entry mark_protected marker_unchanged merge_gaps
    merge_matched merge_sockets name_matches name_unchanged new no_rows observe observe_fresh
    oversized port_of port_order prepare_all project_legacy_target project_sockets push_outcome
    resolve_kill_target resolve_port_target resolve_single_port_owner retain retain_handle
    revalidate_cli_target_with revalidate_single_cli_target revalidated row_permission selector_pid
    selector_port single_observation snapshot_authority snapshot_platform socket_authority
    socket_rows sole_pid sort_by still_consistent target_mode target_still_matches_confirmation
    terminate_all terminate_revalidated unsafe_pid_reason validate_single_delivery_evidence
    with_limits ℕ_discrete
deliver-run = refl

batch_accounts_example :
    (end : BatchEnd (List ℕ)) × (run_confirmed machine host config KillMode.terminate planned
        (some (none, []))
      ≡ some end)
    × Answers machine host config KillMode.terminate planned delivered.outcomes
    × ((end.exit ≡ ExitReason.success)
        ↔ All (λ o. o.outcome ≡ TerminationOutcome.success) delivered.outcomes)
batch_accounts_example =
    batch_accounts machine host config KillMode.terminate planned [] delivered deliver-run

-- ===== src/Process/Tests.antt =====
-- Kill targets and their checks of src/process.rs on concrete rows.
use kickoutchi.Prelude.{
  ℕ, ◌≡◌, ◌≤◌, refl, true, false, not, ◌&&◌, Option, none, some, List, [], ◌∷◌, All, all, any,
  is_some_and, ◌==◌, ◌+◌, ok, Result, ℕ_discrete, sort_by, insert_by,
}
use kickoutchi.Prelude.Text.{codes, text_eq, byte_len}
use kickoutchi.Model.{
  Platform, Platform-discrete, tcp, full, Protocol-discrete, is_system_process,
  is_unix_system_process,
}
use kickoutchi.Observation.{
  linux_start_ticks, ProcessStartMarker, ProcessStartMarker-discrete, v4, IpAddr-discrete,
}
use kickoutchi.Protection.{is_protected_by_names, is_protected_process_name, name_matches}
use kickoutchi.ProcessEvidence
use kickoutchi.ProcessEvidence.{
  FreshProcessEvidence, ProcessEvidenceError, observe, finish, protection_name_max_bytes,
}
use kickoutchi.Process.{KillMode, KillTarget, TerminationOutcome, success}
use kickoutchi.Process.Target.{
  PortEntryView, port_of, port_beq, port_order, dedup, kill_target_has_port, add_entry, add_entries,
  build_target, from_entries, entry_is_system_process, still_consistent,
}
use kickoutchi.Process.Confirm.{
  revalidate_confirmed_target, confirmed_rows, confirmed_port_owner_unavailable,
  target_still_matches_confirmation, name_unchanged, check_final_evidence, single_observation,
}
use kickoutchi.Process.Stopped.{is_success, finish_stopped_termination}
use kickoutchi.Process.Identity.{marker_is_shared}
use kickoutchi.Process.Ports.{target_has_row_ports}
use kickoutchi.Process.Rows.{revalidation_never_panics}
use kickoutchi.Process.Gates.{revalidated_is_confirmed, final_check_is_fresh, sigterm_continues}
use kickoutchi.Tree.{TreeSignalResult}

abbrev listener : ℕ → PortEntryView
listener port = record {
  protocol = tcp;
  local_addr = v4 2130706433;
  local_port = port;
  pid = some 40;
  process_name = some (codes "server");
  executable_name = none;
  parent_pid = some 7;
  parent_process_name = none;
  protected = false;
  platform = Platform.linux;
  permission = full;
  process_identity = some (record { pid = 40; start_marker = linux_start_ticks 9 });
  ipv6_scope = none;
}

abbrev rows : List PortEntryView
rows = listener 8080 ∷ listener 443 ∷ listener 8080 ∷ []

abbrev server : KillTarget
server = record {
  pid = 40;
  process_name = some (codes "server");
  platform = Platform.linux;
  permission = full;
  protected = false;
  system_process = false;
  ports = port_of (listener 443) ∷ port_of (listener 8080) ∷ [];
  owner_uid = none;
  process_start_time_marker = some (linux_start_ticks 9);
  child_count = 0;
  children_truncated = false;
}

built : from_entries 40 rows none ≡ some server
unfolding from_entries add_entries add_entry build_target dedup sort_by insert_by port_order port_of
    entry_is_system_process still_consistent ℕ_discrete ProcessStartMarker-discrete
    is_system_process Protocol-discrete is_unix_system_process IpAddr-discrete
built = refl

revalidated : revalidate_confirmed_target server rows none ≡ ok server
unfolding revalidate_confirmed_target confirmed_rows confirmed_port_owner_unavailable
    target_still_matches_confirmation kill_target_has_port from_entries add_entries add_entry
    build_target dedup sort_by insert_by port_order port_of entry_is_system_process still_consistent
    ℕ_discrete ProcessStartMarker-discrete is_system_process Protocol-discrete
    is_unix_system_process IpAddr-discrete
revalidated = refl

marker_is_shared_example :
    All
      (λ entry.
        entry.process_identity ≡ some (record { pid = 40; start_marker = linux_start_ticks 9 }))
      rows
marker_is_shared_example = marker_is_shared 40 rows none server (linux_start_ticks 9) built refl

target_has_row_ports_example :
    kill_target_has_port server.ports (port_of (listener 443))
    ≡ any (λ entry. port_beq (port_of entry) (port_of (listener 443))) rows
target_has_row_ports_example =
    target_has_row_ports 40 rows none server (port_of (listener 443)) built

abbrev moved : KillTarget
moved = record server { pid = 41 }

moved_builds_nothing : from_entries 41 (confirmed_rows moved rows) none ≡ none
unfolding from_entries confirmed_rows kill_target_has_port ℕ_discrete
moved_builds_nothing = refl

revalidation_never_panics_example : confirmed_rows moved rows ≡ []
revalidation_never_panics_example = revalidation_never_panics moved rows none moved_builds_nothing

revalidated_is_confirmed_example :
    (40 ≡ server.pid)
    × (name_unchanged server.process_name server.process_name ≡ true)
    × ((marker : ProcessStartMarker) × (server.process_start_time_marker ≡ some marker)
        × (server.process_start_time_marker ≡ some marker))
    × (all (kill_target_has_port server.ports) server.ports ≡ true)
    × (server.protected && not server.protected ≡ false)
    × (confirmed_port_owner_unavailable server rows ≡ false)
revalidated_is_confirmed_example = revalidated_is_confirmed server server rows none revalidated

abbrev fresh_evidence : FreshProcessEvidence
fresh_evidence = record {
  pid = 40;
  start_marker = linux_start_ticks 9;
  name = codes "server";
  executable_name = none;
}

abbrev read : Result FreshProcessEvidence ProcessEvidenceError
read = ok fresh_evidence

passed : check_final_evidence server (codes "sshd" ∷ []) read ≡ none
unfolding check_final_evidence single_observation ProcessEvidence.new observe finish
    is_protected_by_names is_protected_process_name name_matches ProcessStartMarker-discrete
    Platform-discrete ℕ_discrete
passed = refl

final_check_is_fresh_example :
    (fresh : FreshProcessEvidence) × (read ≡ ok fresh)
    × (fresh.pid ≡ 40)
    × (server.process_start_time_marker ≡ some fresh.start_marker)
    × (is_some_and server.process_name (λ name. not (name == fresh.name)) ≡ false)
    × (byte_len fresh.name ≤ protection_name_max_bytes)
    × (is_protected_by_names server.platform
            (some fresh.name)
            fresh.executable_name
            (codes "sshd" ∷ [])
          && not server.protected
        ≡ false)
final_check_is_fresh_example = final_check_is_fresh server (codes "sshd" ∷ []) read passed

-- The state counts the continues.
abbrev succeeds : KillMode → ℕ → TerminationOutcome × ℕ
succeeds mode count = (success, count)

abbrev continues : ℕ → Option ProcessStartMarker → ℕ → TreeSignalResult × ℕ
continues pid marker count = (TreeSignalResult.delivered, count + 1)

sigterm_continues_example :
    ((finish_stopped_termination succeeds continues 40 KillMode.terminate true none 0).1 ≡ 1)
    × (is_success
            (finish_stopped_termination succeeds continues 40 KillMode.terminate true none 0).0
          && not (is_success success)
        ≡ false)
sigterm_continues_example = sigterm_continues succeeds continues 40 none 0

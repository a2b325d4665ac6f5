-- ===== src/Settle/Tests.antt =====
-- The settling of src/cli/settle.rs on a concrete machine, whose state is its clock in
-- milliseconds.
use kickoutchi.Prelude.{
  times, ℕ, ◌≡◌, ◌+◌, refl, true, false, not, none, some, List, [], ◌∷◌, if◌then◌else◌, ltb, ok,
  ◌==◌, nat_eq, All, sort_by, insert_by, ℕ_discrete,
}
use kickoutchi.Prelude.Text.{codes}
use kickoutchi.Model.{Platform, tcp, full, Protocol-discrete}
use kickoutchi.Observation.{v4, linux_start_ticks, ProcessIdentity, IpAddr-discrete}
use kickoutchi.Process.{KillTargetPort}
use kickoutchi.Process.Target.{
  PortEntryView, port_of, port_order, dedup, dedup_from, kill_target_has_port,
}
use kickoutchi.Settle.{
  ExitObservation, PortsStatus, SettleProbe, SettleReport, is_still_visible, none_left, settle,
  settle_loop, start_settling, report_of, split_pending, note_remaining, error_of, remove_error,
  insert_error, poll_exits, retain_running, note_exit, poll_ports, note_ports, see_ports,
  is_settled, pause, confirmed_ports_visible,
}
use kickoutchi.Settle.Accounting.{is_pid, error_about, settle_accounts}
use kickoutchi.Settle.Observed.{Exited, Failed, reports_are_observed}
use kickoutchi.Settle.Visibility.{still_visible_lists_ports, visible_ports_confirmed}

abbrev row_at : ℕ → PortEntryView
row_at port = record {
  protocol = tcp;
  local_addr = v4 2130706433;
  local_port = port;
  pid = some 40;
  process_name = none;
  executable_name = none;
  parent_pid = none;
  parent_process_name = none;
  protected = false;
  platform = Platform.linux;
  permission = full;
  process_identity = none;
  ipv6_scope = none;
}

abbrev process_of : ℕ → ProcessIdentity
process_of pid = record { pid = pid; start_marker = linux_start_ticks 9 }

-- Process 40 exits after 200 ms and 41 never, and 42 cannot be read; port 8080 stays.
abbrev machine : SettleProbe ℕ
machine = record {
  collect_ports = λ clock. (ok (row_at 8080 ∷ row_at 22 ∷ row_at 8080 ∷ []), clock);
  observe_exit = λ identity clock. (
    if identity.pid == 40
        then (if ltb clock 200 then ExitObservation.running else ExitObservation.exited)
        else if identity.pid == 41
        then ExitObservation.running
        else ExitObservation.unknown (codes "denied"),
    clock,
  );
  sleep = λ delay clock. clock + delay;
}

abbrev confirmed : List KillTargetPort
confirmed = port_of (row_at 443) ∷ port_of (row_at 8080) ∷ []

abbrev report : SettleReport
report = settle machine (process_of 42 ∷ process_of 40 ∷ process_of 41 ∷ []) confirmed 0

report-run : report ≡ record {
  exited = 40 ∷ [];
  running = 41 ∷ [];
  unknown = (42, codes "denied") ∷ [];
  ports = PortsStatus.still_visible;
  visible_ports = port_of (row_at 8080) ∷ [];
}
unfolding settle settle_loop start_settling report_of split_pending note_remaining error_of
    remove_error insert_error poll_exits retain_running note_exit poll_ports note_ports see_ports
    is_settled pause confirmed_ports_visible is_still_visible none_left dedup dedup_from port_of
    port_order kill_target_has_port sort_by insert_by Protocol-discrete IpAddr-discrete ℕ_discrete
report-run = refl

settle_accounts_example :
    times (is_pid 40) report.exited
      + (times (is_pid 40) report.running + times (error_about 40) report.unknown)
    ≡ 1
settle_accounts_example =
    settle_accounts machine (process_of 42 ∷ process_of 40 ∷ process_of 41 ∷ []) confirmed 0 40

reports_are_observed_example :
    All (Exited machine (process_of 42 ∷ process_of 40 ∷ process_of 41 ∷ [])) report.exited
    × All (Failed machine (process_of 42 ∷ process_of 40 ∷ process_of 41 ∷ [])) report.unknown
reports_are_observed_example =
    reports_are_observed machine (process_of 42 ∷ process_of 40 ∷ process_of 41 ∷ []) confirmed 0

still_visible_lists_ports_example :
    is_still_visible report.ports ≡ not (none_left report.visible_ports)
still_visible_lists_ports_example =
    still_visible_lists_ports machine (process_of 42 ∷ process_of 40 ∷ process_of 41 ∷ []) confirmed
      0

visible_ports_confirmed_example :
    All (λ port. kill_target_has_port confirmed port ≡ true) report.visible_ports
visible_ports_confirmed_example =
    visible_ports_confirmed machine (process_of 42 ∷ process_of 40 ∷ process_of 41 ∷ []) confirmed 0

-- ===== src/Tree/Tests.antt =====
-- Runs of the pipeline of src/tree/execute.rs over a small process table.
use kickoutchi.Prelude.{
  ◌≡◌, refl, true, false, not, ◌&&◌, ◌||◌, all, any, find, keep, is_none, is_some, is_some_and,
  ◌==◌, nat_eq, none, some, List, [], ◌∷◌, reverse, length, ◌+◌, All, ℕ_discrete, sort_by,
  insert_by,
}
use kickoutchi.Prelude.Text.{Text, codes}
use kickoutchi.Model.{Platform, is_system_process, Platform-discrete}
use kickoutchi.Observation.{linux_start_ticks, ProcessStartMarker-discrete}
use kickoutchi.Process.{KillMode, KillMode-discrete, unsafe_pid_reason}
use kickoutchi.Protection.{is_protected_by_names, is_protected_process_name, name_matches}
use kickoutchi.ProcessEvidence
use kickoutchi.ProcessEvidence.{observe, finish, with_limits}
use kickoutchi.Tree.Index
use kickoutchi.Tree.Index.{ProcessTreeIndex, children, process, by_pid_order, is_child_of, new_lem}
use kickoutchi.Tree.Sweep.{
  freeze_sweep, stop_before_deadline, run_pass, drain, freeze_members, freeze_member, stop_member,
  after_stop, push_member,
}
use kickoutchi.Tree.Verify.{
  verify_root_after_stop, check_root_snapshot, check_root_row, root_identity_matches, left_group,
  verify_frozen_identities, verify_nodes, verify_node, prepare_delivery_handles,
  verify_fresh_delivery_evidence, observe_members,
}
use kickoutchi.Tree.Policy.{
  check_tree_policy, check_members, check_descendants, check_root, check_skipped,
  needs_confirmation, node_protected, is_system, below_root, at_root,
}
use kickoutchi.Tree.Deliver.{refuse_after_thaw, thaw_members, signal_tree}
use kickoutchi.Tree.{
  TreeProcessInfo, ScopeAuthorization, default_fresh_process_evidence, protected_root_confirmed,
  prompt_skipped,
}
use kickoutchi.Tree.Outcome.{TreeKillOutcome, TreeKillReport, completed, is_completed}
use kickoutchi.Tree.Frozen.{
  SweepScope, FrozenNode, pids, unfrozen_members, from_info, member_cap, relation_holds, identity,
}
use kickoutchi.Tree.Execute.{execute_freeze_kill, snapshot_scope}
use kickoutchi.Tree.Record.{Recorded, recording, guarding, fresh, killed, continued, owed, stops}
use kickoutchi.Tree.Safety.Refusal.{refusal_undoes_stops}
use kickoutchi.Tree.Safety.Delivery.{Before, completed_kills_stopped}
use kickoutchi.Tree.Safety.Trace.{Evidenced}
use kickoutchi.Prelude.Sorted.{IsSorted}
use mathlib.Core.List.{Perm}
use kickoutchi.Tree.Safety.Accounting.{report_accounts_for_kills}
use kickoutchi.Tree.Safety.Aim.{target}
use kickoutchi.Tree.Safety.Targets.{targets_are_safe}
use kickoutchi.Tree.Policy.Laws.{policy_passes}
use kickoutchi.Tree.Safety.GroupOrder.{since_continue, group_kills_first}
use kickoutchi.Tree.Fixture.{
  table_ops, idle_guard, table, identified, table_index, this_host, server,
}

abbrev run : SweepScope → List Text → TreeKillOutcome × Recorded (List TreeProcessInfo)
run scope protected_names =
    execute_freeze_kill this_host (recording table_ops) (guarding idle_guard) server scope
      KillMode.terminate protected_names Platform.linux ScopeAuthorization.typed_word_confirmed
      (fresh table)

abbrev refused : TreeKillOutcome × Recorded (List TreeProcessInfo)
refused = run SweepScope.tree (codes "sshd" ∷ [])

abbrev finished : TreeKillOutcome × Recorded (List TreeProcessInfo)
finished = run SweepScope.tree (codes "nginx" ∷ [])

-- The protected descendant 42 is found once the tree is stopped: everything is continued again.
refused_run :
    (is_completed refused.0 ≡ false)
    × (continued refused.1.log ≡ 42 ∷ 41 ∷ 40 ∷ [])
    × (killed refused.1.log ≡ [])
unfolding execute_freeze_kill is_completed unsafe_pid_reason stop_before_deadline
    verify_root_after_stop check_root_snapshot check_root_row root_identity_matches left_group
    ProcessStartMarker-discrete ℕ_discrete freeze_sweep Index.new ProcessEvidence.new
    Platform-discrete KillMode-discrete run_pass drain unfrozen_members sort_by insert_by children
    process from_info freeze_members freeze_member stop_member after_stop push_member member_cap
    verify_frozen_identities verify_nodes verify_node relation_holds prepare_delivery_handles
    verify_fresh_delivery_evidence observe_members observe finish check_tree_policy check_members
    check_descendants check_root check_skipped needs_confirmation node_protected
    protected_root_confirmed prompt_skipped is_protected_by_names is_protected_process_name
    name_matches refuse_after_thaw thaw_members signal_tree is_system is_system_process
    snapshot_scope default_fresh_process_evidence identity with_limits
refused_run = (refl, refl, refl)

abbrev finished_report : TreeKillReport
finished_report = record {
  total = 3;
  delivered = 3;
  delivered_identities = identified 42 ∷ identified 41 ∷ identified 40 ∷ [];
  already_exited = 0;
  denied = [];
  thaw_failed = [];
}

-- The whole tree is signalled, the leaf first.
finished_run :
    (finished ≡ (completed finished_report, finished.1))
    × (killed finished.1.log ≡ 42 ∷ 41 ∷ 40 ∷ [])
unfolding execute_freeze_kill is_completed unsafe_pid_reason stop_before_deadline
    verify_root_after_stop check_root_snapshot check_root_row root_identity_matches left_group
    ProcessStartMarker-discrete ℕ_discrete freeze_sweep Index.new ProcessEvidence.new
    Platform-discrete KillMode-discrete run_pass drain unfrozen_members sort_by insert_by children
    process from_info freeze_members freeze_member stop_member after_stop push_member member_cap
    verify_frozen_identities verify_nodes verify_node relation_holds prepare_delivery_handles
    verify_fresh_delivery_evidence observe_members observe finish check_tree_policy check_members
    check_descendants check_root check_skipped needs_confirmation node_protected
    protected_root_confirmed prompt_skipped is_protected_by_names is_protected_process_name
    name_matches refuse_after_thaw thaw_members signal_tree is_system is_system_process
    snapshot_scope default_fresh_process_evidence identity with_limits
finished_run = (refl, refl)

refusal_undoes_stops_example :
    (killed refused.1.log ≡ []) × (continued refused.1.log ≡ reverse (owed refused.1.log))
refusal_undoes_stops_example =
    refusal_undoes_stops this_host table_ops idle_guard server SweepScope.tree KillMode.terminate
      (codes "sshd" ∷ []) Platform.linux ScopeAuthorization.typed_word_confirmed table refused.0
      refused.1 refl refused_run.0

completed_kills_stopped_example :
    (frozen : List FrozenNode) × (order : List FrozenNode) × (seen : Recorded
      (List TreeProcessInfo))
    × Evidenced this_host table_ops idle_guard server SweepScope.tree frozen seen
    × (check_tree_policy this_host frozen SweepScope.tree ScopeAuthorization.typed_word_confirmed
          (codes "nginx" ∷ [])
          Platform.linux
        ≡ none)
    × (stops finished.1.log ≡ pids frozen)
    × Perm order frozen
    × IsSorted Before order
    × (killed finished.1.log ≡ pids order)
completed_kills_stopped_example =
    completed_kills_stopped this_host table_ops idle_guard server SweepScope.tree KillMode.terminate
      (codes "nginx" ∷ []) Platform.linux ScopeAuthorization.typed_word_confirmed table
      finished_report finished.1 finished_run.0

report_accounts_for_kills_example :
    (finished_report.total ≡ length (killed finished.1.log))
    × (finished_report.delivered + finished_report.already_exited + length finished_report.denied
        ≡ length (killed finished.1.log))
report_accounts_for_kills_example =
    report_accounts_for_kills this_host table_ops idle_guard server SweepScope.tree
      KillMode.terminate (codes "nginx" ∷ []) Platform.linux ScopeAuthorization.typed_word_confirmed
      table finished_report finished.1 finished_run.0

targets_are_safe_example :
    All (λ signal. unsafe_pid_reason this_host (target signal) ≡ none) refused.1.log
targets_are_safe_example =
    targets_are_safe this_host table_ops idle_guard server SweepScope.tree KillMode.terminate
      (codes "sshd" ∷ []) Platform.linux ScopeAuthorization.typed_word_confirmed table

abbrev stopped_node : FrozenNode
stopped_node = record {
  pid = 42;
  parent_pid = some 41;
  parent_process_name = none;
  process_name = some (codes "sshd");
  executable_name = none;
  owner_uid = some 1000;
  start_time_marker = some (linux_start_ticks 42);
  rollback_start_time_marker = none;
  resume_on_cleanup = true;
  depth = 2;
}

policy_passes_example :
    is_none (
      check_tree_policy this_host
        (stopped_node ∷ [])
        SweepScope.tree
        ScopeAuthorization.skipped_all_clear
        (codes "sshd" ∷ [])
        Platform.linux)
    ≡ (all
          (λ node. is_none (unsafe_pid_reason this_host node.pid) && is_some node.process_name)
          (stopped_node ∷ [])
        && (not (
              any
                (λ node. below_root node && node_protected Platform.linux (codes "sshd" ∷ []) node)
                (stopped_node ∷ []))
            && ((protected_root_confirmed ScopeAuthorization.skipped_all_clear
                  || not (
                      is_some_and
                        (find at_root (stopped_node ∷ []))
                        (node_protected Platform.linux (codes "sshd" ∷ []))))
                && not (
                    prompt_skipped ScopeAuthorization.skipped_all_clear
                    && needs_confirmation this_host SweepScope.tree Platform.linux
                        (stopped_node ∷ [])))))
policy_passes_example =
    policy_passes this_host (stopped_node ∷ []) SweepScope.tree ScopeAuthorization.skipped_all_clear
      (codes "sshd" ∷ []) Platform.linux

new_lem_example :
    (process table_index 41 ≡ find (λ info. info.pid == 41) table)
    × (children table_index 41 ≡ sort_by by_pid_order (keep (is_child_of 41) table))
unfolding Index.new
new_lem_example = new_lem table 3 table_index 41 refl

group_kills_first_example :
    killed (
      since_continue
        (execute_freeze_kill this_host
          (recording table_ops)
          (guarding idle_guard)
          server
          (SweepScope.group 40)
          KillMode.terminate
          (codes "nginx" ∷ [])
          Platform.linux
          ScopeAuthorization.typed_word_confirmed
          (fresh table)).1.log)
    ≡ []
group_kills_first_example =
    group_kills_first this_host table_ops idle_guard server 40 KillMode.terminate
      (codes "nginx" ∷ []) Platform.linux ScopeAuthorization.typed_word_confirmed table

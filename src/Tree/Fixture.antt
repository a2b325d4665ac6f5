-- ===== src/Tree/Fixture.antt =====
-- A small process table, and process operations over it: what the tests of src/tree/tests.rs fake.
use kickoutchi.Prelude.{ℕ, true, false, nat_eq, err, none, some, List, [], ◌∷◌, ok}
use kickoutchi.Prelude.Text.{Text, codes}
use kickoutchi.Model.{Platform, PermissionStatus}
use kickoutchi.Observation.{ProcessIdentity, linux_start_ticks}
use kickoutchi.Process.{Host, KillTarget}
use kickoutchi.Tree.Index
use kickoutchi.Tree.Index.{ProcessTreeIndex, children, process, by_pid_order, is_child_of, new_lem}
use kickoutchi.Tree.{
  TreeProcessInfo, TreeProcessOps, KillCancellationGuard, TreeStopResult, TreeSignalResult,
  default_fresh_process_evidence,
}

-- The state is the process table itself, and every signal is delivered.
abbrev pub table_ops : TreeProcessOps (List TreeProcessInfo)
table_ops = record {
  set_snapshot_scope = λ _ s. s;
  snapshot = λ s. (ok s, s);
  pin_root_for_revalidation = λ _ s. (TreeSignalResult.delivered, s);
  stop = λ _ _ s. (TreeStopResult.stopped true, s);
  stop_acknowledgement_now = λ s. (0, s);
  rollback_identity_after_stop = λ _ prior s. (prior, s);
  cont = λ _ s. (TreeSignalResult.delivered, s);
  prepare_thaw = λ _ _ s. s;
  prepare_delivery = λ _ _ s. (TreeSignalResult.delivered, s);
  fresh_process_evidence = default_fresh_process_evidence (λ s. (ok s, s));
  deliver = λ _ _ s. (TreeSignalResult.delivered, s);
}

abbrev pub idle_guard : KillCancellationGuard (List TreeProcessInfo)
idle_guard = record { block = λ s. (ok tt, s); check = λ s. (ok tt, s) }

abbrev pub row : ℕ → ℕ → Text → TreeProcessInfo
row pid parent name = record {
  pid = pid;
  parent_pid = some parent;
  unverified_parent_pid = some parent;
  parent_process_name = none;
  process_name = some name;
  executable_name = none;
  start_time_marker = some (linux_start_ticks pid);
  owner_uid = some 1000;
  process_group = some 40;
}

abbrev pub table : List TreeProcessInfo
table = row 40 7 (codes "server") ∷ row 41 40 (codes "worker") ∷ row 42 41 (codes "sshd") ∷ []

abbrev pub identified : ℕ → ProcessIdentity
identified pid = record { pid = pid; start_marker = linux_start_ticks pid }

abbrev pub table_index : ProcessTreeIndex
table_index = elim (Index.new table 3) [ ok index ↦ index | err e ↦ Index.empty ]

abbrev pub this_host : Host
this_host = record { process_id = 9; user_id = 1000 }

abbrev pub server : KillTarget
server = record {
  pid = 40;
  process_name = some (codes "server");
  platform = Platform.linux;
  permission = PermissionStatus.full;
  protected = false;
  system_process = false;
  ports = [];
  owner_uid = some 1000;
  process_start_time_marker = some (linux_start_ticks 40);
  child_count = 1;
  children_truncated = false;
}

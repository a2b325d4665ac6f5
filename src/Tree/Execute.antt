-- ===== src/Tree/Execute.antt =====
-- src/tree/execute.rs: `execute_freeze_kill`, the pipeline that both scopes share. The source is
-- one function; here each stage that it runs after the one before is a definition.
use kickoutchi.Prelude.{
  ℕ, ◌+◌, Bool, true, false, Option, none, some, List, [], ◌∷◌, Result, ok, err,
}
use kickoutchi.Prelude.Text.{Text}
use kickoutchi.Model.{Platform}
use kickoutchi.Observation.{ProcessStartMarker}
use kickoutchi.Process.{Host, KillMode, KillTarget, unsafe_pid_reason}
use kickoutchi.Tree.{
  ScopeAuthorization, TreeProcessInfo, TreeSnapshotScope, TreeProcessOps, KillCancellationGuard,
  TreeStopResult, TreeSignalResult,
}
use kickoutchi.Tree.Outcome.{
  TreeKillOutcome, completed, root_already_exited, permission_denied, unsafe_pid, snapshot_failed,
  tree_stop_error_outcome,
}
use kickoutchi.Tree.Frozen.{FrozenNode, SweepScope}
use kickoutchi.Tree.Sweep.{stop_before_deadline, rollback_or_read, freeze_sweep}
use kickoutchi.Tree.Deliver.{signal_tree, refuse_after_thaw}
use kickoutchi.Tree.Policy.{check_tree_policy}
use kickoutchi.Tree.Verify.{
  verify_root_after_stop, verify_frozen_identities, prepare_delivery_handles,
  verify_fresh_delivery_evidence,
}

-- `UNIX_STOP_ACKNOWLEDGEMENT_MAX`: 500 ms, in nanoseconds.
abbrev pub unix_stop_acknowledgement_max : ℕ
unix_stop_acknowledgement_max = 500000000

unfoldable pub snapshot_scope : KillTarget → SweepScope → TreeSnapshotScope
snapshot_scope root SweepScope.tree = TreeSnapshotScope.tree root.pid
snapshot_scope root (SweepScope.group pgid) = TreeSnapshotScope.group root.pid pgid

-- The root as the confirmation knows it, for a cleanup before it was read again.
abbrev pub confirmed_root : KillTarget → Option ProcessStartMarker → Bool → FrozenNode
confirmed_root root marker resume = record {
  pid = root.pid;
  parent_pid = none;
  parent_process_name = none;
  process_name = root.process_name;
  executable_name = none;
  owner_uid = root.owner_uid;
  start_time_marker = root.process_start_time_marker;
  rollback_start_time_marker = marker;
  resume_on_cleanup = resume;
  depth = 0;
}

abbrev pub resuming : Bool → FrozenNode → FrozenNode
resuming transitioned node = record node { resume_on_cleanup = transitioned }

abbrev pub or_confirmed :
    KillTarget → Option ProcessStartMarker → Bool → Option FrozenNode → FrozenNode
or_confirmed root marker transitioned none = confirmed_root root marker transitioned
or_confirmed root marker transitioned (some node) = resuming transitioned node

module _ {S : Type 0} (ops : TreeProcessOps S) where
  -- `pin_root_before_revalidation`.
  unfoldable pub pin_root_before_revalidation : ℕ → S → Result (Unit {0}) TreeKillOutcome × S
  pin_root_before_revalidation root_pid s =
      let (pinned, s') = ops.pin_root_for_revalidation root_pid s in
      (
        elim pinned [
          | TreeSignalResult.delivered ↦ ok tt
          | TreeSignalResult.not_found ↦ err root_already_exited
          | TreeSignalResult.denied ↦ err (permission_denied root_pid)
        ],
        s',
      )

module _ {S : Type 0} (host : Host) (ops : TreeProcessOps S) (guard : KillCancellationGuard S)
    (root : KillTarget) (scope : SweepScope) (mode : KillMode) (protected_names : List Text)
    (platform : Platform) (authorization : ScopeAuthorization) where
  -- The last cancellation check, and the signals.
  unfoldable pub deliver_unless_cancelled : List FrozenNode → S → TreeKillOutcome × S
  deliver_unless_cancelled frozen s =
      let (checked, s') = guard.check s in
      elim checked [
        | err error ↦ refuse_after_thaw ops (snapshot_failed error) frozen s'
        | ok _ ↦ let (report, s'') = signal_tree ops frozen scope mode s' in (completed report, s'')
      ]

  unfoldable pub apply_policy : List FrozenNode → S → TreeKillOutcome × S
  unfolding deliver_unless_cancelled
  apply_policy frozen s =
      elim (check_tree_policy host frozen scope authorization protected_names platform) [
        | some outcome ↦ refuse_after_thaw ops outcome frozen s
        | none ↦ deliver_unless_cancelled frozen s
      ]

  unfoldable pub verify_fresh : List FrozenNode → S → TreeKillOutcome × S
  unfolding apply_policy
  verify_fresh frozen s =
      let (refusal, frozen', s') = verify_fresh_delivery_evidence ops frozen s in
      elim refusal [
        | some outcome ↦ refuse_after_thaw ops outcome frozen' s'
        | none ↦ apply_policy frozen' s'
      ]

  unfoldable pub prepare : List FrozenNode → S → TreeKillOutcome × S
  unfolding verify_fresh
  prepare frozen s =
      let (refusal, s') = prepare_delivery_handles ops frozen s in
      elim refusal [
        | some outcome ↦ refuse_after_thaw ops outcome frozen s'
        | none ↦ verify_fresh frozen s'
      ]

  unfoldable pub verify_converged : List TreeProcessInfo → List FrozenNode → S → TreeKillOutcome × S
  unfolding prepare
  verify_converged snapshot frozen s =
      let (refusal, frozen') = verify_frozen_identities frozen scope snapshot in
      elim refusal [
        | some outcome ↦ refuse_after_thaw ops outcome frozen' s
        | none ↦ prepare frozen' s
      ]

  unfoldable pub sweep_members : ℕ → FrozenNode → S → TreeKillOutcome × S
  unfolding verify_converged
  sweep_members deadline root_node s =
      let w = freeze_sweep host ops guard deadline scope (root_node ∷ []) s in
      elim w.result [
        | err outcome ↦ refuse_after_thaw ops outcome w.frozen w.world
        | ok snapshot ↦ verify_converged snapshot w.frozen w.world
      ]

  unfoldable pub verify_root : ℕ → Bool → Option ProcessStartMarker → S → TreeKillOutcome × S
  unfolding sweep_members
  verify_root deadline transitioned marker s =
      let (observed, s') = verify_root_after_stop root scope marker ops s in
      elim observed [
        | err (outcome, node) ↦
            refuse_after_thaw ops outcome (or_confirmed root marker transitioned node ∷ []) s'
        | ok node ↦ sweep_members deadline (resuming transitioned node) s'
      ]

  unfoldable pub after_root_stop : ℕ → TreeStopResult → S → TreeKillOutcome × S
  unfolding verify_root
  after_root_stop deadline (TreeStopResult.stopped transitioned) s =
      let (marker, s') =
        ops.rollback_identity_after_stop root.pid root.process_start_time_marker s in
      verify_root deadline transitioned marker s'
  after_root_stop deadline TreeStopResult.not_found s = (root_already_exited, s)
  after_root_stop deadline (TreeStopResult.failed false _ error) s =
      (tree_stop_error_outcome root.pid error, s)
  after_root_stop deadline (TreeStopResult.failed true read error) s =
      let (marker, s') = rollback_or_read ops read root.pid root.process_start_time_marker s in
      refuse_after_thaw ops (tree_stop_error_outcome root.pid error)
        (confirmed_root root marker true ∷ []) s'

  -- From the deadline on, with cancellation blocked.
  unfoldable pub stop_root : S → TreeKillOutcome × S
  unfolding after_root_stop
  stop_root s =
      let (now, s₁) = ops.stop_acknowledgement_now s in
      let (blocked, s₂) = guard.block s₁ in
      elim blocked [
        | err error ↦ (snapshot_failed error, s₂)
        | ok _ ↦
            let (result, s₃) =
              stop_before_deadline ops root.pid (now + unix_stop_acknowledgement_max) s₂ in
            after_root_stop (now + unix_stop_acknowledgement_max) result s₃
      ]

  unfoldable pub execute_freeze_kill : S → TreeKillOutcome × S
  unfolding stop_root
  execute_freeze_kill s = elim (unsafe_pid_reason host root.pid) [
    | some reason ↦ (unsafe_pid root.pid reason, s)
    | none ↦ stop_root (ops.set_snapshot_scope (snapshot_scope root scope) s)
  ]

module _ {S : Type 0} (host : Host) (ops : TreeProcessOps S) (guard : KillCancellationGuard S) where
  unfoldable pub execute_tree_kill :
      KillTarget → KillMode → List Text → Platform → ScopeAuthorization → S → TreeKillOutcome × S
  unfolding execute_freeze_kill
  execute_tree_kill root mode protected_names platform authorization =
      execute_freeze_kill host ops guard root SweepScope.tree mode protected_names platform
        authorization

  unfoldable pub execute_group_kill :
      KillTarget
      → ℕ
      → KillMode
      → List Text
      → Platform
      → ScopeAuthorization
      → S
      → TreeKillOutcome × S
  unfolding execute_freeze_kill
  execute_group_kill root pgid mode protected_names platform authorization =
      execute_freeze_kill host ops guard root (SweepScope.group pgid) mode protected_names platform
        authorization

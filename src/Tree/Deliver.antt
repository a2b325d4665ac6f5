-- ===== src/Tree/Deliver.antt =====
-- src/tree/execute.rs: the terminating signals, and the cleanup after a refusal.
use kickoutchi.Prelude.{
  ℕ, ◌+◌, Bool, true, false, ◌&&◌, ◌||◌, List, [], ◌∷◌, ◌++◌, reverse, if◌then◌else◌, leb, ltb,
  ◌==◌, nat_eq, length, keep, sort_by,
}
use kickoutchi.Process.{KillMode, kill_mode_eq}
use kickoutchi.Tree.{TreeProcessOps, TreeSignalResult, delivered, not_found, denied}
use kickoutchi.Tree.Outcome.{TreeKillReport, TreeKillOutcome, thaw_failed}
use kickoutchi.Tree.Frozen.{FrozenNode, SweepScope, identity}

abbrev pub is_denied : TreeSignalResult → Bool
is_denied denied = true
is_denied delivered = false
is_denied not_found = false

abbrev pub pid_order : ℕ → ℕ → Bool
pid_order left right = leb left right

-- Deepest first, then by PID.
abbrev pub delivery_order : FrozenNode → FrozenNode → Bool
delivery_order left right =
    ltb right.depth left.depth || ((left.depth == right.depth) && leb left.pid right.pid)

abbrev pub empty_report : ℕ → TreeKillReport
empty_report total = record {
  total = total;
  delivered = 0;
  delivered_identities = [];
  already_exited = 0;
  denied = [];
  thaw_failed = [];
}

abbrev pub count_delivered : FrozenNode → TreeKillReport → TreeKillReport
count_delivered node report = record report {
  delivered = report.delivered + 1;
  delivered_identities = report.delivered_identities ++ identity node;
}

abbrev pub count_exited : TreeKillReport → TreeKillReport
count_exited report = record report { already_exited = report.already_exited + 1 }

abbrev pub count_denied : FrozenNode → TreeKillReport → TreeKillReport
count_denied node report = record report { denied = report.denied ++ node.pid ∷ [] }

module _ {S : Type 0} (ops : TreeProcessOps S) where
  -- `if ops.cont(pid) == Denied { thaw_failed.push(pid) }`.
  unfoldable pub cont_reporting : ℕ → TreeKillReport × S → TreeKillReport × S
  cont_reporting pid (report, s) =
      let (result, s') = ops.cont pid s in
      (
        if is_denied result
            then record report { thaw_failed = report.thaw_failed ++ pid ∷ [] }
            else report,
        s',
      )

  unfoldable pub after_deliver :
      KillMode → FrozenNode → TreeSignalResult → TreeKillReport × S → TreeKillReport × S
  unfolding cont_reporting
  after_deliver mode node delivered (report, s) =
      let counted = count_delivered node report in
      if mode == KillMode.terminate then cont_reporting node.pid (counted, s) else (counted, s)
  after_deliver mode node not_found (report, s) = (count_exited report, s)
  after_deliver mode node denied (report, s) =
      let (cleaned, s') =
        if node.resume_on_cleanup then cont_reporting node.pid (report, s) else (report, s) in
      (count_denied node cleaned, s')

  unfoldable pub signal_members :
      KillMode → List FrozenNode → TreeKillReport × S → TreeKillReport × S
  unfolding after_deliver
  signal_members mode [] r = r
  signal_members mode (node ∷ rest) (report, s) =
      let (result, s') = ops.deliver node.pid mode s in
      signal_members mode rest (after_deliver mode node result (report, s'))

  unfoldable pub after_group_deliver :
      KillMode → FrozenNode → TreeSignalResult → TreeKillReport × List ℕ → TreeKillReport × List ℕ
  after_group_deliver mode node delivered (report, queue) = (
    count_delivered node report,
    if mode == KillMode.terminate then queue ++ node.pid ∷ [] else queue,
  )
  after_group_deliver mode node not_found (report, queue) = (count_exited report, queue)
  after_group_deliver mode node denied (report, queue) =
      (count_denied node report, if node.resume_on_cleanup then queue ++ node.pid ∷ [] else queue)

  unfoldable pub deliver_group :
      KillMode → List FrozenNode → TreeKillReport × List ℕ → S → (TreeKillReport × List ℕ) × S
  unfolding after_group_deliver
  deliver_group mode [] r s = (r, s)
  deliver_group mode (node ∷ rest) r s =
      let (result, s') = ops.deliver node.pid mode s in
      deliver_group mode rest (after_group_deliver mode node result r) s'

  unfoldable pub continue_all : List ℕ → TreeKillReport × S → TreeKillReport × S
  unfolding cont_reporting
  continue_all [] r = r
  continue_all (pid ∷ rest) r = continue_all rest (cont_reporting pid r)

  unfoldable pub signal_group : List FrozenNode → KillMode → S → TreeKillReport × S
  unfolding deliver_group continue_all
  signal_group frozen mode s =
      let (r, s') = deliver_group mode frozen (empty_report (length frozen), []) s in
      continue_all r.1 (r.0, s')

  unfoldable pub signal_scope : SweepScope → List FrozenNode → KillMode → S → TreeKillReport × S
  unfolding signal_group signal_members
  signal_scope SweepScope.tree frozen mode s =
      signal_members mode frozen (empty_report (length frozen), s)
  signal_scope (SweepScope.group _) frozen mode s = signal_group frozen mode s

  unfoldable pub signal_tree : List FrozenNode → SweepScope → KillMode → S → TreeKillReport × S
  unfolding signal_scope
  signal_tree frozen scope mode s = signal_scope scope (sort_by delivery_order frozen) mode s

  -- The loop of `thaw_all` over the members that it resumes; `failed` grows at its end.
  unfoldable pub thaw_members : List FrozenNode → List ℕ → S → List ℕ × S
  thaw_members [] failed s = (failed, s)
  thaw_members (node ∷ rest) failed s =
      let (result, s') =
        ops.cont node.pid (ops.prepare_thaw node.pid node.rollback_start_time_marker s) in
      thaw_members rest (if is_denied result then failed ++ node.pid ∷ [] else failed) s'

  unfoldable pub thaw_all : List FrozenNode → S → List ℕ × S
  unfolding thaw_members
  thaw_all frozen s =
      let (failed, s') =
        thaw_members (keep (λ node. node.resume_on_cleanup) (reverse frozen)) [] s in
      (sort_by pid_order failed, s')

  unfoldable pub refuse_after_thaw : TreeKillOutcome → List FrozenNode → S → TreeKillOutcome × S
  unfolding thaw_all
  refuse_after_thaw cause frozen s =
      let (pids, s') = thaw_all frozen s in
      (elim pids [ [] ↦ cause | pid ∷ rest ↦ thaw_failed (pid ∷ rest) cause ], s')

-- ===== src/Tree/Safety/GroupOrder.antt =====
-- The order of the signals to a process group: every terminating signal before any continue.
use mathlib.Core.List.{append-nil}
use kickoutchi.Prelude.{ℕ, ◌≡◌, refl, ◌∙◌, List, [], ◌∷◌, ◌++◌, sort_by, length}
use kickoutchi.Prelude.Text.{Text}
use kickoutchi.Model.{Platform}
use kickoutchi.Process.{Host, KillMode, KillTarget}
use kickoutchi.Tree.{ScopeAuthorization, TreeProcessOps, KillCancellationGuard}
use kickoutchi.Tree.Outcome.{TreeKillReport}
use kickoutchi.Tree.Frozen.{FrozenNode, SweepScope}
use kickoutchi.Tree.Deliver.{
  cont_reporting, deliver_group, continue_all, signal_tree, refuse_after_thaw, delivery_order,
  empty_report,
}
use kickoutchi.Tree.Execute.{execute_freeze_kill}
use kickoutchi.Tree.Record.{
  Signal, stop_sent, cont_sent, kill_sent, Recorded, recording, guarding, fresh, killed, continued,
  killed-append, continued-append,
}
use kickoutchi.Tree.Safety.Cleanup.{refuse_after_thaw-IsUndone}
use kickoutchi.Tree.Safety.Stages.{PipelineRule}
use kickoutchi.Tree.Safety.Pipeline.{execute-Ends}
use kickoutchi.Tree.Safety.Refusal.{InBalance, InBalance-rule, refreshes-Balanced}

-- The record from the first continue on.
abbrev pub since_continue : List Signal → List Signal
since_continue [] = []
since_continue (stop_sent pid r ∷ log) = since_continue log
since_continue (kill_sent pid r ∷ log) = since_continue log
since_continue (cont_sent pid ∷ log) = cont_sent pid ∷ log

abbrev KillsFirst : List Signal → Type 0
KillsFirst log = killed (since_continue log) ≡ []

unkilled-KillsFirst : (log : List Signal) → killed log ≡ [] → KillsFirst log
unkilled-KillsFirst [] h = refl
unkilled-KillsFirst (stop_sent pid r ∷ log) h = unkilled-KillsFirst log h
unkilled-KillsFirst (kill_sent pid r ∷ log) h = cc
unkilled-KillsFirst (cont_sent pid ∷ log) h = h

uncontinued-KillsFirst : (log : List Signal) → continued log ≡ [] → KillsFirst log
uncontinued-KillsFirst [] h = refl
uncontinued-KillsFirst (stop_sent pid r ∷ log) h = uncontinued-KillsFirst log h
uncontinued-KillsFirst (kill_sent pid r ∷ log) h = uncontinued-KillsFirst log h
uncontinued-KillsFirst (cont_sent pid ∷ log) h = cc

continue-KillsFirst :
    (log : List Signal) (pid : ℕ) → KillsFirst log → KillsFirst (log ++ cont_sent pid ∷ [])
continue-KillsFirst [] pid h = refl
continue-KillsFirst (stop_sent _ _ ∷ log) pid h = continue-KillsFirst log pid h
continue-KillsFirst (kill_sent _ _ ∷ log) pid h = continue-KillsFirst log pid h
continue-KillsFirst (cont_sent _ ∷ log) pid h =
    killed-append log (cont_sent pid ∷ []) ∙ append-nil (killed log) ∙ h

module _ {S : Type 0} (ops : TreeProcessOps S) where
  continued-deliver_group :
      (mode : KillMode) (nodes : List FrozenNode) (r : TreeKillReport × List ℕ) (w : Recorded S)
      → continued w.log ≡ []
      → continued (deliver_group (recording ops) mode nodes r w).1.log ≡ []
  unfolding deliver_group
  continued-deliver_group mode [] r w h = h
  continued-deliver_group mode (node ∷ rest) r w h =
      let sent = ops.deliver node.pid mode w.inner in
      continued-deliver_group mode rest _ _
        (continued-append w.log (kill_sent node.pid sent.0 ∷ []) ∙ append-nil (continued w.log) ∙ h)

  continue_all-KillsFirst :
      (queue : List ℕ) (r : TreeKillReport × Recorded S)
      → KillsFirst r.1.log
      → KillsFirst (continue_all (recording ops) queue r).1.log
  unfolding continue_all cont_reporting
  continue_all-KillsFirst [] r h = h
  continue_all-KillsFirst (pid ∷ rest) r h =
      continue_all-KillsFirst rest _ (continue-KillsFirst r.1.log pid h)

  signal_group-KillsFirst :
      (frozen : List FrozenNode) (pgid : ℕ) (mode : KillMode) (w : Recorded S)
      → continued w.log ≡ []
      → KillsFirst (signal_tree (recording ops) frozen (SweepScope.group pgid) mode w).1.log
  unfolding signal_tree
  signal_group-KillsFirst frozen pgid mode w h =
      let members = sort_by delivery_order frozen in
      let start : TreeKillReport × List ℕ = (empty_report (length members), []) in
      let d = deliver_group (recording ops) mode members start w in
      continue_all-KillsFirst d.0.1 (d.0.0, d.1)
        (uncontinued-KillsFirst d.1.log (continued-deliver_group mode members start w h))

module _ {S : Type 0} (host : Host) (ops : TreeProcessOps S) (guard : KillCancellationGuard S)
    (root : KillTarget) (pgid : ℕ) (mode : KillMode) (protected_names : List Text)
    (platform : Platform) (authorization : ScopeAuthorization) where
  KillsFirst-rule :
      PipelineRule host ops guard root
        (SweepScope.group pgid)
        mode
        protected_names
        platform
        authorization
        InBalance
        (λ _ log. KillsFirst log)
  KillsFirst-rule = record {
    sweeps = InBalance-rule host (SweepScope.group pgid);
    starts = record { no_continue = refl; no_kill = refl; duties = refl };
    refreshes = refreshes-Balanced;
    ends_early = λ o log _ b. unkilled-KillsFirst log b.no_kill;
    ends_refused = λ o frozen w _ b.
        unkilled-KillsFirst (refuse_after_thaw (recording ops) o frozen w).1.log
          (refuse_after_thaw-IsUndone ops o frozen w b).0;
    ends_completed =
        λ frozen _ w _ _ b. signal_group-KillsFirst ops frozen pgid mode w b.no_continue;
  }

  -- On every run of a group kill, no terminating signal is sent after the first continue: no
  -- member runs again before each member was sent its terminating signal.
  pub group_kills_first :
      (s : S)
      → let r =
          execute_freeze_kill host
            (recording ops)
            (guarding guard)
            root
            (SweepScope.group pgid)
            mode
            protected_names
            platform
            authorization
            (fresh s) in
        killed (since_continue r.1.log) ≡ []
  group_kills_first s =
      execute-Ends host ops guard root (SweepScope.group pgid) mode protected_names platform
        authorization InBalance (λ _ log. KillsFirst log) KillsFirst-rule s

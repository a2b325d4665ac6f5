-- ===== src/Tree/Safety/Accounting.antt =====
-- What the report of a delivery says against the record of signals, and the order of the signals
-- to a group.
use mathlib.Core.Path.{subst}
use kickoutchi.Prelude.{
  ℕ, ◌≡◌, ◌+◌, refl, sym, ap, ◌∙◌, List, [], ◌∷◌, ◌++◌, arith, Bool-cases, inl, inr, ◌==◌, length,
  length-append, sort_by, length-sort_by,
}
use kickoutchi.Prelude.Text.{Text}
use kickoutchi.Model.{Platform}
use kickoutchi.Process.{Host, KillMode, kill_mode_eq, KillTarget}
use kickoutchi.Tree.{
  ScopeAuthorization, TreeProcessOps, KillCancellationGuard, TreeSignalResult, delivered, not_found,
  denied,
}
use kickoutchi.Tree.Outcome.{TreeKillOutcome, TreeKillReport, completed, is_completed, IsRefusal}
use kickoutchi.Tree.Frozen.{FrozenNode, SweepScope, pids}
use kickoutchi.Tree.Deliver.{
  cont_reporting, is_denied, after_deliver, signal_members, after_group_deliver, deliver_group,
  continue_all, signal_tree, delivery_order, empty_report, count_delivered,
}
use kickoutchi.Tree.Execute.{execute_freeze_kill}
use kickoutchi.Tree.Record.{Signal, Recorded, recording, guarding, fresh, killed, killed_by}
use kickoutchi.Tree.Safety.Cleanup.{refuse_after_thaw-IsRefusal}
use kickoutchi.Tree.Safety.Signals.{collect-signal_tree}
use kickoutchi.Tree.Safety.Stages.{Ending, PipelineRule}
use kickoutchi.Tree.Safety.Pipeline.{execute-Ends}
use kickoutchi.Tree.Safety.Delivery.{Ledgered, Ledgered-rule, refreshes-Ledgered}

-- The members that a report has counted so far.
abbrev counted : TreeKillReport → ℕ
counted report = report.delivered + report.already_exited + length report.denied

-- `report'` has counted `n` more members than `report`, out of the same total.
abbrev CountsMore : ℕ → TreeKillReport → TreeKillReport → Type 0
CountsMore n report report' =
    (report'.total ≡ report.total) × (counted report' ≡ counted report + n)

module _ {S : Type 0} (ops : TreeProcessOps S) where
  counts_cont : (pid : ℕ) (r : TreeKillReport × S) → CountsMore 0 r.0 (cont_reporting ops pid r).0
  unfolding cont_reporting
  counts_cont pid (report, s) = elim (Bool-cases (is_denied (ops.cont pid s).0)) [
    | inl e ↦ rw (e, cont_reporting) (refl, omega arith)
    | inr e ↦ rw (e, cont_reporting) (refl, omega arith)
  ]

  counts_after :
      (mode : KillMode) (node : FrozenNode) (result : TreeSignalResult) (r : TreeKillReport × S)
      → CountsMore 1 r.0 (after_deliver ops mode node result r).0
  unfolding after_deliver
  counts_after mode node delivered (report, s) =
      let c = counts_cont node.pid (count_delivered node report, s) in
      elim (Bool-cases (mode == KillMode.terminate)) [
        | inl e ↦ rw (e, after_deliver) (c.0, omega (arith, c.1))
        | inr e ↦ rw (e, after_deliver) (refl, omega arith)
      ]
  counts_after mode node not_found (report, s) = (refl, omega arith)
  counts_after mode node denied (report, s) =
      let c = counts_cont node.pid (report, s) in
      elim (Bool-cases node.resume_on_cleanup) [
        | inl e ↦
            rw (e, after_deliver)
              (
                c.0,
                omega (
                  arith,
                  c.1,
                  length-append (cont_reporting ops node.pid (report, s)).0.denied (node.pid ∷ []),
                ),
              )
        | inr e ↦
            rw (e, after_deliver) (refl, omega (arith, length-append report.denied (node.pid ∷ [])))
      ]

  counts_members :
      (mode : KillMode) (nodes : List FrozenNode) (r : TreeKillReport × S)
      → CountsMore (length nodes) r.0 (signal_members ops mode nodes r).0
  unfolding signal_members
  counts_members mode [] r = (refl, omega arith)
  counts_members mode (node ∷ rest) (report, s) =
      let sent = ops.deliver node.pid mode s in
      let c = counts_after mode node sent.0 (report, sent.1) in
      let d = counts_members mode rest (after_deliver ops mode node sent.0 (report, sent.1)) in
      (d.0 ∙ c.0, omega (arith, c.1, d.1))

  counts_group_after :
      (mode : KillMode) (node : FrozenNode) (result : TreeSignalResult)
      (r : TreeKillReport × List ℕ)
      → CountsMore 1 r.0 (after_group_deliver ops mode node result r).0
  unfolding after_group_deliver
  counts_group_after mode node delivered (report, queue) = (refl, omega arith)
  counts_group_after mode node not_found (report, queue) = (refl, omega arith)
  counts_group_after mode node denied (report, queue) =
      (refl, omega (arith, length-append report.denied (node.pid ∷ [])))

  counts_group :
      (mode : KillMode) (nodes : List FrozenNode) (r : TreeKillReport × List ℕ) (s : S)
      → CountsMore (length nodes) r.0 (deliver_group ops mode nodes r s).0.0
  unfolding deliver_group
  counts_group mode [] r s = (refl, omega arith)
  counts_group mode (node ∷ rest) r s =
      let sent = ops.deliver node.pid mode s in
      let c = counts_group_after mode node sent.0 r in
      let d = counts_group mode rest (after_group_deliver ops mode node sent.0 r) sent.1 in
      (d.0 ∙ c.0, omega (arith, c.1, d.1))

  counts_continues :
      (queue : List ℕ) (r : TreeKillReport × S) → CountsMore 0 r.0 (continue_all ops queue r).0
  unfolding continue_all
  counts_continues [] r = (refl, omega arith)
  counts_continues (pid ∷ rest) r =
      let c = counts_cont pid r in
      let d = counts_continues rest (cont_reporting ops pid r) in
      (d.0 ∙ c.0, omega (arith, c.1, d.1))

  -- The report of a delivery counts every frozen member once.
  pub counts_frozen :
      (frozen : List FrozenNode) (scope : SweepScope) (mode : KillMode) (s : S)
      → let report = (signal_tree ops frozen scope mode s).0 in
        (report.total ≡ length frozen) × (counted report ≡ length frozen)
  unfolding signal_tree
  counts_frozen frozen SweepScope.tree mode s =
      let members = sort_by delivery_order frozen in
      let n = length-sort_by delivery_order frozen in
      let c = counts_members mode members (empty_report (length members), s) in
      (c.0 ∙ n, omega (arith, c.1, n))
  counts_frozen frozen (SweepScope.group pgid) mode s =
      let members = sort_by delivery_order frozen in
      let n = length-sort_by delivery_order frozen in
      let start : TreeKillReport × List ℕ = (empty_report (length members), []) in
      let c = counts_group mode members start s in
      let d = deliver_group ops mode members start s in
      let k = counts_continues d.0.1 (d.0.0, d.1) in (k.0 ∙ c.0 ∙ n, omega (arith, c.1, k.1, n))

abbrev Accounted : Ending
Accounted (completed report) log =
    (report.total ≡ length (killed log))
    × (report.delivered + report.already_exited + length report.denied ≡ length (killed log))
Accounted _ log = Unit

refusal-Accounted : (o : TreeKillOutcome) (log : List Signal) → IsRefusal o → Accounted o log
unfolding is_completed
refusal-Accounted (completed report) log h = cc
refusal-Accounted _ log h = tt

length-pids : (frozen : List FrozenNode) → length (pids frozen) ≡ length frozen
length-pids [] = refl
length-pids (node ∷ rest) = omega (arith, length-pids rest)

module _ {S : Type 0} (host : Host) (ops : TreeProcessOps S) (guard : KillCancellationGuard S)
    (root : KillTarget) (scope : SweepScope) (mode : KillMode) (protected_names : List Text)
    (platform : Platform) (authorization : ScopeAuthorization) where
  length-killed :
      (frozen : List FrozenNode) (w : Recorded S)
      → killed w.log ≡ []
      → length (killed (signal_tree (recording ops) frozen scope mode w).1.log) ≡ length frozen
  length-killed frozen w e =
      ap length (
        collect-signal_tree ops killed_by (λ _. refl) pids (λ _ _ _. refl) refl frozen scope mode w
        ∙ ap (λ (l : List ℕ). l ++ pids (sort_by delivery_order frozen)) e)
      ∙ length-pids (sort_by delivery_order frozen)
      ∙ length-sort_by delivery_order frozen

  accounted_rule :
      PipelineRule host ops guard root scope mode protected_names platform authorization Ledgered
        Accounted
  accounted_rule = record {
    sweeps = Ledgered-rule host scope;
    starts = (refl, refl);
    refreshes = refreshes-Ledgered;
    ends_early = λ o log h _. refusal-Accounted o log h;
    ends_refused =
        λ o frozen w h _. refusal-Accounted _ _ (refuse_after_thaw-IsRefusal ops o frozen w h);
    ends_completed = λ frozen _ w _ _ b.
        let n = sym (length-killed frozen w b.1) in
        let c = counts_frozen (recording ops) frozen scope mode w in (c.0 ∙ n, c.1 ∙ n);
  }

  -- When the pipeline reports a delivery, the report's total is the number of terminating signals
  -- that were sent, and its delivered, already exited and denied counts add up to that total: no
  -- member is lost or counted twice.
  pub report_accounts_for_kills :
      (s : S) (report : TreeKillReport) (w : Recorded S)
      → execute_freeze_kill host
          (recording ops)
          (guarding guard)
          root
          scope
          mode
          protected_names
          platform
          authorization
          (fresh s)
        ≡ (completed report, w)
      → (report.total ≡ length (killed w.log))
        × (report.delivered + report.already_exited + length report.denied ≡ length (killed w.log))
  report_accounts_for_kills s report w e =
      subst (λ (r : TreeKillOutcome × Recorded S). Accounted r.0 r.1.log) e
        (execute-Ends host ops guard root scope mode protected_names platform authorization Ledgered
          Accounted accounted_rule s)

-- ===== src/Tree/Safety/Signals.antt =====
-- What the delivery of src/tree/execute.rs adds to the record of signals.
use mathlib.Core.List.{append-nil, append_assoc}
use kickoutchi.Prelude.{
  ℕ, ◌≡◌, refl, ap, ◌∙◌, List, [], ◌∷◌, ◌++◌, inl, inr, Bool-cases, ◌==◌, length, sort_by,
}
use kickoutchi.Process.{KillMode, kill_mode_eq}
use kickoutchi.Tree.{TreeProcessOps, TreeSignalResult, delivered, not_found, denied}
use kickoutchi.Tree.Outcome.{TreeKillReport}
use kickoutchi.Tree.Frozen.{FrozenNode, SweepScope}
use kickoutchi.Tree.Deliver.{
  cont_reporting, after_deliver, signal_members, deliver_group, continue_all, signal_tree,
  delivery_order, empty_report, count_delivered,
}
use kickoutchi.Tree.Record.{
  Signal, cont_sent, kill_sent, Recorded, recording, collect, collect-append,
}

module _ {S : Type 0} (ops : TreeProcessOps S) (by : Signal → List ℕ) where
  -- A view that does not count the continues.
  module _ (h : (pid : ℕ) → by (cont_sent pid) ≡ []) where
    collect-cont :
        (pid : ℕ) (r : TreeKillReport × Recorded S)
        → collect by (cont_reporting (recording ops) pid r).1.log ≡ collect by r.1.log
    unfolding cont_reporting
    collect-cont pid (report, w) =
        rw (collect-append by w.log (cont_sent pid ∷ []), h pid) (append-nil _)

    collect-after_deliver :
        (mode : KillMode) (node : FrozenNode) (result : TreeSignalResult)
        (r : TreeKillReport × Recorded S)
        → collect by (after_deliver (recording ops) mode node result r).1.log ≡ collect by r.1.log
    unfolding after_deliver
    collect-after_deliver mode node delivered (report, w) =
        elim (Bool-cases (mode == KillMode.terminate)) [
          | inl e ↦ rw (e, after_deliver) (collect-cont node.pid (count_delivered node report, w))
          | inr e ↦ rw (e, after_deliver)
        ]
    collect-after_deliver mode node not_found (report, w) = refl
    collect-after_deliver mode node denied (report, w) = elim (Bool-cases node.resume_on_cleanup) [
      | inl e ↦ rw (e, after_deliver) (collect-cont node.pid (report, w))
      | inr e ↦ rw (e, after_deliver)
    ]

    collect-continue_all :
        (queue : List ℕ) (r : TreeKillReport × Recorded S)
        → collect by (continue_all (recording ops) queue r).1.log ≡ collect by r.1.log
    unfolding continue_all
    collect-continue_all [] r = refl
    collect-continue_all (pid ∷ rest) r = collect-continue_all rest _ ∙ collect-cont pid r

    -- It counts the terminating signals by their PIDs, or not at all.
    module _ (g : List FrozenNode → List ℕ)
        (k : (node : FrozenNode) (rest : List FrozenNode) (result : TreeSignalResult)
          → by (kill_sent node.pid result) ++ g rest ≡ g (node ∷ rest))
        (z : g [] ≡ []) where
      collect-kill :
          (node : FrozenNode) (rest : List FrozenNode) (result : TreeSignalResult)
          (log : List Signal)
          → collect by (log ++ kill_sent node.pid result ∷ []) ++ g rest
            ≡ collect by log ++ g (node ∷ rest)
      collect-kill node rest result log =
          rw
            (
              collect-append by log (kill_sent node.pid result ∷ []),
              append-nil (by (kill_sent node.pid result)),
              append_assoc (collect by log) (by (kill_sent node.pid result)) (g rest),
            )
            (ap (◌++◌ (collect by log)) (k node rest result))

      collect-signal_members :
          (mode : KillMode) (nodes : List FrozenNode) (r : TreeKillReport × Recorded S)
          → collect by (signal_members (recording ops) mode nodes r).1.log
            ≡ collect by r.1.log ++ g nodes
      unfolding signal_members
      collect-signal_members mode [] r = rw (z, append-nil (collect by r.1.log))
      collect-signal_members mode (node ∷ rest) (report, w) =
          let sent = ops.deliver node.pid mode w.inner in
          collect-signal_members mode rest _
          ∙ ap (λ (l : List ℕ). l ++ g rest) (collect-after_deliver mode node sent.0 _)
          ∙ collect-kill node rest sent.0 w.log

      collect-deliver_group :
          (mode : KillMode) (nodes : List FrozenNode) (r : TreeKillReport × List ℕ) (w : Recorded S)
          → collect by (deliver_group (recording ops) mode nodes r w).1.log
            ≡ collect by w.log ++ g nodes
      unfolding deliver_group
      collect-deliver_group mode [] r w = rw (z, append-nil (collect by w.log))
      collect-deliver_group mode (node ∷ rest) r w =
          let sent = ops.deliver node.pid mode w.inner in
          collect-deliver_group mode rest _ _ ∙ collect-kill node rest sent.0 w.log

      -- The whole delivery adds the members in their order.
      pub collect-signal_tree :
          (frozen : List FrozenNode) (scope : SweepScope) (mode : KillMode) (w : Recorded S)
          → collect by (signal_tree (recording ops) frozen scope mode w).1.log
            ≡ collect by w.log ++ g (sort_by delivery_order frozen)
      unfolding signal_tree
      collect-signal_tree frozen SweepScope.tree mode w = collect-signal_members mode _ _
      collect-signal_tree frozen (SweepScope.group pgid) mode w =
          let members = sort_by delivery_order frozen in
          let start : TreeKillReport × List ℕ = (empty_report (length members), []) in
          let d = deliver_group (recording ops) mode members start w in
          collect-continue_all d.0.1 (d.0.0, d.1) ∙ collect-deliver_group mode members start w

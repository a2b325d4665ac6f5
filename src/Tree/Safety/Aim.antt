-- ===== src/Tree/Safety/Aim.antt =====
-- Where the signals of the delivery and the cleanup of src/tree/execute.rs go: to the members.
use mathlib.Core.Path.{subst}
use mathlib.Core.List.{reverse-cons}
use kickoutchi.Prelude.{
  ℕ, ◌≡◌, sym, Bool, List, [], ◌∷◌, ◌++◌, reverse, All, All-append, keep, sort_by, sort_by-All,
  Bool-cases, inl, inr, ◌==◌, length,
}
use kickoutchi.Process.{KillMode, kill_mode_eq}
use kickoutchi.Tree.{TreeProcessOps, TreeSignalResult, delivered, not_found, denied}
use kickoutchi.Tree.Outcome.{TreeKillOutcome, TreeKillReport}
use kickoutchi.Tree.Frozen.{FrozenNode, SweepScope}
use kickoutchi.Tree.Deliver.{
  cont_reporting, after_deliver, signal_members, after_group_deliver, deliver_group, continue_all,
  signal_tree, delivery_order, empty_report, count_delivered, thaw_members, refuse_after_thaw,
}
use kickoutchi.Tree.Record.{Signal, stop_sent, cont_sent, kill_sent, Recorded, recording}
use kickoutchi.Tree.Safety.Checks.{keys}

abbrev pub target : Signal → ℕ
target (stop_sent pid _) = pid
target (cont_sent pid) = pid
target (kill_sent pid _) = pid

module _ (P : ℕ → Type 0) where
  -- Every signal of the record goes to a process of `P`, and every member is one.
  abbrev pub Aimed : List Signal → Type 0
  Aimed = All (λ signal. P (target signal))

  abbrev pub Members : List FrozenNode → Type 0
  Members = All (λ node. P node.pid)

  pub aim :
      (log : List Signal) (signal : Signal)
      → P (target signal)
      → Aimed log
      → Aimed (log ++ signal ∷ [])
  aim log signal p h = All-append (λ s. P (target s)) log (signal ∷ []) h (p, tt)

  reverse-All : (nodes : List FrozenNode) → Members nodes → Members (reverse nodes)
  reverse-All [] h = tt
  reverse-All (node ∷ rest) h =
      rw (reverse-cons node rest)
        (All-append (λ n. P n.pid) (reverse rest) (node ∷ []) (reverse-All rest h.1) (h.0, tt))

  keep-All :
      (p : FrozenNode → Bool) (nodes : List FrozenNode) → Members nodes → Members (keep p nodes)
  keep-All p [] h = tt
  keep-All p (node ∷ rest) h = elim (Bool-cases (p node)) [
    | inl e ↦ rw e (h.0, keep-All p rest h.1)
    | inr e ↦ rw e (keep-All p rest h.1)
  ]

  module _ {S : Type 0} (ops : TreeProcessOps S) where
    Aimed-cont :
        (pid : ℕ) (r : TreeKillReport × Recorded S)
        → P pid
        → Aimed r.1.log
        → Aimed (cont_reporting (recording ops) pid r).1.log
    unfolding cont_reporting
    Aimed-cont pid (report, w) p h = aim w.log (cont_sent pid) p h

    Aimed-after_deliver :
        (mode : KillMode) (node : FrozenNode) (result : TreeSignalResult)
        (r : TreeKillReport × Recorded S)
        → P node.pid
        → Aimed r.1.log
        → Aimed (after_deliver (recording ops) mode node result r).1.log
    unfolding after_deliver
    Aimed-after_deliver mode node delivered (report, w) p h =
        elim (Bool-cases (mode == KillMode.terminate)) [
          | inl e ↦ rw (e, after_deliver) (Aimed-cont node.pid (count_delivered node report, w) p h)
          | inr e ↦ rw (e, after_deliver) h
        ]
    Aimed-after_deliver mode node not_found (report, w) p h = h
    Aimed-after_deliver mode node denied (report, w) p h =
        elim (Bool-cases node.resume_on_cleanup) [
          | inl e ↦ rw (e, after_deliver) (Aimed-cont node.pid (report, w) p h)
          | inr e ↦ rw (e, after_deliver) h
        ]

    Aimed-signal_members :
        (mode : KillMode) (nodes : List FrozenNode) (r : TreeKillReport × Recorded S)
        → Members nodes
        → Aimed r.1.log
        → Aimed (signal_members (recording ops) mode nodes r).1.log
    unfolding signal_members
    Aimed-signal_members mode [] r m h = h
    Aimed-signal_members mode (node ∷ rest) (report, w) m h =
        let sent = ops.deliver node.pid mode w.inner in
        Aimed-signal_members mode rest _ m.1
          (Aimed-after_deliver mode node sent.0 _ m.0 (aim w.log (kill_sent node.pid sent.0) m.0 h))

    Aimed-queue :
        (mode : KillMode) (node : FrozenNode) (result : TreeSignalResult)
        (r : TreeKillReport × List ℕ)
        → P node.pid
        → All P r.1
        → All P (after_group_deliver (recording ops) mode node result r).1
    unfolding after_group_deliver
    Aimed-queue mode node delivered (report, queue) p h =
        elim (Bool-cases (mode == KillMode.terminate)) [
          | inl e ↦ rw (e, after_group_deliver) (All-append P queue (node.pid ∷ []) h (p, tt))
          | inr e ↦ rw (e, after_group_deliver) h
        ]
    Aimed-queue mode node not_found (report, queue) p h = h
    Aimed-queue mode node denied (report, queue) p h = elim (Bool-cases node.resume_on_cleanup) [
      | inl e ↦ rw (e, after_group_deliver) (All-append P queue (node.pid ∷ []) h (p, tt))
      | inr e ↦ rw (e, after_group_deliver) h
    ]

    Aimed-deliver_group :
        (mode : KillMode) (nodes : List FrozenNode) (r : TreeKillReport × List ℕ) (w : Recorded S)
        → Members nodes
        → All P r.1
        → Aimed w.log
        → let d = deliver_group (recording ops) mode nodes r w in All P d.0.1 × Aimed d.1.log
    unfolding deliver_group
    Aimed-deliver_group mode [] r w m q h = (q, h)
    Aimed-deliver_group mode (node ∷ rest) r w m q h =
        let sent = ops.deliver node.pid mode w.inner in
        Aimed-deliver_group mode rest (after_group_deliver (recording ops) mode node sent.0 r) _ m.1
          (Aimed-queue mode node sent.0 r m.0 q) (aim w.log (kill_sent node.pid sent.0) m.0 h)

    Aimed-continue_all :
        (queue : List ℕ) (r : TreeKillReport × Recorded S)
        → All P queue
        → Aimed r.1.log
        → Aimed (continue_all (recording ops) queue r).1.log
    unfolding continue_all
    Aimed-continue_all [] r q h = h
    Aimed-continue_all (pid ∷ rest) r q h = Aimed-continue_all rest _ q.1 (Aimed-cont pid r q.0 h)

    pub Aimed-signal_tree :
        (frozen : List FrozenNode) (scope : SweepScope) (mode : KillMode) (w : Recorded S)
        → Members frozen
        → Aimed w.log
        → Aimed (signal_tree (recording ops) frozen scope mode w).1.log
    unfolding signal_tree
    Aimed-signal_tree frozen SweepScope.tree mode w m h =
        Aimed-signal_members mode (sort_by delivery_order frozen) _
          (sort_by-All delivery_order (λ n. P n.pid) frozen m) h
    Aimed-signal_tree frozen (SweepScope.group pgid) mode w m h =
        let members = sort_by delivery_order frozen in
        let start : TreeKillReport × List ℕ = (empty_report (length members), []) in
        let d =
          Aimed-deliver_group mode members start w
            (sort_by-All delivery_order (λ n. P n.pid) frozen m) tt h in
        Aimed-continue_all (deliver_group (recording ops) mode members start w).0.1 _ d.0 d.1

    Aimed-thaw_members :
        (nodes : List FrozenNode) (failed : List ℕ) (w : Recorded S)
        → Members nodes
        → Aimed w.log
        → Aimed (thaw_members (recording ops) nodes failed w).1.log
    unfolding thaw_members
    Aimed-thaw_members [] failed w m h = h
    Aimed-thaw_members (node ∷ rest) failed w m h =
        Aimed-thaw_members rest _ _ m.1 (aim w.log (cont_sent node.pid) m.0 h)

    pub Aimed-refuse_after_thaw :
        (o : TreeKillOutcome) (frozen : List FrozenNode) (w : Recorded S)
        → Members frozen
        → Aimed w.log
        → Aimed (refuse_after_thaw (recording ops) o frozen w).1.log
    unfolding refuse_after_thaw
    Aimed-refuse_after_thaw o frozen w m h =
        Aimed-thaw_members _ [] w (keep-All _ (reverse frozen) (reverse-All frozen m)) h

  pub keys-All :
      (frozen frozen' : List FrozenNode)
      → keys frozen' ≡ keys frozen
      → Members frozen
      → Members frozen'
  keys-All frozen frozen' e m = to frozen' (subst (All (λ k. P k.0)) (sym e) (from frozen m))
    where
      from : (nodes : List FrozenNode) → Members nodes → All (λ k. P k.0) (keys nodes)
      from [] m = tt
      from (node ∷ rest) m = (m.0, from rest m.1)

      to : (nodes : List FrozenNode) → All (λ k. P k.0) (keys nodes) → Members nodes
      to [] m = tt
      to (node ∷ rest) m = (m.0, to rest m.1)

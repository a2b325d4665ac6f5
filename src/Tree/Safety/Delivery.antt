-- ===== src/Tree/Safety/Delivery.antt =====
-- A completed scoped kill signals exactly the processes that it stopped.
use mathlib.Core.Path.{subst}
use mathlib.Core.List.{append-nil, map-append, Perm}
use kickoutchi.Prelude.{
  ℕ, ◌≡◌, ◌≤◌, ◌<◌, ◌⊎◌, inl, inr, arith, true, false, ltb, Bool-cases, refl, sym, ap, ◌∙◌, Bool,
  Option, none, some, List, [], ◌∷◌, ◌++◌, map, sort_by,
}
use kickoutchi.Prelude.Sorting.{sort_by-perm}
use kickoutchi.Prelude.Sorted.{IsSorted, sort_by-IsSorted}
use kickoutchi.Prelude.Text.{Text}
use kickoutchi.Model.{Platform}
use kickoutchi.Process.{Host, KillMode, KillTarget}
use kickoutchi.Tree.{ScopeAuthorization, TreeProcessOps, KillCancellationGuard, TreeStopResult}
use kickoutchi.Tree.Outcome.{TreeKillOutcome, TreeKillReport, completed, is_completed, IsRefusal}
use kickoutchi.Tree.Frozen.{FrozenNode, SweepScope, pids}
use kickoutchi.Tree.Deliver.{delivery_order}
use kickoutchi.Tree.Policy.{check_tree_policy}
use kickoutchi.Tree.Execute.{execute_freeze_kill}
use kickoutchi.Tree.Record.{
  Signal, stop_sent, Recorded, recording, guarding, fresh, stops, killed, stops-append,
  killed-append, stopped_by, killed_by,
}
use kickoutchi.Tree.Safety.Rule.{Invariant, SweepRule, joined}
use kickoutchi.Tree.Safety.Checks.{keys}
use kickoutchi.Tree.Safety.Trace.{Evidenced}
use kickoutchi.Tree.Safety.Cleanup.{refuse_after_thaw-IsRefusal}
use kickoutchi.Tree.Safety.Signals.{collect-signal_tree}
use kickoutchi.Tree.Safety.Stages.{Ending, PipelineRule}
use kickoutchi.Tree.Safety.Pipeline.{execute-Ends}

-- While nothing is refused, the stopped processes are the frozen list, and nothing is killed.
abbrev pub Ledgered : Invariant
Ledgered none frozen log = (stops log ≡ pids frozen) × (killed log ≡ [])
Ledgered (some o) frozen log = Unit

stops-eq-pids :
    (frozen : List FrozenNode) (log : List Signal) (node : FrozenNode) (transitioned : Bool)
    → stops log ≡ pids frozen
    → stops (log ++ stop_sent node.pid (TreeStopResult.stopped transitioned) ∷ [])
      ≡ pids (frozen ++ node ∷ [])
stops-eq-pids frozen log node transitioned e = rw (
  stops-append log (stop_sent node.pid (TreeStopResult.stopped transitioned) ∷ []),
  map-append (λ (n : FrozenNode). n.pid) frozen (node ∷ []),
  e,
)

unkilled :
    (log : List Signal) (pid : ℕ) (r : TreeStopResult)
    → killed log ≡ []
    → killed (log ++ stop_sent pid r ∷ []) ≡ []
unkilled log pid r e = rw (killed-append log (stop_sent pid r ∷ []), e)

pub Ledgered-rule : (host : Host) (scope : SweepScope) → SweepRule host scope Ledgered
Ledgered-rule host scope = record {
  refuses = λ _ _ _ _ _. tt;
  vanishes = λ frozen log pid _ b. (
    rw (stops-append log (stop_sent pid TreeStopResult.not_found ∷ [])) (append-nil _ ∙ b.0),
    unkilled log pid TreeStopResult.not_found b.1,
  );
  fails = λ _ _ _ _ _ _ _ _ _. tt;
  joins = λ frozen log member t m _ _ b. (
    stops-eq-pids frozen log (joined member m t) t b.0,
    unkilled log member.pid (TreeStopResult.stopped t) b.1,
  );
  joins_failed = λ _ _ _ _ _ _ _ _ _ _ _. tt;
}

-- The stopped PIDs are a function of the keys.
pids-eq-keys :
    (frozen : List FrozenNode) → pids frozen ≡ map (λ (k : ℕ × Bool × ℕ). k.0) (keys frozen)
pids-eq-keys [] = refl
pids-eq-keys (node ∷ rest) = ap (◌∷◌ node.pid) (pids-eq-keys rest)

pub refreshes-Ledgered :
    (frozen frozen' : List FrozenNode) (log : List Signal)
    → keys frozen' ≡ keys frozen
    → Ledgered none frozen log
    → Ledgered none frozen' log
refreshes-Ledgered frozen frozen' log e b =
    (b.0 ∙ pids-eq-keys frozen ∙ sym (ap (map (λ k. k.0)) e) ∙ sym (pids-eq-keys frozen'), b.1)

-- One member is signalled before another: it is deeper, or as deep with no greater PID.
abbrev pub Before : FrozenNode → FrozenNode → Type 0
Before left right =
    (right.depth < left.depth) ⊎ ((left.depth ≡ right.depth) × (left.pid ≤ right.pid))

delivery_order-Before : (x y : FrozenNode) → delivery_order x y ≡ true → Before x y
delivery_order-Before x y h = elim (Bool-cases (ltb y.depth x.depth)) [
  | inl e ↦ inl (ground (arith, e))
  | inr e ↦ inr (ground (arith, h, e), ground (arith, h, e))
]

delivery_order-flips : (x y : FrozenNode) → delivery_order x y ≡ false → Before y x
delivery_order-flips x y h = elim (Bool-cases (ltb x.depth y.depth)) [
  | inl e ↦ inl (ground (arith, e))
  | inr e ↦ inr (ground (arith, h, e), ground (arith, h, e))
]

Before-trans : (x y z : FrozenNode) → Before x y → Before y z → Before x z
Before-trans x y z (inl p) (inl q) = inl (omega (arith, p, q))
Before-trans x y z (inl p) (inr q) = inl (omega (arith, p, q))
Before-trans x y z (inr p) (inl q) = inl (omega (arith, p, q))
Before-trans x y z (inr p) (inr q) = inr (p.0 ∙ q.0, omega (arith, p, q))

-- The members of the run's own sweep, as the last evidence check left them, passed the policy.
-- They are those that were stopped, and those that were sent the terminating signal in an order
-- that runs from the deepest to the root.
module _ {S : Type 0} (host : Host) (ops : TreeProcessOps S) (guard : KillCancellationGuard S)
    (root : KillTarget) (scope : SweepScope)
    (policy : List FrozenNode → Option TreeKillOutcome) where
  abbrev pub DeliveredTo : List Signal → Type 0
  DeliveredTo log =
      (frozen : List FrozenNode) × (order : List FrozenNode) × (seen : Recorded S) × Evidenced host
        ops guard root scope frozen seen
      × (policy frozen ≡ none)
      × (stops log ≡ pids frozen)
      × Perm order frozen
      × IsSorted Before order
      × (killed log ≡ pids order)

  abbrev DeliveredIfCompleted : Ending
  DeliveredIfCompleted (completed report) log = DeliveredTo log
  DeliveredIfCompleted _ log = Unit

  refusal-DeliveredIfCompleted :
      (o : TreeKillOutcome) (log : List Signal) → IsRefusal o → DeliveredIfCompleted o log
  unfolding is_completed
  refusal-DeliveredIfCompleted (completed report) log h = cc
  refusal-DeliveredIfCompleted _ log h = tt

module _ {S : Type 0} (host : Host) (ops : TreeProcessOps S) (guard : KillCancellationGuard S)
    (root : KillTarget) (scope : SweepScope) (mode : KillMode) (protected_names : List Text)
    (platform : Platform) (authorization : ScopeAuthorization) where
  abbrev policy : List FrozenNode → Option TreeKillOutcome
  policy frozen = check_tree_policy host frozen scope authorization protected_names platform

  delivered_rule :
      PipelineRule host ops guard root scope mode protected_names platform authorization Ledgered
        (DeliveredIfCompleted host ops guard root scope policy)
  delivered_rule = record {
    sweeps = Ledgered-rule host scope;
    starts = (refl, refl);
    refreshes = refreshes-Ledgered;
    ends_early = λ o log h _. refusal-DeliveredIfCompleted host ops guard root scope policy o log h;
    ends_refused = λ o frozen w h _.
        refusal-DeliveredIfCompleted host ops guard root scope policy _ _
          (refuse_after_thaw-IsRefusal ops o frozen w h);
    ends_completed = λ frozen seen w came approved b. (
      frozen,
      sort_by delivery_order frozen,
      seen,
      came,
      approved,
      collect-signal_tree ops stopped_by (λ _. refl) (λ _. []) (λ _ _ _. refl) refl frozen scope
            mode w
          ∙ append-nil (stops w.log)
          ∙ b.0,
      sort_by-perm delivery_order frozen,
      sort_by-IsSorted delivery_order Before delivery_order-Before delivery_order-flips Before-trans
          frozen,
      collect-signal_tree ops killed_by (λ _. refl) pids (λ _ _ _. refl) refl frozen scope mode w
          ∙ ap (λ (l : List ℕ). l ++ pids (sort_by delivery_order frozen)) b.1,
    );
  }

  -- When the pipeline reports a delivery, the members that its sweep froze, checked against the
  -- last snapshot and named by fresh evidence, passed the policy check. They are exactly the
  -- processes that were stopped, in the order of the stops, and exactly those that were sent the
  -- terminating signal, once each: the deeper before the less deep, and equally deep ones by PID.
  pub completed_kills_stopped :
      (s : S) (report : TreeKillReport) (w : Recorded S)
      → execute_freeze_kill host
          (recording ops)
          (guarding guard)
          root
          scope
          mode
          protected_names
          platform
          authorization
          (fresh s)
        ≡ (completed report, w)
      → (frozen : List FrozenNode) × (order : List FrozenNode) × (seen : Recorded S) × Evidenced
          host ops guard root scope frozen seen
        × (check_tree_policy host frozen scope authorization protected_names platform ≡ none)
        × (stops w.log ≡ pids frozen)
        × Perm order frozen
        × IsSorted Before order
        × (killed w.log ≡ pids order)
  completed_kills_stopped s report w e =
      subst
        (λ (r : TreeKillOutcome × Recorded S).
          DeliveredIfCompleted host ops guard root scope policy r.0 r.1.log)
        e
        (execute-Ends host ops guard root scope mode protected_names platform authorization Ledgered
          (DeliveredIfCompleted host ops guard root scope policy) delivered_rule s)

-- ===== src/Tree/Safety/Stages.antt =====
-- What a run of `execute_freeze_kill` ends with, from an invariant of its sweep: the stages from
-- the sweep to the signals.
use mathlib.Core.Path.{subst}
use kickoutchi.Prelude.{
  ℕ, ◌≡◌, refl, sym, Option, none, some, List, [], ◌∷◌, inl, inr, Option-cases, Result-cases,
  nat_eq,
}
use kickoutchi.Prelude.Text.{Text}
use kickoutchi.Model.{Platform}
use kickoutchi.Process.{Host, KillMode, KillTarget}
use kickoutchi.Tree.{ScopeAuthorization, TreeProcessInfo, TreeProcessOps, KillCancellationGuard}
use kickoutchi.Tree.Outcome.{TreeKillOutcome, Refuses, completed, is_completed, IsRefusal}
use kickoutchi.Tree.Frozen.{FrozenNode, SweepScope}
use kickoutchi.Tree.Sweep.{freeze_sweep}
use kickoutchi.Tree.Deliver.{signal_tree, refuse_after_thaw}
use kickoutchi.Tree.Policy.{check_tree_policy}
use kickoutchi.Tree.Verify.{
  verify_frozen_identities, prepare_delivery_handles, verify_fresh_delivery_evidence,
}
use kickoutchi.Tree.Execute.{
  deliver_unless_cancelled, apply_policy, verify_fresh, prepare, verify_converged, sweep_members,
}
use kickoutchi.Tree.Record.{Signal, Recorded, recording, guarding}
use kickoutchi.Tree.Safety.Passes.{freeze_sweep-Holds}
use kickoutchi.Tree.Safety.Trace.{Rooted, Swept, Converged, Prepared, Evidenced}
use kickoutchi.Tree.Safety.Rule.{Invariant, SweepRule, OnlyRefusals, OnlyRefusals-rule}
use kickoutchi.Tree.Safety.Checks.{
  keys, verify_frozen_checks, prepare_checks, fresh_checks, policy_checks,
}

-- `Q` of an outcome and the record that comes with it.
abbrev pub Ending : Type 1
Ending = TreeKillOutcome → List Signal → Type 0

-- How a run ends, from an invariant `P` of the sweep.
pub record PipelineRule {S : Type 0} (host : Host) (ops : TreeProcessOps S)
    (guard : KillCancellationGuard S) (root : KillTarget) (scope : SweepScope) (mode : KillMode)
    (protected_names : List Text) (platform : Platform) (authorization : ScopeAuthorization)
    (P : Invariant) (Q : Ending) : Type 0 where
  pub sweeps : SweepRule host scope P
  pub starts : P none [] []
  pub refreshes :
      (frozen frozen' : List FrozenNode) (log : List Signal)
      → keys frozen' ≡ keys frozen
      → P none frozen log
      → P none frozen' log
  -- The root was never stopped.
  pub ends_early :
      (o : TreeKillOutcome) (log : List Signal) → IsRefusal o → P (some o) [] log → Q o log
  pub ends_refused :
      (o : TreeKillOutcome) (frozen : List FrozenNode) (w : Recorded S)
      → IsRefusal o
      → P (some o) frozen w.log
      → let r = refuse_after_thaw (recording ops) o frozen w in Q r.0 r.1.log
  pub ends_completed :
      (frozen : List FrozenNode) (seen w : Recorded S)
      → Evidenced host ops guard root scope frozen seen
      → check_tree_policy host frozen scope authorization protected_names platform ≡ none
      → P none frozen w.log
      → let r = signal_tree (recording ops) frozen scope mode w in Q (completed r.0) r.1.log

module _ {S : Type 0} (host : Host) (ops : TreeProcessOps S) (guard : KillCancellationGuard S)
    (root : KillTarget) (scope : SweepScope) (mode : KillMode) (protected_names : List Text)
    (platform : Platform) (authorization : ScopeAuthorization) (P : Invariant) (Q : Ending)
    (rule : PipelineRule host ops guard root scope mode protected_names platform authorization P
      Q) where
  abbrev Ends : TreeKillOutcome × Recorded S → Type 0
  Ends r = Q r.0 r.1.log

  pub refused :
      (o : TreeKillOutcome) (frozen : List FrozenNode) (w : Recorded S)
      → IsRefusal o
      → P none frozen w.log
      → Ends (refuse_after_thaw (recording ops) o frozen w)
  refused o frozen w h b = rule.ends_refused o frozen w h (rule.sweeps.refuses frozen w.log o h b)

  deliver-Ends :
      (frozen : List FrozenNode) (seen w : Recorded S)
      → Evidenced host ops guard root scope frozen seen
      → check_tree_policy host frozen scope authorization protected_names platform ≡ none
      → P none frozen w.log
      → Ends (
          deliver_unless_cancelled host
            (recording ops)
            (guarding guard)
            root
            scope
            mode
            protected_names
            platform
            authorization
            frozen
            w)
  unfolding deliver_unless_cancelled is_completed
  deliver-Ends frozen seen w came approved b =
      let s = record w { inner = (guard.check w.inner).1 } in
      elim (Result-cases (guard.check w.inner).0) [
        | inl (_, e) ↦
            rw (e, deliver_unless_cancelled) (rule.ends_completed frozen seen s came approved b)
        | inr (error, e) ↦ rw (e, deliver_unless_cancelled) (refused _ frozen s refl b)
      ]

  Refuses-some :
      (o : TreeKillOutcome) (r : Option TreeKillOutcome) → Refuses r → r ≡ some o → IsRefusal o
  Refuses-some o r h e = rw e at h

  policy-Ends :
      (frozen : List FrozenNode) (w : Recorded S)
      → Evidenced host ops guard root scope frozen w
      → P none frozen w.log
      → Ends (
          apply_policy host
            (recording ops)
            (guarding guard)
            root
            scope
            mode
            protected_names
            platform
            authorization
            frozen
            w)
  unfolding apply_policy
  policy-Ends frozen w came b =
      elim (Option-cases
        (check_tree_policy host frozen scope authorization protected_names platform)) [
          | inl e ↦ rw (e, apply_policy) (deliver-Ends frozen w w came e b)
          | inr (o, e) ↦
              rw (e, apply_policy)
                (refused o frozen w
                  (Refuses-some o _
                    (policy_checks host frozen scope authorization protected_names platform) e)
                  b)
        ]

  fresh-Ends :
      (frozen : List FrozenNode) (w : Recorded S)
      → Prepared host ops guard root scope frozen w
      → P none frozen w.log
      → Ends (
          verify_fresh host
            (recording ops)
            (guarding guard)
            root
            scope
            mode
            protected_names
            platform
            authorization
            frozen
            w)
  unfolding verify_fresh
  fresh-Ends frozen w came b =
      let r = verify_fresh_delivery_evidence (recording ops) frozen w in
      let c = fresh_checks ops frozen w in
      let b' = subst (P none r.1) (sym c.2) (rule.refreshes frozen r.1 w.log c.1 b) in
      elim (Option-cases r.0) [
        | inl e ↦
            rw (e, verify_fresh)
              (let next : Evidenced host ops guard root scope r.1 r.2 = record {
                members = frozen;
                before = w;
                prepared = came;
                accepted = e;
                refreshed = refl;
                left = refl;
              } in
                policy-Ends r.1 r.2 next b')
        | inr (o, e) ↦ rw (e, verify_fresh) (refused o r.1 r.2 (Refuses-some o _ c.0 e) b')
      ]

  prepare-Ends :
      (frozen : List FrozenNode) (w : Recorded S)
      → Converged host ops guard root scope frozen w
      → P none frozen w.log
      → Ends (
          prepare host
            (recording ops)
            (guarding guard)
            root
            scope
            mode
            protected_names
            platform
            authorization
            frozen
            w)
  unfolding prepare
  prepare-Ends frozen w came b =
      let r = prepare_delivery_handles (recording ops) frozen w in
      let c = prepare_checks ops frozen w in
      let b' = subst (P none frozen) (sym c.1) b in
      elim (Option-cases r.0) [
        | inl e ↦
            rw (e, prepare)
              (let next : Prepared host ops guard root scope frozen r.1 = record {
                before = w;
                converged = came;
                accepted = e;
                left = refl;
              } in
                fresh-Ends frozen r.1 next b')
        | inr (o, e) ↦ rw (e, prepare) (refused o frozen r.1 (Refuses-some o _ c.0 e) b')
      ]

  converged-Ends :
      (snapshot : List TreeProcessInfo) (frozen : List FrozenNode) (w : Recorded S)
      → Swept host ops guard root scope snapshot frozen w
      → P none frozen w.log
      → Ends (
          verify_converged host
            (recording ops)
            (guarding guard)
            root
            scope
            mode
            protected_names
            platform
            authorization
            snapshot
            frozen
            w)
  unfolding verify_converged
  converged-Ends snapshot frozen w came b =
      let r = verify_frozen_identities frozen scope snapshot in
      let c = verify_frozen_checks frozen scope snapshot in
      let b' = rule.refreshes frozen r.1 w.log c.1 b in
      elim (Option-cases r.0) [
        | inl e ↦
            rw (e, verify_converged)
              (let next : Converged host ops guard root scope r.1 w = record {
                snapshot = snapshot;
                members = frozen;
                swept = came;
                accepted = e;
                refreshed = refl;
              } in
                prepare-Ends r.1 w next b')
        | inr (o, e) ↦ rw (e, verify_converged) (refused o r.1 w (Refuses-some o _ c.0 e) b')
      ]

  pub sweep-Ends :
      (deadline : ℕ) (node : FrozenNode) (w : Recorded S)
      → Rooted ops root scope node w
      → P none (node ∷ []) w.log
      → Ends (
          sweep_members host
            (recording ops)
            (guarding guard)
            root
            scope
            mode
            protected_names
            platform
            authorization
            deadline
            node
            w)
  unfolding sweep_members
  sweep-Ends deadline node w came b =
      let r = freeze_sweep host (recording ops) (guarding guard) deadline scope (node ∷ []) w in
      let c = freeze_sweep-Holds host ops guard scope P rule.sweeps deadline (node ∷ []) w b in
      let h =
        freeze_sweep-Holds host ops guard scope OnlyRefusals (OnlyRefusals-rule host scope) deadline
          (node ∷ []) w tt in
      elim (Result-cases r.result) [
        | inl (snapshot, e) ↦
            rw (e, sweep_members)
              (let next : Swept host ops guard root scope snapshot r.frozen r.world = record {
                deadline = deadline;
                node = node;
                start = w;
                rooted = came;
                ended = e;
                members = refl;
                left = refl;
              } in
                converged-Ends snapshot r.frozen r.world next (rw e at c))
        | inr (o, e) ↦
            rw (e, sweep_members) (rule.ends_refused o r.frozen r.world (rw e at h) (rw e at c))
      ]

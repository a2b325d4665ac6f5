-- ===== src/Tree/Safety/Pipeline.antt =====
-- One rule for the whole of `execute_freeze_kill`: what holds of the signals of each way to end
-- holds of every run.
use mathlib.Core.Path.{subst}
use kickoutchi.Prelude.{
  ℕ, ◌≡◌, ◌<◌, ◌+◌, refl, Bool, true, false, Option, none, some, List, [], ◌∷◌, arith, inl, inr,
  Option-cases, Result-cases, Bool-cases, err, leb, nat_eq,
}
use kickoutchi.Prelude.Text.{Text}
use kickoutchi.Model.{Platform}
use kickoutchi.Observation.{ProcessStartMarker}
use kickoutchi.Process.{Host, KillMode, KillTarget, unsafe_pid_reason}
use kickoutchi.Tree.{
  ScopeAuthorization, TreeProcessOps, KillCancellationGuard, TreeStopResult, TreeStopError,
  stop_deadline_expired,
}
use kickoutchi.Tree.Outcome.{
  TreeKillOutcome, is_completed, tree_stop_error_outcome, tree_stop_error_outcome-IsRefusal,
}
use kickoutchi.Tree.Frozen.{FrozenNode, SweepScope, member_cap}
use kickoutchi.Tree.Sweep.{stop_before_deadline, rollback_or_read}
use kickoutchi.Tree.Deliver.{refuse_after_thaw}
use kickoutchi.Tree.Verify.{check_root_snapshot, verify_root_after_stop}
use kickoutchi.Tree.Execute.{
  verify_root, after_root_stop, stop_root, execute_freeze_kill, unix_stop_acknowledgement_max,
  confirmed_root, or_confirmed, resuming,
}
use kickoutchi.Tree.Record.{stop_sent, Recorded, recording, guarding, fresh}
use kickoutchi.Tree.Safety.Rule.{Invariant}
use kickoutchi.Tree.Safety.Checks.{RootChecked, root_checks}
use kickoutchi.Tree.Safety.Trace.{Rooted}
use kickoutchi.Tree.Safety.Stages.{Ending, PipelineRule, refused, sweep-Ends}

zero-lt-member_cap : (scope : SweepScope) → 0 < member_cap scope
unfolding member_cap
zero-lt-member_cap SweepScope.tree = omega arith
zero-lt-member_cap (SweepScope.group pgid) = omega arith

module _ {S : Type 0} (host : Host) (ops : TreeProcessOps S) (guard : KillCancellationGuard S)
    (root : KillTarget) (scope : SweepScope) (mode : KillMode) (protected_names : List Text)
    (platform : Platform) (authorization : ScopeAuthorization) (P : Invariant) (Q : Ending)
    (rule : PipelineRule host ops guard root scope mode protected_names platform authorization P
      Q) where
  abbrev Ends : TreeKillOutcome × Recorded S → Type 0
  Ends r = Q r.0 r.1.log

  -- The root's record joins the empty list as any member's does.
  root_joins :
      (node : FrozenNode) (transitioned : Bool)
      → node.pid ≡ root.pid
      → unsafe_pid_reason host root.pid ≡ none
      → P none
          (resuming transitioned node ∷ [])
          (stop_sent root.pid (TreeStopResult.stopped transitioned) ∷ [])
  root_joins node transitioned e safe =
      subst
        (λ pid.
          P none (resuming transitioned node ∷ [])
            (stop_sent pid (TreeStopResult.stopped transitioned) ∷ []))
        e
        (rule.sweeps.joins [] [] node transitioned node.rollback_start_time_marker
          (zero-lt-member_cap scope) (rw e safe) rule.starts)

  root_refused :
      (found : Option FrozenNode) (transitioned : Bool) (marker : Option ProcessStartMarker)
      (o : TreeKillOutcome) (w : Recorded S)
      → unsafe_pid_reason host root.pid ≡ none
      → w.log ≡ stop_sent root.pid (TreeStopResult.stopped transitioned) ∷ []
      → RootChecked root (err (o, found))
      → Ends
          (refuse_after_thaw (recording ops) o (or_confirmed root marker transitioned found ∷ []) w)
  root_refused none transitioned marker o w safe l c =
      refused host ops guard root scope mode protected_names platform authorization P Q rule o _ w
        c.0 (rw l (root_joins (confirmed_root root marker transitioned) transitioned refl safe))
  root_refused (some node) transitioned marker o w safe l c =
      refused host ops guard root scope mode protected_names platform authorization P Q rule o _ w
        c.0 (rw l (root_joins node transitioned c.1 safe))

  verify_root-Ends :
      (deadline : ℕ) (transitioned : Bool) (marker : Option ProcessStartMarker) (w : Recorded S)
      → unsafe_pid_reason host root.pid ≡ none
      → w.log ≡ stop_sent root.pid (TreeStopResult.stopped transitioned) ∷ []
      → Ends (
          verify_root host
            (recording ops)
            (guarding guard)
            root
            scope
            mode
            protected_names
            platform
            authorization
            deadline
            transitioned
            marker
            w)
  unfolding verify_root verify_root_after_stop
  verify_root-Ends deadline transitioned marker w safe l =
      let read = ops.snapshot w.inner in
      let c = root_checks root scope marker read.0 in
      elim (Result-cases (check_root_snapshot root scope marker read.0)) [
        | inl (node, e) ↦
            rw (e, verify_root)
              (let came : Rooted ops root scope (resuming transitioned node)
                    (record w { inner = read.1 }) =
                  record {
                    marker = marker;
                    transitioned = transitioned;
                    observed = node;
                    stopped = w;
                    seen = e;
                    left = refl;
                    is_root = refl;
                  } in
                sweep-Ends host ops guard root scope mode protected_names platform authorization P Q
                  rule deadline (resuming transitioned node) _ came
                  (rw l (root_joins node transitioned (rw e at c) safe)))
        | inr ((o, found), e) ↦
            rw (e, verify_root) (root_refused found transitioned marker o _ safe l (rw e at c))
      ]

  root_failed :
      (m : Option ProcessStartMarker) (e : TreeStopError) (marker : Option ProcessStartMarker)
      (w : Recorded S)
      → unsafe_pid_reason host root.pid ≡ none
      → w.log ≡ stop_sent root.pid (TreeStopResult.failed true m e) ∷ []
      → Ends (
          refuse_after_thaw
            (recording ops)
            (tree_stop_error_outcome root.pid e)
            (confirmed_root root marker true ∷ [])
            w)
  root_failed m e marker w safe l =
      let h = tree_stop_error_outcome-IsRefusal root.pid e in
      rule.ends_refused _ _ w h (
        rw l (
          rule.sweeps.joins_failed [] [] (confirmed_root root none true) marker m e _ h
            (zero-lt-member_cap scope) safe rule.starts))

  -- The deadline had run out before the root's stop.
  expired :
      (deadline : ℕ) (s : S)
      → Ends (
          after_root_stop host
            (recording ops)
            (guarding guard)
            root
            scope
            mode
            protected_names
            platform
            authorization
            deadline
            stop_deadline_expired
            (fresh s))
  unfolding after_root_stop
  expired deadline s =
      let h = tree_stop_error_outcome-IsRefusal root.pid _ in
      rule.ends_early _ [] h (rule.sweeps.refuses [] [] _ h rule.starts)

  after_root_stop-Ends :
      (deadline : ℕ) (r : TreeStopResult) (s : S)
      → unsafe_pid_reason host root.pid ≡ none
      → Ends (
          after_root_stop host
            (recording ops)
            (guarding guard)
            root
            scope
            mode
            protected_names
            platform
            authorization
            deadline
            r
            (record { inner = s; log = stop_sent root.pid r ∷ [] }))
  unfolding after_root_stop rollback_or_read is_completed
  after_root_stop-Ends deadline (TreeStopResult.stopped transitioned) s safe =
      verify_root-Ends deadline transitioned _ _ safe refl
  after_root_stop-Ends deadline TreeStopResult.not_found s safe =
      rule.ends_early _ _ refl
        (rule.sweeps.refuses [] _ _ refl (rule.sweeps.vanishes [] [] root.pid safe rule.starts))
  after_root_stop-Ends deadline (TreeStopResult.failed false m e) s safe =
      let h = tree_stop_error_outcome-IsRefusal root.pid e in
      rule.ends_early _ _ h (rule.sweeps.fails [] [] root.pid m e _ h safe rule.starts)
  after_root_stop-Ends deadline (TreeStopResult.failed true none e) s safe =
      root_failed none e _ _ safe refl
  after_root_stop-Ends deadline (TreeStopResult.failed true (some m) e) s safe =
      root_failed (some m) e _ _ safe refl

  stop_root-Ends :
      (s : S)
      → unsafe_pid_reason host root.pid ≡ none
      → Ends (
          stop_root host
            (recording ops)
            (guarding guard)
            root
            scope
            mode
            protected_names
            platform
            authorization
            (fresh s))
  unfolding stop_root stop_before_deadline is_completed
  stop_root-Ends s safe =
      let now = ops.stop_acknowledgement_now s in
      let blocked = guard.block now.1 in
      let deadline = now.0 + unix_stop_acknowledgement_max in
      elim (Result-cases blocked.0) [
        | inr (error, e) ↦
            rw (e, stop_root)
              (rule.ends_early _ [] refl (rule.sweeps.refuses [] [] _ refl rule.starts))
        | inl (_, e) ↦
            rw (e, stop_root)
              (let later = ops.stop_acknowledgement_now blocked.1 in
                elim (Bool-cases (leb deadline later.0)) [
                  | inl e₂ ↦ rw (e₂, stop_before_deadline) (expired deadline later.1)
                  | inr e₂ ↦
                      rw (e₂, stop_before_deadline)
                        (after_root_stop-Ends deadline (ops.stop root.pid deadline later.1).0
                          (ops.stop root.pid deadline later.1).1 safe)
                ])
      ]

  pub execute-Ends :
      (s : S)
      → Ends (
          execute_freeze_kill host
            (recording ops)
            (guarding guard)
            root
            scope
            mode
            protected_names
            platform
            authorization
            (fresh s))
  unfolding execute_freeze_kill is_completed
  execute-Ends s = elim (Option-cases (unsafe_pid_reason host root.pid)) [
    | inr (reason, e) ↦
        rw (e, execute_freeze_kill)
          (rule.ends_early _ [] refl (rule.sweeps.refuses [] [] _ refl rule.starts))
    | inl e ↦ rw (e, execute_freeze_kill) (stop_root-Ends _ e)
  ]

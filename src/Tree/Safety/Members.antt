-- ===== src/Tree/Safety/Members.antt =====
-- Each way to handle the members of a pass of `freeze_sweep` keeps an invariant that has a rule.
use kickoutchi.Prelude.{
  ℕ, ◌≡◌, ◌<◌, refl, inl, inr, true, false, none, some, List, [], ◌∷◌, ◌++◌, arith, Bool-cases,
  Option-cases, Result-cases, leb, length,
}
use kickoutchi.Process.{Host, unsafe_pid_reason}
use kickoutchi.Tree.{TreeProcessOps, KillCancellationGuard, TreeStopResult}
use kickoutchi.Tree.Outcome.{is_completed, tree_stop_error_outcome-IsRefusal}
use kickoutchi.Tree.Frozen.{FrozenNode, SweepScope, member_cap}
use kickoutchi.Tree.Sweep.{
  Sweep, stop_before_deadline, after_stop, stop_member, freeze_member, freeze_members,
}
use kickoutchi.Tree.Record.{stop_sent, Recorded, recording, guarding}
use kickoutchi.Tree.Safety.Rule.{Invariant, SweepRule, Holds}

module _ {S : Type 0} (host : Host) (ops : TreeProcessOps S) (guard : KillCancellationGuard S)
    (scope : SweepScope) (P : Invariant) (rule : SweepRule host scope P) (deadline : ℕ) where
  after_stop-Holds :
      (member : FrozenNode) (w : Sweep (Recorded S)) (r : TreeStopResult) (s : S)
      → length w.frozen < member_cap scope
      → unsafe_pid_reason host member.pid ≡ none
      → w.refusal ≡ none
      → P none w.frozen w.world.log
      → Holds P (
          after_stop
            (recording ops)
            member
            w
            r
            (record { inner = s; log = w.world.log ++ stop_sent member.pid r ∷ [] }))
  unfolding after_stop
  after_stop-Holds member w (TreeStopResult.stopped t) s c u n b =
      rule.joins w.frozen w.world.log member t _ c u b
  after_stop-Holds member w TreeStopResult.not_found s c u n b =
      rw n (rule.vanishes w.frozen w.world.log member.pid u b)
  after_stop-Holds member w (TreeStopResult.failed false m e) s c u n b =
      rule.fails w.frozen w.world.log member.pid m e _
        (tree_stop_error_outcome-IsRefusal member.pid e) u b
  after_stop-Holds member w (TreeStopResult.failed true none e) s c u n b =
      rule.joins_failed w.frozen w.world.log member _ none e _
        (tree_stop_error_outcome-IsRefusal member.pid e) c u b
  after_stop-Holds member w (TreeStopResult.failed true (some m) e) s c u n b =
      rule.joins_failed w.frozen w.world.log member _ (some m) e _
        (tree_stop_error_outcome-IsRefusal member.pid e) c u b

  stop-Holds :
      (member : FrozenNode) (w : Sweep (Recorded S)) (s : S)
      → length w.frozen < member_cap scope
      → unsafe_pid_reason host member.pid ≡ none
      → w.refusal ≡ none
      → P none w.frozen w.world.log
      → let r =
          stop_before_deadline
            (recording ops)
            member.pid
            deadline
            (record { inner = s; log = w.world.log }) in
        Holds P (after_stop (recording ops) member w r.0 r.1)
  unfolding stop_before_deadline is_completed
  stop-Holds member w s c u n b =
      let now = ops.stop_acknowledgement_now s in
      elim (Bool-cases (leb deadline now.0)) [
        | inl e ↦
            rw (e, stop_before_deadline)
              (unfold after_stop in
                rule.refuses w.frozen w.world.log _ (tree_stop_error_outcome-IsRefusal member.pid _)
                  b)
        | inr e ↦
            rw (e, stop_before_deadline)
              (after_stop-Holds member w (ops.stop member.pid deadline now.1).0
                (ops.stop member.pid deadline now.1).1 c u n b)
      ]

  stop_member-Holds :
      (member : FrozenNode) (w : Sweep (Recorded S)) (s : S)
      → w.refusal ≡ none
      → P none w.frozen w.world.log
      → Holds P (
          stop_member host
            (recording ops)
            (guarding guard)
            deadline
            scope
            member
            w
            (record { inner = s; log = w.world.log }))
  unfolding stop_member is_completed
  stop_member-Holds member w s n b = elim (Bool-cases (leb (member_cap scope) (length w.frozen))) [
    | inl e ↦ rw (e, stop_member) (rule.refuses w.frozen w.world.log _ refl b)
    | inr e ↦
        rw (e, stop_member)
          (elim (Option-cases (unsafe_pid_reason host member.pid)) [
            | inr (r, u) ↦ rw u (rule.refuses w.frozen w.world.log _ refl b)
            | inl u ↦ rw u (elim (Option-cases member.start_time_marker) [
              | inl m ↦ rw m (rule.refuses w.frozen w.world.log _ refl b)
              | inr (k, m) ↦ rw m (stop-Holds member w s (ground arith) u n b)
            ])
          ])
  ]

  freeze_member-Holds :
      (member : FrozenNode) (w : Sweep (Recorded S))
      → w.refusal ≡ none
      → P none w.frozen w.world.log
      → Holds P (freeze_member host (recording ops) (guarding guard) deadline scope member w)
  unfolding freeze_member is_completed
  freeze_member-Holds member w n b = elim (Result-cases (guard.check w.world.inner).0) [
    | inl (u, e) ↦
        rw (e, freeze_member) (stop_member-Holds member w (guard.check w.world.inner).1 n b)
    | inr (error, e) ↦ rw (e, freeze_member) (rule.refuses w.frozen w.world.log _ refl b)
  ]

  pub freeze_members-Holds :
      (members : List FrozenNode) (w : Sweep (Recorded S))
      → w.refusal ≡ none
      → P none w.frozen w.world.log
      → Holds P (freeze_members host (recording ops) (guarding guard) deadline scope members w)
  unfolding freeze_members
  freeze_members-Holds [] w n b = rw n b
  freeze_members-Holds (member ∷ rest) w n b =
      let w' = freeze_member host (recording ops) (guarding guard) deadline scope member w in
      let b' = freeze_member-Holds member w n b in
      elim (Option-cases w'.refusal) [
        | inl e ↦ rw (e, freeze_members) (freeze_members-Holds rest w' e (rw e at b'))
        | inr (o, e) ↦ rw (e, freeze_members) b'
      ]

-- ===== src/Tree/Safety/Refusal.antt =====
-- A scoped kill that is refused sends no terminating signal and undoes its stops.
use mathlib.Core.Path.{subst}
use kickoutchi.Prelude.{
  ℕ, ◌≡◌, refl, sym, ap, ◌∙◌, Bool, true, false, Option, List, [], ◌∷◌, reverse, ◌++◌,
  if◌then◌else◌, arith,
}
use kickoutchi.Prelude.Text.{Text}
use kickoutchi.Model.{Platform}
use kickoutchi.Observation.{ProcessStartMarker}
use kickoutchi.Process.{Host, KillMode, KillTarget}
use kickoutchi.Tree.{ScopeAuthorization, TreeProcessOps, KillCancellationGuard, TreeStopResult}
use kickoutchi.Tree.Outcome.{TreeKillOutcome, is_completed, IsRefusal}
use kickoutchi.Tree.Frozen.{FrozenNode, SweepScope}
use kickoutchi.Tree.Execute.{execute_freeze_kill}
use kickoutchi.Tree.Record.{
  Signal, stop_sent, Recorded, recording, guarding, fresh, owed, continued, killed,
}
use kickoutchi.Tree.Safety.Ledger.{Balanced, Balanced-idle, Balanced-push, resumable}
use kickoutchi.Tree.Safety.Rule.{Invariant, SweepRule, joined}
use kickoutchi.Tree.Safety.Checks.{keys}
use kickoutchi.Tree.Safety.Cleanup.{IsUndone, refuse_after_thaw-IsUndone}
use kickoutchi.Tree.Safety.Stages.{Ending, PipelineRule}
use kickoutchi.Tree.Safety.Pipeline.{execute-Ends}

abbrev pub InBalance : Invariant
InBalance _ frozen log = Balanced frozen log

abbrev UndoneIfRefused : Ending
UndoneIfRefused o log = IsRefusal o → IsUndone log

joins-InBalance :
    (frozen : List FrozenNode) (log : List Signal) (member : FrozenNode) (transitioned : Bool)
    (m : Option ProcessStartMarker)
    → Balanced frozen log
    → Balanced
        (frozen ++ joined member m transitioned ∷ [])
        (log ++ stop_sent member.pid (TreeStopResult.stopped transitioned) ∷ [])
joins-InBalance frozen log member true m b =
    Balanced-push frozen log b member.pid (TreeStopResult.stopped true) _ refl
joins-InBalance frozen log member false m b =
    Balanced-push frozen log b member.pid (TreeStopResult.stopped false) _ refl

pub InBalance-rule : (host : Host) (scope : SweepScope) → SweepRule host scope InBalance
InBalance-rule host scope = record {
  refuses = λ _ _ _ _ b. b;
  vanishes = λ frozen log pid _ b. Balanced-idle frozen log b pid TreeStopResult.not_found refl;
  fails = λ frozen log pid m e o _ _ b.
      Balanced-idle frozen log b pid (TreeStopResult.failed false m e) refl;
  joins = λ frozen log member t m _ _ b. joins-InBalance frozen log member t m b;
  joins_failed = λ frozen log member m read e o _ _ _ b.
      Balanced-push frozen log b member.pid (TreeStopResult.failed true read e) _ refl;
}

-- The PIDs to resume are a function of the keys.
resumable_keys : List (ℕ × Bool × ℕ) → List ℕ
resumable_keys [] = []
resumable_keys ((pid, resume, _) ∷ rest) =
    if resume then pid ∷ resumable_keys rest else resumable_keys rest

resumable-eq-keys : (frozen : List FrozenNode) → resumable frozen ≡ resumable_keys (keys frozen)
unfolding resumable_keys
resumable-eq-keys [] = refl
resumable-eq-keys (node ∷ rest) = ground (arith, resumable-eq-keys rest)

pub refreshes-Balanced :
    (frozen frozen' : List FrozenNode) (log : List Signal)
    → keys frozen' ≡ keys frozen
    → Balanced frozen log
    → Balanced frozen' log
refreshes-Balanced frozen frozen' log e b = record {
  no_continue = b.no_continue;
  no_kill = b.no_kill;
  duties =
      b.duties
      ∙ resumable-eq-keys frozen
      ∙ sym (ap resumable_keys e)
      ∙ sym (resumable-eq-keys frozen');
}

module _ {S : Type 0} (host : Host) (ops : TreeProcessOps S) (guard : KillCancellationGuard S)
    (root : KillTarget) (scope : SweepScope) (mode : KillMode) (protected_names : List Text)
    (platform : Platform) (authorization : ScopeAuthorization) where
  undone_rule :
      PipelineRule host ops guard root scope mode protected_names platform authorization InBalance
        UndoneIfRefused
  unfolding is_completed
  undone_rule = record {
    sweeps = InBalance-rule host scope;
    starts = record { no_continue = refl; no_kill = refl; duties = refl };
    refreshes = refreshes-Balanced;
    ends_early = λ o log _ b _. (b.no_kill, b.no_continue ∙ sym (ap reverse b.duties));
    ends_refused = λ o frozen w _ b _. refuse_after_thaw-IsUndone ops o frozen w b;
    ends_completed = λ frozen _ w _ _ _ h. cc;
  }

  -- When the pipeline answers with anything but a report of delivery, it has sent no terminating
  -- signal to any process; and the processes that it continued are exactly those whose stop it
  -- caused, last stopped first, whether the stop was acknowledged or its acknowledgement failed.
  pub refusal_undoes_stops :
      (s : S) (o : TreeKillOutcome) (w : Recorded S)
      → execute_freeze_kill host
          (recording ops)
          (guarding guard)
          root
          scope
          mode
          protected_names
          platform
          authorization
          (fresh s)
        ≡ (o, w)
      → IsRefusal o
      → (killed w.log ≡ []) × (continued w.log ≡ reverse (owed w.log))
  refusal_undoes_stops s o w e h =
      subst (λ (r : TreeKillOutcome × Recorded S). UndoneIfRefused r.0 r.1.log) e
        (execute-Ends host ops guard root scope mode protected_names platform authorization
          InBalance UndoneIfRefused undone_rule s)
        h

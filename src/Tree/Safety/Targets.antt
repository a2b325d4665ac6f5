-- ===== src/Tree/Safety/Targets.antt =====
-- No signal of any kind goes to a PID that src/process.rs calls unsafe.
use kickoutchi.Prelude.{ℕ, ◌≡◌, none, List, [], ◌∷◌, All, All-append}
use kickoutchi.Prelude.Text.{Text}
use kickoutchi.Model.{Platform}
use kickoutchi.Process.{Host, KillMode, kill_mode_eq, KillTarget, unsafe_pid_reason}
use kickoutchi.Tree.{ScopeAuthorization, TreeProcessOps, KillCancellationGuard}
use kickoutchi.Tree.Frozen.{FrozenNode, SweepScope}
use kickoutchi.Tree.Execute.{execute_freeze_kill}
use kickoutchi.Tree.Record.{stop_sent, recording, guarding, fresh}
use kickoutchi.Tree.Safety.Rule.{Invariant, SweepRule}
use kickoutchi.Tree.Safety.Stages.{PipelineRule}
use kickoutchi.Tree.Safety.Pipeline.{execute-Ends}
use kickoutchi.Tree.Safety.Aim.{
  target, Aimed, Members, aim, Aimed-signal_tree, Aimed-refuse_after_thaw, keys-All,
}

abbrev IsSafe : Host → ℕ → Type 0
IsSafe host pid = unsafe_pid_reason host pid ≡ none

abbrev SafelyAimed : Host → Invariant
SafelyAimed host _ frozen log = Aimed (IsSafe host) log × Members (IsSafe host) frozen

SafelyAimed-rule : (host : Host) (scope : SweepScope) → SweepRule host scope (SafelyAimed host)
SafelyAimed-rule host scope =
    let safe = IsSafe host in
    record {
      refuses = λ _ _ _ _ b. b;
      vanishes = λ frozen log pid u b. (aim safe log (stop_sent pid _) u b.0, b.1);
      fails = λ frozen log pid m e o _ u b. (aim safe log (stop_sent pid _) u b.0, b.1);
      joins = λ frozen log member t m _ u b. (
        aim safe log (stop_sent member.pid _) u b.0,
        All-append (λ (n : FrozenNode). safe n.pid) frozen (_ ∷ []) b.1 (u, tt),
      );
      joins_failed = λ frozen log member m read e o _ _ u b. (
        aim safe log (stop_sent member.pid _) u b.0,
        All-append (λ (n : FrozenNode). safe n.pid) frozen (_ ∷ []) b.1 (u, tt),
      );
    }

module _ {S : Type 0} (host : Host) (ops : TreeProcessOps S) (guard : KillCancellationGuard S)
    (root : KillTarget) (scope : SweepScope) (mode : KillMode) (protected_names : List Text)
    (platform : Platform) (authorization : ScopeAuthorization) where
  safely_aimed_rule :
      PipelineRule host ops guard root scope mode protected_names platform authorization
        (SafelyAimed host)
        (λ _ log. Aimed (IsSafe host) log)
  safely_aimed_rule = record {
    sweeps = SafelyAimed-rule host scope;
    starts = (tt, tt);
    refreshes = λ frozen frozen' log e b. (b.0, keys-All (IsSafe host) frozen frozen' e b.1);
    ends_early = λ o log _ b. b.0;
    ends_refused = λ o frozen w _ b. Aimed-refuse_after_thaw (IsSafe host) ops o frozen w b.1 b.0;
    ends_completed =
        λ frozen _ w _ _ b. Aimed-signal_tree (IsSafe host) ops frozen scope mode w b.1 b.0;
  }

  -- Whatever the operations answer and however the run ends, no stop, continue or terminating
  -- signal is ever sent to a PID that is unsafe on this host: not a kernel or session-init PID,
  -- and not Kickoutchi's own.
  pub targets_are_safe :
      (s : S)
      → let r =
          execute_freeze_kill host
            (recording ops)
            (guarding guard)
            root
            scope
            mode
            protected_names
            platform
            authorization
            (fresh s) in
        All (λ signal. unsafe_pid_reason host (target signal) ≡ none) r.1.log
  targets_are_safe s =
      execute-Ends host ops guard root scope mode protected_names platform authorization
        (SafelyAimed host) (λ _ log. Aimed (IsSafe host) log) safely_aimed_rule s

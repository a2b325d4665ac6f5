-- ===== src/Tree/Safety/Rule.antt =====
-- One rule for invariants of the freeze sweep: a statement on the refusal, the frozen list and the
-- record of signals that each way to handle one member keeps, the whole sweep keeps.
use kickoutchi.Prelude.{
  ℕ, ◌≡◌, ◌<◌, Bool, true, false, Option, none, some, List, [], ◌∷◌, ◌++◌, length, ok, err,
}
use kickoutchi.Observation.{ProcessStartMarker}
use kickoutchi.Process.{Host, unsafe_pid_reason}
use kickoutchi.Tree.{TreeStopError, TreeStopResult}
use kickoutchi.Tree.Outcome.{TreeKillOutcome, IsRefusal, Refuses}
use kickoutchi.Tree.Frozen.{FrozenNode, SweepScope, member_cap}
use kickoutchi.Tree.Sweep.{Sweep, SweepEnd}
use kickoutchi.Tree.Record.{Signal, stop_sent, Recorded}

abbrev pub Invariant : Type 1
Invariant = Option TreeKillOutcome → List FrozenNode → List Signal → Type 0

abbrev pub joined : FrozenNode → Option ProcessStartMarker → Bool → FrozenNode
joined member marker resume = record member {
  rollback_start_time_marker = marker;
  resume_on_cleanup = resume;
}

-- The ways to handle one member. A stop is sent only to a safe PID, and a member joins
-- only below the cap.
pub record SweepRule (host : Host) (scope : SweepScope) (P : Invariant) : Type 0 where
  pub refuses :
      (frozen : List FrozenNode) (log : List Signal) (o : TreeKillOutcome)
      → IsRefusal o
      → P none frozen log
      → P (some o) frozen log
  pub vanishes :
      (frozen : List FrozenNode) (log : List Signal) (pid : ℕ)
      → unsafe_pid_reason host pid ≡ none
      → P none frozen log
      → P none frozen (log ++ stop_sent pid TreeStopResult.not_found ∷ [])
  pub fails :
      (frozen : List FrozenNode) (log : List Signal) (pid : ℕ) (m : Option ProcessStartMarker)
      (e : TreeStopError) (o : TreeKillOutcome)
      → IsRefusal o
      → unsafe_pid_reason host pid ≡ none
      → P none frozen log
      → P (some o) frozen (log ++ stop_sent pid (TreeStopResult.failed false m e) ∷ [])
  pub joins :
      (frozen : List FrozenNode) (log : List Signal) (member : FrozenNode) (transitioned : Bool)
      (m : Option ProcessStartMarker)
      → length frozen < member_cap scope
      → unsafe_pid_reason host member.pid ≡ none
      → P none frozen log
      → P none
          (frozen ++ joined member m transitioned ∷ [])
          (log ++ stop_sent member.pid (TreeStopResult.stopped transitioned) ∷ [])
  pub joins_failed :
      (frozen : List FrozenNode) (log : List Signal) (member : FrozenNode)
      (m read : Option ProcessStartMarker) (e : TreeStopError) (o : TreeKillOutcome)
      → IsRefusal o
      → length frozen < member_cap scope
      → unsafe_pid_reason host member.pid ≡ none
      → P none frozen log
      → P
          (some o)
          (frozen ++ joined member m true ∷ [])
          (log ++ stop_sent member.pid (TreeStopResult.failed true read e) ∷ [])

abbrev pub Holds : {S : Type 0} → Invariant → Sweep (Recorded S) → Type 0
Holds P w = P w.refusal w.frozen w.world.log

abbrev pub HoldsAtEnd : {S : Type 0} → Invariant → SweepEnd (Recorded S) → Type 0
HoldsAtEnd P w = elim w.result [
  | ok snapshot ↦ P none w.frozen w.world.log
  | err o ↦ P (some o) w.frozen w.world.log
]

-- Whatever the sweep answers with is a refusal.
abbrev pub OnlyRefusals : Invariant
OnlyRefusals r _ _ = Refuses r

pub OnlyRefusals-rule : (host : Host) (scope : SweepScope) → SweepRule host scope OnlyRefusals
OnlyRefusals-rule host scope = record {
  refuses = λ _ _ _ h _. h;
  vanishes = λ _ _ _ _ _. tt;
  fails = λ _ _ _ _ _ _ h _ _. h;
  joins = λ _ _ _ _ _ _ _ _. tt;
  joins_failed = λ _ _ _ _ _ _ _ h _ _ _. h;
}

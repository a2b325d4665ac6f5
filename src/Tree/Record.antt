-- ===== src/Tree/Record.antt =====
-- Operations that keep a record of the signals that they send, in the order they are sent: what
-- the fakes of src/tree/tests.rs do, over any other operations.
use kickoutchi.Prelude.{ℕ, true, false, List, [], ◌∷◌, ◌++◌, ◌≡◌, refl}
use mathlib.Core.List.{append_assoc}
use kickoutchi.Tree.{TreeProcessOps, KillCancellationGuard, TreeStopResult, TreeSignalResult}

pub data Signal : Type 0 where
  stop_sent : (pid : ℕ) (result : TreeStopResult) → Signal
  cont_sent : (pid : ℕ) → Signal
  kill_sent : (pid : ℕ) (result : TreeSignalResult) → Signal

pub record Recorded (S : Type 0) : Type 0 where
  pub inner : S
  pub log : List Signal

abbrev lifted : {S A : Type 0} → (S → A × S) → Recorded S → A × Recorded S
lifted f w = let (a, s) = f w.inner in (a, record w { inner = s })

abbrev logged : {S A : Type 0} → (A → Signal) → (S → A × S) → Recorded S → A × Recorded S
logged signal f w =
    let (a, s) = f w.inner in (a, record { inner = s; log = w.log ++ signal a ∷ [] })

abbrev pub recording : {S : Type 0} → TreeProcessOps S → TreeProcessOps (Recorded S)
recording ops = record {
  set_snapshot_scope = λ scope w. record w { inner = ops.set_snapshot_scope scope w.inner };
  snapshot = lifted ops.snapshot;
  pin_root_for_revalidation = λ pid. lifted (ops.pin_root_for_revalidation pid);
  stop = λ pid deadline. logged (stop_sent pid) (ops.stop pid deadline);
  stop_acknowledgement_now = lifted ops.stop_acknowledgement_now;
  rollback_identity_after_stop = λ pid marker. lifted (ops.rollback_identity_after_stop pid marker);
  cont = λ pid. logged (λ _. cont_sent pid) (ops.cont pid);
  prepare_thaw = λ pid marker w. record w { inner = ops.prepare_thaw pid marker w.inner };
  prepare_delivery = λ pid marker. lifted (ops.prepare_delivery pid marker);
  fresh_process_evidence = λ pid. lifted (ops.fresh_process_evidence pid);
  deliver = λ pid mode. logged (kill_sent pid) (ops.deliver pid mode);
}

abbrev pub guarding : {S : Type 0} → KillCancellationGuard S → KillCancellationGuard (Recorded S)
guarding guard = record { block = lifted guard.block; check = lifted guard.check }

abbrev pub fresh : {S : Type 0} → S → Recorded S
fresh s = record { inner = s; log = [] }

-- The PIDs that a signal makes Kickoutchi owe a continue.
abbrev pub owed_by : Signal → List ℕ
owed_by (stop_sent pid (TreeStopResult.stopped true)) = pid ∷ []
owed_by (stop_sent pid (TreeStopResult.stopped false)) = []
owed_by (stop_sent pid TreeStopResult.not_found) = []
owed_by (stop_sent pid (TreeStopResult.failed true _ _)) = pid ∷ []
owed_by (stop_sent pid (TreeStopResult.failed false _ _)) = []
owed_by (cont_sent pid) = []
owed_by (kill_sent pid _) = []

abbrev pub stopped_by : Signal → List ℕ
stopped_by (stop_sent pid (TreeStopResult.stopped _)) = pid ∷ []
stopped_by (stop_sent pid TreeStopResult.not_found) = []
stopped_by (stop_sent pid (TreeStopResult.failed _ _ _)) = []
stopped_by (cont_sent pid) = []
stopped_by (kill_sent pid _) = []

abbrev pub continued_by : Signal → List ℕ
continued_by (cont_sent pid) = pid ∷ []
continued_by (stop_sent pid _) = []
continued_by (kill_sent pid _) = []

abbrev pub killed_by : Signal → List ℕ
killed_by (kill_sent pid _) = pid ∷ []
killed_by (stop_sent pid _) = []
killed_by (cont_sent pid) = []

abbrev pub collect : (Signal → List ℕ) → List Signal → List ℕ
collect by [] = []
collect by (signal ∷ log) = by signal ++ collect by log

-- The PIDs whose stop Kickoutchi must undo, those that are stopped, those that it continued, and
-- those that it sent the terminating signal.
abbrev pub owed : List Signal → List ℕ
owed = collect owed_by

abbrev pub stops : List Signal → List ℕ
stops = collect stopped_by

abbrev pub continued : List Signal → List ℕ
continued = collect continued_by

abbrev pub killed : List Signal → List ℕ
killed = collect killed_by

pub collect-append :
    (by : Signal → List ℕ) (log more : List Signal)
    → collect by (log ++ more) ≡ collect by log ++ collect by more
collect-append by [] more = refl
collect-append by (signal ∷ log) more =
    rw (collect-append by log more, append_assoc (by signal) (collect by log) (collect by more))

pub owed-append : (log more : List Signal) → owed (log ++ more) ≡ owed log ++ owed more
owed-append = collect-append owed_by

pub stops-append : (log more : List Signal) → stops (log ++ more) ≡ stops log ++ stops more
stops-append = collect-append stopped_by

pub continued-append :
    (log more : List Signal) → continued (log ++ more) ≡ continued log ++ continued more
continued-append = collect-append continued_by

pub killed-append : (log more : List Signal) → killed (log ++ more) ≡ killed log ++ killed more
killed-append = collect-append killed_by

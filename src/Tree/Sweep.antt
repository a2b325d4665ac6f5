-- ===== src/Tree/Sweep.antt =====
-- src/tree/execute.rs: stopping members until a fresh snapshot shows no member that runs.
pub mod Settles
mod Tests
use kickoutchi.Prelude.{
  ℕ, suc, zero, Bool, true, false, not, Option, none, some, List, [], ◌∷◌, ◌++◌, if◌then◌else◌, leb,
  Result, ok, err, keep, length,
}
use kickoutchi.Observation.{ProcessStartMarker}
use kickoutchi.Process.{Host, unsafe_pid_reason}
use kickoutchi.Tree.{
  TreeProcessInfo, TreeProcessOps, KillCancellationGuard, TreeStopResult, stop_deadline_expired,
}
use kickoutchi.Tree.Index
use kickoutchi.Tree.Index.{
  ProcessTreeIndex, TreePlanError, root_missing, snapshot_limit_exceeded, process_tree_index_max,
}
use kickoutchi.Tree.Outcome.{
  TreeKillOutcome, truncated, sweep_pass_limit, unsafe_pid, partial_metadata, snapshot_failed,
  tree_stop_error_outcome, root_already_exited,
}
use kickoutchi.Tree.Frozen.{FrozenNode, SweepScope, member_cap, contains, unfrozen_members}

abbrev pub max_freeze_passes : ℕ
max_freeze_passes = 8

-- The variables of the sweep: `refusal` is an `Err` that was returned, and the lists are what the
-- `&mut` arguments then hold.
pub record Sweep (S : Type 0) : Type 0 where
  pub refusal : Option TreeKillOutcome
  pub frozen : List FrozenNode
  pub vanished : List ℕ
  pub discovered_in_pass : Bool
  pub world : S

abbrev pub drain_fuel : List TreeProcessInfo → ℕ
drain_fuel snapshot = suc (length snapshot)

-- Index construction resolves no root: that arm of the source is `unreachable!`.
abbrev pub index_error_outcome : TreePlanError → TreeKillOutcome
index_error_outcome (snapshot_limit_exceeded limit) = truncated limit
index_error_outcome root_missing = root_already_exited

abbrev pub refuse_with : {S : Type 0} → Sweep S → S → TreeKillOutcome → Sweep S
refuse_with w s outcome = record w { refusal = some outcome; world = s }

module _ {S : Type 0} (ops : TreeProcessOps S) where
  unfoldable pub stop_before_deadline : ℕ → ℕ → S → TreeStopResult × S
  stop_before_deadline pid deadline s =
      let (now, s') = ops.stop_acknowledgement_now s in
      if leb deadline now then (stop_deadline_expired, s') else ops.stop pid deadline s'

  -- `marker.or_else(|| ops.rollback_identity_after_stop(pid, prior))`.
  unfoldable pub rollback_or_read :
      Option ProcessStartMarker → ℕ → Option ProcessStartMarker → S → Option ProcessStartMarker × S
  rollback_or_read (some marker) pid prior s = (some marker, s)
  rollback_or_read none pid prior s = ops.rollback_identity_after_stop pid prior s

  -- The member joins the frozen list, with the rollback identity and the cleanup duty read now.
  unfoldable pub push_member :
      FrozenNode → Bool → Option ProcessStartMarker × S → Option TreeKillOutcome → Sweep S → Sweep S
  push_member member resume (marker, s) refusal w = record w {
    refusal = refusal;
    frozen =
        w.frozen
        ++ record member { rollback_start_time_marker = marker; resume_on_cleanup = resume } ∷ [];
    world = s;
  }

  unfoldable pub after_stop : FrozenNode → Sweep S → TreeStopResult → S → Sweep S
  unfolding push_member rollback_or_read
  after_stop member w (TreeStopResult.stopped transitioned) s =
      push_member member transitioned
        (ops.rollback_identity_after_stop member.pid member.start_time_marker s) none w
  after_stop member w TreeStopResult.not_found s = record w {
    vanished = member.pid ∷ w.vanished;
    world = s;
  }
  after_stop member w (TreeStopResult.failed false _ error) s =
      refuse_with w s (tree_stop_error_outcome member.pid error)
  after_stop member w (TreeStopResult.failed true marker error) s =
      push_member member true (rollback_or_read marker member.pid member.start_time_marker s)
        (some (tree_stop_error_outcome member.pid error)) w

module _ {S : Type 0} (host : Host) (ops : TreeProcessOps S) (guard : KillCancellationGuard S) where
  -- The gates of one member, after the cancellation check.
  unfoldable pub stop_member : ℕ → SweepScope → FrozenNode → Sweep S → S → Sweep S
  unfolding stop_before_deadline after_stop
  stop_member deadline scope member w s =
      if leb (member_cap scope) (length w.frozen)
      then refuse_with w s (truncated (member_cap scope))
      else elim (unsafe_pid_reason host member.pid) [
        | some reason ↦ refuse_with w s (unsafe_pid member.pid reason)
        | none ↦ elim member.start_time_marker [
          | none ↦ refuse_with w s (partial_metadata member.pid)
          | some _ ↦
              let (result, s') = stop_before_deadline ops member.pid deadline s in
              after_stop ops member w result s'
        ]
      ]

  unfoldable pub freeze_member : ℕ → SweepScope → FrozenNode → Sweep S → Sweep S
  unfolding stop_member
  freeze_member deadline scope member w =
      let (checked, s) = guard.check w.world in
      elim checked [
        | err error ↦ refuse_with w s (snapshot_failed error)
        | ok _ ↦ stop_member deadline scope member w s
      ]

  unfoldable pub freeze_members : ℕ → SweepScope → List FrozenNode → Sweep S → Sweep S
  freeze_members deadline scope [] w = w
  freeze_members deadline scope (member ∷ rest) w =
      let w' = freeze_member deadline scope member w in
      let frozen_rest = freeze_members deadline scope rest w' in
      elim w'.refusal [ some _ ↦ w' | none ↦ frozen_rest ]

  -- The inner `loop`, on fuel: one round for each row of the snapshot at most, and the last.
  unfoldable pub drain :
      ℕ → ℕ → SweepScope → List TreeProcessInfo → ProcessTreeIndex → Sweep S → Sweep S
  drain zero deadline scope snapshot index w = w
  drain (suc fuel) deadline scope snapshot index w =
      elim (keep (λ member. not (contains w.vanished member.pid))
        (unfrozen_members scope snapshot index w.frozen)) [
          | [] ↦ w
          | member ∷ rest ↦
              let w' =
                freeze_members deadline scope (member ∷ rest)
                  (record w { discovered_in_pass = true }) in
              elim w'.refusal [ some _ ↦ w' | none ↦ drain fuel deadline scope snapshot index w' ]
        ]

-- What `freeze_sweep` returns, with the frozen list that it leaves behind.
pub record SweepEnd (S : Type 0) : Type 0 where
  pub result : Result (List TreeProcessInfo) TreeKillOutcome
  pub frozen : List FrozenNode
  pub world : S

abbrev pub sweep_end :
    {S : Type 0} → Result (List TreeProcessInfo) TreeKillOutcome → List FrozenNode → S → SweepEnd S
sweep_end result frozen s = record { result = result; frozen = frozen; world = s }

module _ {S : Type 0} (host : Host) (ops : TreeProcessOps S) (guard : KillCancellationGuard S) where
  -- One pass over an indexed snapshot, from an empty `vanished`.
  unfoldable pub run_pass :
      ℕ → SweepScope → List TreeProcessInfo → ProcessTreeIndex → List FrozenNode → S → Sweep S
  run_pass deadline scope snapshot index frozen s =
      drain host ops guard (drain_fuel snapshot) deadline scope snapshot index (record {
        refusal = none;
        frozen = frozen;
        vanished = [];
        discovered_in_pass = false;
        world = s;
      })

  -- The passes that are left.
  unfoldable pub sweep_passes : ℕ → ℕ → SweepScope → List FrozenNode → S → SweepEnd S
  sweep_passes zero deadline scope frozen s =
      sweep_end (err (sweep_pass_limit max_freeze_passes)) frozen s
  sweep_passes (suc passes) deadline scope frozen s =
      let (checked, s₁) = guard.check s in
      elim checked [
        | err error ↦ sweep_end (err (snapshot_failed error)) frozen s₁
        | ok _ ↦
            let (read, s₂) = ops.snapshot s₁ in
            elim read [
              | err error ↦ sweep_end (err (snapshot_failed error)) frozen s₂
              | ok snapshot ↦ elim (Index.new snapshot process_tree_index_max) [
                | err error ↦ sweep_end (err (index_error_outcome error)) frozen s₂
                | ok index ↦
                    let w = run_pass deadline scope snapshot index frozen s₂ in
                    elim w.refusal [
                      | some outcome ↦ sweep_end (err outcome) w.frozen w.world
                      | none ↦ elim w.discovered_in_pass [
                        | true ↦ sweep_passes passes deadline scope w.frozen w.world
                        | false ↦ sweep_end (ok snapshot) w.frozen w.world
                      ]
                    ]
              ]
            ]
      ]

  unfoldable pub freeze_sweep : ℕ → SweepScope → List FrozenNode → S → SweepEnd S
  unfolding sweep_passes
  freeze_sweep deadline scope frozen s = sweep_passes max_freeze_passes deadline scope frozen s

-- ===== src/Tree.antt =====
-- src/tree/mod.rs: the process rows, the signal results, and the injected process operations that
-- the tree and group pipelines drive.
pub mod Index
pub mod Outcome
pub mod Frozen
pub mod Sweep
pub mod Deliver
pub mod Policy
pub mod Plan
pub mod Verify
pub mod Execute
pub mod Record
pub mod Safety
pub mod Fixture
mod Tests
use kickoutchi.Prelude.{
  ℕ, Bool, true, false, Option, none, some, List, Result, ok, err, find, ◌==◌, nat_eq, PartialEq,
  derive_eq, map_err, ◌>>=◌,
}
use kickoutchi.Prelude.Text.{Text, codes}
use kickoutchi.Observation.{ProcessStartMarker}
use kickoutchi.ProcessEvidence.{FreshProcessEvidence, ProcessEvidenceError, missing, name_missing}
use kickoutchi.Process.{KillMode}

abbrev pub max_tree_processes : ℕ
max_tree_processes = 256

abbrev pub max_group_processes : ℕ
max_group_processes = 512

abbrev pub group_yes_skip_max_processes : ℕ
group_yes_skip_max_processes = 8

pub data ScopeAuthorization : Type 0 where
  typed_word_confirmed protected_root_and_word_confirmed skipped_all_clear : ScopeAuthorization

unfoldable pub protected_root_confirmed : ScopeAuthorization → Bool
protected_root_confirmed protected_root_and_word_confirmed = true
protected_root_confirmed typed_word_confirmed = false
protected_root_confirmed skipped_all_clear = false

unfoldable pub prompt_skipped : ScopeAuthorization → Bool
prompt_skipped skipped_all_clear = true
prompt_skipped typed_word_confirmed = false
prompt_skipped protected_root_and_word_confirmed = false

pub record TreeProcessInfo : Type 0 where
  pub pid : ℕ
  pub parent_pid : Option ℕ
  pub unverified_parent_pid : Option ℕ
  pub parent_process_name : Option Text
  pub process_name : Option Text
  pub executable_name : Option Text
  pub start_time_marker : Option ProcessStartMarker
  pub owner_uid : Option ℕ
  pub process_group : Option ℕ

pub data TreeSignalResult : Type 0 where
  delivered not_found denied : TreeSignalResult

pub data TreeStopError : Type 0 where
  permission_denied : TreeStopError
  observation_failed : Text → TreeStopError

pub data TreeStopResult : Type 0 where
  stopped : (transitioned : Bool) → TreeStopResult
  not_found : TreeStopResult
  failed :
      (cleanup_required : Bool) (rollback_start_time_marker : Option ProcessStartMarker)
      (error : TreeStopError)
      → TreeStopResult

abbrev pub stop_deadline_expired : TreeStopResult
stop_deadline_expired =
    failed false none
      (observation_failed (codes "the operation-wide SIGSTOP acknowledgement deadline expired"))

pub data TreeSnapshotScope : Type 0 where
  tree : (root_pid : ℕ) → TreeSnapshotScope
  group : (root_pid : ℕ) (pgid : ℕ) → TreeSnapshotScope

-- The trait `TreeProcessOps` over a state `S`, which `&mut self` changes. Times are nanoseconds.
pub record TreeProcessOps (S : Type 0) : Type 0 where
  pub set_snapshot_scope : TreeSnapshotScope → S → S
  pub snapshot : S → Result (List TreeProcessInfo) Text × S
  pub pin_root_for_revalidation : ℕ → S → TreeSignalResult × S
  pub stop : ℕ → ℕ → S → TreeStopResult × S
  pub stop_acknowledgement_now : S → ℕ × S
  pub rollback_identity_after_stop :
      ℕ → Option ProcessStartMarker → S → Option ProcessStartMarker × S
  pub cont : ℕ → S → TreeSignalResult × S
  pub prepare_thaw : ℕ → Option ProcessStartMarker → S → S
  pub prepare_delivery : ℕ → Option ProcessStartMarker → S → TreeSignalResult × S
  pub fresh_process_evidence : ℕ → S → Result FreshProcessEvidence ProcessEvidenceError × S
  pub deliver : ℕ → KillMode → S → TreeSignalResult × S

-- `KillCancellationGuard` of src/process/cancellation.rs, over the thread's signal mask.
pub record KillCancellationGuard (S : Type 0) : Type 0 where
  pub block : S → Result (Unit {0}) Text × S
  pub check : S → Result (Unit {0}) Text × S

-- What the default of `fresh_process_evidence` makes of a snapshot's row.
evidence_of_row : ℕ → TreeProcessInfo → Result FreshProcessEvidence ProcessEvidenceError
evidence_of_row pid info = elim info.start_time_marker [
  | none ↦ err (missing pid)
  | some marker ↦ elim info.process_name [
    | none ↦ err (name_missing pid)
    | some name ↦ ok (record {
      pid = pid;
      start_marker = marker;
      name = name;
      executable_name = info.executable_name;
    })
  ]
]

evidence_of_snapshot :
    ℕ → Result (List TreeProcessInfo) Text → Result FreshProcessEvidence ProcessEvidenceError
unfolding evidence_of_row
evidence_of_snapshot pid (err e) = err (missing pid)
evidence_of_snapshot pid (ok snapshot) = elim (find (λ info. info.pid == pid) snapshot) [
  | none ↦ err (missing pid)
  | some info ↦ evidence_of_row pid info
]

-- The trait's default: one more snapshot, searched for the PID.
unfoldable pub default_fresh_process_evidence :
    {S : Type 0}
    → (S → Result (List TreeProcessInfo) Text × S)
    → ℕ
    → S
    → Result FreshProcessEvidence ProcessEvidenceError × S
unfolding evidence_of_snapshot
default_fresh_process_evidence snapshot pid s =
    let (r, s') = snapshot s in (evidence_of_snapshot pid r, s')

-- ===== src/Tree/Outcome.antt =====
-- src/tree/execute.rs: the outcomes of a scoped kill and their exit classes.
use kickoutchi.Prelude.{ℕ, ◌≡◌, refl, Bool, true, false, Option, none, some, List}
use kickoutchi.Prelude.Text.{Text, codes}
use kickoutchi.Observation.{ProcessIdentity}
use kickoutchi.Process.{UnsafePidReason}
use kickoutchi.ProcessEvidence.{ProcessEvidenceError}
use kickoutchi.Tree.{TreeStopError, observation_failed}
use kickoutchi.Tree.Index.{TreePlanError, snapshot_limit_exceeded}

pub record TreeKillReport : Type 0 where
  pub total : ℕ
  pub delivered : ℕ
  pub delivered_identities : List ProcessIdentity
  pub already_exited : ℕ
  pub denied : List ℕ
  pub thaw_failed : List ℕ

pub data TreeKillOutcome : Type 0 where
  completed : TreeKillReport → TreeKillOutcome
  root_already_exited : TreeKillOutcome
  permission_denied target_changed : (pid : ℕ) → TreeKillOutcome
  truncated sweep_pass_limit : (limit : ℕ) → TreeKillOutcome
  unsafe_pid : (pid : ℕ) (reason : UnsafePidReason) → TreeKillOutcome
  protected_descendant protected_root : (pid : ℕ) (name : Option Text) → TreeKillOutcome
  fresh_confirmation_required : TreeKillOutcome
  ownership_unavailable partial_metadata : (pid : ℕ) → TreeKillOutcome
  snapshot_failed : Text → TreeKillOutcome
  thaw_failed : (pids : List ℕ) (cause : TreeKillOutcome) → TreeKillOutcome

pub data TreeRefusalClass : Type 0 where
  no_match permission_denied protected_needs_confirmation failure : TreeRefusalClass

unfoldable pub refusal_class : TreeKillOutcome → Option TreeRefusalClass
refusal_class (completed _) = none
refusal_class (thaw_failed _ _) = none
refusal_class root_already_exited = some TreeRefusalClass.no_match
refusal_class (TreeKillOutcome.permission_denied _) = some TreeRefusalClass.permission_denied
refusal_class (ownership_unavailable _) = some TreeRefusalClass.permission_denied
refusal_class (protected_descendant _ _) = some TreeRefusalClass.protected_needs_confirmation
refusal_class (protected_root _ _) = some TreeRefusalClass.protected_needs_confirmation
refusal_class (target_changed _) = some TreeRefusalClass.failure
refusal_class (truncated _) = some TreeRefusalClass.failure
refusal_class (sweep_pass_limit _) = some TreeRefusalClass.failure
refusal_class (unsafe_pid _ _) = some TreeRefusalClass.failure
refusal_class fresh_confirmation_required = some TreeRefusalClass.failure
refusal_class (partial_metadata _) = some TreeRefusalClass.failure
refusal_class (snapshot_failed _) = some TreeRefusalClass.failure

unfoldable pub tree_stop_error_outcome : ℕ → TreeStopError → TreeKillOutcome
tree_stop_error_outcome pid TreeStopError.permission_denied = TreeKillOutcome.permission_denied pid
tree_stop_error_outcome pid (observation_failed error) = snapshot_failed error

unfoldable pub evidence_tree_outcome : ProcessEvidenceError → TreeKillOutcome
evidence_tree_outcome (ProcessEvidenceError.permission_denied pid) =
    TreeKillOutcome.permission_denied pid
evidence_tree_outcome (ProcessEvidenceError.identity_changed pid) = target_changed pid
evidence_tree_outcome (ProcessEvidenceError.name_changed pid) = target_changed pid
evidence_tree_outcome (ProcessEvidenceError.missing pid) = target_changed pid
evidence_tree_outcome (ProcessEvidenceError.name_missing pid) = partial_metadata pid
evidence_tree_outcome (ProcessEvidenceError.name_oversized pid _) = partial_metadata pid
evidence_tree_outcome (ProcessEvidenceError.incomplete_scope _ _) =
    snapshot_failed (codes "fresh process evidence exceeded its bounded scope")
evidence_tree_outcome (ProcessEvidenceError.member_limit_exceeded _) =
    snapshot_failed (codes "fresh process evidence exceeded its bounded scope")
evidence_tree_outcome (ProcessEvidenceError.byte_limit_exceeded _) =
    snapshot_failed (codes "fresh process evidence exceeded its bounded scope")

unfoldable pub plan_error_outcome : TreePlanError → TreeKillOutcome
plan_error_outcome TreePlanError.root_missing = root_already_exited
plan_error_outcome (snapshot_limit_exceeded limit) = truncated limit

unfoldable pub is_completed : TreeKillOutcome → Bool
is_completed (completed _) = true
is_completed _ = false

-- An outcome that is no report of delivery.
abbrev pub IsRefusal : TreeKillOutcome → Type 0
IsRefusal o = is_completed o ≡ false

-- An outcome that is there is a refusal.
abbrev pub Refuses : Option TreeKillOutcome → Type 0
Refuses none = Unit
Refuses (some o) = IsRefusal o

pub tree_stop_error_outcome-IsRefusal :
    (pid : ℕ) (e : TreeStopError) → IsRefusal (tree_stop_error_outcome pid e)
unfolding tree_stop_error_outcome is_completed
tree_stop_error_outcome-IsRefusal pid TreeStopError.permission_denied = refl
tree_stop_error_outcome-IsRefusal pid (observation_failed e) = refl

pub evidence_tree_outcome-IsRefusal :
    (e : ProcessEvidenceError) → IsRefusal (evidence_tree_outcome e)
unfolding evidence_tree_outcome is_completed
evidence_tree_outcome-IsRefusal (ProcessEvidenceError.missing pid) = refl
evidence_tree_outcome-IsRefusal _ = refl

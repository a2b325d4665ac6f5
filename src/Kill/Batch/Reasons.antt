-- ===== src/Kill/Batch/Reasons.antt =====
-- The exit of a batch is a success exactly when its reasons are (src/cli/kill/batch.rs).
use kickoutchi.Prelude.{
  ◌≤◌, ◌≡◌, ◌↔◌, refl, ap, Bool, true, false, List, [], ◌∷◌, map, if◌then◌else◌, leb, arith, All,
  All-weaken,
}
use kickoutchi.Process.{TerminationOutcome}
use kickoutchi.Kill.Batch.{ExitReason, exit_reason_for_outcome}
use kickoutchi.Kill.Batch.Deliver.{TargetOutcome}
use kickoutchi.Kill.Batch.Run.{rank, max_from, aggregate_exit}

rank_zero : (reason : ExitReason) → rank reason ≡ 0 → reason ≡ ExitReason.success
unfolding rank
rank_zero ExitReason.success h = refl
rank_zero ExitReason.failure h = absurd (omega (arith, h))
rank_zero ExitReason.invalid_arguments h = absurd (omega (arith, h))
rank_zero ExitReason.no_match h = absurd (omega (arith, h))
rank_zero ExitReason.permission_denied h = absurd (omega (arith, h))
rank_zero ExitReason.kill_cancelled h = absurd (omega (arith, h))
rank_zero ExitReason.protected_needs_confirmation h = absurd (omega (arith, h))

picked_rank :
    (reason other : ExitReason) (later : Bool)
    → leb (rank reason) (rank other) ≡ later
    → (rank reason ≤ rank (if later then other else reason))
      × (rank other ≤ rank (if later then other else reason))
picked_rank reason other true e = (ground (arith, e), omega arith)
picked_rank reason other false e = (omega arith, ground (arith, e))

-- The rank of the result bounds the ranks of all reasons.
rank-max_from :
    (reason : ExitReason) (rest : List ExitReason)
    → All (λ r. rank r ≤ rank (max_from reason rest)) (reason ∷ rest)
unfolding max_from
rank-max_from reason [] = (omega arith, tt)
rank-max_from reason (other ∷ rest) =
    let picked = if leb (rank reason) (rank other) then other else reason in
    let (left, right) = picked_rank reason other (leb (rank reason) (rank other)) refl in
    let (most, others) = rank-max_from picked rest in
    (omega (arith, left, most), (omega (arith, right, most), others))

max_from_success :
    (reason : ExitReason) (rest : List ExitReason)
    → All (λ r. r ≡ ExitReason.success) (reason ∷ rest)
    → max_from reason rest ≡ ExitReason.success
unfolding max_from rank
max_from_success reason [] h = h.0
max_from_success reason (other ∷ rest) h =
    rw (h.0, h.1.0) (max_from_success ExitReason.success rest (refl, h.1.1))

bounded_rank :
    (reason other : ExitReason)
    → rank reason ≤ rank other
    → other ≡ ExitReason.success
    → rank reason ≡ 0
unfolding rank
bounded_rank reason other h e = let zero : rank other ≡ 0 = ap rank e in omega (arith, h, zero)

pub aggregate_exit_iff :
    (reasons : List ExitReason)
    → (aggregate_exit reasons ≡ ExitReason.success) ↔ All (λ r. r ≡ ExitReason.success) reasons
unfolding aggregate_exit
aggregate_exit_iff [] = (λ h. tt, λ h. refl)
aggregate_exit_iff (reason ∷ rest) = (
  λ h.
      All-weaken (λ r. rank r ≤ rank (max_from reason rest)) (λ r. r ≡ ExitReason.success)
        (reason ∷ rest) (λ r bound. rank_zero r (bounded_rank r (max_from reason rest) bound h))
        (rank-max_from reason rest),
  max_from_success reason rest,
)

success_outcome :
    (outcome : TerminationOutcome)
    → (exit_reason_for_outcome outcome ≡ ExitReason.success)
      ↔ (outcome ≡ TerminationOutcome.success)
unfolding exit_reason_for_outcome
success_outcome TerminationOutcome.success = (λ h. refl, λ h. refl)
success_outcome TerminationOutcome.permission_denied = (λ h. absurd cc, λ h. absurd cc)
success_outcome TerminationOutcome.ownership_unavailable = (λ h. absurd cc, λ h. absurd cc)
success_outcome TerminationOutcome.already_exited = (λ h. absurd cc, λ h. absurd cc)
success_outcome TerminationOutcome.cancelled = (λ h. absurd cc, λ h. absurd cc)
success_outcome TerminationOutcome.protected_process = (λ h. absurd cc, λ h. absurd cc)
success_outcome TerminationOutcome.target_changed = (λ h. absurd cc, λ h. absurd cc)
success_outcome (TerminationOutcome.unsafe_pid reason) = (λ h. absurd cc, λ h. absurd cc)
success_outcome (TerminationOutcome.unknown_failure text) = (λ h. absurd cc, λ h. absurd cc)
success_outcome (TerminationOutcome.thaw_failed pid prior) = (λ h. absurd cc, λ h. absurd cc)

pub all_success :
    (outcomes : List TargetOutcome)
    → All (λ r. r ≡ ExitReason.success) (map (λ o. exit_reason_for_outcome o.outcome) outcomes)
      ↔ All (λ o. o.outcome ≡ TerminationOutcome.success) outcomes
all_success [] = (λ h. h, λ h. h)
all_success (o ∷ outcomes) = (
  λ h. ((success_outcome o.outcome).0 h.0, (all_success outcomes).0 h.1),
  λ h. ((success_outcome o.outcome).1 h.0, (all_success outcomes).1 h.1),
)

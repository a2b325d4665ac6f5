-- ===== src/Process/Gates.antt =====
-- What the checks of src/process.rs let through just before the signal to one process.
use mathlib.Core.Path.{subst}
use kickoutchi.Prelude.{
  ℕ, ◌≡◌, ◌≤◌, refl, sym, ap, ◌∙◌, Bool, true, false, not, ◌&&◌, Option, none, some, List, arith,
  all, is_some_and, Bool-cases, Option-cases, Result-cases, inl, inr, ◌==◌, nat_eq, option_eq,
  option_beq_iff, Result, ok, err,
}
use kickoutchi.Prelude.Text.{Text, text_eq, byte_len}
use kickoutchi.Observation.{ProcessStartMarker, marker_eq}
use kickoutchi.Protection.{is_protected_by_names}
use kickoutchi.ProcessEvidence
use kickoutchi.ProcessEvidence.{
  ProcessEvidenceScope, FreshProcessEvidence, ProcessEvidenceError, observe, finish,
  protection_name_max_bytes,
}
use kickoutchi.ProcessEvidence.Bounds.{observe_accepts}
use kickoutchi.Process.{
  KillMode, KillMode-discrete, kill_mode_eq, KillTarget, ConfirmationRequirement,
  TerminationOutcome,
}
use kickoutchi.Process.Target.{PortEntryView, ProcessContext, from_entries, kill_target_has_port}
use kickoutchi.Process.Confirm.{
  confirmation_requirement, name_unchanged, marker_unchanged, target_still_matches_confirmation,
  confirmed_port_owner_unavailable, confirmed_rows, check_fresh, revalidate_confirmed_target,
  single_observation, expected_of, check_final_evidence,
}
use kickoutchi.Process.Stopped.{outcome_after_thaw, is_success, thaw, finish_stopped_termination}
use kickoutchi.Tree.{TreeSignalResult}
use kickoutchi.Tree.Deliver.{is_denied}

abbrev pub may_skip : Result (Option ConfirmationRequirement) TerminationOutcome → Bool
may_skip (ok none) = true
may_skip (ok (some _)) = false
may_skip (err _) = false

-- A confirmation is skipped exactly when it was asked to be and the process is not protected.
pub skips_unprotected :
    (protected : Bool) (mode : KillMode) (skip confirm_force_kill : Bool)
    → may_skip (confirmation_requirement protected mode skip confirm_force_kill)
      ≡ skip && not protected
unfolding confirmation_requirement
skips_unprotected protected mode skip confirm_force_kill = ground arith

matches_lem :
    (confirmed fresh : KillTarget)
    → target_still_matches_confirmation confirmed fresh
      ≡ (confirmed.pid == fresh.pid)
        && (name_unchanged confirmed.process_name fresh.process_name
            && (marker_unchanged confirmed.process_start_time_marker fresh.process_start_time_marker
                && all (kill_target_has_port fresh.ports) confirmed.ports))
unfolding target_still_matches_confirmation
matches_lem confirmed fresh = ground arith

same_marker :
    (confirmed fresh : Option ProcessStartMarker)
    → marker_unchanged confirmed fresh ≡ true
    → (marker : ProcessStartMarker) × (confirmed ≡ some marker) × (fresh ≡ some marker)
unfolding marker_unchanged
same_marker none fresh h = cc
same_marker (some marker) fresh h =
    (marker, refl, (option_beq_iff marker_eq fresh (some marker)).0 h)

checked_is_fresh :
    (confirmed read fresh : KillTarget)
    → check_fresh confirmed read ≡ ok fresh
    → (read ≡ fresh)
      × (target_still_matches_confirmation confirmed read ≡ true)
      × (read.protected && not confirmed.protected ≡ false)
checked_is_fresh confirmed read fresh h =
    elim (Bool-cases (target_still_matches_confirmation confirmed read)) [
      | inr e ↦ let bad = (rw e at h) in cc
      | inl e ↦ elim (Bool-cases (read.protected && not confirmed.protected)) [
        | inl p ↦ let bad = (rw (e, p) at h) in cc
        | inr p ↦ let made = (rw (e, p) at h) in (cc, e, p)
      ]
    ]

-- What a target that matches its confirmation shares with it.
abbrev pub Matches : KillTarget → KillTarget → Type 0
Matches confirmed fresh =
    (confirmed.pid ≡ fresh.pid)
    × (name_unchanged confirmed.process_name fresh.process_name ≡ true)
    × ((marker : ProcessStartMarker) × (confirmed.process_start_time_marker ≡ some marker)
        × (fresh.process_start_time_marker ≡ some marker))
    × (all (kill_target_has_port fresh.ports) confirmed.ports ≡ true)

pub target_still_matches_confirmation-Matches :
    (confirmed fresh : KillTarget)
    → target_still_matches_confirmation confirmed fresh ≡ true
    → Matches confirmed fresh
target_still_matches_confirmation-Matches confirmed fresh h =
    let tests = sym (matches_lem confirmed fresh) ∙ h in
    (
      ground (arith, tests),
      ground (arith, tests),
      same_marker confirmed.process_start_time_marker fresh.process_start_time_marker
          (ground (arith, tests)),
      ground (arith, tests),
    )

-- A target that is revalidated is unprotected or was confirmed as protected; it has the
-- confirmed PID, a start marker that is the confirmed one, the confirmed name where there was one,
-- and every confirmed port; and no row with a confirmed port has lost its owner.
pub revalidated_is_confirmed :
    (confirmed fresh : KillTarget) (entries : List PortEntryView) (context : Option ProcessContext)
    → revalidate_confirmed_target confirmed entries context ≡ ok fresh
    → (confirmed.pid ≡ fresh.pid)
      × (name_unchanged confirmed.process_name fresh.process_name ≡ true)
      × ((marker : ProcessStartMarker) × (confirmed.process_start_time_marker ≡ some marker)
          × (fresh.process_start_time_marker ≡ some marker))
      × (all (kill_target_has_port fresh.ports) confirmed.ports ≡ true)
      × (fresh.protected && not confirmed.protected ≡ false)
      × (confirmed_port_owner_unavailable confirmed entries ≡ false)
unfolding revalidate_confirmed_target
revalidated_is_confirmed confirmed fresh entries context h =
    elim (Bool-cases (confirmed_port_owner_unavailable confirmed entries)) [
      | inl e ↦ let bad = (rw (e, revalidate_confirmed_target) at h) in cc
      | inr e ↦
          elim (Option-cases
            (from_entries confirmed.pid (confirmed_rows confirmed entries) context)) [
              | inl f ↦ let bad = (rw (e, f, revalidate_confirmed_target) at h) in cc
              | inr (read, f) ↦
                  let checked : check_fresh confirmed read ≡ ok fresh =
                    (rw (e, f, revalidate_confirmed_target) at h) in
                  let (same, matched, unprotected) =
                    checked_is_fresh confirmed read fresh checked in
                  let shared =
                    subst (Matches confirmed) same
                      (target_still_matches_confirmation-Matches confirmed read matched) in
                  (
                    shared.0,
                    shared.1,
                    shared.2,
                    shared.3,
                    subst (λ (t : KillTarget). t.protected && not confirmed.protected ≡ false) same
                        unprotected,
                    e,
                  )
            ]
    ]

observed_alone :
    (target : KillTarget) (marker : ProcessStartMarker)
    (read : Result FreshProcessEvidence ProcessEvidenceError) (fresh : FreshProcessEvidence)
    → single_observation (expected_of target marker) read ≡ ok fresh
    → (scope : ProcessEvidenceScope) × ((observe scope (expected_of target marker) read).0
        ≡ ok fresh)
unfolding single_observation
observed_alone target marker read fresh h = elim (Result-cases (ProcessEvidence.new 1)) [
  | inr (error, e) ↦ let bad = (rw (e, single_observation) at h) in cc
  | inl (scope, e) ↦
      let seen = observe scope (expected_of target marker) read in
      elim (Result-cases seen.0) [
        | inr (error, f) ↦ let bad = (rw (e, f, single_observation) at h) in cc
        | inl (read_fresh, f) ↦ elim (Option-cases (finish seen.1)) [
          | inr (error, g) ↦ let bad = (rw (e, f, g, single_observation) at h) in cc
          | inl g ↦
              let made = (rw (e, f, g, single_observation) at h) in
              let same : read_fresh ≡ fresh = cc in (scope, f ∙ ap ok same)
        ]
      ]
]

-- When the final check of a target passes, it read evidence for the target's own PID and start
-- marker, under no other name than the confirmed one and within the size limit; and that process
-- is not protected under the names of now, unless the target was confirmed as protected.
pub final_check_is_fresh :
    (target : KillTarget) (protected_names : List Text)
    (read : Result FreshProcessEvidence ProcessEvidenceError)
    → check_final_evidence target protected_names read ≡ none
    → (fresh : FreshProcessEvidence) × (read ≡ ok fresh)
      × (fresh.pid ≡ target.pid)
      × (target.process_start_time_marker ≡ some fresh.start_marker)
      × (is_some_and target.process_name (λ name. not (name == fresh.name)) ≡ false)
      × (byte_len fresh.name ≤ protection_name_max_bytes)
      × (is_protected_by_names target.platform
              (some fresh.name)
              fresh.executable_name
              protected_names
            && not target.protected
          ≡ false)
unfolding check_final_evidence
final_check_is_fresh target protected_names read h =
    elim (Option-cases target.process_start_time_marker) [
      | inl e ↦ let bad = (rw (e, check_final_evidence) at h) in cc
      | inr (marker, e) ↦
          elim (Result-cases (single_observation (expected_of target marker) read)) [
            | inr (outcome, f) ↦ let bad = (rw (e, f, check_final_evidence) at h) in cc
            | inl (fresh, f) ↦
                let (scope, seen) = observed_alone target marker read fresh f in
                let a = observe_accepts scope (expected_of target marker) read fresh seen in
                let rest = (rw (e, f, check_final_evidence) at h) in
                (fresh, a.0, a.1, e ∙ ap some (sym a.2), a.6, a.3, ground (arith, rest))
          ]
    ]

-- A process that was stopped for its termination is always continued after a SIGTERM, whatever
-- its delivery answers; and the answer is a success only if the delivery was one.
pub sigterm_continues :
    {S : Type 0} (terminate : KillMode → S → TerminationOutcome × S)
    (continue_process : ℕ → Option ProcessStartMarker → S → TreeSignalResult × S) (pid : ℕ)
    (rollback_marker : Option ProcessStartMarker) (s : S)
    → let r =
        finish_stopped_termination terminate continue_process pid KillMode.terminate true
          rollback_marker s in
      let sent = terminate KillMode.terminate s in
      (r.1 ≡ (continue_process pid rollback_marker sent.1).1)
      × (is_success r.0 && not (is_success sent.0) ≡ false)
unfolding finish_stopped_termination thaw is_success outcome_after_thaw KillMode-discrete
sigterm_continues terminate continue_process pid rollback_marker s =
    let sent = terminate KillMode.terminate s in
    let thawed = continue_process pid rollback_marker sent.1 in
    elim (Bool-cases (is_success sent.0)) [
      | inl e ↦ elim (Bool-cases (is_denied thawed.0)) [
        | inl d ↦ rw (e, d) (refl, refl)
        | inr d ↦ rw (e, d) (refl, rw e refl)
      ]
      | inr e ↦ elim (Bool-cases (is_denied thawed.0)) [
        | inl d ↦ rw (e, d) (refl, refl)
        | inr d ↦ rw (e, d) (refl, rw e refl)
      ]
    ]

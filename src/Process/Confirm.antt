-- ===== src/Process/Confirm.antt =====
-- src/process.rs: what a confirmation needs, and the checks of a confirmed target just before the
-- signal.
use kickoutchi.Prelude.{
  Bool, true, false, not, ◌&&◌, Option, none, some, List, if◌then◌else◌, ◌==◌, nat_eq, option_eq,
  is_none, any, all, keep, Result, ok, err,
}
use kickoutchi.Prelude.Text.{Text, text_eq, codes}
use kickoutchi.Observation.{ProcessStartMarker, marker_eq}
use kickoutchi.Protection.{is_protected_by_names}
use kickoutchi.ProcessEvidence
use kickoutchi.ProcessEvidence.{
  ExpectedProcessEvidence, FreshProcessEvidence, ProcessEvidenceError, ProcessEvidenceScope,
  observe, finish,
}
use kickoutchi.Process.{
  KillMode, kill_mode_eq, KillTarget, ConfirmationRequirement, yes, force_word, TerminationOutcome,
  target_changed, ownership_unavailable, unknown_failure,
}
use kickoutchi.Process.Target.{
  PortEntryView, ProcessContext, port_of, kill_target_has_port, from_entries,
}

unfoldable pub confirmation_requirement :
    Bool → KillMode → Bool → Bool → Result (Option ConfirmationRequirement) TerminationOutcome
confirmation_requirement protected mode skip confirm_force_kill =
    if protected
    then if skip
      then err TerminationOutcome.protected_process
      else ok (some ConfirmationRequirement.protected_process)
    else if skip
    then ok none
    else if (mode == KillMode.force) && confirm_force_kill
    then ok (some force_word)
    else ok (some yes)

-- A confirmed name must be the fresh one; where none was confirmed, any will do.
unfoldable pub name_unchanged : Option Text → Option Text → Bool
name_unchanged none fresh = true
name_unchanged (some confirmed) fresh = fresh == some confirmed

unfoldable pub marker_unchanged : Option ProcessStartMarker → Option ProcessStartMarker → Bool
marker_unchanged none fresh = false
marker_unchanged (some confirmed) fresh = fresh == some confirmed

unfoldable pub target_still_matches_confirmation : KillTarget → KillTarget → Bool
unfolding name_unchanged marker_unchanged
target_still_matches_confirmation confirmed fresh =
    if not (confirmed.pid == fresh.pid)
    then false
    else if not (name_unchanged confirmed.process_name fresh.process_name)
    then false
    else if not
        (marker_unchanged confirmed.process_start_time_marker fresh.process_start_time_marker)
    then false
    else all (kill_target_has_port fresh.ports) confirmed.ports

unfoldable pub confirmed_port_owner_unavailable : KillTarget → List PortEntryView → Bool
confirmed_port_owner_unavailable confirmed entries =
    any (λ entry. is_none entry.pid && kill_target_has_port confirmed.ports (port_of entry)) entries

-- The rows that still carry a confirmed port of the confirmed process.
unfoldable pub confirmed_rows : KillTarget → List PortEntryView → List PortEntryView
confirmed_rows confirmed entries =
    keep (λ entry. kill_target_has_port confirmed.ports (port_of entry))
      (keep (λ entry. entry.pid == some confirmed.pid) entries)

abbrev pub check_fresh : KillTarget → KillTarget → Result KillTarget TerminationOutcome
check_fresh confirmed fresh =
    if not (target_still_matches_confirmation confirmed fresh)
    then err target_changed
    else if fresh.protected && not confirmed.protected
    then err TerminationOutcome.protected_process
    else ok fresh

-- No rows is the early return; `from_entries` then has only rows of the process.
unfoldable pub revalidate_confirmed_target :
    KillTarget → List PortEntryView → Option ProcessContext → Result KillTarget TerminationOutcome
revalidate_confirmed_target confirmed entries context =
    if confirmed_port_owner_unavailable confirmed entries
    then err ownership_unavailable
    else elim (from_entries confirmed.pid (confirmed_rows confirmed entries) context) [
      | none ↦ err target_changed
      | some fresh ↦ check_fresh confirmed fresh
    ]

abbrev incomplete_evidence : TerminationOutcome
incomplete_evidence =
    unknown_failure
      (codes "fresh bounded process identity/name evidence is incomplete; refusing termination")

unfoldable pub single_evidence_outcome : ProcessEvidenceError → TerminationOutcome
single_evidence_outcome (ProcessEvidenceError.permission_denied _) =
    TerminationOutcome.permission_denied
single_evidence_outcome (ProcessEvidenceError.identity_changed _) =
    unknown_failure
      (codes "fresh process identity or protection name changed; refusing termination")
single_evidence_outcome (ProcessEvidenceError.name_changed _) =
    unknown_failure
      (codes "fresh process identity or protection name changed; refusing termination")
single_evidence_outcome _ = incomplete_evidence

-- One observation in a scope of its own, and the end of that scope.
unfoldable pub single_observation :
    ExpectedProcessEvidence
    → Result FreshProcessEvidence ProcessEvidenceError
    → Result FreshProcessEvidence TerminationOutcome
unfolding single_evidence_outcome
single_observation expected read = elim (ProcessEvidence.new 1) [
  | err error ↦ err (single_evidence_outcome error)
  | ok scope ↦
      let (seen, scope') = observe scope expected read in
      elim seen [
        | err error ↦ err (single_evidence_outcome error)
        | ok fresh ↦ elim (finish scope') [
          | some error ↦ err (single_evidence_outcome error)
          | none ↦ ok fresh
        ]
      ]
]

abbrev pub expected_of : KillTarget → ProcessStartMarker → ExpectedProcessEvidence
expected_of target marker = record {
  pid = target.pid;
  start_marker = marker;
  name = target.process_name;
}

-- `validate_single_delivery_evidence`, the `Err` as the outcome.
unfoldable pub validate_single_delivery_evidence :
    KillTarget → KillTarget → Option TerminationOutcome
validate_single_delivery_evidence confirmed fresh = elim confirmed.process_start_time_marker [
  | none ↦ some target_changed
  | some expected_marker ↦ elim fresh.process_start_time_marker [
    | none ↦ some target_changed
    | some fresh_marker ↦ elim fresh.process_name [
      | none ↦
          some
            (unknown_failure (codes "fresh process name evidence is missing; refusing termination"))
      | some fresh_name ↦
          elim (single_observation (expected_of confirmed expected_marker) (
            ok (record {
              pid = fresh.pid;
              start_marker = fresh_marker;
              name = fresh_name;
              executable_name = none;
            }))) [ err outcome ↦ some outcome | ok _ ↦ none ]
    ]
  ]
]

-- `check_final_evidence`, likewise.
unfoldable pub check_final_evidence :
    KillTarget
    → List Text
    → Result FreshProcessEvidence ProcessEvidenceError
    → Option TerminationOutcome
check_final_evidence target protected_names read = elim target.process_start_time_marker [
  | none ↦ some target_changed
  | some marker ↦ elim (single_observation (expected_of target marker) read) [
    | err outcome ↦ some outcome
    | ok fresh ↦
        if is_protected_by_names target.platform (some fresh.name) fresh.executable_name
            protected_names
          && not target.protected
        then some TerminationOutcome.protected_process
        else none
  ]
]

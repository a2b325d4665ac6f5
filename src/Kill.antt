-- ===== src/Kill.antt =====
-- src/cli/kill.rs: which process a selector names, and the check of that choice before the signal.
use kickoutchi.Prelude.{
  ℕ, Bool, true, false, not, ◌&&◌, ◌||◌, Option, none, some, List, [], ◌∷◌, ◌++◌, map,
  if◌then◌else◌, any, keep, sort_by, leb, ◌==◌, nat_eq, option_eq, is_none, Result, ok, err,
}
use kickoutchi.Prelude.Text.{Text, codes}
use kickoutchi.Protection.{is_protected_by_names}
use kickoutchi.Process.{
  Host, UnsafePidReason, unsafe_pid_reason, KillTarget, TerminationOutcome, target_changed,
  ownership_unavailable, unknown_failure,
}
use kickoutchi.Process.Target.{PortEntryView, ProcessContext, from_entries}
use kickoutchi.Process.Confirm.{
  confirmed_port_owner_unavailable, validate_single_delivery_evidence,
  target_still_matches_confirmation,
}
use kickoutchi.Collector.{
  CollectorError, read, platform, worker_exited, observation, ownership_permission_denied,
  is_ownership_permission_denied,
}
use kickoutchi.Collector.Rows.{observation_error_text}
pub mod Pids
pub mod Resolved
pub mod Holders
pub mod Total
pub mod Batch
mod Tests

pub data KillSelector : Type 0 where
  pid port : ℕ → KillSelector

unfoldable pub selector_pid : KillSelector → Option ℕ
selector_pid (pid target) = some target
selector_pid (port target) = none

unfoldable pub selector_port : KillSelector → Option ℕ
selector_port (pid target) = none
selector_port (port target) = some target

-- The labels of the candidates are only displayed.
pub data KillTargetError : Type 0 where
  no_match : KillTargetError
  missing_pid ambiguous_port : ℕ → KillTargetError
  unsafe_pid : UnsafePidReason → KillTargetError

-- `filter_map(|entry| entry.pid)`.
unfoldable pub entry_pids : List PortEntryView → List ℕ
entry_pids [] = []
entry_pids (entry ∷ rest) =
    let pids = entry_pids rest in elim entry.pid [ none ↦ pids | some owner ↦ owner ∷ pids ]

-- `Vec::dedup` of numbers.
unfoldable pub dedup_after : ℕ → List ℕ → List ℕ
dedup_after kept [] = []
dedup_after kept (x ∷ rest) =
    let same = dedup_after kept rest in
    let other = x ∷ dedup_after x rest in if x == kept then same else other

unfoldable pub dedup_pids : List ℕ → List ℕ
unfolding dedup_after
dedup_pids [] = []
dedup_pids (x ∷ rest) = x ∷ dedup_after x rest

unfoldable pub sole_pid :
    ℕ → List PortEntryView → List ℕ → Result (ℕ × List PortEntryView) KillTargetError
sole_pid target_port rows (owner ∷ []) = ok (owner, rows)
sole_pid target_port rows [] = err (ambiguous_port target_port)
sole_pid target_port rows (owner ∷ other ∷ rest) = err (ambiguous_port target_port)

unfoldable pub no_rows : List PortEntryView → Bool
no_rows [] = true
no_rows (entry ∷ rest) = false

unfoldable pub resolve_single_port_owner :
    ℕ → List PortEntryView → Result (ℕ × List PortEntryView) KillTargetError
unfolding entry_pids dedup_pids sole_pid no_rows
resolve_single_port_owner target_port entries =
    let rows = keep (λ entry. entry.local_port == target_port) entries in
    if no_rows rows
    then err no_match
    else if any (λ entry. is_none entry.pid) rows
    then err (missing_pid target_port)
    else sole_pid target_port rows (dedup_pids (sort_by leb (entry_pids rows)))

-- `KillTarget::from_entries`, where `none` is a panic.
abbrev pub built : Option KillTarget → Option (Result KillTarget KillTargetError)
built none = none
built (some target) = some (ok target)

module _ (host : Host) (context : ℕ → ProcessContext) where
  unfoldable pub resolve_pid_target :
      ℕ → List PortEntryView → Option (Result KillTarget KillTargetError)
  resolve_pid_target target entries = elim (unsafe_pid_reason host target) [
    | some reason ↦ some (err (unsafe_pid reason))
    | none ↦
        let rows = keep (λ entry. entry.pid == some target) entries in
        if no_rows rows
        then some (err no_match)
        else built (from_entries target rows (some (context target)))
  ]

  unfoldable pub resolve_port_target :
      ℕ → List PortEntryView → Option (Result KillTarget KillTargetError)
  resolve_port_target target_port entries = elim (resolve_single_port_owner target_port entries) [
    | err error ↦ some (err error)
    | ok (owner, rows) ↦ elim (unsafe_pid_reason host owner) [
      | some reason ↦ some (err (unsafe_pid reason))
      | none ↦ built (from_entries owner rows (some (context owner)))
    ]
  ]

  unfoldable pub resolve_kill_target :
      KillSelector → List PortEntryView → Option (Result KillTarget KillTargetError)
  unfolding resolve_pid_target resolve_port_target
  resolve_kill_target (pid target) entries = resolve_pid_target target entries
  resolve_kill_target (port target_port) entries = resolve_port_target target_port entries

-- `mark_protected` of src/protection.rs.
unfoldable pub mark_entry : List Text → PortEntryView → PortEntryView
mark_entry names entry = record entry {
  protected =
      entry.protected
      || is_protected_by_names entry.platform entry.process_name entry.executable_name names;
}

unfoldable pub mark_protected : List Text → List PortEntryView → List PortEntryView
unfolding mark_entry
mark_protected names entries = map (mark_entry names) entries

-- The text of a collector error.
unfoldable pub error_text : CollectorError → Text
unfolding observation_error_text
error_text (read path source) = codes "cannot read " ++ path ++ codes ": " ++ source
error_text (platform operation detail) = operation ++ codes " failed: " ++ detail
error_text worker_exited = codes "refresh worker exited before returning a snapshot"
error_text (observation error) = observation_error_text error
error_text ownership_permission_denied =
    codes "permission denied while verifying complete endpoint ownership"

unfoldable pub collection_outcome : CollectorError → TerminationOutcome
unfolding error_text
collection_outcome error =
    if is_ownership_permission_denied error
    then ownership_unavailable
    else unknown_failure (codes "collecting ports before kill failed: " ++ error_text error)

unfoldable pub resolution_outcome : KillTargetError → TerminationOutcome
resolution_outcome no_match = target_changed
resolution_outcome (missing_pid target_port) = ownership_unavailable
resolution_outcome (ambiguous_port target_port) = target_changed
resolution_outcome (unsafe_pid reason) = TerminationOutcome.unsafe_pid reason

-- The checks of the fresh target.
unfoldable pub check_fresh_target :
    Bool → KillTarget → KillTarget → Result KillTarget TerminationOutcome
check_fresh_target require_name confirmed fresh =
    elim (if require_name then validate_single_delivery_evidence confirmed fresh else none) [
      | some outcome ↦ err outcome
      | none ↦
          if not (target_still_matches_confirmation confirmed fresh)
          then err target_changed
          else if fresh.protected && not confirmed.protected
          then err TerminationOutcome.protected_process
          else ok fresh
    ]

unfoldable pub check_resolved :
    Bool
    → KillTarget
    → Option (Result KillTarget KillTargetError)
    → Option (Result KillTarget TerminationOutcome)
unfolding check_fresh_target resolution_outcome
check_resolved require_name confirmed none = none
check_resolved require_name confirmed (some (err error)) = some (err (resolution_outcome error))
check_resolved require_name confirmed (some (ok fresh)) =
    some (check_fresh_target require_name confirmed fresh)

module _ (host : Host) (context : ℕ → ProcessContext) where
  -- `none` is a panic of `KillTarget::from_entries`.
  unfoldable pub revalidate_cli_target_with :
      KillSelector
      → List Text
      → KillTarget
      → Result (List PortEntryView) CollectorError
      → Bool
      → Option (Result KillTarget TerminationOutcome)
  unfolding collection_outcome check_resolved
  revalidate_cli_target_with selector names confirmed (err error) require_name =
      some (err (collection_outcome error))
  revalidate_cli_target_with selector names confirmed (ok rows) require_name =
      let entries = mark_protected names rows in
      if confirmed_port_owner_unavailable confirmed entries
      then some (err ownership_unavailable)
      else check_resolved require_name confirmed (resolve_kill_target host context selector entries)

  unfoldable pub revalidate_single_cli_target :
      KillSelector
      → List Text
      → KillTarget
      → Result (List PortEntryView) CollectorError
      → Option (Result KillTarget TerminationOutcome)
  revalidate_single_cli_target selector names confirmed rows =
      revalidate_cli_target_with selector names confirmed rows true

-- ===== src/Kill/Resolved.antt =====
-- What a target that is chosen by port and checked again is (src/cli/kill.rs).
use mathlib.Core.Path.{subst}
use kickoutchi.Prelude.{
  ℕ, ◌≡◌, refl, sym, ap, Bool, true, false, not, ◌&&◌, Option, none, some, List, [], ◌∷◌,
  if◌then◌else◌, keep, ◌==◌, nat_eq, option_eq, arith, Result, ok, err,
}
use kickoutchi.Prelude.Text.{Text}
use kickoutchi.Process.{
  Host, UnsafePidReason, unsafe_pid_reason, KillTarget, TerminationOutcome, target_changed,
  ownership_unavailable,
}
use kickoutchi.Process.Target.{
  PortEntryView, ProcessContext, Facts, no_facts, add_entries, build_target, from_entries,
}
use kickoutchi.Process.Gates.{Matches, target_still_matches_confirmation-Matches}
use kickoutchi.Process.Confirm.{
  confirmed_port_owner_unavailable, validate_single_delivery_evidence,
  target_still_matches_confirmation,
}
use kickoutchi.Collector.{CollectorError}
use kickoutchi.Collector.Ports.{rows_of}
use kickoutchi.Kill.{
  KillSelector, KillTargetError, port, unsafe_pid, built, resolve_single_port_owner,
  resolve_port_target, resolve_kill_target, mark_protected, check_fresh_target, check_resolved,
  revalidate_cli_target_with, revalidate_single_cli_target,
}
use kickoutchi.Kill.Pids.{OwnedBy, resolve_single_port_owner-OwnedBy}

abbrev pid_or : ℕ → Option KillTarget → ℕ
pid_or pid none = pid
pid_or pid (some target) = target.pid

built-pid :
    (pid : ℕ) (context : Option ProcessContext) (facts : Option Facts) (target : KillTarget)
    → (elim facts [ none ↦ none | some found ↦ some (build_target pid found context) ])
      ≡ some target
    → target.pid ≡ pid
unfolding build_target
built-pid pid context none target h = absurd cc
built-pid pid context (some facts) target h = sym (ap (pid_or pid) h)

from_entries-pid :
    (pid : ℕ) (rows : List PortEntryView) (context : Option ProcessContext) (target : KillTarget)
    → from_entries pid rows context ≡ some target
    → target.pid ≡ pid
unfolding from_entries
from_entries-pid pid [] context target h = absurd cc
from_entries-pid pid (row ∷ rows) context target h =
    built-pid pid context (add_entries pid no_facts (row ∷ rows)) target h

built-ok :
    (o : Option KillTarget) (target : KillTarget) → built o ≡ some (ok target) → o ≡ some target
built-ok none target h = absurd cc
built-ok (some built_target) target h = ground (arith, h)

checked_target :
    (problem : Option TerminationOutcome) (changed protected : Bool) (fresh target : KillTarget)
    → (elim problem [
      | some outcome ↦ err outcome
      | none ↦
          if changed
          then err target_changed
          else if protected
          then err TerminationOutcome.protected_process
          else ok fresh
    ])
      ≡ ok target
    → fresh ≡ target
checked_target (some outcome) changed protected fresh target h = absurd cc
checked_target none true protected fresh target h = absurd cc
checked_target none false true fresh target h = absurd cc
checked_target none false false fresh target h = ground (arith, h)

unchanged_target :
    (problem : Option TerminationOutcome) (changed protected : Bool) (fresh target : KillTarget)
    → (elim problem [
      | some outcome ↦ err outcome
      | none ↦
          if changed
          then err target_changed
          else if protected
          then err TerminationOutcome.protected_process
          else ok fresh
    ])
      ≡ ok target
    → changed ≡ false
unchanged_target (some outcome) changed protected fresh target h = absurd cc
unchanged_target none true protected fresh target h = absurd cc
unchanged_target none false protected fresh target h = refl

check_resolved-Matches :
    (require_name : Bool) (confirmed target : KillTarget)
    (o : Option (Result KillTarget KillTargetError))
    → check_resolved require_name confirmed o ≡ some (ok target)
    → Matches confirmed target
unfolding check_resolved check_fresh_target
check_resolved-Matches require_name confirmed target none h = absurd cc
check_resolved-Matches require_name confirmed target (some (err error)) h = absurd cc
check_resolved-Matches require_name confirmed target (some (ok fresh)) h =
    let problem =
      if require_name then validate_single_delivery_evidence confirmed fresh else none in
    let changed = not (target_still_matches_confirmation confirmed fresh) in
    let protected = fresh.protected && not confirmed.protected in
    let checked : check_fresh_target require_name confirmed fresh ≡ ok target = ground (arith, h) in
    let same = checked_target problem changed protected fresh target checked in
    let kept = unchanged_target problem changed protected fresh target checked in
    subst (Matches confirmed) same
      (target_still_matches_confirmation-Matches confirmed fresh (ground (arith, kept)))

check_resolved-ok :
    (require_name : Bool) (confirmed target : KillTarget)
    (o : Option (Result KillTarget KillTargetError))
    → check_resolved require_name confirmed o ≡ some (ok target)
    → o ≡ some (ok target)
unfolding check_resolved check_fresh_target
check_resolved-ok require_name confirmed target none h = absurd cc
check_resolved-ok require_name confirmed target (some (err error)) h = absurd cc
check_resolved-ok require_name confirmed target (some (ok fresh)) h =
    ap (λ t. some (ok t))
      (checked_target
        (if require_name then validate_single_delivery_evidence confirmed fresh else none)
        (not (target_still_matches_confirmation confirmed fresh))
        (fresh.protected && not confirmed.protected) fresh target (ground (arith, h)))

module _ (host : Host) (context : ℕ → ProcessContext) where
  safe_owner :
      (owner : ℕ) (rows : List PortEntryView) (target : KillTarget)
      (reason : Option UnsafePidReason)
      → unsafe_pid_reason host owner ≡ reason
      → (elim reason [
        | some found ↦ some (err (unsafe_pid found))
        | none ↦ built (from_entries owner rows (some (context owner)))
      ])
        ≡ some (ok target)
      → (unsafe_pid_reason host owner ≡ none) × (target.pid ≡ owner)
  safe_owner owner rows target (some found) e h = absurd cc
  safe_owner owner rows target none e h = (
    e,
    from_entries-pid owner rows (some (context owner)) target
        (built-ok (from_entries owner rows (some (context owner))) target h),
  )

  resolved_owner :
      (n : ℕ) (entries : List PortEntryView) (target : KillTarget)
      (r : Result (ℕ × List PortEntryView) KillTargetError)
      → resolve_single_port_owner n entries ≡ r
      → (elim r [
        | err error ↦ some (err error)
        | ok (owner, rows) ↦ elim (unsafe_pid_reason host owner) [
          | some reason ↦ some (err (unsafe_pid reason))
          | none ↦ built (from_entries owner rows (some (context owner)))
        ]
      ])
        ≡ some (ok target)
      → (unsafe_pid_reason host target.pid ≡ none)
        × OwnedBy target.pid (keep (λ row. row.local_port == n) entries)
  resolved_owner n entries target (err error) e h = absurd cc
  resolved_owner n entries target (ok (owner, rows)) e h =
      let (safe, same) = safe_owner owner rows target (unsafe_pid_reason host owner) refl h in
      let owned = (resolve_single_port_owner-OwnedBy n owner entries rows e).1 in
      rw same (safe, owned)

  pub resolve_port_target-pid :
      (n : ℕ) (rows : List PortEntryView) (target : KillTarget)
      → resolve_kill_target host context (port n) rows ≡ some (ok target)
      → (unsafe_pid_reason host target.pid ≡ none)
        × OwnedBy target.pid (keep (λ row. row.local_port == n) rows)
  unfolding resolve_kill_target resolve_port_target
  resolve_port_target-pid n rows target h =
      resolved_owner n rows target (resolve_single_port_owner n rows) refl h

  available_target :
      (n : ℕ) (confirmed target : KillTarget) (entries : List PortEntryView) (unavailable : Bool)
      → (if unavailable
          then some (err ownership_unavailable)
          else check_resolved true confirmed (resolve_kill_target host context (port n) entries))
        ≡ some (ok target)
      → resolve_kill_target host context (port n) entries ≡ some (ok target)
  available_target n confirmed target entries true h = absurd cc
  available_target n confirmed target entries false h =
      check_resolved-ok true confirmed target (resolve_kill_target host context (port n) entries) h

  pub revalidated_target :
      (n : ℕ) (names : List Text) (confirmed target : KillTarget)
      (rows : Result (List PortEntryView) CollectorError)
      → revalidate_single_cli_target host context (port n) names confirmed rows ≡ some (ok target)
      → (entries : List PortEntryView) × (rows_of rows ≡ some entries)
        × (resolve_kill_target host context (port n) (mark_protected names entries)
            ≡ some (ok target))
  unfolding revalidate_single_cli_target revalidate_cli_target_with
  revalidated_target n names confirmed target (err error) h = absurd cc
  revalidated_target n names confirmed target (ok entries) h = (
    entries,
    refl,
    available_target n confirmed target (mark_protected names entries)
        (confirmed_port_owner_unavailable confirmed (mark_protected names entries)) h,
  )

  available_target-Matches :
      (selector : KillSelector) (confirmed target : KillTarget) (entries : List PortEntryView)
      (unavailable : Bool)
      → (if unavailable
          then some (err ownership_unavailable)
          else check_resolved true confirmed (resolve_kill_target host context selector entries))
        ≡ some (ok target)
      → Matches confirmed target
  available_target-Matches selector confirmed target entries true h = absurd cc
  available_target-Matches selector confirmed target entries false h =
      check_resolved-Matches true confirmed target
        (resolve_kill_target host context selector entries) h

  -- What is revalidated is the confirmed process.
  pub revalidate_single_cli_target-Matches :
      (selector : KillSelector) (names : List Text) (confirmed target : KillTarget)
      (rows : Result (List PortEntryView) CollectorError)
      → revalidate_single_cli_target host context selector names confirmed rows ≡ some (ok target)
      → Matches confirmed target
  unfolding revalidate_single_cli_target revalidate_cli_target_with
  revalidate_single_cli_target-Matches selector names confirmed target (err error) h = absurd cc
  revalidate_single_cli_target-Matches selector names confirmed target (ok rows) h =
      available_target-Matches selector confirmed target (mark_protected names rows)
        (confirmed_port_owner_unavailable confirmed (mark_protected names rows)) h

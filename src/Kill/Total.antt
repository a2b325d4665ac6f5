-- ===== src/Kill/Total.antt =====
-- The choice of a target and its check before the signal never panic (src/cli/kill.rs).
use kickoutchi.Prelude.{
  ℕ, ◌≡◌, refl, ap, ◌∙◌, Bool, true, false, Option, none, some, List, [], ◌∷◌, if◌then◌else◌, keep,
  keep_holds, ◌==◌, nat_eq, option_eq, is_none, arith, All, All-weaken, Result, ok, err,
}
use kickoutchi.Prelude.Text.{Text}
use kickoutchi.Process.{
  Host, UnsafePidReason, unsafe_pid_reason, KillTarget, TerminationOutcome, ownership_unavailable,
}
use kickoutchi.Process.Target.{
  PortEntryView, ProcessContext, Facts, no_facts, add_entry, add_entries, from_entries,
  build_target,
}
use kickoutchi.Process.Confirm.{confirmed_port_owner_unavailable}
use kickoutchi.Collector.{CollectorError}
use kickoutchi.Kill.{
  KillSelector, pid, port, KillTargetError, no_match, unsafe_pid, built, no_rows,
  resolve_single_port_owner, resolve_pid_target, resolve_port_target, resolve_kill_target,
  mark_protected, check_resolved, collection_outcome, revalidate_cli_target_with,
  revalidate_single_cli_target,
}
use kickoutchi.Kill.Pids.{
  OwnedBy, resolve_single_port_owner-OwnedBy, resolve_single_port_owner-no_rows,
}

abbrev Owned : ℕ → List PortEntryView → Type 0
Owned owner rows = All (λ entry. (entry.pid == some owner) ≡ true) rows

add_entries_total :
    (owner : ℕ) (facts : Facts) (rows : List PortEntryView)
    → Owned owner rows
    → is_none (add_entries owner facts rows) ≡ false
unfolding add_entries
add_entries_total owner facts [] h = refl
add_entries_total owner facts (row ∷ rows) h =
    rw (h.0, add_entries_total owner (add_entry owner facts row) rows h.1)

target_total :
    (owner : ℕ) (context : Option ProcessContext) (facts : Option Facts)
    → is_none facts ≡ false
    → is_none
        (built (elim facts [ none ↦ none | some found ↦ some (build_target owner found context) ]))
      ≡ false
target_total owner context none h = absurd cc
target_total owner context (some facts) h = refl

from_entries_total :
    (owner : ℕ) (rows : List PortEntryView) (context : Option ProcessContext)
    → no_rows rows ≡ false
    → Owned owner rows
    → is_none (built (from_entries owner rows context)) ≡ false
unfolding from_entries no_rows
from_entries_total owner [] context h k = absurd cc
from_entries_total owner (row ∷ rows) context h k =
    target_total owner context (add_entries owner no_facts (row ∷ rows))
      (add_entries_total owner no_facts (row ∷ rows) k)

OwnedBy-Owned : (owner : ℕ) (rows : List PortEntryView) → OwnedBy owner rows → Owned owner rows
OwnedBy-Owned owner rows h =
    All-weaken (λ entry. entry.pid ≡ some owner) (λ entry. (entry.pid == some owner) ≡ true) rows
      (λ entry e. rw e (ground arith)) h

check_resolved_total :
    (require_name : Bool) (confirmed : KillTarget) (o : Option (Result KillTarget KillTargetError))
    → is_none o ≡ false
    → is_none (check_resolved require_name confirmed o) ≡ false
unfolding check_resolved
check_resolved_total require_name confirmed none h = absurd cc
check_resolved_total require_name confirmed (some (err error)) h = refl
check_resolved_total require_name confirmed (some (ok fresh)) h = refl

pub given : {A : Type 0} → (o : Option A) → is_none o ≡ false → (a : A) × (o ≡ some a)
given none h = absurd cc
given (some a) h = (a, refl)

module _ (host : Host) (context : ℕ → ProcessContext) where
  pid_rows_total :
      (target : ℕ) (rows : List PortEntryView) (empty : Bool)
      → no_rows rows ≡ empty
      → Owned target rows
      → is_none (
          if empty
          then some (err no_match)
          else built (from_entries target rows (some (context target))))
        ≡ false
  pid_rows_total target rows true e h = refl
  pid_rows_total target rows false e h = from_entries_total target rows (some (context target)) e h

  pid_total :
      (target : ℕ) (entries : List PortEntryView) (reason : Option UnsafePidReason)
      → is_none (elim reason [
        | some found ↦ some (err (unsafe_pid found))
        | none ↦
            let rows = keep (λ entry. entry.pid == some target) entries in
            if no_rows rows
            then some (err no_match)
            else built (from_entries target rows (some (context target)))
      ])
        ≡ false
  pid_total target entries (some found) = refl
  pid_total target entries none =
      let rows = keep (λ entry. entry.pid == some target) entries in
      pid_rows_total target rows (no_rows rows) refl
        (keep_holds (λ entry. entry.pid == some target) entries)

  owner_total :
      (owner : ℕ) (rows : List PortEntryView) (reason : Option UnsafePidReason)
      → no_rows rows ≡ false
      → Owned owner rows
      → is_none (elim reason [
        | some found ↦ some (err (unsafe_pid found))
        | none ↦ built (from_entries owner rows (some (context owner)))
      ])
        ≡ false
  owner_total owner rows (some found) h k = refl
  owner_total owner rows none h k = from_entries_total owner rows (some (context owner)) h k

  port_total :
      (n : ℕ) (entries : List PortEntryView) (r : Result (ℕ × List PortEntryView) KillTargetError)
      → resolve_single_port_owner n entries ≡ r
      → is_none (elim r [
        | err error ↦ some (err error)
        | ok (owner, rows) ↦ elim (unsafe_pid_reason host owner) [
          | some reason ↦ some (err (unsafe_pid reason))
          | none ↦ built (from_entries owner rows (some (context owner)))
        ]
      ])
        ≡ false
  port_total n entries (err error) e = refl
  port_total n entries (ok (owner, rows)) e =
      let (same, owned) = resolve_single_port_owner-OwnedBy n owner entries rows e in
      let some_row = resolve_single_port_owner-no_rows n entries (owner, rows) e in
      owner_total owner rows (unsafe_pid_reason host owner) (ap no_rows same ∙ some_row)
        (rw same (OwnedBy-Owned owner (keep (λ entry. entry.local_port == n) entries) owned))

  pub resolve_kill_target_total :
      (selector : KillSelector) (entries : List PortEntryView)
      → is_none (resolve_kill_target host context selector entries) ≡ false
  unfolding resolve_kill_target resolve_pid_target resolve_port_target
  resolve_kill_target_total (pid target) entries =
      pid_total target entries (unsafe_pid_reason host target)
  resolve_kill_target_total (port n) entries =
      port_total n entries (resolve_single_port_owner n entries) refl

  available_total :
      (selector : KillSelector) (confirmed : KillTarget) (entries : List PortEntryView)
      (unavailable : Bool)
      → is_none (
          if unavailable
          then some (err ownership_unavailable)
          else check_resolved true confirmed (resolve_kill_target host context selector entries))
        ≡ false
  available_total selector confirmed entries true = refl
  available_total selector confirmed entries false =
      check_resolved_total true confirmed (resolve_kill_target host context selector entries)
        (resolve_kill_target_total selector entries)

  -- Whatever was confirmed and collected, the check of a selected target before the signal ends with
  -- a target or an outcome, without a panic.
  pub revalidate_single_cli_target_total :
      (selector : KillSelector) (names : List Text) (confirmed : KillTarget)
      (rows : Result (List PortEntryView) CollectorError)
      → (outcome : Result KillTarget TerminationOutcome) × (revalidate_single_cli_target host
            context selector names confirmed rows
          ≡ some outcome)
  unfolding revalidate_single_cli_target revalidate_cli_target_with
  revalidate_single_cli_target_total selector names confirmed (err error) =
      (err (collection_outcome error), refl)
  revalidate_single_cli_target_total selector names confirmed (ok rows) =
      let entries = mark_protected names rows in
      given
        (if confirmed_port_owner_unavailable confirmed entries
          then some (err ownership_unavailable)
          else check_resolved true confirmed (resolve_kill_target host context selector entries))
        (available_total selector confirmed entries
          (confirmed_port_owner_unavailable confirmed entries))

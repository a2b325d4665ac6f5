-- ===== src/Kill/Holders.antt =====
-- What a target that is chosen by port, and checked again before the signal, holds (src/cli/kill.rs).
use kickoutchi.Prelude.{
  ℕ, ◌≡◌, refl, sym, ◌∙◌, Bool, true, false, not, ◌&&◌, none, some, List, [], ◌∷◌, if◌then◌else◌,
  any, keep, ◌==◌, nat_eq, option_eq, arith, All, Some, All-Some, Result, ok, err,
}
use kickoutchi.Prelude.Text.{Text}
use kickoutchi.Observation.Sockets.{SocketObservation, NetworkSnapshot}
use kickoutchi.Process.{Host, unsafe_pid_reason, KillTarget}
use kickoutchi.Process.Target.{PortEntryView, ProcessContext}
use kickoutchi.Collector.{kill_ports_from_snapshot}
use kickoutchi.Collector.Ports.{
  holds_port, is_unattributed, port_authorized, rows_of, kill_ports_from_snapshot-port,
}
use kickoutchi.Collector.Rows.{ObservationError, project_legacy_target, derived_port_entries_max}
use kickoutchi.Collector.Owners.{held_only_by, all_rows_of, held_by_target, project_sockets_lem}
use kickoutchi.Kill.{port, mark_entry, mark_protected, revalidate_single_cli_target}
use kickoutchi.Kill.Pids.{OwnedBy}
use kickoutchi.Kill.Resolved.{resolve_port_target-pid, revalidated_target}

kept_row :
    (owner : ℕ) (on_port : Bool) (row : PortEntryView) (rest : List PortEntryView)
    → OwnedBy owner (if on_port then row ∷ rest else rest)
    → (on_port && not (row.pid == some owner) ≡ false) × OwnedBy owner rest
kept_row owner true row rest h = (rw h.0 (ground arith), h.1)
kept_row owner false row rest h = (refl, h)

-- Marking the protected rows changes neither their ports nor their processes.
marked_rows :
    (n owner : ℕ) (names : List Text) (rows : List PortEntryView)
    → OwnedBy owner (keep (λ row. row.local_port == n) (mark_protected names rows))
    → all_rows_of n owner rows ≡ true
unfolding mark_protected mark_entry
marked_rows n owner names [] h = refl
marked_rows n owner names (row ∷ rows) h =
    let (first, others) =
      kept_row owner (row.local_port == n) (mark_entry names row)
        (keep (λ row. row.local_port == n) (mark_protected names rows)) h in
    rw first (marked_rows n owner names rows others)

-- Rows that a kill receives come from an authorized snapshot.
authorized :
    (allowed : Bool) (rows : Result (List PortEntryView) ObservationError)
    (entries : List PortEntryView)
    → (if allowed then rows_of rows else none) ≡ some entries
    → (allowed ≡ true) × (rows ≡ ok entries)
authorized true (ok rows) entries h = (refl, ground (arith, h))
authorized true (err error) entries h = absurd cc
authorized false rows entries h = absurd cc

-- What no element does.
none_does :
    {A : Type 0} → (p : A → Bool) (xs : List A) → any p xs ≡ false → All (λ x. p x ≡ false) xs
none_does p [] h = tt
none_does p (x ∷ xs) h = (ground (arith, h), none_does p xs (ground (arith, h)))

-- If a kill by port, checked again with rows of a fresh snapshot, ends with a target, then the target's
-- PID is safe to signal, and each socket of the snapshot that holds the port has owners, all of them
-- verified and with the PID of the target.
pub revalidate_single_cli_target-held :
    (host : Host) (context : ℕ → ProcessContext) (n : ℕ) (names : List Text)
    (confirmed target : KillTarget) (s : NetworkSnapshot) (socket : SocketObservation)
    → revalidate_single_cli_target host context
        (port n)
        names
        confirmed
        (kill_ports_from_snapshot s none (some n))
      ≡ some (ok target)
    → Some (λ x. x ≡ socket) s.sockets
    → holds_port n socket ≡ true
    → (unsafe_pid_reason host target.pid ≡ none) × (held_only_by target.pid socket ≡ true)
unfolding project_legacy_target
revalidate_single_cli_target-held host context n names confirmed target s socket h member holds =
    let collected = kill_ports_from_snapshot s none (some n) in
    let (entries, given, resolved) =
      revalidated_target host context n names confirmed target collected h in
    let (allowed, projected) =
      authorized (port_authorized n s) (project_legacy_target s none (some n)) entries
        (sym (kill_ports_from_snapshot-port n s) ∙ given) in
    let (safe, owned) =
      resolve_port_target-pid host context n (mark_protected names entries) target resolved in
    let rows = marked_rows n target.pid names entries owned in
    let held =
      All-Some (λ x. held_by_target n target.pid x ≡ true) s.sockets socket
        (project_sockets_lem n target.pid derived_port_entries_max s s.sockets 0 entries projected
          rows)
        member in
    let clear : any (is_unattributed n) s.sockets ≡ false = ground (arith, allowed) in
    let attributed =
      All-Some (λ x. is_unattributed n x ≡ false) s.sockets socket
        (none_does (is_unattributed n) s.sockets clear) member in
    (safe, ground (arith, held, attributed, holds))

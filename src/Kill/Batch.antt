-- ===== src/Kill/Batch.antt =====
-- src/cli/kill/batch.rs: the plan of a kill of several targets. A refusal keeps the reason of the
-- exit, not its lines; the reads and the prompt are functions over a state `W`.
use kickoutchi.Prelude.{
  ℕ, Bool, true, false, not, ◌&&◌, ◌||◌, Option, none, some, List, [], ◌∷◌, ◌++◌, if◌then◌else◌,
  any, find, ltb, leb, ◌==◌, nat_eq, is_some_and, is_none, Result, ok, err, length,
}
use kickoutchi.Prelude.Text.{Text, codes, trim, eq_ignore_ascii_case}
use kickoutchi.Observation.Sockets.{SocketObservation, NetworkSnapshot}
use kickoutchi.Diagnostic.{is_listen, is_bound, is_empty}
use kickoutchi.Process.{
  Host, unsafe_pid_reason, KillMode, KillTarget, KillTargetPort, TerminationOutcome,
}
use kickoutchi.Process.Target.{PortEntryView, ProcessContext}
use kickoutchi.Process.Confirm.{confirmation_requirement}
use kickoutchi.Collector.{CollectorError, is_ownership_permission_denied, kill_ports_from_snapshot}
use kickoutchi.Collector.Rows.{ObservationError, project_legacy_target}
use kickoutchi.Settle.{SettleProbe}
use kickoutchi.Kill.{
  KillSelector, selector_port, KillTargetError, missing_pid, ambiguous_port,
  resolve_single_port_owner, resolve_kill_target, mark_protected,
}
pub mod Deliver
pub mod Run
pub mod Record
pub mod Sends
pub mod Justified
pub mod Safety
pub mod Once
pub mod Counted
pub mod Unique
pub mod Total
pub mod Reasons
pub mod Answers
pub mod Numbers
pub mod Exit
mod Tests

pub data ExitReason : Type 0 where
  success failure invalid_arguments no_match permission_denied kill_cancelled : ExitReason
  protected_needs_confirmation : ExitReason

unfoldable pub exit_reason_for_outcome : TerminationOutcome → ExitReason
exit_reason_for_outcome TerminationOutcome.success = ExitReason.success
exit_reason_for_outcome TerminationOutcome.permission_denied = ExitReason.permission_denied
exit_reason_for_outcome TerminationOutcome.ownership_unavailable = ExitReason.permission_denied
exit_reason_for_outcome TerminationOutcome.already_exited = ExitReason.no_match
exit_reason_for_outcome TerminationOutcome.target_changed = ExitReason.no_match
exit_reason_for_outcome TerminationOutcome.cancelled = ExitReason.kill_cancelled
exit_reason_for_outcome TerminationOutcome.protected_process =
    ExitReason.protected_needs_confirmation
exit_reason_for_outcome (TerminationOutcome.unsafe_pid reason) = ExitReason.failure
exit_reason_for_outcome (TerminationOutcome.unknown_failure text) = ExitReason.failure
exit_reason_for_outcome (TerminationOutcome.thaw_failed pid prior) = ExitReason.failure

unfoldable pub target_error_reason : KillTargetError → ExitReason
target_error_reason KillTargetError.no_match = ExitReason.no_match
target_error_reason (missing_pid port) = ExitReason.permission_denied
target_error_reason (ambiguous_port port) = ExitReason.failure
target_error_reason (KillTargetError.unsafe_pid reason) = ExitReason.failure

-- The flags of the command that a kill of one process reads.
pub record KillArgs : Type 0 where
  pub selector : KillSelector
  pub force : Bool
  pub skip : Bool

pub record Config : Type 0 where
  pub protected_processes : List Text
  pub confirm_force_kill : Bool

pub record Planned : Type 0 where
  pub args : KillArgs
  pub target : KillTarget
  pub extra_ports : List KillTargetPort

-- A read of contexts answers for one resolution, which asks for one process at most.
pub record BatchIo (H W : Type 0) : Type 0 where
  pub context : W → (ℕ → ProcessContext) × W
  pub prompt : W → Result Text Text × W
  pub fresh_snapshot : W → Result NetworkSnapshot CollectorError × W
  pub prepare : ℕ → W → Result H TerminationOutcome × W
  pub terminate : H → KillTarget → List Text → KillMode → W → TerminationOutcome × W
  pub settle : SettleProbe W

unfoldable pub hidden_port_owner : NetworkSnapshot → ℕ → Bool
hidden_port_owner s port =
    any
      (λ socket.
        (socket.local_endpoint.port == port)
        && ((is_listen socket.state || is_bound socket.state) && is_empty socket.owners))
      s.sockets

unfoldable pub denies_ownership : Result (List PortEntryView) CollectorError → Bool
denies_ownership (ok rows) = false
denies_ownership (err error) = is_ownership_permission_denied error

unfoldable pub unprovable_owner :
    Host → Bool → ℕ → NetworkSnapshot → Result (ℕ × List PortEntryView) KillTargetError → Bool
unfolding denies_ownership
unprovable_owner host skip port s (err error) = false
unprovable_owner host skip port s (ok (owner, rows)) =
    if not (is_none (unsafe_pid_reason host owner)) || (skip && any (λ row. row.protected) rows)
    then false
    else denies_ownership (kill_ports_from_snapshot s none (some port))

-- Whether there is an `unprovable_port_kill_message`.
unfoldable pub unprovable_port_kill :
    Host → KillArgs → ℕ → NetworkSnapshot → List PortEntryView → Bool
unfolding hidden_port_owner unprovable_owner
unprovable_port_kill host args port s entries =
    if hidden_port_owner s port
    then true
    else unprovable_owner host args.skip port s (resolve_single_port_owner port entries)

-- The variables of the loop over the targets.
pub record Planning (W : Type 0) : Type 0 where
  pub planned : List Planned
  pub refusals : List ExitReason
  pub world : W

-- `existing.extra_ports.extend` of the first with that PID.
unfoldable pub extend_ports : ℕ → List KillTargetPort → List Planned → List Planned
extend_ports pid ports [] = []
extend_ports pid ports (existing ∷ rest) =
    let later = extend_ports pid ports rest in
    if existing.target.pid == pid
    then (record existing { extra_ports = existing.extra_ports ++ ports }) ∷ rest
    else existing ∷ later

unfoldable pub add_target : KillArgs → KillTarget → List Planned → List Planned
unfolding extend_ports
add_target args target planned =
    if any (λ existing. existing.target.pid == target.pid) planned
    then extend_ports target.pid target.ports planned
    else planned ++ (record { args = args; target = target; extra_ports = [] }) ∷ []

module _ {W : Type 0} where
  unfoldable pub refuse : ExitReason → Planning W → Planning W
  refuse reason p = record p { refusals = p.refusals ++ reason ∷ [] }

  -- `none` is a panic.
  unfoldable pub plan_resolved :
      KillArgs → Option (Result KillTarget KillTargetError) → Planning W → Option (Planning W)
  unfolding refuse target_error_reason add_target
  plan_resolved args none p = none
  plan_resolved args (some (err error)) p = some (refuse (target_error_reason error) p)
  plan_resolved args (some (ok target)) p = some (
      if target.protected
      then refuse ExitReason.protected_needs_confirmation p
      else record p { planned = add_target args target p.planned })

  unfoldable pub plan_target :
      {H : Type 0}
      → BatchIo H W
      → Host
      → NetworkSnapshot
      → List PortEntryView
      → KillArgs
      → Planning W
      → Option (Planning W)
  unfolding plan_resolved refuse
  plan_target io host s entries args p =
      let (context, w) = io.context p.world in
      if is_some_and (selector_port args.selector)
        (λ port. unprovable_port_kill host args port s entries)
      then some (refuse ExitReason.permission_denied p)
      else plan_resolved args (resolve_kill_target host context args.selector entries)
          (record p { world = w })

  unfoldable pub plan_targets :
      {H : Type 0}
      → BatchIo H W
      → Host
      → NetworkSnapshot
      → List PortEntryView
      → List KillArgs
      → Planning W
      → Option (Planning W)
  plan_targets io host s entries [] p = some p
  plan_targets io host s entries (args ∷ rest) p = elim (plan_target io host s entries args p) [
    | none ↦ none
    | some q ↦ plan_targets io host s entries rest q
  ]

  unfoldable pub plan_rows :
      {H : Type 0}
      → BatchIo H W
      → Host
      → Config
      → NetworkSnapshot
      → List KillArgs
      → Result (List PortEntryView) ObservationError
      → W
      → Option (Planning W)
  unfolding plan_targets
  plan_rows io host config s targets (err error) w =
      some (record { planned = []; refusals = ExitReason.failure ∷ []; world = w })
  plan_rows io host config s targets (ok rows) w =
      plan_targets io host s (mark_protected config.protected_processes rows) targets
        (record { planned = []; refusals = []; world = w })

  -- The rows are those of `port_entry_descriptors`. The protection of such a row is that of the
  -- names of its process, which a row without a process does not have.
  unfoldable pub plan :
      {H : Type 0}
      → BatchIo H W
      → Host
      → Config
      → NetworkSnapshot
      → List KillArgs
      → W
      → Option (Planning W)
  unfolding plan_rows
  plan io host config s targets w =
      plan_rows io host config s targets (project_legacy_target s none none) w

-- ===== src/Kill/Batch/Run.antt =====
-- src/cli/kill/batch.rs: the confirmation of a batch and its run.
use kickoutchi.Prelude.{
  ℕ, Bool, false, ◌||◌, Option, none, some, List, [], ◌∷◌, ◌++◌, map, if◌then◌else◌, leb, keep,
  sort_by, Result, ok, err,
}
use kickoutchi.Prelude.Text.{Text, codes, trim, eq_ignore_ascii_case}
use kickoutchi.Observation.{ProcessIdentity}
use kickoutchi.Observation.Sockets.{NetworkSnapshot}
use kickoutchi.Process.{Host, KillMode, KillTargetPort, TerminationOutcome, ConfirmationRequirement}
use kickoutchi.Process.Target.{port_order, dedup}
use kickoutchi.Process.Confirm.{confirmation_requirement}
use kickoutchi.Process.Stopped.{is_success}
use kickoutchi.Settle.{SettleReport, settle}
use kickoutchi.Kill.Batch.{
  ExitReason, exit_reason_for_outcome, KillArgs, Config, Planned, BatchIo, Planning, plan,
}
use kickoutchi.Kill.Batch.Deliver.{TargetOutcome, Delivering, deliver}

-- `confirmation_input_matches`, for the words that a batch may ask for.
unfoldable pub is_yes : Text → Bool
is_yes input =
    eq_ignore_ascii_case (trim input) (codes "y") || eq_ignore_ascii_case (trim input) (codes "yes")

unfoldable pub is_force_word : Text → Bool
is_force_word input = eq_ignore_ascii_case (trim input) (codes "force")

unfoldable pub confirm_answer : (Text → Bool) → Result Text Text → Option ExitReason
confirm_answer accepts (ok answer) = if accepts answer then none else some ExitReason.kill_cancelled
confirm_answer accepts (err error) = some ExitReason.failure

unfoldable pub rank : ExitReason → ℕ
rank ExitReason.success = 0
rank ExitReason.kill_cancelled = 1
rank ExitReason.no_match = 2
rank ExitReason.protected_needs_confirmation = 3
rank ExitReason.permission_denied = 4
rank ExitReason.invalid_arguments = 5
rank ExitReason.failure = 6

unfoldable pub max_from : ExitReason → List ExitReason → ExitReason
unfolding rank
max_from reason [] = reason
max_from reason (other ∷ rest) =
    max_from (if leb (rank reason) (rank other) then other else reason) rest

unfoldable pub aggregate_exit : List ExitReason → ExitReason
unfolding max_from
aggregate_exit [] = ExitReason.success
aggregate_exit (reason ∷ rest) = max_from reason rest

-- The end of a run: its exit, the report of settling, and the state after the delivery.
pub record BatchEnd (W : Type 0) : Type 0 where
  pub exit : ExitReason
  pub settled : Option SettleReport
  pub world : W

unfoldable pub identity_of : TargetOutcome → List ProcessIdentity
identity_of delivered = elim delivered.target.process_start_time_marker [
  | none ↦ []
  | some marker ↦ (record { pid = delivered.target.pid; start_marker = marker }) ∷ []
]

unfoldable pub identities_of : List TargetOutcome → List ProcessIdentity
unfolding identity_of
identities_of [] = []
identities_of (delivered ∷ rest) = identity_of delivered ++ identities_of rest

unfoldable pub delivered_ports : List TargetOutcome → List KillTargetPort
delivered_ports [] = []
delivered_ports (delivered ∷ rest) =
    delivered.target.ports ++ (delivered.planned.extra_ports ++ delivered_ports rest)

unfoldable pub mode_of : KillArgs → KillMode
mode_of args = if args.force then KillMode.force else KillMode.terminate

unfoldable pub stopped : {W : Type 0} → ExitReason → W → Option (BatchEnd W)
stopped reason w = some (record { exit = reason; settled = none; world = w })

module _ {H W : Type 0} where
  -- `none` is an `unreachable!`.
  unfoldable pub confirm_requirement :
      BatchIo H W
      → Result (Option ConfirmationRequirement) TerminationOutcome
      → W
      → Option (Option ExitReason × W)
  unfolding confirm_answer
  confirm_requirement io (ok none) w = some (none, w)
  confirm_requirement io (ok (some ConfirmationRequirement.yes)) w =
      let (answer, w') = io.prompt w in some (confirm_answer is_yes answer, w')
  confirm_requirement io (ok (some ConfirmationRequirement.force_word)) w =
      let (answer, w') = io.prompt w in some (confirm_answer is_force_word answer, w')
  confirm_requirement io (ok (some ConfirmationRequirement.protected_process)) w = none
  confirm_requirement io (err outcome) w = none

  unfoldable pub confirm :
      BatchIo H W → List Planned → Config → KillMode → Bool → W → Option (Option ExitReason × W)
  unfolding confirm_requirement
  confirm io [] config mode skip w = some (none, w)
  confirm io (first ∷ rest) config mode skip w =
      confirm_requirement io (confirmation_requirement false mode skip config.confirm_force_kill) w

  unfoldable pub finish_batch :
      BatchIo H W → Option (Result (Delivering H W) (ExitReason × W)) → Option (BatchEnd W)
  unfolding stopped identities_of delivered_ports
  finish_batch io none = none
  finish_batch io (some (err (reason, w))) = stopped reason w
  finish_batch io (some (ok d)) =
      let delivered = keep (λ o. is_success o.outcome) d.outcomes in
      some (record {
        exit = aggregate_exit (map (λ o. exit_reason_for_outcome o.outcome) d.outcomes);
        settled = some (
            settle io.settle (identities_of delivered)
              (dedup (sort_by port_order (delivered_ports delivered))) d.world);
        world = d.world;
      })

  unfoldable pub run_confirmed :
      BatchIo H W
      → Host
      → Config
      → KillMode
      → List Planned
      → Option (Option ExitReason × W)
      → Option (BatchEnd W)
  unfolding stopped finish_batch
  run_confirmed io host config mode planned none = none
  run_confirmed io host config mode planned (some (some reason, w)) = stopped reason w
  run_confirmed io host config mode planned (some (none, w)) =
      finish_batch io (deliver io host config mode planned w)

  unfoldable pub run_planned :
      BatchIo H W → Host → Config → KillMode → Bool → Option (Planning W) → Option (BatchEnd W)
  unfolding run_confirmed stopped
  run_planned io host config mode skip none = none
  run_planned io host config mode skip (some p) = elim p.refusals [
    | [] ↦
        run_confirmed io host config mode p.planned (confirm io p.planned config mode skip p.world)
    | reason ∷ rest ↦ stopped (aggregate_exit (reason ∷ rest)) p.world
  ]

  unfoldable pub run_batch_kill_with :
      BatchIo H W → Host → Config → NetworkSnapshot → List KillArgs → W → Option (BatchEnd W)
  unfolding run_planned stopped
  run_batch_kill_with io host config s [] w = stopped ExitReason.invalid_arguments w
  run_batch_kill_with io host config s (first ∷ rest) w =
      run_planned io host config (mode_of first) first.skip (plan io host config s (first ∷ rest) w)

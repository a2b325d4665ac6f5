-- ===== src/Kill/Batch/Deliver.antt =====
-- src/cli/kill/batch.rs: the delivery of a batch.
-- A handle and an outcome stand beside the planned target that the index of the source names.
use kickoutchi.Prelude.{
  ℕ, ◌+◌, Option, none, some, List, [], ◌∷◌, ◌++◌, leb, sort_by, Result, ok, err,
}
use kickoutchi.Observation.Sockets.{NetworkSnapshot}
use kickoutchi.Process.{Host, KillMode, KillTarget, TerminationOutcome}
use kickoutchi.Process.Target.{ProcessContext}
use kickoutchi.Collector.{CollectorError, kill_ports_from_snapshot}
use kickoutchi.Kill.{selector_pid, selector_port, revalidate_single_cli_target}
use kickoutchi.Kill.Batch.{ExitReason, Config, Planned, BatchIo}

pub record TargetOutcome : Type 0 where
  pub index : ℕ
  pub planned : Planned
  pub target : KillTarget
  pub outcome : TerminationOutcome

pub record Retained (H : Type 0) : Type 0 where
  pub index : ℕ
  pub planned : Planned
  pub handle : H

-- The variables of `deliver`.
pub record Delivering (H W : Type 0) : Type 0 where
  pub outcomes : List TargetOutcome
  pub handles : List (Retained H)
  pub world : W

-- The target of a retained handle, checked against the fresh snapshot.
unfoldable pub revalidated :
    Host
    → (ℕ → ProcessContext)
    → Config
    → NetworkSnapshot
    → Planned
    → Option (Result KillTarget TerminationOutcome)
revalidated host context config fresh planned =
    revalidate_single_cli_target host context planned.args.selector config.protected_processes
      planned.target
      (kill_ports_from_snapshot fresh (selector_pid planned.args.selector)
        (selector_port planned.args.selector))

module _ {H W : Type 0} where
  -- A handle is retained, or the target has its outcome.
  unfoldable pub retain_handle :
      ℕ → Planned → Result H TerminationOutcome → Delivering H W → Delivering H W
  retain_handle index planned (ok handle) d = record d {
    handles = d.handles ++ (record { index = index; planned = planned; handle = handle }) ∷ [];
  }
  retain_handle index planned (err outcome) d = record d {
    outcomes =
        d.outcomes
        ++ (record { index = index; planned = planned; target = planned.target; outcome = outcome })
          ∷ [];
  }

  unfoldable pub prepare_all : BatchIo H W → ℕ → List Planned → Delivering H W → Delivering H W
  unfolding retain_handle
  prepare_all io index [] d = d
  prepare_all io index (planned ∷ rest) d =
      let (prepared, w) = io.prepare planned.target.pid d.world in
      prepare_all io (index + 1) rest
        (retain_handle index planned prepared (record d { world = w }))

  unfoldable pub push_outcome :
      Retained H → KillTarget → TerminationOutcome → Delivering H W → Delivering H W
  push_outcome retained target outcome d = record d {
    outcomes =
        d.outcomes
        ++ (record {
          index = retained.index;
          planned = retained.planned;
          target = target;
          outcome = outcome;
        })
          ∷ [];
  }

  unfoldable pub terminate_revalidated :
      BatchIo H W
      → Config
      → KillMode
      → Retained H
      → Option (Result KillTarget TerminationOutcome)
      → Delivering H W
      → Option (Delivering H W)
  unfolding push_outcome
  terminate_revalidated io config mode retained none d = none
  terminate_revalidated io config mode retained (some (err outcome)) d =
      some (push_outcome retained retained.planned.target outcome d)
  terminate_revalidated io config mode retained (some (ok target)) d =
      let (outcome, w) =
        io.terminate retained.handle target config.protected_processes mode d.world in
      some (push_outcome retained target outcome (record d { world = w }))

  unfoldable pub terminate_all :
      BatchIo H W
      → Host
      → Config
      → KillMode
      → NetworkSnapshot
      → List (Retained H)
      → Delivering H W
      → Option (Delivering H W)
  unfolding terminate_revalidated revalidated
  terminate_all io host config mode fresh [] d = some d
  terminate_all io host config mode fresh (retained ∷ rest) d =
      let (context, w) = io.context d.world in
      elim (terminate_revalidated io config mode retained
        (revalidated host context config fresh retained.planned) (record d { world = w })) [
          | none ↦ none
          | some next ↦ terminate_all io host config mode fresh rest next
        ]

  unfoldable pub deliver_against :
      BatchIo H W
      → Host
      → Config
      → KillMode
      → Result NetworkSnapshot CollectorError
      → Delivering H W
      → Option (Result (Delivering H W) (ExitReason × W))
  unfolding terminate_all
  deliver_against io host config mode (err error) d = some (err (ExitReason.failure, d.world))
  deliver_against io host config mode (ok fresh) d =
      elim (terminate_all io host config mode fresh d.handles d) [
        | none ↦ none
        | some done ↦
            some
              (ok (record done { outcomes = sort_by (λ a b. leb a.index b.index) done.outcomes }))
      ]

  unfoldable pub deliver :
      BatchIo H W
      → Host
      → Config
      → KillMode
      → List Planned
      → W
      → Option (Result (Delivering H W) (ExitReason × W))
  unfolding prepare_all deliver_against
  deliver io host config mode planned w =
      let retained = prepare_all io 0 planned (record { outcomes = []; handles = []; world = w }) in
      let (fresh, w') = io.fresh_snapshot retained.world in
      deliver_against io host config mode fresh (record retained { world = w' })

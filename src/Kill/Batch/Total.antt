-- ===== src/Kill/Batch/Total.antt =====
-- A batch of src/cli/kill/batch.rs reaches no panic and no `unreachable!`.
use kickoutchi.Prelude.{
  ℕ, ◌≡◌, refl, Bool, true, false, Option, none, some, List, [], ◌∷◌, ◌&&◌, ◌==◌, if◌then◌else◌,
  is_none, is_some_and, Result, ok, err, leb, sort_by,
}
use kickoutchi.Observation.Sockets.{NetworkSnapshot}
use kickoutchi.Process.{
  Host, KillMode, kill_mode_eq, KillTarget, TerminationOutcome, ConfirmationRequirement,
}
use kickoutchi.Process.Target.{PortEntryView, ProcessContext}
use kickoutchi.Process.Confirm.{confirmation_requirement}
use kickoutchi.Collector.{CollectorError, kill_ports_from_snapshot}
use kickoutchi.Collector.Rows.{ObservationError, project_legacy_target}
use kickoutchi.Kill.{
  KillTargetError, selector_pid, selector_port, resolve_kill_target, mark_protected,
}
use kickoutchi.Kill.Total.{given, resolve_kill_target_total, revalidate_single_cli_target_total}
use kickoutchi.Kill.Batch.Run.{
  BatchEnd, aggregate_exit, mode_of, confirm_requirement, confirm, stopped, finish_batch,
  run_confirmed, run_planned, run_batch_kill_with,
}
use kickoutchi.Kill.Batch.{
  ExitReason, KillArgs, Config, Planned, BatchIo, Planning, unprovable_port_kill, refuse,
  plan_resolved, plan_target, plan_targets, plan_rows, plan,
}
use kickoutchi.Kill.Batch.Deliver.{
  Retained, Delivering, prepare_all, terminate_revalidated, revalidated, terminate_all,
  deliver_against, deliver,
}

-- There is a result.
abbrev Returns : {A : Type 0} → Option A → Type 0
Returns o = is_none o ≡ false

next_runs :
    {A B : Type 0}
    → (f : A → Option B) → ((a : A) → Returns (f a))
    → (o : Option A) → Returns o
    → Returns (elim o [ none ↦ none | some a ↦ f a ])
next_runs f step none h = absurd cc
next_runs f step (some a) h = step a

module _ {H W : Type 0} (io : BatchIo H W) (host : Host) (config : Config) where
  plan_resolved_total :
      (args : KillArgs) (o : Option (Result KillTarget KillTargetError)) (p : Planning W)
      → Returns o
      → Returns (plan_resolved args o p)
  unfolding plan_resolved
  plan_resolved_total args none p h = absurd cc
  plan_resolved_total args (some (err error)) p h = refl
  plan_resolved_total args (some (ok target)) p h = refl

  plan_target_total :
      (s : NetworkSnapshot) (entries : List PortEntryView) (args : KillArgs) (p : Planning W)
      → Returns (plan_target io host s entries args p)
  unfolding plan_target
  plan_target_total s entries args p =
      let (context, w) = io.context p.world in
      elim (is_some_and (selector_port args.selector)
          (λ port. unprovable_port_kill host args port s entries))
        as (λ b. Returns (
          if b
          then some (refuse ExitReason.permission_denied p)
          else plan_resolved args (resolve_kill_target host context args.selector entries)
              (record p { world = w }))) [
                | true ↦ refl
                | false ↦
                    plan_resolved_total args
                      (resolve_kill_target host context args.selector entries)
                      (record p { world = w })
                      (resolve_kill_target_total host context args.selector entries)
              ]

  plan_targets_total :
      (s : NetworkSnapshot) (entries : List PortEntryView) (targets : List KillArgs)
      (p : Planning W)
      → Returns (plan_targets io host s entries targets p)
  unfolding plan_targets
  plan_targets_total s entries [] p = refl
  plan_targets_total s entries (args ∷ rest) p =
      next_runs (plan_targets io host s entries rest) (plan_targets_total s entries rest)
        (plan_target io host s entries args p) (plan_target_total s entries args p)

  plan_rows_total :
      (s : NetworkSnapshot) (targets : List KillArgs)
      (rows : Result (List PortEntryView) ObservationError) (w : W)
      → Returns (plan_rows io host config s targets rows w)
  unfolding plan_rows
  plan_rows_total s targets (err error) w = refl
  plan_rows_total s targets (ok rows) w =
      plan_targets_total s (mark_protected config.protected_processes rows) targets
        (record { planned = []; refusals = []; world = w })

  -- Only a protected target has another requirement, or is refused.
  confirm_total :
      (planned : List Planned) (mode : KillMode) (skip : Bool) (w : W)
      → Returns (confirm io planned config mode skip w)
  unfolding confirm confirm_requirement confirmation_requirement
  confirm_total [] mode skip w = refl
  confirm_total (first ∷ rest) mode true w = refl
  confirm_total (first ∷ rest) mode false w =
      elim ((mode == KillMode.force) && config.confirm_force_kill)
        as (λ b. Returns (
          confirm_requirement io
            (if b
              then ok (some ConfirmationRequirement.force_word)
              else ok (some ConfirmationRequirement.yes))
            w)) [ true ↦ refl | false ↦ refl ]

  terminate_revalidated_total :
      (mode : KillMode) (retained : Retained H) (o : Option (Result KillTarget TerminationOutcome))
      (d : Delivering H W)
      → Returns o
      → Returns (terminate_revalidated io config mode retained o d)
  unfolding terminate_revalidated
  terminate_revalidated_total mode retained none d h = absurd cc
  terminate_revalidated_total mode retained (some (err outcome)) d h = refl
  terminate_revalidated_total mode retained (some (ok target)) d h = refl

  revalidated_total :
      (context : ℕ → ProcessContext) (fresh : NetworkSnapshot) (planned : Planned)
      → Returns (revalidated host context config fresh planned)
  unfolding revalidated
  revalidated_total context fresh planned =
      let (outcome, e) =
        revalidate_single_cli_target_total host context planned.args.selector
          config.protected_processes planned.target
          (kill_ports_from_snapshot fresh (selector_pid planned.args.selector)
            (selector_port planned.args.selector)) in
      rw e refl

  terminate_all_total :
      (mode : KillMode) (fresh : NetworkSnapshot) (handles : List (Retained H)) (d : Delivering H W)
      → Returns (terminate_all io host config mode fresh handles d)
  unfolding terminate_all
  terminate_all_total mode fresh [] d = refl
  terminate_all_total mode fresh (retained ∷ rest) d =
      let (context, w) = io.context d.world in
      let moved : Delivering H W = record d { world = w } in
      let checked = revalidated host context config fresh retained.planned in
      next_runs (terminate_all io host config mode fresh rest) (terminate_all_total mode fresh rest)
        (terminate_revalidated io config mode retained checked moved)
        (terminate_revalidated_total mode retained checked moved
          (revalidated_total context fresh retained.planned))

  deliver_against_total :
      (mode : KillMode) (r : Result NetworkSnapshot CollectorError) (d : Delivering H W)
      → Returns (deliver_against io host config mode r d)
  unfolding deliver_against
  deliver_against_total mode (err error) d = refl
  deliver_against_total mode (ok fresh) d =
      next_runs {A = Delivering H W} {B = Result (Delivering H W) (ExitReason × W)}
        (λ done.
          some (ok (record done { outcomes = sort_by (λ a b. leb a.index b.index) done.outcomes })))
        (λ done. refl) (terminate_all io host config mode fresh d.handles d)
        (terminate_all_total mode fresh d.handles d)

  finish_total :
      (o : Option (Result (Delivering H W) (ExitReason × W)))
      → Returns o
      → Returns (finish_batch io o)
  unfolding finish_batch stopped
  finish_total none h = absurd cc
  finish_total (some (err (reason, w))) h = refl
  finish_total (some (ok d)) h = refl

  run_confirmed_total :
      (mode : KillMode) (planned : List Planned) (o : Option (Option ExitReason × W))
      → Returns o
      → Returns (run_confirmed io host config mode planned o)
  unfolding run_confirmed stopped deliver
  run_confirmed_total mode planned none h = absurd cc
  run_confirmed_total mode planned (some (some reason, w)) h = refl
  run_confirmed_total mode planned (some (none, w)) h =
      let retained = prepare_all io 0 planned (record { outcomes = []; handles = []; world = w }) in
      let (fresh, w') = io.fresh_snapshot retained.world in
      finish_total (deliver io host config mode planned w)
        (deliver_against_total mode fresh (record retained { world = w' }))

  run_planned_total :
      (mode : KillMode) (skip : Bool) (o : Option (Planning W))
      → Returns o
      → Returns (run_planned io host config mode skip o)
  unfolding run_planned stopped
  run_planned_total mode skip none h = absurd cc
  run_planned_total mode skip (some p) h =
      elim p.refusals
        as (λ refusals. Returns (elim refusals [
          | [] ↦
              run_confirmed io host config mode p.planned
                (confirm io p.planned config mode skip p.world)
          | reason ∷ rest ↦ stopped (aggregate_exit (reason ∷ rest)) p.world
        ])) [
          | [] ↦
              run_confirmed_total mode p.planned (confirm io p.planned config mode skip p.world)
                (confirm_total p.planned mode skip p.world)
          | reason ∷ rest ↦ refl
        ]

  run_total :
      (s : NetworkSnapshot) (targets : List KillArgs) (w : W)
      → Returns (run_batch_kill_with io host config s targets w)
  unfolding run_batch_kill_with stopped plan
  run_total s [] w = refl
  run_total s (first ∷ rest) w =
      run_planned_total (mode_of first) first.skip (plan io host config s (first ∷ rest) w)
        (plan_rows_total s (first ∷ rest) (project_legacy_target s none none) w)

  -- Whatever the reads answer, a batch ends, without a panic.
  pub run_batch_kill_total :
      (s : NetworkSnapshot) (targets : List KillArgs) (w : W)
      → (end : BatchEnd W) × (run_batch_kill_with io host config s targets w ≡ some end)
  run_batch_kill_total s targets w =
      given (run_batch_kill_with io host config s targets w) (run_total s targets w)

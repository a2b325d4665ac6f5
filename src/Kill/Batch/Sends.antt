-- ===== src/Kill/Batch/Sends.antt =====
-- What a batch of src/cli/kill/batch.rs has sent, stage by stage.
use mathlib.Core.Path.{subst}
use kickoutchi.Prelude.{
  ◌≡◌, refl, ◌∙◌, Bool, true, false, Option, none, some, List, [], ◌∷◌, if◌then◌else◌, Result, ok,
  err, is_some_and,
}
use kickoutchi.Observation.Sockets.{NetworkSnapshot}
use kickoutchi.Process.{Host, KillMode, KillTarget, TerminationOutcome, ConfirmationRequirement}
use kickoutchi.Process.Confirm.{confirmation_requirement}
use kickoutchi.Process.Target.{PortEntryView}
use kickoutchi.Collector.Rows.{ObservationError, project_legacy_target}
use kickoutchi.Kill.{KillTargetError, selector_port, resolve_kill_target, mark_protected}
use kickoutchi.Kill.Batch.Run.{confirm_requirement, confirm}
use kickoutchi.Kill.Batch.{
  ExitReason, add_target, KillArgs, Config, Planned, BatchIo, Planning, unprovable_port_kill,
  refuse, plan_resolved, plan_target, plan_targets, plan_rows, plan,
}
use kickoutchi.Kill.Batch.Record.{Recorded, recording}

-- What holds of a result, unless there is a panic.
abbrev pub Ends : {A : Type 0} → (A → Type 0) → Option A → Type 0
Ends P none = Unit
Ends P (some a) = P a

pub Ends-weaken :
    {A : Type 0} → (P Q : A → Type 0) (o : Option A) → ((a : A) → P a → Q a) → Ends P o → Ends Q o
Ends-weaken P Q none f h = tt
Ends-weaken P Q (some a) f h = f a h

pub Ends-some : {A : Type 0} → (P : A → Type 0) (o : Option A) (a : A) → Ends P o → o ≡ some a → P a
Ends-some P o a h e = subst (Ends P) e h

module _ {H W : Type 0} (io : BatchIo H W) (host : Host) (config : Config) where
  abbrev SameLog : Planning (Recorded W) → Planning (Recorded W) → Type 0
  SameLog p q = q.world.log ≡ p.world.log

  plan_resolved-log :
      (args : KillArgs) (o : Option (Result KillTarget KillTargetError)) (p : Planning (Recorded W))
      → Ends (SameLog p) (plan_resolved args o p)
  unfolding plan_resolved refuse
  plan_resolved-log args none p = tt
  plan_resolved-log args (some (err error)) p = refl
  plan_resolved-log args (some (ok target)) p =
      elim target.protected
        as (λ b.
          (if b
            then refuse ExitReason.protected_needs_confirmation p
            else record p { planned = add_target args target p.planned }).world.log
          ≡ p.world.log) [ true ↦ refl | false ↦ refl ]

  plan_target-log :
      (s : NetworkSnapshot) (entries : List PortEntryView) (args : KillArgs)
      (p : Planning (Recorded W))
      → Ends (SameLog p) (plan_target (recording io) host s entries args p)
  unfolding plan_target refuse
  plan_target-log s entries args p =
      let (context, w) = (recording io).context p.world in
      elim (is_some_and (selector_port args.selector)
          (λ port. unprovable_port_kill host args port s entries))
        as (λ b. Ends (SameLog p) (
          if b
          then some (refuse ExitReason.permission_denied p)
          else plan_resolved args (resolve_kill_target host context args.selector entries)
              (record p { world = w }))) [
                | true ↦ refl
                | false ↦
                    plan_resolved-log args (resolve_kill_target host context args.selector entries)
                      (record p { world = w })
              ]

  next_target-log :
      (s : NetworkSnapshot) (entries : List PortEntryView) (rest : List KillArgs)
      (p : Planning (Recorded W))
      → ((q : Planning (Recorded W))
          → Ends (SameLog q) (plan_targets (recording io) host s entries rest q))
      → (o : Option (Planning (Recorded W))) → Ends (SameLog p) o
      → Ends
          (SameLog p)
          (elim o [ none ↦ none | some q ↦ plan_targets (recording io) host s entries rest q ])
  next_target-log s entries rest p step none h = tt
  next_target-log s entries rest p step (some q) h =
      Ends-weaken (SameLog q) (SameLog p) (plan_targets (recording io) host s entries rest q)
        (λ r e. e ∙ h) (step q)

  plan_targets-log :
      (s : NetworkSnapshot) (entries : List PortEntryView) (targets : List KillArgs)
      (p : Planning (Recorded W))
      → Ends (SameLog p) (plan_targets (recording io) host s entries targets p)
  unfolding plan_targets
  plan_targets-log s entries [] p = refl
  plan_targets-log s entries (args ∷ rest) p =
      next_target-log s entries rest p (plan_targets-log s entries rest)
        (plan_target (recording io) host s entries args p) (plan_target-log s entries args p)

  plan_rows-log :
      (s : NetworkSnapshot) (targets : List KillArgs)
      (rows : Result (List PortEntryView) ObservationError) (w : Recorded W)
      → Ends (λ q. q.world.log ≡ w.log) (plan_rows (recording io) host config s targets rows w)
  unfolding plan_rows
  plan_rows-log s targets (err error) w = refl
  plan_rows-log s targets (ok rows) w =
      plan_targets-log s (mark_protected config.protected_processes rows) targets
        (record { planned = []; refusals = []; world = w })

  -- Planning sends nothing.
  pub plan-log :
      (s : NetworkSnapshot) (targets : List KillArgs) (w : Recorded W)
      → Ends (λ q. q.world.log ≡ w.log) (plan (recording io) host config s targets w)
  unfolding plan
  plan-log s targets w = plan_rows-log s targets (project_legacy_target s none none) w

  confirm_requirement-log :
      (r : Result (Option ConfirmationRequirement) TerminationOutcome) (w : Recorded W)
      → Ends (λ q. q.1.log ≡ w.log) (confirm_requirement (recording io) r w)
  unfolding confirm_requirement
  confirm_requirement-log (ok none) w = refl
  confirm_requirement-log (ok (some ConfirmationRequirement.yes)) w = refl
  confirm_requirement-log (ok (some ConfirmationRequirement.force_word)) w = refl
  confirm_requirement-log (ok (some ConfirmationRequirement.protected_process)) w = tt
  confirm_requirement-log (err outcome) w = tt

  pub confirm-log :
      (planned : List Planned) (mode : KillMode) (skip : Bool) (w : Recorded W)
      → Ends (λ q. q.1.log ≡ w.log) (confirm (recording io) planned config mode skip w)
  unfolding confirm
  confirm-log [] mode skip w = refl
  confirm-log (first ∷ rest) mode skip w =
      confirm_requirement-log (confirmation_requirement false mode skip config.confirm_force_kill) w

-- ===== src/Kill/Batch/Once.antt =====
-- A batch sends one signal at most through the handles of one process (src/cli/kill/batch.rs).
use mathlib.Core.Path.{subst}
use kickoutchi.Prelude.{
  ℕ, ◌≤◌, ◌≡◌, refl, Bool, true, false, Option, none, some, List, [], ◌∷◌, ◌++◌, if◌then◌else◌, any,
  times, times-append, ◌==◌, nat_eq, nat_beq_iff, arith, Bool-cases, inl, inr, Result, ok, err,
  is_some_and,
}
use kickoutchi.Observation.Sockets.{NetworkSnapshot}
use kickoutchi.Process.{Host, KillTarget, KillTargetPort}
use kickoutchi.Process.Target.{PortEntryView}
use kickoutchi.Collector.Rows.{ObservationError, project_legacy_target}
use kickoutchi.Kill.{KillTargetError, selector_port, resolve_kill_target, mark_protected}
use kickoutchi.Kill.Batch.{
  ExitReason, KillArgs, Config, Planned, BatchIo, Planning, extend_ports, add_target,
  unprovable_port_kill, refuse, plan_resolved, plan_target, plan_targets, plan_rows, plan,
}
use kickoutchi.Kill.Batch.Sends.{Ends}

times_none : {A : Type 0} → (p : A → Bool) (xs : List A) → any p xs ≡ false → times p xs ≡ 0
times_none p [] h = refl
times_none p (x ∷ xs) h = ground (arith, h, times_none p xs)

abbrev pub of_process : ℕ → Planned → Bool
of_process pid planned = planned.target.pid == pid

extend_ports-times :
    (pid other : ℕ) (ports : List KillTargetPort) (planned : List Planned)
    → times (of_process pid) (extend_ports other ports planned) ≡ times (of_process pid) planned
unfolding extend_ports
extend_ports-times pid other ports [] = refl
extend_ports-times pid other ports (existing ∷ rest) =
    elim (existing.target.pid == other)
      as (λ b.
        times (of_process pid) (
          if b
          then (record existing { extra_ports = existing.extra_ports ++ ports }) ∷ rest
          else existing ∷ extend_ports other ports rest)
        ≡ times (of_process pid) (existing ∷ rest)) [
          | true ↦ ground arith
          | false ↦ ground (arith, extend_ports-times pid other ports rest)
        ]

-- Each process is planned once.
abbrev pub IsOnce : List Planned → Type 0
IsOnce planned = (pid : ℕ) → times (of_process pid) planned ≤ 1

-- A process that is not yet planned is planned once.
new_target-IsOnce :
    (args : KillArgs) (target : KillTarget) (planned : List Planned) (pid : ℕ)
    → times (of_process pid) planned ≤ 1
    → any (λ existing. existing.target.pid == target.pid) planned ≡ false
    → times
        (of_process pid)
        (planned ++ (record { args = args; target = target; extra_ports = [] }) ∷ [])
      ≤ 1
new_target-IsOnce args target planned pid h e = elim (Bool-cases (target.pid == pid)) [
  | inr other ↦
      rw
        (
          times-append (of_process pid) planned
              ((record { args = args; target = target; extra_ports = [] }) ∷ []),
          other,
        )
        (omega (arith, h))
  | inl same ↦
      let eq : target.pid ≡ pid = (nat_beq_iff target.pid pid).0 same in
      let absent : any (of_process pid) planned ≡ false =
        subst (λ n. any (λ existing. existing.target.pid == n) planned ≡ false) eq e in
      rw
        (
          times-append (of_process pid) planned
              ((record { args = args; target = target; extra_ports = [] }) ∷ []),
          same,
          times_none (of_process pid) planned absent,
        )
        (omega arith)
]

add_target-IsOnce :
    (args : KillArgs) (target : KillTarget) (planned : List Planned)
    → IsOnce planned
    → IsOnce (add_target args target planned)
unfolding add_target
add_target-IsOnce args target planned h pid =
    elim (any (λ existing. existing.target.pid == target.pid) planned)
        as (λ b.
          any (λ existing. existing.target.pid == target.pid) planned ≡ b
          → times (of_process pid) (
              if b
              then extend_ports target.pid target.ports planned
              else planned ++ (record { args = args; target = target; extra_ports = [] }) ∷ [])
            ≤ 1) [
              | true ↦
                  λ e. omega (arith, extend_ports-times pid target.pid target.ports planned, h pid)
              | false ↦ λ e. new_target-IsOnce args target planned pid (h pid) e
            ]
      refl

module _ {W : Type 0} where
  plan_resolved-IsOnce :
      (args : KillArgs) (o : Option (Result KillTarget KillTargetError)) (p : Planning W)
      → IsOnce p.planned
      → Ends (λ q. IsOnce q.planned) (plan_resolved args o p)
  unfolding plan_resolved refuse
  plan_resolved-IsOnce args none p h = tt
  plan_resolved-IsOnce args (some (err error)) p h = h
  plan_resolved-IsOnce args (some (ok target)) p h =
      elim target.protected
        as (λ b.
          IsOnce
            (if b
              then refuse ExitReason.protected_needs_confirmation p
              else record p { planned = add_target args target p.planned }).planned) [
                | true ↦ h
                | false ↦ add_target-IsOnce args target p.planned h
              ]

module _ {H W : Type 0} (io : BatchIo H W) (host : Host) (s : NetworkSnapshot) where
  plan_target-IsOnce :
      (entries : List PortEntryView) (args : KillArgs) (p : Planning W)
      → IsOnce p.planned
      → Ends (λ q. IsOnce q.planned) (plan_target io host s entries args p)
  unfolding plan_target refuse
  plan_target-IsOnce entries args p h =
      let (context, w) = io.context p.world in
      elim (is_some_and (selector_port args.selector)
          (λ port. unprovable_port_kill host args port s entries))
        as (λ b.
          Ends (λ q. IsOnce q.planned)
            (if b
              then some (refuse ExitReason.permission_denied p)
              else plan_resolved args (resolve_kill_target host context args.selector entries)
                  (record p { world = w }))) [
                    | true ↦ h
                    | false ↦
                        plan_resolved-IsOnce args
                          (resolve_kill_target host context args.selector entries)
                          (record p { world = w }) h
                  ]

  next_target-IsOnce :
      (entries : List PortEntryView) (rest : List KillArgs)
      → ((q : Planning W)
          → IsOnce q.planned
          → Ends (λ r. IsOnce r.planned) (plan_targets io host s entries rest q))
      → (o : Option (Planning W)) → Ends (λ q. IsOnce q.planned) o
      → Ends
          (λ r. IsOnce r.planned)
          (elim o [ none ↦ none | some q ↦ plan_targets io host s entries rest q ])
  next_target-IsOnce entries rest step none h = tt
  next_target-IsOnce entries rest step (some q) h = step q h

  plan_targets-IsOnce :
      (entries : List PortEntryView) (targets : List KillArgs) (p : Planning W)
      → IsOnce p.planned
      → Ends (λ q. IsOnce q.planned) (plan_targets io host s entries targets p)
  unfolding plan_targets
  plan_targets-IsOnce entries [] p h = h
  plan_targets-IsOnce entries (args ∷ rest) p h =
      next_target-IsOnce entries rest (plan_targets-IsOnce entries rest)
        (plan_target io host s entries args p) (plan_target-IsOnce entries args p h)

  plan_rows-IsOnce :
      (config : Config) (targets : List KillArgs)
      (rows : Result (List PortEntryView) ObservationError) (w : W)
      → Ends (λ q. IsOnce q.planned) (plan_rows io host config s targets rows w)
  unfolding plan_rows
  plan_rows-IsOnce config targets (err error) w = λ pid. omega arith
  plan_rows-IsOnce config targets (ok rows) w =
      plan_targets-IsOnce (mark_protected config.protected_processes rows) targets
        (record { planned = []; refusals = []; world = w }) (λ pid. omega arith)

  -- A plan has each process once.
  pub plan-IsOnce :
      (config : Config) (targets : List KillArgs) (w : W)
      → Ends (λ q. IsOnce q.planned) (plan io host config s targets w)
  unfolding plan
  plan-IsOnce config targets w =
      plan_rows-IsOnce config targets (project_legacy_target s none none) w

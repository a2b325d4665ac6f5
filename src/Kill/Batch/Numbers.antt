-- ===== src/Kill/Batch/Numbers.antt =====
-- The numbers of the handles and the outcomes of a delivery (src/cli/kill/batch.rs).
use kickoutchi.Prelude.{
  ℕ, ◌+◌, ◌≡◌, Option, none, some, List, [], ◌∷◌, times, times-append, arith, Result, ok, err,
}
use kickoutchi.Prelude.Enumerate.{enumerate, at}
use kickoutchi.Observation.Sockets.{NetworkSnapshot}
use kickoutchi.Process.{Host, KillMode, KillTarget, TerminationOutcome}
use kickoutchi.Kill.Batch.{Config, Planned, BatchIo}
use kickoutchi.Kill.Batch.Deliver.{
  TargetOutcome, Retained, Delivering, retain_handle, prepare_all, push_outcome,
  terminate_revalidated, revalidated, terminate_all,
}
use kickoutchi.Kill.Batch.Sends.{Ends, Ends-weaken}

-- How many outcomes, handles and planned targets have a number.
abbrev pub outcomes_at : ℕ → List TargetOutcome → ℕ
outcomes_at i = times (at (λ o. o.index) i)

abbrev pub handles_at : {H : Type 0} → ℕ → List (Retained H) → ℕ
handles_at i = times (at (λ r. r.index) i)

abbrev pub planned_at : ℕ → List (ℕ × Planned) → ℕ
planned_at i = times (at (λ e. e.0) i)

module _ {H W : Type 0} (io : BatchIo H W) (host : Host) (config : Config) (i : ℕ) where
  retain_handle_counts :
      (index : ℕ) (planned : Planned) (r : Result H TerminationOutcome) (d : Delivering H W)
      → outcomes_at i (retain_handle index planned r d).outcomes
          + handles_at i (retain_handle index planned r d).handles
        ≡ outcomes_at i d.outcomes + handles_at i d.handles + planned_at i ((index, planned) ∷ [])
  unfolding retain_handle
  retain_handle_counts index planned (ok handle) d = ground (
    arith,
    times-append (at (λ (r : Retained H). r.index) i) d.handles
        ((record { index = index; planned = planned; handle = handle }) ∷ []),
  )
  retain_handle_counts index planned (err outcome) d = ground (
    arith,
    times-append (at (λ (o : TargetOutcome). o.index) i) d.outcomes (
        (record { index = index; planned = planned; target = planned.target; outcome = outcome })
        ∷ []),
  )

  pub prepare_all_counts :
      (index : ℕ) (rest : List Planned) (d : Delivering H W)
      → outcomes_at i (prepare_all io index rest d).outcomes
          + handles_at i (prepare_all io index rest d).handles
        ≡ outcomes_at i d.outcomes + handles_at i d.handles + planned_at i (enumerate index rest)
  unfolding prepare_all
  prepare_all_counts index [] d = omega arith
  prepare_all_counts index (planned ∷ rest) d =
      let (r, w) = io.prepare planned.target.pid d.world in
      let moved : Delivering H W = record d { world = w } in
      omega (
        arith,
        prepare_all_counts (index + 1) rest (retain_handle index planned r moved),
        retain_handle_counts index planned r moved,
        times-append (at (λ (e : ℕ × Planned). e.0) i) ((index, planned) ∷ [])
            (enumerate (index + 1) rest),
      )

  terminate_revalidated_counts :
      (mode : KillMode) (retained : Retained H) (o : Option (Result KillTarget TerminationOutcome))
      (d : Delivering H W)
      → Ends
          (λ e. outcomes_at i e.outcomes ≡ outcomes_at i d.outcomes + handles_at i (retained ∷ []))
          (terminate_revalidated io config mode retained o d)
  unfolding terminate_revalidated push_outcome
  terminate_revalidated_counts mode retained none d = tt
  terminate_revalidated_counts mode retained (some (err outcome)) d = ground (
    arith,
    times-append (at (λ (o : TargetOutcome). o.index) i) d.outcomes (
        (record {
          index = retained.index;
          planned = retained.planned;
          target = retained.planned.target;
          outcome = outcome;
        })
        ∷ []),
  )
  terminate_revalidated_counts mode retained (some (ok target)) d = ground (
    arith,
    times-append (at (λ (o : TargetOutcome). o.index) i) d.outcomes (
        (record {
          index = retained.index;
          planned = retained.planned;
          target = target;
          outcome = (io.terminate retained.handle target config.protected_processes mode d.world).0;
        })
        ∷ []),
  )

  next_counts :
      (mode : KillMode) (fresh : NetworkSnapshot) (rest : List (Retained H)) (n m : ℕ)
      → ((e : Delivering H W)
          → outcomes_at i e.outcomes ≡ n
          → Ends
              (λ x. outcomes_at i x.outcomes ≡ m)
              (terminate_all io host config mode fresh rest e))
      → (o : Option (Delivering H W)) → Ends (λ e. outcomes_at i e.outcomes ≡ n) o
      → Ends
          (λ x. outcomes_at i x.outcomes ≡ m)
          (elim o [ none ↦ none | some next ↦ terminate_all io host config mode fresh rest next ])
  next_counts mode fresh rest n m step none h = tt
  next_counts mode fresh rest n m step (some next) h = step next h

  pub terminate_all_counts :
      (mode : KillMode) (fresh : NetworkSnapshot) (handles : List (Retained H)) (d : Delivering H W)
      → Ends
          (λ x. outcomes_at i x.outcomes ≡ outcomes_at i d.outcomes + handles_at i handles)
          (terminate_all io host config mode fresh handles d)
  unfolding terminate_all
  terminate_all_counts mode fresh [] d = omega arith
  terminate_all_counts mode fresh (retained ∷ rest) d =
      let (context, w) = io.context d.world in
      let moved : Delivering H W = record d { world = w } in
      let checked = revalidated host context config fresh retained.planned in
      next_counts mode fresh rest (outcomes_at i d.outcomes + handles_at i (retained ∷ []))
        (outcomes_at i d.outcomes + handles_at i (retained ∷ rest))
        (λ e k.
          Ends-weaken (λ x. outcomes_at i x.outcomes ≡ outcomes_at i e.outcomes + handles_at i rest)
            (λ x.
              outcomes_at i x.outcomes ≡ outcomes_at i d.outcomes + handles_at i (retained ∷ rest))
            (terminate_all io host config mode fresh rest e)
            (λ x n.
              omega (
                arith,
                n,
                k,
                times-append (at (λ (r : Retained H). r.index) i) (retained ∷ []) rest,
              ))
            (terminate_all_counts mode fresh rest e))
        (terminate_revalidated io config mode retained checked moved)
        (terminate_revalidated_counts mode retained checked moved)

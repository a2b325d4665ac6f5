-- ===== src/Kill/Batch/Exit.antt =====
-- The outcomes of a batch and its exit (src/cli/kill/batch.rs).
use kickoutchi.Prelude.{
  ℕ, ◌+◌, ◌≤◌, ◌≡◌, ◌↔◌, refl, ap, ◌∙◌, Bool, Option, none, some, List, [], map, sort_by-times,
  sort_by-All, leb, sort_by, arith, All, All-weaken, Result, ok, err,
}
use kickoutchi.Prelude.Sorted.{sort_by-IsSorted}
use kickoutchi.Prelude.Enumerate.{enumerate, In, All-In, at, eq-enumerate}
use kickoutchi.Observation.Sockets.{NetworkSnapshot}
use kickoutchi.Process.{Host, KillMode, TerminationOutcome}
use kickoutchi.Collector.{CollectorError}
use kickoutchi.Kill.Batch.{ExitReason, exit_reason_for_outcome, Config, Planned, BatchIo}
use kickoutchi.Kill.Batch.Deliver.{
  TargetOutcome, Delivering, prepare_all, terminate_all, deliver_against, deliver,
}
use kickoutchi.Kill.Batch.Run.{BatchEnd, finish_batch, run_confirmed}
use kickoutchi.Kill.Batch.Sends.{Ends, Ends-weaken, Ends-some}
use kickoutchi.Kill.Batch.Reasons.{aggregate_exit_iff, all_success}
use kickoutchi.Kill.Batch.Answers.{
  Answered, key, Sound, Tracked, prepare_all-Tracked, terminate_all-Sound,
}
use kickoutchi.Kill.Batch.Numbers.{
  outcomes_at, handles_at, planned_at, prepare_all_counts, terminate_all_counts,
}

abbrev by_index : TargetOutcome → TargetOutcome → Bool
by_index a b = leb a.index b.index

module _ {H W : Type 0} (io : BatchIo H W) (host : Host) (config : Config) where
  -- One outcome for each planned process, in the order of the plan, each answered by the calls
  -- made for it.
  abbrev pub Answers : KillMode → List Planned → List TargetOutcome → Type 0
  Answers mode planned outcomes =
      (map key outcomes ≡ enumerate 0 planned)
      × ((fresh : NetworkSnapshot) × (w : W) × ((io.fresh_snapshot w).0 ≡ ok fresh)
          × All (Answered io host config mode fresh) outcomes)

  abbrev IfDelivered : KillMode → List Planned → Result (Delivering H W) (ExitReason × W) → Type 0
  IfDelivered mode planned (ok d) = Answers mode planned d.outcomes
  IfDelivered mode planned (err stop) = Unit

  sorted_keys :
      (planned : List Planned) (outcomes : List TargetOutcome)
      → ((i : ℕ) → outcomes_at i outcomes ≡ planned_at i (enumerate 0 planned))
      → All (λ o. In (enumerate 0 planned) (key o)) outcomes
      → map key (sort_by by_index outcomes) ≡ enumerate 0 planned
  sorted_keys planned outcomes counts known =
      eq-enumerate key 0 planned (sort_by by_index outcomes)
        (sort_by-IsSorted by_index (λ a b. a.index ≤ b.index) (λ a b h. ground (arith, h))
          (λ a b h. ground (arith, h)) (λ a b c p q. omega (arith, p, q)) outcomes)
        (λ i. sort_by-times by_index (at (λ (o : TargetOutcome). o.index) i) outcomes ∙ counts i)
        (sort_by-All by_index (λ o. In (enumerate 0 planned) (key o)) outcomes known)

  sorted-Answers :
      (mode : KillMode) (planned : List Planned) (fresh : NetworkSnapshot) (w : W)
      (o : Option (Delivering H W))
      → (io.fresh_snapshot w).0 ≡ ok fresh
      → ((i : ℕ) → Ends (λ x. outcomes_at i x.outcomes ≡ planned_at i (enumerate 0 planned)) o)
      → Ends (λ x. All (Sound io host config mode fresh (enumerate 0 planned)) x.outcomes) o
      → Ends (IfDelivered mode planned) (elim o [
        | none ↦ none
        | some done ↦ some (ok (record done { outcomes = sort_by by_index done.outcomes }))
      ])
  sorted-Answers mode planned fresh w none e counts sound = tt
  sorted-Answers mode planned fresh w (some done) e counts sound = (
    sorted_keys planned done.outcomes counts (
        All-weaken (Sound io host config mode fresh (enumerate 0 planned))
          (λ o. In (enumerate 0 planned) (key o)) done.outcomes (λ o h. h.0) sound),
    (
      fresh,
      w,
      e,
      sort_by-All by_index (Answered io host config mode fresh) done.outcomes (
          All-weaken (Sound io host config mode fresh (enumerate 0 planned))
            (Answered io host config mode fresh) done.outcomes (λ o h. h.1) sound),
    ),
  )

  against-Answers :
      (mode : KillMode) (planned : List Planned) (w : W) (r : Result NetworkSnapshot CollectorError)
      (d : Delivering H W)
      → (io.fresh_snapshot w).0 ≡ r
      → ((i : ℕ)
          → outcomes_at i d.outcomes + handles_at i d.handles ≡ planned_at i (enumerate 0 planned))
      → ((fresh : NetworkSnapshot) → Tracked io host config mode fresh (enumerate 0 planned) d)
      → Ends (IfDelivered mode planned) (deliver_against io host config mode r d)
  unfolding deliver_against
  against-Answers mode planned w (err error) d e counts tracked = tt
  against-Answers mode planned w (ok fresh) d e counts tracked =
      let all = enumerate 0 planned in
      sorted-Answers mode planned fresh w (terminate_all io host config mode fresh d.handles d) e
        (λ i.
          Ends-weaken
            (λ x. outcomes_at i x.outcomes ≡ outcomes_at i d.outcomes + handles_at i d.handles)
            (λ x. outcomes_at i x.outcomes ≡ planned_at i all)
            (terminate_all io host config mode fresh d.handles d) (λ x n. n ∙ counts i)
            (terminate_all_counts io host config i mode fresh d.handles d))
        (terminate_all-Sound io host config mode fresh all d.handles d (tracked fresh).1
          (tracked fresh).0)

  deliver-Answers :
      (planned : List Planned) (mode : KillMode) (w : W)
      → Ends (IfDelivered mode planned) (deliver io host config mode planned w)
  unfolding deliver
  deliver-Answers planned mode w =
      let start : Delivering H W = record { outcomes = []; handles = []; world = w } in
      let retained = prepare_all io 0 planned start in
      let (fresh, w') = io.fresh_snapshot retained.world in
      against-Answers mode planned retained.world fresh (record retained { world = w' }) refl
        (λ i. omega (arith, prepare_all_counts io host config i 0 planned start))
        (λ s.
          prepare_all-Tracked io host config mode s (enumerate 0 planned) 0 planned start
            (All-In (enumerate 0 planned)) (tt, tt))

-- A confirmed batch whose fresh snapshot could be read ends with the outcomes of the planned
-- processes, one each and in the order of the plan. Each is the failure to prepare the handle of
-- the process, or a refusal of its revalidation against that snapshot, or what the signal returned
-- that went to the revalidated target through that handle. The exit is a success exactly when
-- every outcome is.
pub batch_accounts :
    {H W : Type 0}
    → (io : BatchIo H W) (host : Host) (config : Config) (mode : KillMode) (planned : List Planned)
      (w : W) (d : Delivering H W)
    → deliver io host config mode planned w ≡ some (ok d)
    → (end : BatchEnd W) × (run_confirmed io host config mode planned (some (none, w)) ≡ some end)
      × Answers io host config mode planned d.outcomes
      × ((end.exit ≡ ExitReason.success)
          ↔ All (λ o. o.outcome ≡ TerminationOutcome.success) d.outcomes)
unfolding run_confirmed finish_batch
batch_accounts io host config mode planned w d h =
    let answers =
      Ends-some (IfDelivered io host config mode planned) (deliver io host config mode planned w)
        (ok d) (deliver-Answers io host config planned mode w) h in
    let reasons = map (λ o. exit_reason_for_outcome o.outcome) d.outcomes in
    (
      _,
      ap (finish_batch io) h,
      answers,
      (
        λ e. (all_success d.outcomes).0 ((aggregate_exit_iff reasons).0 e),
        λ e. (aggregate_exit_iff reasons).1 ((all_success d.outcomes).1 e),
      ),
    )

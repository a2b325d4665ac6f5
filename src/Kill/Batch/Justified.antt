-- ===== src/Kill/Batch/Justified.antt =====
-- Every signal of a batch is one that its plan, its confirmation and a fresh snapshot allow
-- (src/cli/kill/batch.rs).
use mathlib.Core.Path.{subst}
use kickoutchi.Prelude.{
  ℕ, ◌+◌, ◌≡◌, refl, sym, ◌∙◌, Option, none, some, List, [], ◌∷◌, leb, sort_by, ◌⊎◌, All, Some,
  All-append, All-weaken, inl, inr, Result, ok, err,
}
use kickoutchi.Observation.Sockets.{NetworkSnapshot}
use kickoutchi.Process.{Host, KillMode, KillTarget, TerminationOutcome}
use kickoutchi.Process.Target.{ProcessContext}
use kickoutchi.Collector.{CollectorError, kill_ports_from_snapshot}
use kickoutchi.Kill.{selector_pid, selector_port}
use kickoutchi.Kill.Resolved.{revalidate_single_cli_target-Matches}
use kickoutchi.Kill.Batch.Run.{stopped, finish_batch}
use kickoutchi.Kill.Batch.{ExitReason, Config, Planned, BatchIo}
use kickoutchi.Kill.Batch.Deliver.{
  Retained, Delivering, retain_handle, prepare_all, push_outcome, terminate_revalidated,
  revalidated, terminate_all, deliver_against, deliver,
}
use kickoutchi.Kill.Batch.Record.{log_of, Sent, Recorded, tagged, recording}
use kickoutchi.Kill.Batch.Sends.{Ends}

pub members : {A : Type 0} → (xs : List A) → All (λ x. Some (λ y. y ≡ x) xs) xs
members [] = tt
members (x ∷ xs) = (
  inl refl,
  All-weaken (λ z. Some (λ y. y ≡ z) xs) (λ z. Some (λ y. y ≡ z) (x ∷ xs)) xs (λ z m. inr m)
      (members xs),
)

same_process :
    (host : Host) (config : Config) (fresh : NetworkSnapshot) (context : ℕ → ProcessContext)
    (planned : Planned) (target : KillTarget)
    → revalidated host context config fresh planned ≡ some (ok target)
    → planned.target.pid ≡ target.pid
unfolding revalidated
same_process host config fresh context planned target h =
    (revalidate_single_cli_target-Matches host context planned.args.selector
      config.protected_processes planned.target target
      (kill_ports_from_snapshot fresh (selector_pid planned.args.selector)
        (selector_port planned.args.selector))
      h).0

module _ {H W : Type 0} (io : BatchIo H W) (host : Host) (config : Config) where
  abbrev pub IsMember : List Planned → Planned → Type 0
  IsMember all planned = Some (λ p. p ≡ planned) all

  -- A handle that was retained for the process of a planned target.
  abbrev pub RetainedFor : List Planned → Retained (ℕ × H) → Type 0
  RetainedFor all retained =
      (retained.handle.0 ≡ retained.planned.target.pid) × IsMember all retained.planned

  -- A signal through the handle of a planned process, to that process as the snapshot shows it.
  abbrev pub Justified : List Planned → NetworkSnapshot → Sent → Type 0
  Justified all fresh sent =
      (planned : Planned) × IsMember all planned
      × ((context : ℕ → ProcessContext) × (revalidated host context config fresh planned
            ≡ some (ok sent.target)))
      × (sent.retained_for ≡ planned.target.pid)
      × (planned.target.pid ≡ sent.target.pid)

  retain_handle-RetainedFor :
      (all : List Planned) (index : ℕ) (planned : Planned) (r : Result H TerminationOutcome)
      (d : Delivering (ℕ × H) (Recorded W))
      → IsMember all planned
      → All (RetainedFor all) d.handles
      → All (RetainedFor all) (retain_handle index planned (tagged planned.target.pid r) d).handles
  unfolding retain_handle
  retain_handle-RetainedFor all index planned (ok handle) d m h =
      All-append (RetainedFor all) d.handles _ h ((refl, m), tt)
  retain_handle-RetainedFor all index planned (err outcome) d m h = h

  retain_handle-log :
      (index : ℕ) (planned : Planned) (r : Result (ℕ × H) TerminationOutcome)
      (d : Delivering (ℕ × H) (Recorded W))
      → (retain_handle index planned r d).world.log ≡ d.world.log
  unfolding retain_handle
  retain_handle-log index planned (ok handle) d = refl
  retain_handle-log index planned (err outcome) d = refl

  pub prepare_all-RetainedFor :
      (all : List Planned) (index : ℕ) (rest : List Planned) (d : Delivering (ℕ × H) (Recorded W))
      → All (IsMember all) rest
      → All (RetainedFor all) d.handles
      → All (RetainedFor all) (prepare_all (recording io) index rest d).handles
        × ((prepare_all (recording io) index rest d).world.log ≡ d.world.log)
  unfolding prepare_all
  prepare_all-RetainedFor all index [] d m h = (h, refl)
  prepare_all-RetainedFor all index (planned ∷ rest) d m h =
      let (r, s) = io.prepare planned.target.pid d.world.inner in
      let moved = record d { world = record d.world { inner = s } } in
      let next = retain_handle index planned (tagged planned.target.pid r) moved in
      let (kept, same) =
        prepare_all-RetainedFor all (index + 1) rest next m.1
          (retain_handle-RetainedFor all index planned r moved m.0 h) in
      (kept, same ∙ retain_handle-log index planned (tagged planned.target.pid r) moved)

  terminate_revalidated-Justified :
      (all : List Planned) (mode : KillMode) (fresh : NetworkSnapshot) (retained : Retained (ℕ × H))
      (context : ℕ → ProcessContext) (o : Option (Result KillTarget TerminationOutcome))
      (d : Delivering (ℕ × H) (Recorded W))
      → revalidated host context config fresh retained.planned ≡ o
      → RetainedFor all retained
      → All (Justified all fresh) d.world.log
      → Ends
          (λ e. All (Justified all fresh) e.world.log)
          (terminate_revalidated (recording io) config mode retained o d)
  unfolding terminate_revalidated push_outcome
  terminate_revalidated-Justified all mode fresh retained context none d e r h = tt
  terminate_revalidated-Justified all mode fresh retained context (some (err outcome)) d e r h = h
  terminate_revalidated-Justified all mode fresh retained context (some (ok target)) d e r h =
      All-append (Justified all fresh) d.world.log _ h (
        (
          retained.planned,
          r.1,
          (context, e),
          r.0,
          same_process host config fresh context retained.planned target e,
        ),
        tt,
      )

  next-Justified :
      (all : List Planned) (mode : KillMode) (fresh : NetworkSnapshot)
      (rest : List (Retained (ℕ × H)))
      → ((e : Delivering (ℕ × H) (Recorded W))
          → All (Justified all fresh) e.world.log
          → Ends
              (λ x. All (Justified all fresh) x.world.log)
              (terminate_all (recording io) host config mode fresh rest e))
      → (o : Option (Delivering (ℕ × H) (Recorded W)))
      → Ends (λ e. All (Justified all fresh) e.world.log) o
      → Ends
          (λ x. All (Justified all fresh) x.world.log)
          (elim o [
            | none ↦ none
            | some next ↦ terminate_all (recording io) host config mode fresh rest next
          ])
  next-Justified all mode fresh rest step none h = tt
  next-Justified all mode fresh rest step (some next) h = step next h

  terminate_all-Justified :
      (all : List Planned) (mode : KillMode) (fresh : NetworkSnapshot)
      (handles : List (Retained (ℕ × H))) (d : Delivering (ℕ × H) (Recorded W))
      → All (RetainedFor all) handles
      → All (Justified all fresh) d.world.log
      → Ends
          (λ x. All (Justified all fresh) x.world.log)
          (terminate_all (recording io) host config mode fresh handles d)
  unfolding terminate_all
  terminate_all-Justified all mode fresh [] d r h = h
  terminate_all-Justified all mode fresh (retained ∷ rest) d r h =
      let (context, w) = (recording io).context d.world in
      let moved = record d { world = w } in
      let checked = revalidated host context config fresh retained.planned in
      next-Justified all mode fresh rest
        (λ e k. terminate_all-Justified all mode fresh rest e r.1 k)
        (terminate_revalidated (recording io) config mode retained checked moved)
        (terminate_revalidated-Justified all mode fresh retained context checked moved refl r.0 h)

  -- Nothing was sent, or a fresh snapshot justifies all that was.
  abbrev pub Allowed : List Planned → List Sent → Type 0
  Allowed all log =
      (log ≡ [])
      ⊎ ((fresh : NetworkSnapshot) × ((u : W) × ((io.fresh_snapshot u).0 ≡ ok fresh))
          × All (Justified all fresh) log)

  sorted-Allowed :
      (all : List Planned) (fresh : NetworkSnapshot) (u : W)
      (o : Option (Delivering (ℕ × H) (Recorded W)))
      → (io.fresh_snapshot u).0 ≡ ok fresh
      → Ends (λ x. All (Justified all fresh) x.world.log) o
      → Ends
          (λ x. Allowed all (log_of x))
          (elim o [
            | none ↦ none
            | some done ↦
                some (
                  ok
                    (record done { outcomes = sort_by (λ a b. leb a.index b.index) done.outcomes }))
          ])
  sorted-Allowed all fresh u none e h = tt
  sorted-Allowed all fresh u (some done) e h = inr (fresh, (u, e), h)

  deliver_against-Allowed :
      (all : List Planned) (mode : KillMode) (u : W) (r : Result NetworkSnapshot CollectorError)
      (d : Delivering (ℕ × H) (Recorded W))
      → (io.fresh_snapshot u).0 ≡ r
      → All (RetainedFor all) d.handles
      → d.world.log ≡ []
      → Ends (λ x. Allowed all (log_of x)) (deliver_against (recording io) host config mode r d)
  unfolding deliver_against
  deliver_against-Allowed all mode u (err error) d e r h = inl h
  deliver_against-Allowed all mode u (ok fresh) d e r h =
      sorted-Allowed all fresh u (terminate_all (recording io) host config mode fresh d.handles d) e
        (terminate_all-Justified all mode fresh d.handles d r
          (subst (All (Justified all fresh)) (sym h) tt))

  pub deliver-Allowed :
      (planned : List Planned) (mode : KillMode) (w : Recorded W)
      → w.log ≡ []
      → Ends (λ x. Allowed planned (log_of x)) (deliver (recording io) host config mode planned w)
  unfolding deliver
  deliver-Allowed planned mode w h =
      let start : Delivering (ℕ × H) (Recorded W) = record {
        outcomes = [];
        handles = [];
        world = w;
      } in
      let retained = prepare_all (recording io) 0 planned start in
      let (kept, same) = prepare_all-RetainedFor planned 0 planned start (members planned) tt in
      let (fresh, w') = (recording io).fresh_snapshot retained.world in
      deliver_against-Allowed planned mode retained.world.inner fresh
        (record retained { world = w' }) refl kept (same ∙ h)

  pub finish_batch-Allowed :
      (planned : List Planned)
      (o : Option (Result (Delivering (ℕ × H) (Recorded W)) (ExitReason × Recorded W)))
      → Ends (λ x. Allowed planned (log_of x)) o
      → Ends (λ e. Allowed planned e.world.log) (finish_batch (recording io) o)
  unfolding finish_batch stopped
  finish_batch-Allowed planned none h = tt
  finish_batch-Allowed planned (some (err (reason, w))) h = h
  finish_batch-Allowed planned (some (ok d)) h = h

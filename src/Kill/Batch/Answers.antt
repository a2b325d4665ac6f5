-- ===== src/Kill/Batch/Answers.antt =====
-- Which call answered each outcome of a batch (src/cli/kill/batch.rs).
use kickoutchi.Prelude.{
  ℕ, ◌+◌, ◌≡◌, refl, Option, none, some, List, [], ◌∷◌, All, All-append, Result, ok, err,
}
use kickoutchi.Prelude.Enumerate.{enumerate, In}
use kickoutchi.Observation.Sockets.{NetworkSnapshot}
use kickoutchi.Process.{Host, KillMode, KillTarget, TerminationOutcome}
use kickoutchi.Kill.Batch.{Config, Planned, BatchIo}
use kickoutchi.Kill.Batch.Deliver.{
  TargetOutcome, Retained, Delivering, retain_handle, prepare_all, push_outcome,
  terminate_revalidated, revalidated, terminate_all,
}
use kickoutchi.Kill.Batch.Sends.{Ends}

-- The handle was prepared for the planned process.
abbrev pub Opened : {H W : Type 0} → BatchIo H W → Planned → H → Type 0
Opened {W} io planned handle = (w : W) × ((io.prepare planned.target.pid w).0 ≡ ok handle)

-- How an outcome came about, given the fresh snapshot: the handle could not be prepared, the
-- revalidation refused, or the revalidated target was signalled through the prepared handle.
pub data Answered {H W : Type 0} (io : BatchIo H W) (host : Host) (config : Config)
    (mode : KillMode) (fresh : NetworkSnapshot) (o : TargetOutcome) : Type 0 where
  unprepared :
      (w : W)
      → (io.prepare o.planned.target.pid w).0 ≡ err o.outcome
      → o.target ≡ o.planned.target
      → Answered io host config mode fresh o
  refused :
      (w : W)
      → revalidated host (io.context w).0 config fresh o.planned ≡ some (err o.outcome)
      → o.target ≡ o.planned.target
      → Answered io host config mode fresh o
  signalled :
      (handle : H) (v w : W)
      → Opened io o.planned handle
      → revalidated host (io.context v).0 config fresh o.planned ≡ some (ok o.target)
      → (io.terminate handle o.target config.protected_processes mode w).0 ≡ o.outcome
      → Answered io host config mode fresh o

abbrev pub key : TargetOutcome → ℕ × Planned
key o = (o.index, o.planned)

module _ {H W : Type 0} (io : BatchIo H W) (host : Host) (config : Config) (mode : KillMode)
    (fresh : NetworkSnapshot) (all : List (ℕ × Planned)) where
  -- The outcome is one of a planned target, and it was answered.
  abbrev pub Sound : TargetOutcome → Type 0
  Sound o = In all (key o) × Answered io host config mode fresh o

  -- The handle is one of a planned target, and it was prepared for it.
  abbrev pub Held : Retained H → Type 0
  Held r = In all (r.index, r.planned) × Opened io r.planned r.handle

  abbrev pub Tracked : Delivering H W → Type 0
  Tracked d = All Sound d.outcomes × All Held d.handles

  retain_handle-Tracked :
      (index : ℕ) (planned : Planned) (w : W) (r : Result H TerminationOutcome) (d : Delivering H W)
      → In all (index, planned)
      → (io.prepare planned.target.pid w).0 ≡ r
      → Tracked d
      → Tracked (retain_handle index planned r d)
  unfolding retain_handle
  retain_handle-Tracked index planned w (ok handle) d m e h =
      (h.0, All-append Held d.handles (_ ∷ []) h.1 ((m, (w, e)), tt))
  retain_handle-Tracked index planned w (err outcome) d m e h =
      (All-append Sound d.outcomes (_ ∷ []) h.0 ((m, Answered.unprepared w e refl), tt), h.1)

  pub prepare_all-Tracked :
      (index : ℕ) (rest : List Planned) (d : Delivering H W)
      → All (In all) (enumerate index rest)
      → Tracked d
      → Tracked (prepare_all io index rest d)
  unfolding prepare_all
  prepare_all-Tracked index [] d m h = h
  prepare_all-Tracked index (planned ∷ rest) d m h =
      let (r, w) = io.prepare planned.target.pid d.world in
      prepare_all-Tracked (index + 1) rest (retain_handle index planned r (record d { world = w }))
        m.1 (retain_handle-Tracked index planned d.world r (record d { world = w }) m.0 refl h)

  terminate_revalidated-Sound :
      (v : W) (retained : Retained H) (o : Option (Result KillTarget TerminationOutcome))
      (d : Delivering H W)
      → Held retained
      → revalidated host (io.context v).0 config fresh retained.planned ≡ o
      → All Sound d.outcomes
      → Ends (λ e. All Sound e.outcomes) (terminate_revalidated io config mode retained o d)
  unfolding terminate_revalidated push_outcome
  terminate_revalidated-Sound v retained none d held e h = tt
  terminate_revalidated-Sound v retained (some (err outcome)) d held e h =
      All-append Sound d.outcomes (_ ∷ []) h ((held.0, Answered.refused v e refl), tt)
  terminate_revalidated-Sound v retained (some (ok target)) d held e h =
      All-append Sound d.outcomes (_ ∷ []) h
        ((held.0, Answered.signalled retained.handle v d.world held.1 e refl), tt)

  next-Sound :
      (rest : List (Retained H))
      → ((e : Delivering H W)
          → All Sound e.outcomes
          → Ends (λ x. All Sound x.outcomes) (terminate_all io host config mode fresh rest e))
      → (o : Option (Delivering H W)) → Ends (λ e. All Sound e.outcomes) o
      → Ends
          (λ x. All Sound x.outcomes)
          (elim o [ none ↦ none | some next ↦ terminate_all io host config mode fresh rest next ])
  next-Sound rest step none h = tt
  next-Sound rest step (some next) h = step next h

  pub terminate_all-Sound :
      (handles : List (Retained H)) (d : Delivering H W)
      → All Held handles
      → All Sound d.outcomes
      → Ends (λ x. All Sound x.outcomes) (terminate_all io host config mode fresh handles d)
  unfolding terminate_all
  terminate_all-Sound [] d held h = h
  terminate_all-Sound (retained ∷ rest) d held h =
      let (context, w) = io.context d.world in
      let checked = revalidated host context config fresh retained.planned in
      next-Sound rest (λ e. terminate_all-Sound rest e held.1)
        (terminate_revalidated io config mode retained checked (record d { world = w }))
        (terminate_revalidated-Sound d.world retained checked (record d { world = w }) held.0 refl
          h)

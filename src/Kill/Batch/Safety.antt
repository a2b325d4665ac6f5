-- ===== src/Kill/Batch/Safety.antt =====
-- A run of a batch sends what its plan, its confirmation and a fresh snapshot allow
-- (src/cli/kill/batch.rs).
use kickoutchi.Prelude.{◌≡◌, refl, ◌∙◌, ◌⊎◌, Bool, Option, none, some, List, [], ◌∷◌, inl, inr}
use kickoutchi.Observation.Sockets.{NetworkSnapshot}
use kickoutchi.Process.{Host, KillMode}
use kickoutchi.Kill.Batch.Run.{
  BatchEnd, aggregate_exit, mode_of, confirm, stopped, finish_batch, run_confirmed, run_planned,
  run_batch_kill_with,
}
use kickoutchi.Kill.Batch.{ExitReason, KillArgs, Config, BatchIo, Planning, plan}
use kickoutchi.Kill.Batch.Deliver.{deliver}
use kickoutchi.Kill.Batch.Record.{Sent, Recorded, recording, nothing_sent}
use kickoutchi.Kill.Batch.Sends.{Ends, Ends-weaken, Ends-some, plan-log, confirm-log}
use kickoutchi.Kill.Batch.Justified.{Allowed, deliver-Allowed, finish_batch-Allowed}

module _ {H W : Type 0} (io : BatchIo H W) (host : Host) (config : Config) where
  -- Nothing was sent, or the batch was confirmed and a fresh snapshot justifies all that was.
  abbrev pub Agreed : Planning (Recorded W) → KillMode → Bool → List Sent → Type 0
  Agreed p mode skip log =
      (log ≡ [])
      ⊎ (((v : Recorded W) × (confirm (recording io) p.planned config mode skip p.world
              ≡ some (none, v)))
          × Allowed io host config p.planned log)

  confirmed-Allowed :
      (p : Planning (Recorded W)) (mode : KillMode) (skip : Bool) (v : Recorded W)
      (o : Option (BatchEnd (Recorded W)))
      → confirm (recording io) p.planned config mode skip p.world ≡ some (none, v)
      → Ends (λ e. Allowed io host config p.planned e.world.log) o
      → Ends (λ e. Agreed p mode skip e.world.log) o
  confirmed-Allowed p mode skip v none e h = tt
  confirmed-Allowed p mode skip v (some end) e h = inr ((v, e), h)

  run_confirmed-Agreed :
      (p : Planning (Recorded W)) (mode : KillMode) (skip : Bool)
      (o : Option (Option ExitReason × Recorded W))
      → confirm (recording io) p.planned config mode skip p.world ≡ o
      → Ends (λ q. q.1.log ≡ []) o
      → Ends
          (λ e. Agreed p mode skip e.world.log)
          (run_confirmed (recording io) host config mode p.planned o)
  unfolding run_confirmed stopped
  run_confirmed-Agreed p mode skip none e h = tt
  run_confirmed-Agreed p mode skip (some (some reason, w)) e h = inl h
  run_confirmed-Agreed p mode skip (some (none, w)) e h =
      confirmed-Allowed p mode skip w
        (finish_batch (recording io) (deliver (recording io) host config mode p.planned w)) e
        (finish_batch-Allowed io host config p.planned
          (deliver (recording io) host config mode p.planned w)
          (deliver-Allowed io host config p.planned mode w h))

  -- Nothing was sent, or every target was planned, the batch was confirmed, and a fresh snapshot
  -- justifies all that was sent.
  abbrev pub Orderly : NetworkSnapshot → List KillArgs → W → KillMode → Bool → List Sent → Type 0
  Orderly s targets w mode skip log =
      (log ≡ [])
      ⊎ ((p : Planning (Recorded W)) × (plan (recording io) host config s targets (nothing_sent w)
            ≡ some p)
          × (p.refusals ≡ [])
          × Agreed p mode skip log)

  planned-Orderly :
      (s : NetworkSnapshot) (targets : List KillArgs) (w : W) (mode : KillMode) (skip : Bool)
      (p : Planning (Recorded W)) (refusals : List ExitReason)
      → plan (recording io) host config s targets (nothing_sent w) ≡ some p
      → p.refusals ≡ refusals
      → p.world.log ≡ []
      → Ends
          (λ e. Orderly s targets w mode skip e.world.log)
          (elim refusals [
            | [] ↦
                run_confirmed
                  (recording io)
                  host
                  config
                  mode
                  p.planned
                  (confirm (recording io) p.planned config mode skip p.world)
            | reason ∷ rest ↦ stopped (aggregate_exit (reason ∷ rest)) p.world
          ])
  unfolding stopped
  planned-Orderly s targets w mode skip p (reason ∷ rest) e r h = inl h
  planned-Orderly s targets w mode skip p [] e r h =
      let asked = confirm (recording io) p.planned config mode skip p.world in
      let quiet =
        Ends-weaken (λ q. q.1.log ≡ p.world.log) (λ q. q.1.log ≡ []) asked (λ q k. k ∙ h)
          (confirm-log io host config p.planned mode skip p.world) in
      Ends-weaken (λ x. Agreed p mode skip x.world.log)
        (λ x. Orderly s targets w mode skip x.world.log)
        (run_confirmed (recording io) host config mode p.planned asked) (λ x k. inr (p, e, r, k))
        (run_confirmed-Agreed p mode skip asked refl quiet)

  run_planned-Orderly :
      (s : NetworkSnapshot) (targets : List KillArgs) (w : W) (mode : KillMode) (skip : Bool)
      (o : Option (Planning (Recorded W)))
      → plan (recording io) host config s targets (nothing_sent w) ≡ o
      → Ends (λ q. q.world.log ≡ []) o
      → Ends
          (λ e. Orderly s targets w mode skip e.world.log)
          (run_planned (recording io) host config mode skip o)
  unfolding run_planned
  run_planned-Orderly s targets w mode skip none e h = tt
  run_planned-Orderly s targets w mode skip (some p) e h =
      planned-Orderly s targets w mode skip p p.refusals e refl h

  -- If a batch of targets ends, then nothing was sent, or every target was planned without a refusal,
  -- the batch was confirmed, and every signal went through the handle that was retained for a
  -- planned process, to that process, as its revalidation gave it against the rows that one read of
  -- a fresh snapshot lets a kill act on.
  pub batch_sends_confirmed :
      (s : NetworkSnapshot) (first : KillArgs) (rest : List KillArgs) (w : W)
      (end : BatchEnd (Recorded W))
      → run_batch_kill_with (recording io) host config s (first ∷ rest) (nothing_sent w) ≡ some end
      → Orderly s (first ∷ rest) w (mode_of first) first.skip end.world.log
  unfolding run_batch_kill_with
  batch_sends_confirmed s first rest w end h =
      let planned = plan (recording io) host config s (first ∷ rest) (nothing_sent w) in
      Ends-some (λ e. Orderly s (first ∷ rest) w (mode_of first) first.skip e.world.log)
        (run_planned (recording io) host config (mode_of first) first.skip planned) end
        (run_planned-Orderly s (first ∷ rest) w (mode_of first) first.skip planned refl
          (plan-log io host config s (first ∷ rest) (nothing_sent w)))
        h

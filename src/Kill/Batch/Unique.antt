-- ===== src/Kill/Batch/Unique.antt =====
-- A run of a batch signals each process once at most (src/cli/kill/batch.rs).
use kickoutchi.Prelude.{ℕ, ◌≤◌, ◌≡◌, ap, ◌∙◌, Bool, Option, none, some, List, [], ◌∷◌, arith}
use kickoutchi.Observation.Sockets.{NetworkSnapshot}
use kickoutchi.Process.{Host, KillMode}
use kickoutchi.Kill.Batch.Run.{
  BatchEnd, aggregate_exit, mode_of, confirm, stopped, run_confirmed, run_planned,
  run_batch_kill_with,
}
use kickoutchi.Kill.Batch.{ExitReason, KillArgs, Config, BatchIo, Planning, plan}
use kickoutchi.Kill.Batch.Record.{Recorded, recording, nothing_sent}
use kickoutchi.Kill.Batch.Sends.{Ends, Ends-weaken, Ends-some, plan-log, confirm-log}
use kickoutchi.Kill.Batch.Once.{IsOnce, plan-IsOnce}
use kickoutchi.Kill.Batch.Counted.{sent_for, run_confirmed-sent_for}

module _ {H W : Type 0} (io : BatchIo H W) (host : Host) (config : Config) (pid : ℕ) where
  planned-sent_for :
      (mode : KillMode) (skip : Bool) (p : Planning (Recorded W)) (refusals : List ExitReason)
      → IsOnce p.planned
      → p.world.log ≡ []
      → Ends
          (λ e. sent_for pid e.world.log ≤ 1)
          (elim refusals [
            | [] ↦
                run_confirmed
                  (recording io)
                  host
                  config
                  mode
                  p.planned
                  (confirm (recording io) p.planned config mode skip p.world)
            | reason ∷ rest ↦ stopped (aggregate_exit (reason ∷ rest)) p.world
          ])
  unfolding stopped
  planned-sent_for mode skip p (reason ∷ rest) once h = omega (arith, ap (sent_for pid) h)
  planned-sent_for mode skip p [] once h =
      let asked = confirm (recording io) p.planned config mode skip p.world in
      run_confirmed-sent_for io host config pid p.planned mode asked once (
        Ends-weaken (λ q. q.1.log ≡ p.world.log) (λ q. q.1.log ≡ []) asked (λ q k. k ∙ h)
          (confirm-log io host config p.planned mode skip p.world))

  run_planned-sent_for :
      (mode : KillMode) (skip : Bool) (o : Option (Planning (Recorded W)))
      → Ends (λ q. IsOnce q.planned) o
      → Ends (λ q. q.world.log ≡ []) o
      → Ends
          (λ e. sent_for pid e.world.log ≤ 1)
          (run_planned (recording io) host config mode skip o)
  unfolding run_planned
  run_planned-sent_for mode skip none once h = tt
  run_planned-sent_for mode skip (some p) once h = planned-sent_for mode skip p p.refusals once h

  -- If a batch of targets ends, then at most one signal went through the handles that were retained
  -- for a PID, even where several targets named the process.
  pub batch_sends_once :
      (s : NetworkSnapshot) (first : KillArgs) (rest : List KillArgs) (w : W)
      (end : BatchEnd (Recorded W))
      → run_batch_kill_with (recording io) host config s (first ∷ rest) (nothing_sent w) ≡ some end
      → sent_for pid end.world.log ≤ 1
  unfolding run_batch_kill_with
  batch_sends_once s first rest w end h =
      let planned = plan (recording io) host config s (first ∷ rest) (nothing_sent w) in
      Ends-some (λ e. sent_for pid e.world.log ≤ 1)
        (run_planned (recording io) host config (mode_of first) first.skip planned) end
        (run_planned-sent_for (mode_of first) first.skip planned
          (plan-IsOnce (recording io) host s config (first ∷ rest) (nothing_sent w))
          (plan-log io host config s (first ∷ rest) (nothing_sent w)))
        h

-- ===== src/Kill/Batch/Record.antt =====
-- A batch whose reads and deliveries keep a record of the signals that are sent, with the PID that
-- the handle of each was retained for: what the fakes of src/cli/kill/batch/tests.rs do.
use kickoutchi.Prelude.{ℕ, List, [], ◌∷◌, ◌++◌, Result, ok, err}
use kickoutchi.Process.{KillMode, KillTarget}
use kickoutchi.Kill.Batch.{ExitReason, BatchIo}
use kickoutchi.Kill.Batch.Deliver.{Delivering}

pub record Sent : Type 0 where
  pub retained_for : ℕ
  pub target : KillTarget
  pub mode : KillMode

pub record Recorded (W : Type 0) : Type 0 where
  pub inner : W
  pub log : List Sent

abbrev lifted : {W A : Type 0} → (W → A × W) → Recorded W → A × Recorded W
lifted f w = let (a, s) = f w.inner in (a, record w { inner = s })

abbrev pub tagged : {H E : Type 0} → ℕ → Result H E → Result (ℕ × H) E
tagged pid (ok handle) = ok (pid, handle)
tagged pid (err error) = err error

abbrev pub recording : {H W : Type 0} → BatchIo H W → BatchIo (ℕ × H) (Recorded W)
recording io = record {
  context = lifted io.context;
  prompt = lifted io.prompt;
  fresh_snapshot = lifted io.fresh_snapshot;
  prepare = λ pid w. let (r, s) = io.prepare pid w.inner in (tagged pid r, record w { inner = s });
  terminate = λ handle target names mode w.
      let (outcome, s) = io.terminate handle.1 target names mode w.inner in
      (
        outcome,
        record {
          inner = s;
          log = w.log ++ (record { retained_for = handle.0; target = target; mode = mode }) ∷ [];
        },
      );
  settle = record {
    collect_ports = lifted io.settle.collect_ports;
    observe_exit = λ identity. lifted (io.settle.observe_exit identity);
    sleep = λ delay w. record w { inner = io.settle.sleep delay w.inner };
  };
}

abbrev pub nothing_sent : {W : Type 0} → W → Recorded W
nothing_sent w = record { inner = w; log = [] }

-- The signals by the end of a delivery, or of one that could not begin.
abbrev pub log_of :
    {H W : Type 0} → Result (Delivering (ℕ × H) (Recorded W)) (ExitReason × Recorded W) → List Sent
log_of (ok d) = d.world.log
log_of (err (reason, w)) = w.log

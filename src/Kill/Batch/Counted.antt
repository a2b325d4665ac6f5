-- ===== src/Kill/Batch/Counted.antt =====
-- How many signals a batch sends through the handles of one process (src/cli/kill/batch.rs).
use kickoutchi.Prelude.{
  ℕ, ◌+◌, ◌≤◌, ◌≡◌, ap, ◌∙◌, Option, none, some, List, [], ◌∷◌, ◌==◌, nat_eq, arith, Result, ok,
  err, leb, sort_by, times, times-append, times_one,
}
use kickoutchi.Observation.Sockets.{NetworkSnapshot}
use kickoutchi.Process.{Host, KillMode, KillTarget, TerminationOutcome}
use kickoutchi.Collector.{CollectorError}
use kickoutchi.Kill.Batch.Run.{stopped, finish_batch, run_confirmed}
use kickoutchi.Kill.Batch.{ExitReason, Config, Planned, BatchIo}
use kickoutchi.Kill.Batch.Deliver.{
  Retained, Delivering, retain_handle, prepare_all, push_outcome, terminate_revalidated,
  revalidated, terminate_all, deliver_against, deliver,
}
use kickoutchi.Kill.Batch.Record.{log_of, Sent, Recorded, tagged, recording}
use kickoutchi.Kill.Batch.Sends.{Ends, Ends-weaken}
use kickoutchi.Kill.Batch.Justified.{members, prepare_all-RetainedFor}
use kickoutchi.Kill.Batch.Once.{of_process, IsOnce}

-- The signals through the handles that were retained for a PID.
abbrev pub sent_for : ℕ → List Sent → ℕ
sent_for pid log = times (λ sent. sent.retained_for == pid) log

module _ {H W : Type 0} (io : BatchIo H W) (host : Host) (config : Config) (pid : ℕ) where
  abbrev kept_for : List (Retained (ℕ × H)) → ℕ
  kept_for handles = times (λ r. r.handle.0 == pid) handles

  retain_handle-kept_for :
      (index : ℕ) (planned : Planned) (r : Result H TerminationOutcome)
      (d : Delivering (ℕ × H) (Recorded W))
      → kept_for (retain_handle index planned (tagged planned.target.pid r) d).handles
        ≤ kept_for d.handles + times (of_process pid) (planned ∷ [])
  unfolding retain_handle
  retain_handle-kept_for index planned (ok handle) d =
      let new : Retained (ℕ × H) = record {
        index = index;
        planned = planned;
        handle = (planned.target.pid, handle);
      } in
      rw
        (
          times-append (λ r. r.handle.0 == pid) d.handles (new ∷ []),
          times_one (λ r. r.handle.0 == pid) new,
          times_one (of_process pid) planned,
        )
        (omega arith)
  retain_handle-kept_for index planned (err outcome) d = omega arith

  prepare_all-kept_for :
      (index : ℕ) (rest : List Planned) (d : Delivering (ℕ × H) (Recorded W))
      → kept_for (prepare_all (recording io) index rest d).handles
        ≤ kept_for d.handles + times (of_process pid) rest
  unfolding prepare_all
  prepare_all-kept_for index [] d = omega arith
  prepare_all-kept_for index (planned ∷ rest) d =
      let (r, s) = io.prepare planned.target.pid d.world.inner in
      let moved : Delivering (ℕ × H) (Recorded W) = record d {
        world = record d.world { inner = s };
      } in
      let next = retain_handle index planned (tagged planned.target.pid r) moved in
      omega (
        arith,
        prepare_all-kept_for (index + 1) rest next,
        retain_handle-kept_for index planned r moved,
        times-append (of_process pid) (planned ∷ []) rest,
      )

  -- The step of one handle.
  terminate_revalidated-sent_for :
      (mode : KillMode) (retained : Retained (ℕ × H))
      (o : Option (Result KillTarget TerminationOutcome)) (d : Delivering (ℕ × H) (Recorded W))
      → Ends
          (λ e. sent_for pid e.world.log ≤ sent_for pid d.world.log + kept_for (retained ∷ []))
          (terminate_revalidated (recording io) config mode retained o d)
  unfolding terminate_revalidated push_outcome
  terminate_revalidated-sent_for mode retained none d = tt
  terminate_revalidated-sent_for mode retained (some (err outcome)) d = omega arith
  terminate_revalidated-sent_for mode retained (some (ok target)) d =
      let new : Sent = record { retained_for = retained.handle.0; target = target; mode = mode } in
      rw
        (
          times-append (λ sent. sent.retained_for == pid) d.world.log (new ∷ []),
          times_one (λ sent. sent.retained_for == pid) new,
          times_one (λ r. r.handle.0 == pid) retained,
        )
        (omega arith)

  next-sent_for :
      (mode : KillMode) (fresh : NetworkSnapshot) (rest : List (Retained (ℕ × H))) (n m : ℕ)
      → ((e : Delivering (ℕ × H) (Recorded W))
          → sent_for pid e.world.log ≤ n
          → Ends
              (λ x. sent_for pid x.world.log ≤ m)
              (terminate_all (recording io) host config mode fresh rest e))
      → (o : Option (Delivering (ℕ × H) (Recorded W))) → Ends (λ e. sent_for pid e.world.log ≤ n) o
      → Ends
          (λ x. sent_for pid x.world.log ≤ m)
          (elim o [
            | none ↦ none
            | some next ↦ terminate_all (recording io) host config mode fresh rest next
          ])
  next-sent_for mode fresh rest n m step none h = tt
  next-sent_for mode fresh rest n m step (some next) h = step next h

  terminate_all-sent_for :
      (mode : KillMode) (fresh : NetworkSnapshot) (handles : List (Retained (ℕ × H)))
      (d : Delivering (ℕ × H) (Recorded W))
      → Ends
          (λ x. sent_for pid x.world.log ≤ sent_for pid d.world.log + kept_for handles)
          (terminate_all (recording io) host config mode fresh handles d)
  unfolding terminate_all
  terminate_all-sent_for mode fresh [] d = omega arith
  terminate_all-sent_for mode fresh (retained ∷ rest) d =
      let (context, w) = (recording io).context d.world in
      let moved : Delivering (ℕ × H) (Recorded W) = record d { world = w } in
      let checked = revalidated host context config fresh retained.planned in
      next-sent_for mode fresh rest (sent_for pid d.world.log + kept_for (retained ∷ []))
        (sent_for pid d.world.log + kept_for (retained ∷ rest))
        (λ e k.
          Ends-weaken (λ x. sent_for pid x.world.log ≤ sent_for pid e.world.log + kept_for rest)
            (λ x. sent_for pid x.world.log ≤ sent_for pid d.world.log + kept_for (retained ∷ rest))
            (terminate_all (recording io) host config mode fresh rest e)
            (λ x i. omega (arith, i, k, times-append (λ r. r.handle.0 == pid) (retained ∷ []) rest))
            (terminate_all-sent_for mode fresh rest e))
        (terminate_revalidated (recording io) config mode retained checked moved)
        (terminate_revalidated-sent_for mode retained checked moved)

  sorted-sent_for :
      (n : ℕ) (o : Option (Delivering (ℕ × H) (Recorded W)))
      → Ends (λ x. sent_for pid x.world.log ≤ n) o
      → Ends
          (λ x. sent_for pid (log_of x) ≤ n)
          (elim o [
            | none ↦ none
            | some done ↦
                some (
                  ok
                    (record done { outcomes = sort_by (λ a b. leb a.index b.index) done.outcomes }))
          ])
  sorted-sent_for n none h = tt
  sorted-sent_for n (some done) h = h

  deliver_against-sent_for :
      (mode : KillMode) (r : Result NetworkSnapshot CollectorError)
      (d : Delivering (ℕ × H) (Recorded W))
      → Ends
          (λ x. sent_for pid (log_of x) ≤ sent_for pid d.world.log + kept_for d.handles)
          (deliver_against (recording io) host config mode r d)
  unfolding deliver_against
  deliver_against-sent_for mode (err error) d = omega arith
  deliver_against-sent_for mode (ok fresh) d =
      sorted-sent_for (sent_for pid d.world.log + kept_for d.handles)
        (terminate_all (recording io) host config mode fresh d.handles d)
        (terminate_all-sent_for mode fresh d.handles d)

  deliver-sent_for :
      (planned : List Planned) (mode : KillMode) (w : Recorded W)
      → IsOnce planned
      → w.log ≡ []
      → Ends (λ x. sent_for pid (log_of x) ≤ 1) (deliver (recording io) host config mode planned w)
  unfolding deliver
  deliver-sent_for planned mode w once h =
      let start : Delivering (ℕ × H) (Recorded W) = record {
        outcomes = [];
        handles = [];
        world = w;
      } in
      let retained = prepare_all (recording io) 0 planned start in
      let same =
        (prepare_all-RetainedFor io host config planned 0 planned start (members planned) tt).1 in
      let (fresh, w') = (recording io).fresh_snapshot retained.world in
      let ready : Delivering (ℕ × H) (Recorded W) = record retained { world = w' } in
      let quiet : sent_for pid retained.world.log ≡ 0 = ap (sent_for pid) (same ∙ h) in
      Ends-weaken
        (λ x. sent_for pid (log_of x) ≤ sent_for pid ready.world.log + kept_for ready.handles)
        (λ x. sent_for pid (log_of x) ≤ 1)
        (deliver_against (recording io) host config mode fresh ready)
        (λ x i. omega (arith, i, quiet, prepare_all-kept_for 0 planned start, once pid))
        (deliver_against-sent_for mode fresh ready)

  finish_batch-sent_for :
      (o : Option (Result (Delivering (ℕ × H) (Recorded W)) (ExitReason × Recorded W)))
      → Ends (λ x. sent_for pid (log_of x) ≤ 1) o
      → Ends (λ e. sent_for pid e.world.log ≤ 1) (finish_batch (recording io) o)
  unfolding finish_batch stopped
  finish_batch-sent_for none h = tt
  finish_batch-sent_for (some (err (reason, w))) h = h
  finish_batch-sent_for (some (ok d)) h = h

  pub run_confirmed-sent_for :
      (planned : List Planned) (mode : KillMode) (o : Option (Option ExitReason × Recorded W))
      → IsOnce planned
      → Ends (λ q. q.1.log ≡ []) o
      → Ends
          (λ e. sent_for pid e.world.log ≤ 1)
          (run_confirmed (recording io) host config mode planned o)
  unfolding run_confirmed stopped
  run_confirmed-sent_for planned mode none once h = tt
  run_confirmed-sent_for planned mode (some (some reason, w)) once h =
      omega (arith, ap (sent_for pid) h)
  run_confirmed-sent_for planned mode (some (none, w)) once h =
      finish_batch-sent_for (deliver (recording io) host config mode planned w)
        (deliver-sent_for planned mode w once h)

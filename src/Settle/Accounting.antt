-- ===== src/Settle/Accounting.antt =====
-- What the settling of src/cli/settle.rs reports.
use kickoutchi.Prelude.{
  Bool, ℕ, zero, suc, ◌+◌, ◌≡◌, refl, Option, none, some, List, [], ◌∷◌, arith, times, times-append,
  sort_by-times, leb, ◌==◌, nat_eq, Result, ok, err, Bool-cases, inl, inr,
}
use kickoutchi.Prelude.Text.{Text}
use kickoutchi.Observation.{ProcessIdentity}
use kickoutchi.Process.{KillTargetPort}
use kickoutchi.Process.Target.{PortEntryView}
use kickoutchi.Settle.{
  ExitObservation, is_still_visible, SettleProbe, Settling, remove_error, error_of, note_exit,
  retain_running, poll_exits, see_ports, note_ports, poll_ports, pause, settle_loop, Remaining,
  note_remaining, split_pending, report_of, start_settling, settle, settle_attempts_max,
}

abbrev pub is_pid : ℕ → ℕ → Bool
is_pid pid other = other == pid

abbrev pub of_process : ℕ → ProcessIdentity → Bool
of_process pid identity = identity.pid == pid

abbrev pub error_about : ℕ → ℕ × Text → Bool
error_about pid e = e.0 == pid

module _ (pid : ℕ) where
  abbrev left_over : Remaining → ℕ
  left_over r = times (is_pid pid) r.running + times (error_about pid) r.unknown

  note_remaining-left_over :
      (identity : ProcessIdentity) (o : Option Text) (r : Remaining)
      → left_over (note_remaining identity o r)
        ≡ left_over r + times (of_process pid) (identity ∷ [])
  unfolding note_remaining
  note_remaining-left_over identity none r =
      ground (arith, times-append (is_pid pid) r.running (identity.pid ∷ []))
  note_remaining-left_over identity (some error) r =
      ground (arith, times-append (error_about pid) r.unknown ((identity.pid, error) ∷ []))

  split_accounts :
      (ids : List ProcessIdentity) (errors : List (ℕ × Text)) (r : Remaining)
      → left_over (split_pending ids errors r) ≡ left_over r + times (of_process pid) ids
  unfolding split_pending
  split_accounts [] errors r = omega arith
  split_accounts (identity ∷ rest) errors r =
      let noted = note_remaining identity (error_of identity.pid errors) r in
      omega (
        arith,
        split_accounts rest (remove_error identity.pid errors) noted,
        note_remaining-left_over identity (error_of identity.pid errors) r,
        times-append (of_process pid) (identity ∷ []) rest,
      )

module _ {W : Type 0} (probe : SettleProbe W) (pid : ℕ) where
  abbrev followed : Settling W → ℕ
  followed s = times (is_pid pid) s.exited + times (of_process pid) s.pending

  note_accounts :
      (identity : ProcessIdentity) (seen : ExitObservation) (w : W) (s : Settling W)
      → followed (note_exit identity seen w s) ≡ followed s + times (of_process pid) (identity ∷ [])
  unfolding note_exit
  note_accounts identity ExitObservation.exited w s =
      ground (arith, times-append (is_pid pid) s.exited (identity.pid ∷ []))
  note_accounts identity ExitObservation.running w s =
      omega (arith, times-append (of_process pid) s.pending (identity ∷ []))
  note_accounts identity (ExitObservation.unknown error) w s =
      omega (arith, times-append (of_process pid) s.pending (identity ∷ []))

  retain_accounts :
      (ids : List ProcessIdentity) (s : Settling W)
      → followed (retain_running probe ids s) ≡ followed s + times (of_process pid) ids
  unfolding retain_running
  retain_accounts [] s = omega arith
  retain_accounts (identity ∷ rest) s =
      let (seen, w) = probe.observe_exit identity s.world in
      omega (
        arith,
        note_accounts identity seen w s,
        retain_accounts rest (note_exit identity seen w s),
        times-append (of_process pid) (identity ∷ []) rest,
      )

  polled_accounts : (s : Settling W) → followed (poll_exits probe s) ≡ followed s
  unfolding poll_exits
  polled_accounts s = omega (
    arith,
    retain_accounts s.pending (record {
      pending = [];
      exited = s.exited;
      last_errors = s.last_errors;
      ports_status = s.ports_status;
      visible_ports = s.visible_ports;
      world = s.world;
    }),
  )

  ports_accounts :
      (ports : List KillTargetPort) (s : Settling W)
      → followed (poll_ports probe ports s) ≡ followed s
  unfolding poll_ports note_ports see_ports
  ports_accounts ports s =
      let (read, w) = probe.collect_ports s.world in
      elim (Bool-cases (is_still_visible s.ports_status)) [
        | inr e ↦ rw (e) refl
        | inl e ↦ rw (e) (noted read w)
      ]
    where
      noted :
          (read : Result (List PortEntryView) Text) (w : W)
          → followed (note_ports ports read w s) ≡ followed s
      noted (ok entries) w = refl
      noted (err error) w = refl

  pause_accounts : (left : ℕ) (s : Settling W) → followed (pause probe left s) ≡ followed s
  unfolding pause see_ports
  pause_accounts zero s = refl
  pause_accounts (suc left) s = refl

  loop_accounts :
      (ports : List KillTargetPort) (left : ℕ) (s : Settling W)
      → followed (settle_loop probe ports left s) ≡ followed s
  unfolding settle_loop
  loop_accounts ports zero s = refl
  loop_accounts ports (suc left) s =
      let t = poll_ports probe ports (poll_exits probe s) in
      ground (
        arith,
        polled_accounts s,
        ports_accounts ports (poll_exits probe s),
        pause_accounts left t,
        loop_accounts ports left (pause probe left t),
      )

-- For every PID, the report names it as exited, as running or as unknown as many times in all as
-- there are processes of that PID among those that are settled.
pub settle_accounts :
    {W : Type 0} (probe : SettleProbe W) (ids : List ProcessIdentity) (ports : List KillTargetPort)
    (w : W) (pid : ℕ)
    → times (is_pid pid) (settle probe ids ports w).exited
        + (times (is_pid pid) (settle probe ids ports w).running
            + times (error_about pid) (settle probe ids ports w).unknown)
      ≡ times (of_process pid) ids
unfolding settle report_of start_settling
settle_accounts probe ids ports w pid =
    let start = start_settling ids ports w in
    let s = settle_loop probe ports settle_attempts_max start in
    let r = split_pending s.pending s.last_errors (record { running = []; unknown = [] }) in
    omega (
      arith,
      loop_accounts probe pid ports settle_attempts_max start,
      sort_by-times leb (is_pid pid) s.exited,
      sort_by-times leb (is_pid pid) r.running,
      split_accounts pid s.pending s.last_errors (record { running = []; unknown = [] }),
    )

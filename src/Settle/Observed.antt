-- ===== src/Settle/Observed.antt =====
-- What the exit checks of src/cli/settle.rs answered about the processes that are reported.
use mathlib.Core.Path.{subst}
use kickoutchi.Prelude.{
  ℕ, zero, suc, ◌≡◌, refl, true, false, not, Option, none, some, List, [], ◌∷◌, All, All-append,
  keep-All, sort_by-All, leb, Result, ok, err, Bool-cases, inl, inr, ◌==◌, nat_eq, nat_beq_iff,
}
use kickoutchi.Prelude.Enumerate.{In, All-In}
use kickoutchi.Prelude.Text.{Text}
use kickoutchi.Observation.{ProcessIdentity}
use kickoutchi.Process.{KillTargetPort}
use kickoutchi.Process.Target.{PortEntryView}
use kickoutchi.Settle.{
  PortsStatus, ExitObservation, is_still_visible, is_settled, SettleProbe, Settling, remove_error,
  insert_error, error_of, note_exit, retain_running, poll_exits, see_ports, note_ports, poll_ports,
  pause, settle_loop, Remaining, note_remaining, split_pending, report_of, start_settling, settle,
  settle_attempts_max,
}

module _ {W : Type 0} (probe : SettleProbe W) (ids : List ProcessIdentity) where
  -- Some check of one of the processes, of this PID, answered so.
  abbrev pub Answers : ℕ → ExitObservation → Type 0
  Answers pid answer =
      (identity : ProcessIdentity) × In ids identity
      × (identity.pid ≡ pid)
      × ((w : W) × ((probe.observe_exit identity w).0 ≡ answer))

  abbrev pub Exited : ℕ → Type 0
  Exited pid = Answers pid ExitObservation.exited

  abbrev pub Failed : ℕ × Text → Type 0
  Failed e = Answers e.0 (ExitObservation.unknown e.1)

  record Witnessed (s : Settling W) : Type 0 where
    known : All (In ids) s.pending
    exits : All Exited s.exited
    errors : All Failed s.last_errors

  removed :
      (pid : ℕ) (errors : List (ℕ × Text))
      → All Failed errors
      → All Failed (remove_error pid errors)
  unfolding remove_error
  removed pid errors h = keep-All Failed (λ e. not (e.0 == pid)) errors h

  note_exit-Witnessed :
      (identity : ProcessIdentity) (seen : ExitObservation) (v w : W) (s : Settling W)
      → In ids identity
      → (probe.observe_exit identity v).0 ≡ seen
      → Witnessed s
      → Witnessed (note_exit identity seen w s)
  unfolding note_exit insert_error
  note_exit-Witnessed identity ExitObservation.exited v w s m e h = record {
    known = h.known;
    exits =
        All-append Exited s.exited (identity.pid ∷ []) h.exits ((identity, m, refl, (v, e)), tt);
    errors = removed identity.pid s.last_errors h.errors;
  }
  note_exit-Witnessed identity ExitObservation.running v w s m e h = record {
    known = All-append (In ids) s.pending (identity ∷ []) h.known (m, tt);
    exits = h.exits;
    errors = removed identity.pid s.last_errors h.errors;
  }
  note_exit-Witnessed identity (ExitObservation.unknown error) v w s m e h = record {
    known = All-append (In ids) s.pending (identity ∷ []) h.known (m, tt);
    exits = h.exits;
    errors = ((identity, m, refl, (v, e)), removed identity.pid s.last_errors h.errors);
  }

  retain_running-Witnessed :
      (rest : List ProcessIdentity) (s : Settling W)
      → All (In ids) rest
      → Witnessed s
      → Witnessed (retain_running probe rest s)
  unfolding retain_running
  retain_running-Witnessed [] s m h = h
  retain_running-Witnessed (identity ∷ rest) s m h =
      let (seen, w) = probe.observe_exit identity s.world in
      retain_running-Witnessed rest (note_exit identity seen w s) m.1
        (note_exit-Witnessed identity seen s.world w s m.0 refl h)

  poll_exits-Witnessed : (s : Settling W) → Witnessed s → Witnessed (poll_exits probe s)
  unfolding poll_exits
  poll_exits-Witnessed s h =
      retain_running-Witnessed s.pending _ h.known
        (record { known = tt; exits = h.exits; errors = h.errors })

  see_ports-Witnessed :
      (status : PortsStatus) (visible : List KillTargetPort) (w : W) (s : Settling W)
      → Witnessed s
      → Witnessed (see_ports status visible w s)
  unfolding see_ports
  see_ports-Witnessed status visible w s h = record {
    known = h.known;
    exits = h.exits;
    errors = h.errors;
  }

  poll_ports-Witnessed :
      (ports : List KillTargetPort) (s : Settling W)
      → Witnessed s
      → Witnessed (poll_ports probe ports s)
  unfolding poll_ports note_ports
  poll_ports-Witnessed ports s h =
      let (read, w) = probe.collect_ports s.world in
      elim (Bool-cases (is_still_visible s.ports_status)) [
        | inr e ↦ rw (e) h
        | inl e ↦ rw (e) (noted read w)
      ]
    where
      noted :
          (read : Result (List PortEntryView) Text) (w : W) → Witnessed (note_ports ports read w s)
      noted (ok entries) w = see_ports-Witnessed _ _ w s h
      noted (err error) w = see_ports-Witnessed _ _ w s h

  pause-Witnessed : (left : ℕ) (s : Settling W) → Witnessed s → Witnessed (pause probe left s)
  unfolding pause
  pause-Witnessed zero s h = h
  pause-Witnessed (suc left) s h = see_ports-Witnessed _ _ _ s h

  settle_loop-Witnessed :
      (ports : List KillTargetPort) (left : ℕ) (s : Settling W)
      → Witnessed s
      → Witnessed (settle_loop probe ports left s)
  unfolding settle_loop
  settle_loop-Witnessed ports zero s h = h
  settle_loop-Witnessed ports (suc left) s h =
      let t = poll_ports probe ports (poll_exits probe s) in
      let polled = poll_ports-Witnessed ports (poll_exits probe s) (poll_exits-Witnessed s h) in
      elim (is_settled t)
        as (λ b.
          Witnessed
            (elim b [ true ↦ t | false ↦ settle_loop probe ports left (pause probe left t) ])) [
              | true ↦ polled
              | false ↦
                  settle_loop-Witnessed ports left (pause probe left t)
                    (pause-Witnessed left t polled)
            ]

  -- The error that is kept for a PID is one that a check of that PID gave.
  error_of-Failed :
      (pid : ℕ) (errors : List (ℕ × Text)) (error : Text)
      → All Failed errors
      → error_of pid errors ≡ some error
      → Failed (pid, error)
  unfolding error_of
  error_of-Failed pid [] error h e = cc
  error_of-Failed pid (first ∷ rest) error h e = elim (Bool-cases (first.0 == pid)) [
    | inr other ↦ error_of-Failed pid rest error h.1 (rw (other, error_of) at e)
    | inl same ↦
        let named : first.0 ≡ pid = (nat_beq_iff first.0 pid).0 same in
        let kept : first.1 ≡ error = let made = (rw (same, error_of) at e) in cc in
        subst (λ text. Failed (pid, text)) kept (subst (λ n. Failed (n, first.1)) named h.0)
  ]

  note_remaining-Failed :
      (identity : ProcessIdentity) (o : Option Text) (r : Remaining)
      → ((error : Text) → o ≡ some error → Failed (identity.pid, error))
      → All Failed r.unknown
      → All Failed (note_remaining identity o r).unknown
  unfolding note_remaining
  note_remaining-Failed identity none r f h = h
  note_remaining-Failed identity (some error) r f h =
      All-append Failed r.unknown ((identity.pid, error) ∷ []) h (f error refl, tt)

  split_pending-Failed :
      (rest : List ProcessIdentity) (errors : List (ℕ × Text)) (r : Remaining)
      → All Failed errors
      → All Failed r.unknown
      → All Failed (split_pending rest errors r).unknown
  unfolding split_pending
  split_pending-Failed [] errors r k h = h
  split_pending-Failed (identity ∷ rest) errors r k h =
      split_pending-Failed rest (remove_error identity.pid errors)
        (note_remaining identity (error_of identity.pid errors) r) (removed identity.pid errors k)
        (note_remaining-Failed identity (error_of identity.pid errors) r
          (λ error. error_of-Failed identity.pid errors error k) h)

  -- Every PID that is reported as exited is that of a settled process whose exit check answered
  -- that it had exited, and every PID that is reported as unknown is that of one whose check
  -- failed with the error in the report.
  pub reports_are_observed :
      (ports : List KillTargetPort) (w : W)
      → All Exited (settle probe ids ports w).exited × All Failed (settle probe ids ports w).unknown
  unfolding settle report_of start_settling
  reports_are_observed ports w =
      let start = start_settling ids ports w in
      let seen =
        settle_loop-Witnessed ports settle_attempts_max start
          (record { known = All-In ids; exits = tt; errors = tt }) in
      let s = settle_loop probe ports settle_attempts_max start in
      (
        sort_by-All leb Exited s.exited seen.exits,
        split_pending-Failed s.pending s.last_errors (record { running = []; unknown = [] })
            seen.errors tt,
      )

-- ===== src/Process/Stopped.antt =====
-- src/process.rs: the end of the termination of one process that was stopped for it.
use kickoutchi.Prelude.{ℕ, Bool, true, false, not, ◌&&◌, ◌||◌, Option, if◌then◌else◌, ◌==◌}
use kickoutchi.Observation.{ProcessStartMarker}
use kickoutchi.Process.{KillMode, kill_mode_eq, TerminationOutcome, success, thaw_failed}
use kickoutchi.Tree.{TreeSignalResult}
use kickoutchi.Tree.Deliver.{is_denied}

unfoldable pub is_success : TerminationOutcome → Bool
is_success success = true
is_success _ = false

unfoldable pub outcome_after_thaw : ℕ → TerminationOutcome → TreeSignalResult → TerminationOutcome
outcome_after_thaw pid prior thaw = if is_denied thaw then thaw_failed pid prior else prior

-- The closures `terminate` and `continue_process` over the state of the operating system.
module _ {S : Type 0} (terminate : KillMode → S → TerminationOutcome × S)
    (continue_process : ℕ → Option ProcessStartMarker → S → TreeSignalResult × S) where
  unfoldable pub thaw :
      ℕ → Option ProcessStartMarker → TerminationOutcome → S → TerminationOutcome × S
  thaw pid rollback_marker outcome s =
      let (result, s') = continue_process pid rollback_marker s in
      (outcome_after_thaw pid outcome result, s')

  unfoldable pub refuse_stopped_termination :
      ℕ → Bool → Option ProcessStartMarker → TerminationOutcome → S → TerminationOutcome × S
  unfolding thaw
  refuse_stopped_termination pid transitioned rollback_marker outcome s =
      if transitioned then thaw pid rollback_marker outcome s else (outcome, s)

  unfoldable pub finish_stopped_termination :
      ℕ → KillMode → Bool → Option ProcessStartMarker → S → TerminationOutcome × S
  unfolding thaw
  finish_stopped_termination pid mode transitioned rollback_marker s =
      let (outcome, s') = terminate mode s in
      if ((mode == KillMode.terminate) && is_success outcome)
        || (transitioned && not (is_success outcome))
      then thaw pid rollback_marker outcome s'
      else (outcome, s')

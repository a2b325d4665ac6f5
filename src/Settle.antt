-- ===== src/Settle.antt =====
-- src/cli/settle.rs: after a kill, the command line polls whether the processes exited and the
-- ports are gone. The reads that a test may inject are functions over a state `W`.
use kickoutchi.Prelude.{
  ℕ, zero, suc, Bool, true, false, Option, none, some, List, [], ◌∷◌, ◌++◌, map, if◌then◌else◌,
  ◌==◌, nat_eq, keep, sort_by, leb, Result, ok, err, not, ◌&&◌,
}
use kickoutchi.Prelude.Text.{Text}
use kickoutchi.Observation.{ProcessIdentity}
use kickoutchi.Process.{KillTargetPort}
use kickoutchi.Process.Target.{PortEntryView, port_of, port_order, dedup, kill_target_has_port}
pub mod Accounting
pub mod Observed
pub mod Visibility
pub mod Tests

abbrev pub settle_attempts_max : ℕ
settle_attempts_max = 20

-- Milliseconds.
abbrev pub settle_retry_delay : ℕ
settle_retry_delay = 100

pub data ExitObservation : Type 0 where
  exited running : ExitObservation
  unknown : Text → ExitObservation

pub data PortsStatus : Type 0 where
  not_checked cleared still_visible : PortsStatus
  refresh_failed : Text → PortsStatus

unfoldable pub is_still_visible : PortsStatus → Bool
is_still_visible PortsStatus.still_visible = true
is_still_visible PortsStatus.not_checked = false
is_still_visible PortsStatus.cleared = false
is_still_visible (PortsStatus.refresh_failed error) = false

pub record SettleReport : Type 0 where
  pub exited : List ℕ
  pub running : List ℕ
  pub unknown : List (ℕ × Text)
  pub ports : PortsStatus
  pub visible_ports : List KillTargetPort

pub record SettleProbe (W : Type 0) : Type 0 where
  pub collect_ports : W → Result (List PortEntryView) Text × W
  pub observe_exit : ProcessIdentity → W → ExitObservation × W
  pub sleep : ℕ → W → W

-- The map `last_errors` from PIDs: `remove`, `insert`, and what `remove` returns.
unfoldable pub remove_error : ℕ → List (ℕ × Text) → List (ℕ × Text)
remove_error pid errors = keep (λ e. not (e.0 == pid)) errors

unfoldable pub insert_error : ℕ → Text → List (ℕ × Text) → List (ℕ × Text)
unfolding remove_error
insert_error pid error errors = (pid, error) ∷ remove_error pid errors

unfoldable pub error_of : ℕ → List (ℕ × Text) → Option Text
error_of pid [] = none
error_of pid (e ∷ errors) = if e.0 == pid then some e.1 else error_of pid errors

unfoldable pub none_left : {A : Type 0} → List A → Bool
none_left [] = true
none_left (x ∷ xs) = false

unfoldable pub confirmed_ports_visible :
    List KillTargetPort → List PortEntryView → List KillTargetPort
confirmed_ports_visible ports entries =
    dedup (sort_by port_order (keep (kill_target_has_port ports) (map port_of entries)))

-- The variables of the loop.
pub record Settling (W : Type 0) : Type 0 where
  pub pending : List ProcessIdentity
  pub exited : List ℕ
  pub last_errors : List (ℕ × Text)
  pub ports_status : PortsStatus
  pub visible_ports : List KillTargetPort
  pub world : W

module _ {W : Type 0} where
  -- The closure of `pending.retain`, which puts an identity back unless it exited.
  unfoldable pub note_exit : ProcessIdentity → ExitObservation → W → Settling W → Settling W
  note_exit identity ExitObservation.exited w s = record {
    pending = s.pending;
    exited = s.exited ++ identity.pid ∷ [];
    last_errors = remove_error identity.pid s.last_errors;
    ports_status = s.ports_status;
    visible_ports = s.visible_ports;
    world = w;
  }
  note_exit identity ExitObservation.running w s = record {
    pending = s.pending ++ identity ∷ [];
    exited = s.exited;
    last_errors = remove_error identity.pid s.last_errors;
    ports_status = s.ports_status;
    visible_ports = s.visible_ports;
    world = w;
  }
  note_exit identity (ExitObservation.unknown error) w s = record {
    pending = s.pending ++ identity ∷ [];
    exited = s.exited;
    last_errors = insert_error identity.pid error s.last_errors;
    ports_status = s.ports_status;
    visible_ports = s.visible_ports;
    world = w;
  }

  unfoldable pub retain_running : SettleProbe W → List ProcessIdentity → Settling W → Settling W
  retain_running probe [] s = s
  retain_running probe (identity ∷ rest) s =
      let (seen, w) = probe.observe_exit identity s.world in
      retain_running probe rest (note_exit identity seen w s)

  unfoldable pub poll_exits : SettleProbe W → Settling W → Settling W
  poll_exits probe s = retain_running probe s.pending (record {
    pending = [];
    exited = s.exited;
    last_errors = s.last_errors;
    ports_status = s.ports_status;
    visible_ports = s.visible_ports;
    world = s.world;
  })

  unfoldable pub see_ports : PortsStatus → List KillTargetPort → W → Settling W → Settling W
  see_ports status visible w s = record {
    pending = s.pending;
    exited = s.exited;
    last_errors = s.last_errors;
    ports_status = status;
    visible_ports = visible;
    world = w;
  }

  unfoldable pub note_ports :
      List KillTargetPort → Result (List PortEntryView) Text → W → Settling W → Settling W
  note_ports ports (err error) w s = see_ports (PortsStatus.refresh_failed error) [] w s
  note_ports ports (ok entries) w s =
      let visible = confirmed_ports_visible ports entries in
      see_ports (if none_left visible then PortsStatus.cleared else PortsStatus.still_visible)
        visible w s

  unfoldable pub poll_ports : SettleProbe W → List KillTargetPort → Settling W → Settling W
  poll_ports probe ports s =
      let (read, w) = probe.collect_ports s.world in
      if is_still_visible s.ports_status then note_ports ports read w s else s

  unfoldable pub is_settled : Settling W → Bool
  is_settled s = none_left s.pending && not (is_still_visible s.ports_status)

  unfoldable pub pause : SettleProbe W → ℕ → Settling W → Settling W
  pause probe zero s = s
  pause probe (suc left) s =
      see_ports s.ports_status s.visible_ports (probe.sleep settle_retry_delay s.world) s

  -- The loop, with the attempts that are left.
  unfoldable pub settle_loop : SettleProbe W → List KillTargetPort → ℕ → Settling W → Settling W
  settle_loop probe ports zero s = s
  settle_loop probe ports (suc left) s =
      let t = poll_ports probe ports (poll_exits probe s) in
      elim (is_settled t) [ true ↦ t | false ↦ settle_loop probe ports left (pause probe left t) ]

-- The rest of the pending identities: those whose check kept failing, and the running ones.
pub record Remaining : Type 0 where
  pub running : List ℕ
  pub unknown : List (ℕ × Text)

unfoldable pub note_remaining : ProcessIdentity → Option Text → Remaining → Remaining
note_remaining identity none r = record {
  running = r.running ++ identity.pid ∷ [];
  unknown = r.unknown;
}
note_remaining identity (some error) r = record {
  running = r.running;
  unknown = r.unknown ++ (identity.pid, error) ∷ [];
}

unfoldable pub split_pending : List ProcessIdentity → List (ℕ × Text) → Remaining → Remaining
split_pending [] errors r = r
split_pending (identity ∷ rest) errors r =
    split_pending rest (remove_error identity.pid errors)
      (note_remaining identity (error_of identity.pid errors) r)

unfoldable pub report_of : {W : Type 0} → Settling W → SettleReport
report_of s =
    let r = split_pending s.pending s.last_errors (record { running = []; unknown = [] }) in
    record {
      exited = sort_by leb s.exited;
      running = sort_by leb r.running;
      unknown = r.unknown;
      ports = s.ports_status;
      visible_ports = s.visible_ports;
    }

unfoldable pub start_settling :
    {W : Type 0} → List ProcessIdentity → List KillTargetPort → W → Settling W
start_settling identities ports w = record {
  pending = identities;
  exited = [];
  last_errors = [];
  ports_status = if none_left ports then PortsStatus.not_checked else PortsStatus.still_visible;
  visible_ports = [];
  world = w;
}

unfoldable pub settle :
    {W : Type 0} → SettleProbe W → List ProcessIdentity → List KillTargetPort → W → SettleReport
settle probe identities ports w =
    report_of (settle_loop probe ports settle_attempts_max (start_settling identities ports w))

-- ===== src/Process.antt =====
-- src/process.rs: kill modes, the PIDs that are never signalled, and the confirmed target.
pub mod Target
pub mod Confirm
pub mod Stopped
pub mod Identity
pub mod PortOrder
pub mod Ports
pub mod Rows
pub mod Gates
mod Tests
use kickoutchi.Prelude.{
  ℕ, Bool, Option, none, some, List, if◌then◌else◌, ◌==◌, nat_eq, PartialEq, derive_eq,
}
use kickoutchi.Prelude.Text.{Text}
use kickoutchi.Model.{Platform, Protocol, PermissionStatus}
use kickoutchi.Observation.{ProcessStartMarker, IpAddr, Ipv6Scope}

pub data KillMode : Type 0 where
  terminate force : KillMode

unfoldable pub KillMode-discrete : Discrete KillMode
KillMode-discrete = hlevel

instance abbrev pub kill_mode_eq : PartialEq KillMode
kill_mode_eq = derive_eq KillMode-discrete

-- The Windows-only reason is not part of this build.
pub data UnsafePidReason : Type 0 where
  zero_pid one_pid current_process : UnsafePidReason

-- What the operating system says of this process: `std::process::id` and the effective user.
pub record Host : Type 0 where
  pub process_id : ℕ
  pub user_id : ℕ

unfoldable pub unsafe_pid_reason : Host → ℕ → Option UnsafePidReason
unsafe_pid_reason host pid =
    if pid == 0
    then some zero_pid
    else if pid == 1
    then some one_pid
    else if pid == host.process_id
    then some current_process
    else none

pub record KillTargetPort : Type 0 where
  pub protocol : Protocol
  pub local_addr : IpAddr
  pub local_port : ℕ
  pub ipv6_scope : Option Ipv6Scope

pub record KillTarget : Type 0 where
  pub pid : ℕ
  pub process_name : Option Text
  pub platform : Platform
  pub permission : PermissionStatus
  pub protected : Bool
  pub system_process : Bool
  pub ports : List KillTargetPort
  pub owner_uid : Option ℕ
  pub process_start_time_marker : Option ProcessStartMarker
  pub child_count : ℕ
  pub children_truncated : Bool

pub data ConfirmationRequirement : Type 0 where
  yes force_word protected_process : ConfirmationRequirement

pub data TerminationOutcome : Type 0 where
  success permission_denied ownership_unavailable already_exited cancelled : TerminationOutcome
  protected_process target_changed : TerminationOutcome
  unsafe_pid : (reason : UnsafePidReason) → TerminationOutcome
  unknown_failure : Text → TerminationOutcome
  thaw_failed : (pid : ℕ) (prior : TerminationOutcome) → TerminationOutcome

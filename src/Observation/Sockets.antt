-- ===== src/Observation/Sockets.antt =====
-- src/observation.rs: endpoints, sockets, their owners and the snapshot of a network. A gap
-- leaves out its message and the number of PIDs it affects; the path of an executable is its file
-- name alone, where that is UTF-8.
use kickoutchi.Prelude.{
  ℕ, Bool, true, false, not, ◌&&◌, Option, List, any, ◌==◌, nat_eq, PartialEq, derive_eq,
}
use kickoutchi.Prelude.Text.{Text}
use kickoutchi.Model.{Protocol}
use kickoutchi.Observation.{ProcessIdentity, IpAddr, Ipv6Scope}

pub record EndpointIdentity : Type 0 where
  pub protocol : Protocol
  pub address : IpAddr
  pub port : ℕ
  pub ipv6_scope : Option Ipv6Scope

pub data SocketState : Type 0 where
  closed listen syn_sent syn_received established fin_wait1 fin_wait2 : SocketState
  close_wait closing last_ack time_wait delete_tcb new_syn_received bound : SocketState
  unknown : ℕ → SocketState

pub data EvidenceGapCode : Type 0 where
  owner_permission_denied owner_attribution_incomplete owner_disappeared : EvidenceGapCode
  process_identity_unavailable process_metadata_unavailable : EvidenceGapCode
  native_field_unavailable scope_excluded : EvidenceGapCode
  noncritical_evidence_truncated observation_raced : EvidenceGapCode

pub data EvidenceImpact : Type 0 where
  socket_set ownership metadata scope : EvidenceImpact

unfoldable pub EvidenceImpact-discrete : Discrete EvidenceImpact
EvidenceImpact-discrete = hlevel

instance abbrev pub evidence_impact_eq : PartialEq EvidenceImpact
evidence_impact_eq = derive_eq EvidenceImpact-discrete

pub record EvidenceGap : Type 0 where
  pub impact : EvidenceImpact
  pub code : EvidenceGapCode
  pub endpoint : Option EndpointIdentity
  pub pid : Option ℕ

pub data OwnerCompleteness : Type 0 where
  complete : OwnerCompleteness
  partial : List EvidenceGapCode → OwnerCompleteness
  raced : OwnerCompleteness

unfoldable pub is_complete : OwnerCompleteness → Bool
is_complete OwnerCompleteness.complete = true
is_complete (OwnerCompleteness.partial reasons) = false
is_complete OwnerCompleteness.raced = false

pub data UnverifiedOwnerReason : Type 0 where
  permission_denied disappeared identity_unavailable raced : UnverifiedOwnerReason

pub data OwnerObservation : Type 0 where
  verified : ProcessIdentity → OwnerObservation
  unverified_pid : ℕ → UnverifiedOwnerReason → OwnerObservation

pub data TcpTimerKind : Type 0 where
  none retransmit other time_wait zero_window_probe : TcpTimerKind
  unknown : ℕ → TcpTimerKind

pub record TcpTimerObservation : Type 0 where
  pub kind : TcpTimerKind
  pub native_code : Option ℕ
  pub raw_ticks : ℕ
  pub estimated_remaining_milliseconds : Option ℕ

pub data PlatformSocketToken : Type 0 where
  linux_inode macos_socket_id : ℕ → PlatformSocketToken

pub record SocketObservation : Type 0 where
  pub local_endpoint : EndpointIdentity
  pub state : SocketState
  pub timer : Option TcpTimerObservation
  pub owners : List OwnerObservation
  pub owner_completeness : OwnerCompleteness
  pub socket_token : Option PlatformSocketToken
  pub local_uid : Option ℕ

pub data SnapshotCompleteness : Type 0 where
  complete partial raced : SnapshotCompleteness

unfoldable pub SnapshotCompleteness-discrete : Discrete SnapshotCompleteness
SnapshotCompleteness-discrete = hlevel

instance abbrev pub snapshot_completeness_eq : PartialEq SnapshotCompleteness
snapshot_completeness_eq = derive_eq SnapshotCompleteness-discrete

pub data ObservationScopeKind : Type 0 where
  current_network_namespace current_host_process_visible_sockets : ObservationScopeKind
  current_host_network_stack : ObservationScopeKind

pub data MetadataCompleteness : Type 0 where
  complete partial : MetadataCompleteness

pub record ProcessObservation : Type 0 where
  pub name : Option Text
  pub executable_name : Option Text
  pub parent_pid : Option ℕ
  pub parent_process_name : Option Text
  pub metadata_completeness : MetadataCompleteness

pub record NetworkSnapshot : Type 0 where
  pub scope : ObservationScopeKind
  pub completeness : SnapshotCompleteness
  pub owner_completeness : OwnerCompleteness
  pub evidence_gaps : List EvidenceGap
  pub omitted_evidence_gap_count : ℕ
  pub sockets : List SocketObservation
  pub processes : ProcessIdentity → Option ProcessObservation

unfoldable pub socket_set_diff_safe : NetworkSnapshot → Bool
socket_set_diff_safe s =
    not (s.completeness == SnapshotCompleteness.raced)
    && (s.omitted_evidence_gap_count == 0)
    && not (any (λ gap. gap.impact == EvidenceImpact.socket_set) s.evidence_gaps)

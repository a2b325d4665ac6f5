-- ===== src/Observation/Compare.antt =====
-- The orders of src/observation.rs. A derived `Ord` compares the number of the variant and then the
-- fields, here as a tuple of numbers.
use kickoutchi.Prelude.{
  ℕ, ◌≡◌, refl, Option, none, some, List, [], ◌∷◌, ◌++◌, map, Ordering, compare, then_with,
  compare_slices, compare_keys, compare_keys_self, compare_slices_self,
}
use kickoutchi.Prelude.Text.{Text, codes}
use kickoutchi.Model.{Protocol, tcp, udp}
use kickoutchi.Observation.{
  ProcessStartMarker, linux_start_ticks, macos_start_time, windows_creation_time, IpAddr, v4, v6,
  Ipv6Scope, unscoped, interface_index, unavailable,
}
use kickoutchi.Observation.Sockets.{
  EndpointIdentity, SocketState, EvidenceGapCode, OwnerCompleteness, UnverifiedOwnerReason,
  OwnerObservation, verified, unverified_pid, TcpTimerKind, TcpTimerObservation,
  PlatformSocketToken, linux_inode, macos_socket_id,
}

unfoldable pub protocol_key : Protocol → ℕ
protocol_key tcp = 0
protocol_key udp = 1

unfoldable pub address_key : IpAddr → List ℕ
address_key (v4 bits) = 0 ∷ bits ∷ []
address_key (v6 bits) = 1 ∷ bits ∷ []

unfoldable pub scope_key : Option Ipv6Scope → List ℕ
scope_key none = 0 ∷ 0 ∷ []
scope_key (some unscoped) = 1 ∷ 0 ∷ []
scope_key (some (interface_index index)) = 2 ∷ index ∷ []
scope_key (some unavailable) = 3 ∷ 0 ∷ []

unfoldable pub endpoint_key : EndpointIdentity → List ℕ
unfolding protocol_key address_key scope_key
endpoint_key e =
    protocol_key e.protocol ∷ (address_key e.address ++ (scope_key e.ipv6_scope ++ e.port ∷ []))

unfoldable pub compare_endpoint_identity : EndpointIdentity → EndpointIdentity → Ordering
compare_endpoint_identity left right = compare_keys (endpoint_key left) (endpoint_key right)

-- `SocketState::order_key`.
unfoldable pub order_key : SocketState → List ℕ
order_key SocketState.closed = 0 ∷ 0 ∷ []
order_key SocketState.listen = 1 ∷ 0 ∷ []
order_key SocketState.syn_sent = 2 ∷ 0 ∷ []
order_key SocketState.syn_received = 3 ∷ 0 ∷ []
order_key SocketState.established = 4 ∷ 0 ∷ []
order_key SocketState.fin_wait1 = 5 ∷ 0 ∷ []
order_key SocketState.fin_wait2 = 6 ∷ 0 ∷ []
order_key SocketState.close_wait = 7 ∷ 0 ∷ []
order_key SocketState.closing = 8 ∷ 0 ∷ []
order_key SocketState.last_ack = 9 ∷ 0 ∷ []
order_key SocketState.time_wait = 10 ∷ 0 ∷ []
order_key SocketState.delete_tcb = 11 ∷ 0 ∷ []
order_key SocketState.new_syn_received = 12 ∷ 0 ∷ []
order_key SocketState.bound = 13 ∷ 0 ∷ []
order_key (SocketState.unknown code) = 14 ∷ code ∷ []

unfoldable pub marker_key : ProcessStartMarker → List ℕ
marker_key (linux_start_ticks ticks) = 0 ∷ ticks ∷ []
marker_key (macos_start_time seconds microseconds) = 1 ∷ seconds ∷ microseconds ∷ []
marker_key (windows_creation_time ticks) = 2 ∷ ticks ∷ []

unfoldable pub reason_key : UnverifiedOwnerReason → ℕ
reason_key UnverifiedOwnerReason.permission_denied = 0
reason_key UnverifiedOwnerReason.disappeared = 1
reason_key UnverifiedOwnerReason.identity_unavailable = 2
reason_key UnverifiedOwnerReason.raced = 3

unfoldable pub owner_key : OwnerObservation → List ℕ
unfolding marker_key reason_key
owner_key (verified identity) = 0 ∷ identity.pid ∷ marker_key identity.start_marker
owner_key (unverified_pid pid reason) = 1 ∷ pid ∷ reason_key reason ∷ []

unfoldable pub compare_owners : List OwnerObservation → List OwnerObservation → Ordering
compare_owners left right = compare_slices compare_keys (map owner_key left) (map owner_key right)

unfoldable pub timer_kind_key : TcpTimerKind → List ℕ
timer_kind_key TcpTimerKind.none = 0 ∷ 0 ∷ []
timer_kind_key TcpTimerKind.retransmit = 1 ∷ 0 ∷ []
timer_kind_key TcpTimerKind.other = 2 ∷ 0 ∷ []
timer_kind_key TcpTimerKind.time_wait = 3 ∷ 0 ∷ []
timer_kind_key TcpTimerKind.zero_window_probe = 4 ∷ 0 ∷ []
timer_kind_key (TcpTimerKind.unknown code) = 5 ∷ code ∷ []

-- A number that may be missing, which comes first.
unfoldable pub optional_key : Option ℕ → List ℕ
optional_key none = 0 ∷ 0 ∷ []
optional_key (some n) = 1 ∷ n ∷ []

unfoldable pub timer_key : Option TcpTimerObservation → List ℕ
unfolding timer_kind_key optional_key
timer_key none = 0 ∷ []
timer_key (some t) =
    1
    ∷ (timer_kind_key t.kind
        ++ (optional_key t.native_code
            ++ t.raw_ticks ∷ optional_key t.estimated_remaining_milliseconds))

unfoldable pub token_key : PlatformSocketToken → List ℕ
token_key (linux_inode inode) = 0 ∷ inode ∷ []
token_key (macos_socket_id id) = 1 ∷ id ∷ []

-- `EvidenceGapCode::name`.
unfoldable pub gap_code_name : EvidenceGapCode → Text
gap_code_name EvidenceGapCode.owner_permission_denied = codes "owner_permission_denied"
gap_code_name EvidenceGapCode.owner_attribution_incomplete = codes "owner_attribution_incomplete"
gap_code_name EvidenceGapCode.owner_disappeared = codes "owner_disappeared"
gap_code_name EvidenceGapCode.process_identity_unavailable = codes "process_identity_unavailable"
gap_code_name EvidenceGapCode.process_metadata_unavailable = codes "process_metadata_unavailable"
gap_code_name EvidenceGapCode.native_field_unavailable = codes "native_field_unavailable"
gap_code_name EvidenceGapCode.scope_excluded = codes "scope_excluded"
gap_code_name EvidenceGapCode.noncritical_evidence_truncated =
    codes "noncritical_evidence_truncated"
gap_code_name EvidenceGapCode.observation_raced = codes "observation_raced"

unfoldable pub owner_completeness_rank : OwnerCompleteness → ℕ
owner_completeness_rank OwnerCompleteness.complete = 0
owner_completeness_rank (OwnerCompleteness.partial reasons) = 1
owner_completeness_rank OwnerCompleteness.raced = 2

unfoldable pub compare_reasons : OwnerCompleteness → OwnerCompleteness → Ordering
compare_reasons (OwnerCompleteness.partial left) (OwnerCompleteness.partial right) =
    compare_slices compare_keys (map gap_code_name left) (map gap_code_name right)
compare_reasons OwnerCompleteness.complete right = Ordering.eq
compare_reasons OwnerCompleteness.raced right = Ordering.eq
compare_reasons (OwnerCompleteness.partial left) OwnerCompleteness.complete = Ordering.eq
compare_reasons (OwnerCompleteness.partial left) OwnerCompleteness.raced = Ordering.eq

unfoldable pub compare_owner_completeness : OwnerCompleteness → OwnerCompleteness → Ordering
unfolding owner_completeness_rank compare_reasons
compare_owner_completeness left right =
    then_with (compare (owner_completeness_rank left) (owner_completeness_rank right))
      (compare_reasons left right)

pub compare_owners_self :
    (owners : List OwnerObservation) → compare_owners owners owners ≡ Ordering.eq
unfolding compare_owners
compare_owners_self owners =
    compare_slices_self compare_keys compare_keys_self (map owner_key owners)

pub compare_owner_completeness_self :
    (c : OwnerCompleteness) → compare_owner_completeness c c ≡ Ordering.eq
unfolding compare_owner_completeness
compare_owner_completeness_self OwnerCompleteness.complete = refl
compare_owner_completeness_self (OwnerCompleteness.partial reasons) =
    compare_slices_self compare_keys compare_keys_self (map gap_code_name reasons)
compare_owner_completeness_self OwnerCompleteness.raced = refl

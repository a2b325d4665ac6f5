-- ===== src/Diagnostic.antt =====
-- src/diagnostic/verdict.rs: how an endpoint relates to an observed one, and the verdict on a bind
-- probe. The outcome of a probe and the IPv6 mode are the enums of src/probe.rs.
use kickoutchi.Prelude.{
  Bool, true, false, not, ◌&&◌, ◌||◌, Option, List, [], ◌∷◌, if◌then◌else◌, any, keep, ◌==◌, nat_eq,
  option_eq, is_some_and, PartialEq, derive_eq,
}
use kickoutchi.Model.{tcp, udp, protocol_eq}
use kickoutchi.Observation.{IpAddr, ip_addr_eq, v4, v6, Ipv6Scope, ipv6_scope_eq, unavailable}
use kickoutchi.Observation.Sockets.{
  EndpointIdentity, SocketState, OwnerObservation, verified, unverified_pid, SocketObservation,
  NetworkSnapshot, SnapshotCompleteness, snapshot_completeness_eq, socket_set_diff_safe,
  is_complete,
}
pub mod Relationship
pub mod Verdicts
pub mod Tests

pub data Ipv6Mode : Type 0 where
  system_default v6_only dual_stack : Ipv6Mode

unfoldable pub Ipv6Mode-discrete : Discrete Ipv6Mode
Ipv6Mode-discrete = hlevel

instance abbrev pub ipv6_mode_eq : PartialEq Ipv6Mode
ipv6_mode_eq = derive_eq Ipv6Mode-discrete

pub data ProbeOutcome : Type 0 where
  bindable_now address_in_use permission_denied : ProbeOutcome
  address_unavailable unsupported other : ProbeOutcome

pub data Verdict : Type 0 where
  bindable_now owned owner_hidden kernel_state_observed permission_denied : Verdict
  address_unavailable reservation_or_policy_unknown observation_raced : Verdict
  unsupported indeterminate : Verdict

pub data EndpointRelationship : Type 0 where
  exact observed_wildcard_covers_target target_wildcard_covers_observed : EndpointRelationship
  potential_dual_stack_overlap potential_scope_overlap unrelated : EndpointRelationship

unfoldable pub EndpointRelationship-discrete : Discrete EndpointRelationship
EndpointRelationship-discrete = hlevel

instance abbrev pub relationship_eq : PartialEq EndpointRelationship
relationship_eq = derive_eq EndpointRelationship-discrete

unfoldable pub authoritative : EndpointRelationship → Bool
authoritative exact = true
authoritative observed_wildcard_covers_target = true
authoritative target_wildcard_covers_observed = true
authoritative potential_dual_stack_overlap = false
authoritative potential_scope_overlap = false
authoritative unrelated = false

unfoldable pub address_relationship : Bool → Bool → Bool → EndpointRelationship
address_relationship observed_wildcard target_wildcard equal =
    if equal
    then exact
    else if observed_wildcard
    then observed_wildcard_covers_target
    else if target_wildcard
    then target_wildcard_covers_observed
    else unrelated

unfoldable pub authoritative_scopes_equal : Option Ipv6Scope → Option Ipv6Scope → Bool
authoritative_scopes_equal observed target =
    (observed == target) && is_some_and observed (λ scope. not (scope == unavailable))

-- `relationship` on two endpoints with the same protocol and port, by their addresses; a wildcard
-- is the address 0.
unfoldable pub related_addresses :
    Option Ipv6Scope → Option Ipv6Scope → Ipv6Mode → IpAddr → IpAddr → EndpointRelationship
related_addresses scope target_scope mode (v4 a) (v4 b) =
    address_relationship (a == 0) (b == 0) (a == b)
related_addresses scope target_scope mode (v6 a) (v6 b) =
    let base = address_relationship (a == 0) (b == 0) (a == b) in
    if base == unrelated
    then base
    else if authoritative_scopes_equal scope target_scope
    then base
    else potential_scope_overlap
related_addresses scope target_scope mode (v6 a) (v4 b) =
    if (a == 0) && not (mode == Ipv6Mode.v6_only) then potential_dual_stack_overlap else unrelated
related_addresses scope target_scope mode (v4 a) (v6 b) =
    if (b == 0) && not (mode == Ipv6Mode.v6_only) then potential_dual_stack_overlap else unrelated

unfoldable pub relationship : EndpointIdentity → EndpointIdentity → Ipv6Mode → EndpointRelationship
relationship observed target mode =
    if not (observed.protocol == target.protocol) || not (observed.port == target.port)
    then unrelated
    else related_addresses observed.ipv6_scope target.ipv6_scope mode observed.address
        target.address

unfoldable pub is_authoritative : EndpointIdentity → Ipv6Mode → SocketObservation → Bool
is_authoritative endpoint mode socket =
    authoritative (relationship socket.local_endpoint endpoint mode)

unfoldable pub authoritative_sockets :
    EndpointIdentity → Ipv6Mode → NetworkSnapshot → List SocketObservation
authoritative_sockets endpoint mode s = keep (is_authoritative endpoint mode) s.sockets

unfoldable pub is_listen : SocketState → Bool
is_listen SocketState.listen = true
is_listen _ = false

unfoldable pub is_bound : SocketState → Bool
is_bound SocketState.bound = true
is_bound _ = false

unfoldable pub active_socket : SocketObservation → Bool
active_socket socket =
    ((socket.local_endpoint.protocol == tcp) && is_listen socket.state)
    || ((socket.local_endpoint.protocol == udp) && is_bound socket.state)

unfoldable pub silent_state : SocketState → Bool
silent_state SocketState.closed = true
silent_state SocketState.listen = true
silent_state (SocketState.unknown code) = true
silent_state _ = false

unfoldable pub relevant_non_listening_tcp_state : SocketObservation → Bool
relevant_non_listening_tcp_state socket =
    (socket.local_endpoint.protocol == tcp) && not (silent_state socket.state)

unfoldable pub is_verified : OwnerObservation → Bool
is_verified (verified identity) = true
is_verified (unverified_pid pid reason) = false

unfoldable pub is_empty : List OwnerObservation → Bool
is_empty [] = true
is_empty (owner ∷ owners) = false

unfoldable pub owner_possibly_hidden : SocketObservation → NetworkSnapshot → Bool
owner_possibly_hidden socket s =
    any (λ owner. not (is_verified owner)) socket.owners
    || not (is_complete socket.owner_completeness)
    || (is_empty socket.owners && not (is_complete s.owner_completeness))

-- The three flags of the loop of `address_in_use_verdict`.
pub record Flags : Type 0 where
  pub hidden_owner : Bool
  pub ownerless_active : Bool
  pub kernel_state : Bool

unfoldable pub note_active : NetworkSnapshot → SocketObservation → Flags → Flags
note_active s socket flags =
    if owner_possibly_hidden socket s
    then record {
      hidden_owner = true;
      ownerless_active = flags.ownerless_active;
      kernel_state = flags.kernel_state;
    }
    else if is_empty socket.owners
    then record {
      hidden_owner = flags.hidden_owner;
      ownerless_active = true;
      kernel_state = flags.kernel_state;
    }
    else flags

unfoldable pub note_inactive : SocketObservation → Flags → Flags
note_inactive socket flags =
    if relevant_non_listening_tcp_state socket
    then record {
      hidden_owner = flags.hidden_owner;
      ownerless_active = flags.ownerless_active;
      kernel_state = true;
    }
    else flags

unfoldable pub verdict_of : Flags → Verdict
verdict_of flags =
    if flags.hidden_owner
    then Verdict.owner_hidden
    else if flags.ownerless_active || flags.kernel_state
    then Verdict.kernel_state_observed
    else Verdict.reservation_or_policy_unknown

-- The loop: a verified owner of an active socket ends it.
unfoldable pub scan_sockets : NetworkSnapshot → List SocketObservation → Flags → Verdict
scan_sockets s [] flags = verdict_of flags
scan_sockets s (socket ∷ rest) flags =
    if active_socket socket
    then if any is_verified socket.owners
      then Verdict.owned
      else scan_sockets s rest (note_active s socket flags)
    else scan_sockets s rest (note_inactive socket flags)

unfoldable pub address_in_use_verdict : EndpointIdentity → Ipv6Mode → NetworkSnapshot → Verdict
address_in_use_verdict endpoint mode s =
    if not (socket_set_diff_safe s)
    then Verdict.reservation_or_policy_unknown
    else scan_sockets s (authoritative_sockets endpoint mode s)
        (record { hidden_owner = false; ownerless_active = false; kernel_state = false })

unfoldable pub select_verdict :
    EndpointIdentity → Ipv6Mode → NetworkSnapshot → ProbeOutcome → Verdict
select_verdict endpoint mode s ProbeOutcome.bindable_now = Verdict.bindable_now
select_verdict endpoint mode s ProbeOutcome.address_unavailable = Verdict.address_unavailable
select_verdict endpoint mode s ProbeOutcome.unsupported = Verdict.unsupported
select_verdict endpoint mode s ProbeOutcome.permission_denied = Verdict.permission_denied
select_verdict endpoint mode s ProbeOutcome.other =
    if s.completeness == SnapshotCompleteness.raced
    then Verdict.observation_raced
    else Verdict.indeterminate
select_verdict endpoint mode s ProbeOutcome.address_in_use = address_in_use_verdict endpoint mode s

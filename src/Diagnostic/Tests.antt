-- ===== src/Diagnostic/Tests.antt =====
-- Endpoints of src/observation.rs and verdicts of src/diagnostic/verdict.rs on concrete sockets.
use kickoutchi.Prelude.{◌≡◌, ◌↔◌, refl, ℕ, true, ◌&&◌, Option, none, some, ok, List, [], ◌∷◌, any}
use kickoutchi.Model.{tcp, Protocol-discrete}
use kickoutchi.Observation.{v4, v6, unscoped, linux_start_ticks, ProcessIdentity, IpAddr, Ipv6Scope}
use kickoutchi.Observation.Sockets.{
  current_network_namespace, EndpointIdentity, SocketState, OwnerObservation, SocketObservation,
  verified, unverified_pid, UnverifiedOwnerReason, OwnerCompleteness, SnapshotCompleteness,
  NetworkSnapshot, socket_set_diff_safe, SnapshotCompleteness-discrete,
}
use kickoutchi.Observation.Endpoint.{
  new, checked_port, checked_scope, was_ipv4_mapped, canonical_address, unmapped, to_ipv4_mapped,
}
use kickoutchi.Observation.Canonical.{new-new}
use kickoutchi.Diagnostic.{
  Ipv6Mode, ProbeOutcome, Verdict, relationship, related_addresses, address_relationship,
  authoritative, address_in_use_verdict, select_verdict, is_authoritative, active_socket, is_listen,
  is_bound, is_verified,
}
use kickoutchi.Diagnostic.Relationship.{other_side, relationship_symmetric}
use kickoutchi.Diagnostic.Verdicts.{shows_owner, address_in_use_rank, owned_iff}

abbrev endpoint_at : IpAddr → Option Ipv6Scope → EndpointIdentity
endpoint_at a scope = record { protocol = tcp; address = a; port = 8080; ipv6_scope = scope }

abbrev any_address : EndpointIdentity
any_address = endpoint_at (v4 0) none

abbrev localhost : EndpointIdentity
localhost = endpoint_at (v4 2130706433) none

abbrev mapped_localhost : ℕ
mapped_localhost = 281472812449793

new-localhost : new tcp (v6 mapped_localhost) 8080 (some unscoped) ≡ ok localhost
unfolding new checked_port checked_scope was_ipv4_mapped canonical_address unmapped to_ipv4_mapped
new-localhost = refl

new-new_example : new tcp (v4 2130706433) 8080 none ≡ ok localhost
new-new_example = new-new tcp (v6 mapped_localhost) 8080 (some unscoped) localhost new-localhost

relationship_symmetric_example :
    relationship localhost any_address Ipv6Mode.system_default
    ≡ other_side (relationship any_address localhost Ipv6Mode.system_default)
relationship_symmetric_example =
    relationship_symmetric any_address localhost Ipv6Mode.system_default

abbrev socket_with : SocketState → List OwnerObservation → SocketObservation
socket_with state owners = record {
  local_endpoint = any_address;
  state = state;
  timer = none;
  owners = owners;
  owner_completeness = OwnerCompleteness.complete;
  socket_token = none;
  local_uid = none;
}

abbrev server : ProcessIdentity
server = record { pid = 4242; start_marker = linux_start_ticks 900 }

abbrev two_listeners : NetworkSnapshot
two_listeners = record {
  scope = current_network_namespace;
  completeness = SnapshotCompleteness.partial;
  owner_completeness = OwnerCompleteness.complete;
  evidence_gaps = [];
  omitted_evidence_gap_count = 0;
  sockets =
      socket_with SocketState.time_wait []
      ∷ socket_with SocketState.listen (unverified_pid 77 UnverifiedOwnerReason.disappeared ∷ [])
      ∷ socket_with SocketState.listen (verified server ∷ [])
      ∷ [];
  processes = λ identity. none;
}

address_in_use_rank_example :
    address_in_use_verdict localhost Ipv6Mode.dual_stack two_listeners ≡ Verdict.owned
unfolding socket_set_diff_safe SnapshotCompleteness-discrete is_authoritative authoritative
    relationship related_addresses address_relationship active_socket is_listen is_bound is_verified
    Protocol-discrete
address_in_use_rank_example = address_in_use_rank localhost Ipv6Mode.dual_stack two_listeners

owned_iff_example :
    (select_verdict localhost Ipv6Mode.dual_stack two_listeners ProbeOutcome.address_in_use
      ≡ Verdict.owned)
    ↔ ((ProbeOutcome.address_in_use ≡ ProbeOutcome.address_in_use)
        × (socket_set_diff_safe two_listeners ≡ true)
        × (any
              (λ k. is_authoritative localhost Ipv6Mode.dual_stack k && shows_owner k)
              two_listeners.sockets
            ≡ true))
owned_iff_example =
    owned_iff localhost Ipv6Mode.dual_stack two_listeners ProbeOutcome.address_in_use

-- ===== src/Diagnostic/Verdicts.antt =====
-- The verdict of src/diagnostic/verdict.rs as a choice among all the sockets of the snapshot.
use kickoutchi.Prelude.{
  ◌≡◌, ◌↔◌, refl, Bool, true, false, not, ◌&&◌, ◌||◌, List, [], ◌∷◌, if◌then◌else◌, arith, any,
  keep,
}
use kickoutchi.Observation.Sockets.{
  EndpointIdentity, SocketObservation, NetworkSnapshot, socket_set_diff_safe,
}
use kickoutchi.Diagnostic.{
  Ipv6Mode, Verdict, ProbeOutcome, select_verdict, is_authoritative, authoritative_sockets,
  active_socket, relevant_non_listening_tcp_state, is_verified, is_empty, owner_possibly_hidden,
  Flags, note_active, note_inactive, verdict_of, scan_sockets, address_in_use_verdict,
}

-- An active socket with a verified owner, one whose owner may be hidden, and one that only the
-- state of the kernel explains.
abbrev pub shows_owner : SocketObservation → Bool
shows_owner k = active_socket k && any is_verified k.owners

abbrev pub hides_owner : NetworkSnapshot → SocketObservation → Bool
hides_owner s k = active_socket k && owner_possibly_hidden k s

abbrev pub shows_kernel_state : SocketObservation → Bool
shows_kernel_state k =
    if active_socket k then is_empty k.owners else relevant_non_listening_tcp_state k

abbrev rank : Bool → Bool → Bool → Verdict
rank true hidden kernel = Verdict.owned
rank false true kernel = Verdict.owner_hidden
rank false false true = Verdict.kernel_state_observed
rank false false false = Verdict.reservation_or_policy_unknown

scan_rank :
    (s : NetworkSnapshot) (ks : List SocketObservation) (flags : Flags)
    → scan_sockets s ks flags
      ≡ rank
          (any shows_owner ks)
          (flags.hidden_owner || any (hides_owner s) ks)
          ((flags.ownerless_active || flags.kernel_state) || any shows_kernel_state ks)
unfolding scan_sockets verdict_of note_active note_inactive
scan_rank s [] flags = ground arith
scan_rank s (k ∷ ks) flags =
    ground (arith, scan_rank s ks (note_active s k flags), scan_rank s ks (note_inactive k flags))

any-keep :
    (p q : SocketObservation → Bool) (ks : List SocketObservation)
    → any p (keep q ks) ≡ any (λ k. q k && p k) ks
any-keep p q [] = refl
any-keep p q (k ∷ ks) = ground (arith, any-keep p q ks)

-- For an endpoint that is in use, the sockets of a reliable snapshot that concern the endpoint
-- decide by rank: a verified owner of an active one, then an owner that may be hidden, then a state
-- of the kernel, and otherwise nothing is known. An unreliable snapshot decides nothing.
pub address_in_use_rank :
    (e : EndpointIdentity) (mode : Ipv6Mode) (s : NetworkSnapshot)
    → address_in_use_verdict e mode s ≡ (
        if not (socket_set_diff_safe s)
        then Verdict.reservation_or_policy_unknown
        else if any (λ k. is_authoritative e mode k && shows_owner k) s.sockets
        then Verdict.owned
        else if any (λ k. is_authoritative e mode k && hides_owner s k) s.sockets
        then Verdict.owner_hidden
        else if any (λ k. is_authoritative e mode k && shows_kernel_state k) s.sockets
        then Verdict.kernel_state_observed
        else Verdict.reservation_or_policy_unknown)
unfolding address_in_use_verdict authoritative_sockets
address_in_use_rank e mode s =
    let p = is_authoritative e mode in
    ground (
      arith,
      scan_rank s (keep p s.sockets)
          (record { hidden_owner = false; ownerless_active = false; kernel_state = false }),
      any-keep shows_owner p s.sockets,
      any-keep (hides_owner s) p s.sockets,
      any-keep shows_kernel_state p s.sockets,
    )

-- A probe is explained by an owner exactly when it found the address in use, the snapshot is
-- reliable, and an active socket that concerns the endpoint has a verified owner.
pub owned_iff :
    (e : EndpointIdentity) (mode : Ipv6Mode) (s : NetworkSnapshot) (outcome : ProbeOutcome)
    → (select_verdict e mode s outcome ≡ Verdict.owned) ↔ (
        (outcome ≡ ProbeOutcome.address_in_use)
        × (socket_set_diff_safe s ≡ true)
        × (any (λ k. is_authoritative e mode k && shows_owner k) s.sockets ≡ true))
unfolding select_verdict
owned_iff e mode s ProbeOutcome.bindable_now = (λ h. cc, λ h. cc)
owned_iff e mode s ProbeOutcome.permission_denied = (λ h. cc, λ h. cc)
owned_iff e mode s ProbeOutcome.address_unavailable = (λ h. cc, λ h. cc)
owned_iff e mode s ProbeOutcome.unsupported = (λ h. cc, λ h. cc)
owned_iff e mode s ProbeOutcome.other = (λ h. ground arith, λ h. ground arith)
owned_iff e mode s ProbeOutcome.address_in_use = (
  λ h. (
    refl,
    ground (arith, address_in_use_rank e mode s),
    ground (arith, address_in_use_rank e mode s),
  ),
  λ h. ground (arith, address_in_use_rank e mode s, h.1),
)

-- ===== src/Collector/Attribution.antt =====
-- What a socket adds to the authority of a kill by port (src/collector.rs, `socket_authority`).
use kickoutchi.Prelude.{
  ℕ, ◌≡◌, refl, ◌∙◌, Bool, true, false, not, ◌&&◌, ◌||◌, none, List, [], ◌∷◌, any, nat_eq, arith,
}
use kickoutchi.Model.{protocol_eq}
use kickoutchi.Observation.Sockets.{
  evidence_impact_eq, OwnerCompleteness, OwnerObservation, verified, unverified_pid,
  SocketObservation, snapshot_completeness_eq, is_complete,
}
use kickoutchi.Diagnostic.{is_verified, is_empty}
use kickoutchi.Collector.{
  port, Authority, merge, merge_if, is_permission_code, is_raced_owner, has_permission_gap,
  is_permission_owner, holders_authority, socket_authority,
}

abbrev pub is_attributed : SocketObservation → Bool
is_attributed socket =
    not (is_empty socket.owners)
    && (not (any (λ owner. not (is_verified owner)) socket.owners)
        && is_complete socket.owner_completeness)

abbrev pub is_full : Authority → Bool
is_full Authority.complete = true
is_full Authority.partial = false
is_full Authority.permission_denied = false
is_full Authority.raced = false

pub merge-is_full : (a b : Authority) → is_full (merge a b) ≡ is_full a && is_full b
merge-is_full Authority.complete Authority.complete = refl
merge-is_full Authority.complete Authority.partial = refl
merge-is_full Authority.complete Authority.permission_denied = refl
merge-is_full Authority.complete Authority.raced = refl
merge-is_full Authority.partial b = ground arith
merge-is_full Authority.permission_denied b = ground arith
merge-is_full Authority.raced b = ground arith

-- Only a merge that happens, of less than complete authority, makes it incomplete.
pub merge_if-is_full :
    (test : Bool) (other a : Authority)
    → is_full other ≡ false
    → is_full (merge_if test other a) ≡ not test && is_full a
merge_if-is_full false other a h = refl
merge_if-is_full true other a h = ground (arith, merge-is_full a other)

permission_owner_unverified :
    (owners : List OwnerObservation)
    → any (λ owner. not (is_verified owner)) owners ≡ false
    → any is_permission_owner owners ≡ false
unfolding is_verified is_permission_owner
permission_owner_unverified [] h = refl
permission_owner_unverified (verified identity ∷ owners) h = permission_owner_unverified owners h
permission_owner_unverified (unverified_pid pid reason ∷ owners) h = absurd cc

-- What the completeness of the attribution alone decides.
attributed_completeness :
    (c : OwnerCompleteness)
    → is_full (
        merge_if (is_raced_owner c || false) Authority.raced (
          merge_if
            (has_permission_gap c || false)
            Authority.permission_denied
            (merge_if (false || not (is_complete c)) Authority.partial Authority.complete)))
      ≡ is_complete c
unfolding is_raced_owner has_permission_gap is_complete
attributed_completeness OwnerCompleteness.complete = refl
attributed_completeness (OwnerCompleteness.partial reasons) =
    rw
      (merge_if-is_full (any is_permission_code reasons || false) Authority.permission_denied
        Authority.partial refl)
      (ground arith)
attributed_completeness OwnerCompleteness.raced = refl

holders_lem :
    (permission empty unverified : Bool) (a : Authority)
    → (unverified ≡ false → permission ≡ false)
    → is_full (
        merge_if permission Authority.permission_denied
          (merge_if (empty || unverified) Authority.partial a))
      ≡ not empty && (not unverified && is_full a)
holders_lem permission false false a h = rw (h refl)
holders_lem permission true unverified a h =
    rw
      (merge_if-is_full permission Authority.permission_denied (merge_if true Authority.partial a)
        refl)
      (ground (arith, merge_if-is_full true Authority.partial a refl))
holders_lem permission false true a h =
    rw
      (merge_if-is_full permission Authority.permission_denied (merge_if true Authority.partial a)
        refl)
      (ground (arith, merge_if-is_full true Authority.partial a refl))

pub socket_authority_lem :
    (n : ℕ) (socket : SocketObservation)
    → is_full (socket_authority socket (port n) none) ≡ is_attributed socket
unfolding socket_authority holders_authority
socket_authority_lem n socket =
    let inner = merge_if (is_raced_owner socket.owner_completeness || false) Authority.raced (
      merge_if (has_permission_gap socket.owner_completeness || false) Authority.permission_denied (
        merge_if (false || not (is_complete socket.owner_completeness)) Authority.partial
          Authority.complete)) in
    holders_lem (any is_permission_owner socket.owners) (is_empty socket.owners)
      (any (λ owner. not (is_verified owner)) socket.owners) inner
      (permission_owner_unverified socket.owners)
    ∙ rw (attributed_completeness socket.owner_completeness)

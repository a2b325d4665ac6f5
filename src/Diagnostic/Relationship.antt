-- ===== src/Diagnostic/Relationship.antt =====
-- The relationship of two endpoints of src/diagnostic/verdict.rs from either side.
use kickoutchi.Prelude.{
  ◌≡◌, ℕ, refl, sym, Bool, true, false, Option, if◌then◌else◌, arith, ◌==◌, PartialEq, option_eq,
  option_beq_iff, Bool-cases, inl, inr, nat_eq,
}
use kickoutchi.Model.{protocol_eq}
use kickoutchi.Observation.{IpAddr, ip_addr_eq, v4, v6, Ipv6Scope, ipv6_scope_eq}
use kickoutchi.Observation.Sockets.{EndpointIdentity}
use kickoutchi.Diagnostic.{
  Ipv6Mode, ipv6_mode_eq, EndpointRelationship, EndpointRelationship-discrete, relationship_eq,
  exact, observed_wildcard_covers_target, target_wildcard_covers_observed,
  potential_dual_stack_overlap, potential_scope_overlap, unrelated, address_relationship,
  authoritative_scopes_equal, related_addresses, relationship,
}

-- The relationship seen from the other endpoint.
abbrev pub other_side : EndpointRelationship → EndpointRelationship
other_side exact = exact
other_side observed_wildcard_covers_target = target_wildcard_covers_observed
other_side target_wildcard_covers_observed = observed_wildcard_covers_target
other_side potential_dual_stack_overlap = potential_dual_stack_overlap
other_side potential_scope_overlap = potential_scope_overlap
other_side unrelated = unrelated

eq_comm {ℓ} : {A : Type ℓ} (e : PartialEq A) (a b : A) → e.eq a b ≡ e.eq b a
eq_comm e a b = elim (Bool-cases (e.eq a b)) [
  | inl h ↦ rw (h) (sym ((e.agrees b a).1 (sym ((e.agrees a b).0 h))))
  | inr h ↦ elim (Bool-cases (e.eq b a)) [
    | inl k ↦ let back = (e.agrees a b).1 (sym ((e.agrees b a).0 k)) in cc
    | inr k ↦ rw (h, k) refl
  ]
]

address_relationship_comm :
    (a b : ℕ)
    → address_relationship (b == 0) (a == 0) (b == a)
      ≡ other_side (address_relationship (a == 0) (b == 0) (a == b))
unfolding address_relationship
address_relationship_comm a b = ground arith

scopes_comm :
    (a b : Option Ipv6Scope) → authoritative_scopes_equal a b ≡ authoritative_scopes_equal b a
unfolding authoritative_scopes_equal
scopes_comm a b = elim (Bool-cases (a == b)) [
  | inl h ↦ rw ((option_beq_iff ipv6_scope_eq a b).0 h) refl
  | inr h ↦ rw (h, sym (eq_comm option_eq a b), h) refl
]

scoped : Bool → EndpointRelationship → EndpointRelationship
scoped same base =
    if base == unrelated then base else if same then base else potential_scope_overlap

scoped-other_side :
    (same : Bool) (r : EndpointRelationship)
    → scoped same (other_side r) ≡ other_side (scoped same r)
unfolding scoped EndpointRelationship-discrete
scoped-other_side true exact = refl
scoped-other_side true observed_wildcard_covers_target = refl
scoped-other_side true target_wildcard_covers_observed = refl
scoped-other_side true potential_dual_stack_overlap = refl
scoped-other_side true potential_scope_overlap = refl
scoped-other_side true unrelated = refl
scoped-other_side false exact = refl
scoped-other_side false observed_wildcard_covers_target = refl
scoped-other_side false target_wildcard_covers_observed = refl
scoped-other_side false potential_dual_stack_overlap = refl
scoped-other_side false potential_scope_overlap = refl
scoped-other_side false unrelated = refl

related_comm :
    (sa sb : Option Ipv6Scope) (mode : Ipv6Mode) (a b : IpAddr)
    → related_addresses sb sa mode b a ≡ other_side (related_addresses sa sb mode a b)
unfolding related_addresses scoped
related_comm sa sb mode (v4 a) (v4 b) = address_relationship_comm a b
related_comm sa sb mode (v6 a) (v6 b) =
    rw (address_relationship_comm a b, scopes_comm sb sa)
      (scoped-other_side (authoritative_scopes_equal sa sb)
        (address_relationship (a == 0) (b == 0) (a == b)))
related_comm sa sb mode (v6 a) (v4 b) = ground arith
related_comm sa sb mode (v4 a) (v6 b) = ground arith

-- Seen from the other endpoint, the relationship of two endpoints is the same, except that the two
-- wildcard cases change places.
pub relationship_symmetric :
    (a b : EndpointIdentity) (mode : Ipv6Mode)
    → relationship b a mode ≡ other_side (relationship a b mode)
unfolding relationship
relationship_symmetric a b mode =
    rw
      (
        eq_comm protocol_eq b.protocol a.protocol,
        eq_comm nat_eq b.port a.port,
        related_comm a.ipv6_scope b.ipv6_scope mode a.address b.address,
      )
      (ground arith)

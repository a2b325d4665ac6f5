-- ===== src/Observation/Canonical.antt =====
-- The endpoints that `EndpointIdentity::new` of src/observation.rs accepts.
use mathlib.Core.Path.{subst}
use kickoutchi.Prelude.{
  ℕ, ◌≡◌, refl, Bool, true, false, Option, none, some, ok, Result, Result-cases, arith,
  Option-cases, inl, inr,
}
use kickoutchi.Model.{Protocol}
use kickoutchi.Observation.{IpAddr, v4, v6, Ipv6Scope}
use kickoutchi.Observation.Sockets.{EndpointIdentity}
use kickoutchi.Observation.Endpoint.{
  EndpointIdentityError, to_ipv4_mapped, was_ipv4_mapped, unmapped, canonical_address, checked_port,
  checked_scope, new,
}

canonical_again :
    (a : IpAddr)
    → (was_ipv4_mapped (canonical_address a) ≡ false)
      × (canonical_address (canonical_address a) ≡ canonical_address a)
unfolding was_ipv4_mapped canonical_address unmapped
canonical_again (v4 n) = (refl, refl)
canonical_again (v6 n) = elim (Option-cases (to_ipv4_mapped n)) [
  | inl e ↦ rw (e) (rw (e) (refl, refl))
  | inr (m, e) ↦ rw (e) (refl, refl)
]

scope_again :
    (mapped : Bool) (a : IpAddr) (scope kept : Option Ipv6Scope)
    → checked_scope mapped a scope ≡ ok kept
    → checked_scope false a kept ≡ ok kept
unfolding checked_scope
scope_again mapped (v4 n) none kept h = ground arith
scope_again mapped (v4 n) (some scope) none h = refl
scope_again true (v4 n) (some scope) (some other) h = cc
scope_again false (v4 n) (some scope) (some other) h = cc
scope_again mapped (v6 n) none kept h = cc
scope_again mapped (v6 n) (some scope) none h = cc
scope_again mapped (v6 n) (some scope) (some other) h = refl

port_again : (port kept : ℕ) → checked_port port ≡ ok kept → checked_port kept ≡ ok kept
unfolding checked_port
port_again port kept h = ground arith

-- An endpoint that was accepted is accepted again from its own fields, unchanged.
pub new-new :
    (protocol : Protocol) (a : IpAddr) (port : ℕ) (scope : Option Ipv6Scope) (e : EndpointIdentity)
    → new protocol a port scope ≡ ok e
    → new e.protocol e.address e.port e.ipv6_scope ≡ ok e
unfolding new
new-new protocol a port scope e h = elim (Result-cases (checked_port port)) [
  | inr (error, p) ↦ let bad = (rw (p) at h) in cc
  | inl (port', p) ↦
      elim (Result-cases (checked_scope (was_ipv4_mapped a) (canonical_address a) scope)) [
        | inr (error, s) ↦ let bad = (rw (p, s) at h) in cc
        | inl (scope', s) ↦
            let built : EndpointIdentity = record {
              protocol = protocol;
              address = canonical_address a;
              port = port';
              ipv6_scope = scope';
            } in
            let accepted : Result EndpointIdentity EndpointIdentityError = ok built in
            let made : accepted ≡ ok e = (rw (p, s) at h) in
            let same : built ≡ e = cc in
            subst (λ x. new x.protocol x.address x.port x.ipv6_scope ≡ ok x) same
              (rw
                (
                  port_again port port' p,
                  (canonical_again a).0,
                  (canonical_again a).1,
                  scope_again (was_ipv4_mapped a) (canonical_address a) scope scope' s,
                )
                refl)
      ]
]

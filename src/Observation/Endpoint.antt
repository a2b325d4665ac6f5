-- ===== src/Observation/Endpoint.antt =====
-- `EndpointIdentity::new` of src/observation.rs. An IPv6 address that maps an IPv4 one has 65535
-- above its lower 32 bits.
use Prim.Native.Nat.{◌/◌, ◌%◌}
use kickoutchi.Prelude.{
  ℕ, Bool, true, false, ◌&&◌, Option, none, some, if◌then◌else◌, ◌==◌, nat_eq, ltb, Result, ok, err,
  ◌>>=◌, is_some_and,
}
use kickoutchi.Model.{Protocol}
use kickoutchi.Observation.{IpAddr, v4, v6, Ipv6Scope}
use kickoutchi.Observation.Sockets.{EndpointIdentity}

pub data EndpointIdentityError : Type 0 where
  invalid_port ipv4_with_scope ipv6_without_scope : EndpointIdentityError
  invalid_interface_index : EndpointIdentityError

-- `Ipv6Addr::to_ipv4_mapped`.
unfoldable pub to_ipv4_mapped : ℕ → Option ℕ
to_ipv4_mapped n = if n / 4294967296 == 65535 then some (n % 4294967296) else none

unfoldable pub was_ipv4_mapped : IpAddr → Bool
was_ipv4_mapped (v4 n) = false
was_ipv4_mapped (v6 n) = is_some_and (to_ipv4_mapped n) (λ m. true)

unfoldable pub unmapped : ℕ → Option ℕ → IpAddr
unmapped n none = v6 n
unmapped n (some m) = v4 m

unfoldable pub canonical_address : IpAddr → IpAddr
canonical_address (v4 n) = v4 n
canonical_address (v6 n) = unmapped n (to_ipv4_mapped n)

unfoldable pub checked_port : ℕ → Result ℕ EndpointIdentityError
checked_port port = if ltb 0 port && ltb port 65536 then ok port else err invalid_port

unfoldable pub checked_scope :
    Bool → IpAddr → Option Ipv6Scope → Result (Option Ipv6Scope) EndpointIdentityError
checked_scope mapped (v4 n) none = ok none
checked_scope mapped (v4 n) (some scope) = if mapped then ok none else err ipv4_with_scope
checked_scope mapped (v6 n) none = err ipv6_without_scope
checked_scope mapped (v6 n) (some scope) = ok (some scope)

unfoldable pub new :
    Protocol → IpAddr → ℕ → Option Ipv6Scope → Result EndpointIdentity EndpointIdentityError
new protocol address port scope = checked_port port >>= λ p.
    checked_scope (was_ipv4_mapped address) (canonical_address address) scope >>= λ s.
    ok (record {
      protocol = protocol;
      address = canonical_address address;
      port = p;
      ipv6_scope = s;
    })

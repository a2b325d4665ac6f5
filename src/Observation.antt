-- ===== src/Observation.antt =====
-- src/observation.rs: process identities.
use kickoutchi.Prelude.{ℕ, PartialEq, derive_eq, ℕ_discrete}
pub mod Sockets
pub mod Endpoint
pub mod Canonical
pub mod Compare

pub data ProcessStartMarker : Type 0 where
  linux_start_ticks : ℕ → ProcessStartMarker
  macos_start_time : ℕ → ℕ → ProcessStartMarker
  windows_creation_time : ℕ → ProcessStartMarker

unfoldable pub ProcessStartMarker-discrete : Discrete ProcessStartMarker
ProcessStartMarker-discrete = hlevel ℕ_discrete

instance abbrev pub marker_eq : PartialEq ProcessStartMarker
marker_eq = derive_eq ProcessStartMarker-discrete

pub record ProcessIdentity : Type 0 where
  pub pid : ℕ
  pub start_marker : ProcessStartMarker

-- `std::net::IpAddr`: an address is its number, 32 or 128 bits wide.
pub data IpAddr : Type 0 where
  v4 v6 : ℕ → IpAddr

unfoldable pub IpAddr-discrete : Discrete IpAddr
IpAddr-discrete = hlevel ℕ_discrete

instance abbrev pub ip_addr_eq : PartialEq IpAddr
ip_addr_eq = derive_eq IpAddr-discrete

pub data Ipv6Scope : Type 0 where
  unscoped : Ipv6Scope
  interface_index : ℕ → Ipv6Scope
  unavailable : Ipv6Scope

unfoldable pub Ipv6Scope-discrete : Discrete Ipv6Scope
Ipv6Scope-discrete = hlevel ℕ_discrete

instance abbrev pub ipv6_scope_eq : PartialEq Ipv6Scope
ipv6_scope_eq = derive_eq Ipv6Scope-discrete

-- ===== src/Process/PortOrder.antt =====
-- The order of the ports of src/process.rs, in which a target's ports are sorted and searched.
use mathlib.Core.Path.{subst}
use kickoutchi.Prelude.{
  ℕ, ◌≡◌, refl, sym, ap, ◌∙◌, true, false, Option, none, some, List, [], ◌∷◌, if◌then◌else◌, arith,
  any, any_ext, All, length, sort_by, Bool-cases, Ordering-cases, inl, inr, ◌==◌, nat_eq, option_eq,
  option_beq_iff, decided_iff, compare_keys, compare_keys_self, eq_of_keys, is_equal, AtMost,
  AtMost-flips, AtMost-less, AtMost-greater, AtMost-trans,
}
use kickoutchi.Prelude.Sorted.{IsSorted, IsSorted-weaken, sort_by-IsSorted}
use kickoutchi.Prelude.BinarySearch.{binary_search-any, InOrder}
use kickoutchi.Model.{Protocol, tcp, udp, Protocol-discrete}
use kickoutchi.Observation.{
  IpAddr, v4, v6, IpAddr-discrete, Ipv6Scope, ipv6_scope_eq, unscoped, interface_index, unavailable,
}
use kickoutchi.Observation.Compare.{protocol_key, address_key, scope_key}
use kickoutchi.Process.{KillTargetPort}
use kickoutchi.Process.Target.{
  port_beq, port_key, port_cmp, port_order, dedup, dedup_from, kill_target_has_port,
}

same_port :
    (left right : KillTargetPort)
    → left.local_port ≡ right.local_port
    → left.protocol ≡ right.protocol
    → left.local_addr ≡ right.local_addr
    → left.ipv6_scope ≡ right.ipv6_scope
    → left ≡ right
same_port left right e f g h i = record {
  protocol = f i;
  local_addr = g i;
  local_port = e i;
  ipv6_scope = h i;
}

pub port_beq_sound : (left right : KillTargetPort) → port_beq left right ≡ true → left ≡ right
port_beq_sound left right h =
    same_port left right (ground (arith, h))
      ((decided_iff (Protocol-discrete left.protocol right.protocol)).0 (ground (arith, h)))
      ((decided_iff (IpAddr-discrete left.local_addr right.local_addr)).0 (ground (arith, h)))
      ((option_beq_iff ipv6_scope_eq left.ipv6_scope right.ipv6_scope).0 (ground (arith, h)))

port_beq_refl : (port : KillTargetPort) → port_beq port port ≡ true
port_beq_refl port = ground (
  arith,
  (decided_iff (Protocol-discrete port.protocol port.protocol)).1 refl,
  (decided_iff (IpAddr-discrete port.local_addr port.local_addr)).1 refl,
  (option_beq_iff ipv6_scope_eq port.ipv6_scope port.ipv6_scope).1 refl,
)

-- The keys read back.
read_protocol : ℕ → Protocol
read_protocol n = if n == 0 then tcp else udp

read_address : ℕ → ℕ → IpAddr
read_address tag bits = if tag == 0 then v4 bits else v6 bits

read_scope : ℕ → ℕ → Option Ipv6Scope
read_scope tag index =
    if tag == 0
    then none
    else if tag == 1
    then some unscoped
    else if tag == 2
    then some (interface_index index)
    else some unavailable

read_port : List ℕ → KillTargetPort
read_port (port ∷ protocol ∷ family ∷ bits ∷ tag ∷ index ∷ []) = record {
  protocol = read_protocol protocol;
  local_addr = read_address family bits;
  local_port = port;
  ipv6_scope = read_scope tag index;
}
read_port _ = record { protocol = tcp; local_addr = v4 0; local_port = 0; ipv6_scope = none }

read_protocol_key : (protocol : Protocol) → read_protocol (protocol_key protocol) ≡ protocol
unfolding read_protocol protocol_key
read_protocol_key tcp = refl
read_protocol_key udp = refl

abbrev port_at : ℕ → Protocol → IpAddr → Option Ipv6Scope → KillTargetPort
port_at port protocol addr scope = record {
  protocol = protocol;
  local_addr = addr;
  local_port = port;
  ipv6_scope = scope;
}

read_fields :
    (port : ℕ) (protocol : Protocol) (addr : IpAddr) (scope : Option Ipv6Scope)
    → read_port (port_key (port_at port protocol addr scope)) ≡ port_at port protocol addr scope
unfolding read_port port_key read_address read_scope address_key scope_key
read_fields port protocol (v4 bits) none = rw (read_protocol_key protocol) refl
read_fields port protocol (v4 bits) (some unscoped) = rw (read_protocol_key protocol) refl
read_fields port protocol (v4 bits) (some (interface_index index)) =
    rw (read_protocol_key protocol) refl
read_fields port protocol (v4 bits) (some unavailable) = rw (read_protocol_key protocol) refl
read_fields port protocol (v6 bits) none = rw (read_protocol_key protocol) refl
read_fields port protocol (v6 bits) (some unscoped) = rw (read_protocol_key protocol) refl
read_fields port protocol (v6 bits) (some (interface_index index)) =
    rw (read_protocol_key protocol) refl
read_fields port protocol (v6 bits) (some unavailable) = rw (read_protocol_key protocol) refl

read_port_key : (port : KillTargetPort) → read_port (port_key port) ≡ port
read_port_key port = read_fields port.local_port port.protocol port.local_addr port.ipv6_scope

key_injective : (left right : KillTargetPort) → port_key left ≡ port_key right → left ≡ right
key_injective left right e = sym (read_port_key left) ∙ ap read_port e ∙ read_port_key right

-- Two ports compare equal exactly when they are.
cmp_equal : (left right : KillTargetPort) → is_equal (port_cmp left right) ≡ port_beq left right
unfolding port_cmp
cmp_equal left right = elim (Bool-cases (port_beq left right)) [
  | inl e ↦
      let same = port_beq_sound left right e in
      rw (e) (
        ap is_equal (
          ap (compare_keys (port_key left)) (ap port_key (sym same))
          ∙ compare_keys_self (port_key left)))
  | inr e ↦ elim (Ordering-cases (compare_keys (port_key left) (port_key right))) [
    | inl k ↦ rw (k, e) refl
    | inr (inr k) ↦ rw (k, e) refl
    | inr (inl k) ↦
        let same = key_injective left right (eq_of_keys (port_key left) (port_key right) k) in
        let equal : port_beq left right ≡ true =
          subst (λ p. port_beq left p ≡ true) same (port_beq_refl left) in
        cc
  ]
]

abbrev pub NotAfter : KillTargetPort → KillTargetPort → Type 0
NotAfter left right = AtMost (port_key left) (port_key right)

sort_by-IsSorted_ports :
    (ports : List KillTargetPort) → IsSorted NotAfter (sort_by port_order ports)
unfolding port_order port_cmp
sort_by-IsSorted_ports =
    sort_by-IsSorted port_order NotAfter (λ x y h. ground (arith, h))
      (λ x y h. AtMost-flips (port_key x) (port_key y) (ground (arith, h)))
      (λ x y z. AtMost-trans (port_key x) (port_key y) (port_key z))

pub dedup_from-All :
    (P : KillTargetPort → Type 0) (kept : KillTargetPort) (ports : List KillTargetPort)
    → All P ports
    → All P (dedup_from kept ports)
unfolding dedup_from
dedup_from-All P kept [] h = h
dedup_from-All P kept (port ∷ rest) h =
    elim (port_beq port kept)
      as (λ b. All P (if b then dedup_from kept rest else port ∷ dedup_from port rest)) [
        | true ↦ dedup_from-All P kept rest h.1
        | false ↦ (h.0, dedup_from-All P port rest h.1)
      ]

dedup_from-IsSorted :
    (R : KillTargetPort → KillTargetPort → Type 0) (kept : KillTargetPort)
    (ports : List KillTargetPort)
    → IsSorted R ports
    → IsSorted R (dedup_from kept ports)
unfolding dedup_from
dedup_from-IsSorted R kept [] h = h
dedup_from-IsSorted R kept (port ∷ rest) h =
    elim (port_beq port kept)
      as (λ b. IsSorted R (if b then dedup_from kept rest else port ∷ dedup_from port rest)) [
        | true ↦ dedup_from-IsSorted R kept rest h.1
        | false ↦ (dedup_from-All (R port) port rest h.0, dedup_from-IsSorted R port rest h.1)
      ]

dedup-IsSorted :
    (R : KillTargetPort → KillTargetPort → Type 0) (ports : List KillTargetPort)
    → IsSorted R ports
    → IsSorted R (dedup ports)
unfolding dedup
dedup-IsSorted R [] h = h
dedup-IsSorted R (port ∷ rest) h =
    (dedup_from-All (R port) port rest h.0, dedup_from-IsSorted R port rest h.1)

-- On ports that were sorted and deduplicated, the binary search is membership.
pub has_sorted_port :
    (ports : List KillTargetPort) (port : KillTargetPort)
    → kill_target_has_port (dedup (sort_by port_order ports)) port
      ≡ any (λ p. port_beq p port) (dedup (sort_by port_order ports))
unfolding kill_target_has_port port_cmp
has_sorted_port ports port =
    let known = dedup (sort_by port_order ports) in
    let cmp = (λ (p : KillTargetPort). port_cmp p port) in
    binary_search-any cmp (length known) known (omega arith) (
      IsSorted-weaken NotAfter (InOrder cmp) known
        (λ x y h. (
          AtMost-less (port_key x) (port_key y) (port_key port) h,
          AtMost-greater (port_key x) (port_key y) (port_key port) h,
        ))
        (dedup-IsSorted NotAfter (sort_by port_order ports) (sort_by-IsSorted_ports ports)))
    ∙ any_ext (λ p. is_equal (port_cmp p port)) (λ p. port_beq p port) known (λ p. cmp_equal p port)

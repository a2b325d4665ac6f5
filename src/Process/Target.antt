-- ===== src/Process/Target.antt =====
-- src/process.rs: `KillTarget::from_entries`, over the rows of src/model.rs that one process owns.
use kickoutchi.Prelude.{
  ℕ, Bool, true, false, ◌&&◌, ◌||◌, Option, none, some, List, [], ◌∷◌, ◌++◌, if◌then◌else◌, ◌==◌,
  nat_eq, option_eq, or_else, sort_by, length, not, Ordering, compare_keys, is_greater,
}
use kickoutchi.Prelude.BinarySearch.{binary_search}
use kickoutchi.Prelude.Text.{Text}
use kickoutchi.Model.{
  Platform, Protocol, protocol_eq, PermissionStatus, full, partial, is_system_process,
}
use kickoutchi.Observation.{
  ProcessStartMarker, marker_eq, ProcessIdentity, IpAddr, ip_addr_eq, Ipv6Scope, ipv6_scope_eq,
}
use kickoutchi.Observation.Compare.{protocol_key, address_key, scope_key}
use kickoutchi.Process.{KillTargetPort, KillTarget}

-- `PortEntryView`, without the fields that are only displayed; of the path of the executable it has
-- the file name, where that is UTF-8.
pub record PortEntryView : Type 0 where
  pub protocol : Protocol
  pub local_addr : IpAddr
  pub local_port : ℕ
  pub pid : Option ℕ
  pub process_name : Option Text
  pub executable_name : Option Text
  pub parent_pid : Option ℕ
  pub parent_process_name : Option Text
  pub protected : Bool
  pub platform : Platform
  pub permission : PermissionStatus
  pub process_identity : Option ProcessIdentity
  pub ipv6_scope : Option Ipv6Scope

-- What `from_entries` reads of a `ProcessContext`: the owner, and the number of its children.
pub record ProcessContext : Type 0 where
  pub owner_uid : Option ℕ
  pub child_count : ℕ
  pub children_truncated : Bool

unfoldable pub entry_is_system_process : PortEntryView → Bool
entry_is_system_process entry = is_system_process (record {
  platform = entry.platform;
  pid = entry.pid;
  parent_pid = entry.parent_pid;
  process_name = entry.process_name;
  parent_process_name = entry.parent_process_name;
})

unfoldable pub port_of : PortEntryView → KillTargetPort
port_of entry = record {
  protocol = entry.protocol;
  local_addr = entry.local_addr;
  local_port = entry.local_port;
  ipv6_scope = entry.ipv6_scope;
}

-- The derived `==` of a port.
abbrev pub port_beq : KillTargetPort → KillTargetPort → Bool
port_beq left right =
    (left.local_port == right.local_port)
    && ((left.protocol == right.protocol)
        && ((left.local_addr == right.local_addr) && (left.ipv6_scope == right.ipv6_scope)))

-- The tuple that `Ord` compares, each part by its derived order.
unfoldable pub port_key : KillTargetPort → List ℕ
unfolding protocol_key address_key scope_key
port_key port =
    port.local_port
    ∷ protocol_key port.protocol
    ∷ (address_key port.local_addr ++ scope_key port.ipv6_scope)

-- `KillTargetPort::cmp`.
unfoldable pub port_cmp : KillTargetPort → KillTargetPort → Ordering
unfolding port_key
port_cmp left right = compare_keys (port_key left) (port_key right)

-- The order of `sort_unstable`.
unfoldable pub port_order : KillTargetPort → KillTargetPort → Bool
unfolding port_cmp
port_order left right = not (is_greater (port_cmp left right))

-- `Vec::dedup`.
unfoldable pub dedup_from : KillTargetPort → List KillTargetPort → List KillTargetPort
dedup_from kept [] = []
dedup_from kept (port ∷ rest) =
    let same = dedup_from kept rest in
    let other = port ∷ dedup_from port rest in if port_beq port kept then same else other

unfoldable pub dedup : List KillTargetPort → List KillTargetPort
unfolding dedup_from
dedup [] = []
dedup (port ∷ rest) = port ∷ dedup_from port rest

-- `binary_search(port).is_ok()`.
unfoldable pub kill_target_has_port : List KillTargetPort → KillTargetPort → Bool
unfolding port_cmp binary_search
kill_target_has_port ports port = binary_search (λ p. port_cmp p port) (length ports) ports

-- The variables of the loop over the rows.
pub record Facts : Type 0 where
  pub process_name : Option Text
  pub platform : Platform
  pub permission : PermissionStatus
  pub protected : Bool
  pub system_process : Bool
  pub ports : List KillTargetPort
  pub process_identity : Option ProcessIdentity
  pub identity_consistent : Bool

abbrev pub no_facts : Facts
no_facts = record {
  process_name = none;
  platform = Platform.linux;
  permission = full;
  protected = false;
  system_process = false;
  ports = [];
  process_identity = none;
  identity_consistent = true;
}

worse : PermissionStatus → PermissionStatus → PermissionStatus
worse permission partial = partial
worse permission full = permission

abbrev pub identity_beq : ProcessIdentity → ProcessIdentity → Bool
identity_beq left right = (left.pid == right.pid) && (left.start_marker == right.start_marker)

-- `process_identity.is_none_or(|existing| existing == identity)`.
abbrev pub agrees_with : Option ProcessIdentity → ProcessIdentity → Bool
agrees_with none identity = true
agrees_with (some existing) identity = identity_beq existing identity

unfoldable pub still_consistent : ℕ → Facts → Option ProcessIdentity → Bool
still_consistent pid facts none = false
still_consistent pid facts (some identity) =
    facts.identity_consistent
    && ((identity.pid == pid) && agrees_with facts.process_identity identity)

unfoldable pub add_entry : ℕ → Facts → PortEntryView → Facts
unfolding still_consistent worse
add_entry pid facts entry = record {
  process_name = or_else facts.process_name entry.process_name;
  platform = entry.platform;
  permission = worse facts.permission entry.permission;
  protected = facts.protected || entry.protected;
  system_process = facts.system_process || entry_is_system_process entry;
  ports = facts.ports ++ port_of entry ∷ [];
  process_identity = or_else facts.process_identity entry.process_identity;
  identity_consistent = still_consistent pid facts entry.process_identity;
}

-- A row of another process is a panic.
unfoldable pub add_entries : ℕ → Facts → List PortEntryView → Option Facts
unfolding add_entry
add_entries pid facts [] = some facts
add_entries pid facts (entry ∷ rest) =
    let later = add_entries pid (add_entry pid facts entry) rest in
    if entry.pid == some pid then later else none

abbrev pub marker_of : Facts → Option ProcessStartMarker
marker_of facts =
    if facts.identity_consistent
    then elim facts.process_identity [ none ↦ none | some identity ↦ some identity.start_marker ]
    else none

unfoldable pub build_target : ℕ → Facts → Option ProcessContext → KillTarget
build_target pid facts context = record {
  pid = pid;
  process_name = facts.process_name;
  platform = facts.platform;
  permission = facts.permission;
  protected = facts.protected;
  system_process = facts.system_process;
  ports = dedup (sort_by port_order facts.ports);
  owner_uid = elim context [ none ↦ none | some c ↦ c.owner_uid ];
  process_start_time_marker = marker_of facts;
  child_count = elim context [ none ↦ 0 | some c ↦ c.child_count ];
  children_truncated = elim context [ none ↦ false | some c ↦ c.children_truncated ];
}

-- `KillTarget::from_entries`; `none` is a panic, for a row of another process or no row at all.
unfoldable pub from_entries : ℕ → List PortEntryView → Option ProcessContext → Option KillTarget
unfolding add_entries build_target
from_entries pid [] context = none
from_entries pid (entry ∷ rest) context = elim (add_entries pid no_facts (entry ∷ rest)) [
  | none ↦ none
  | some facts ↦ some (build_target pid facts context)
]

-- ===== src/Tree/Frozen.antt =====
-- src/tree/execute.rs: the frozen members, the two scopes, and the members of a snapshot that are
-- not frozen yet.
pub mod Rows
pub mod Closure
pub mod Enumeration
use kickoutchi.Prelude.{
  ℕ, suc, zero, ◌+◌, Bool, true, not, ◌&&◌, ◌||◌, Option, none, some, List, [], ◌∷◌, ◌++◌, map,
  reverse, if◌then◌else◌, leb, ◌==◌, nat_eq, option_eq, any, keep, length, sort_by,
}
use kickoutchi.Prelude.Text.{Text}
use kickoutchi.Observation.{ProcessStartMarker, ProcessIdentity}
use kickoutchi.Tree.{TreeProcessInfo, max_tree_processes, max_group_processes}
use kickoutchi.Tree.Index.{ProcessTreeIndex, children}

pub record FrozenNode : Type 0 where
  pub pid : ℕ
  pub parent_pid : Option ℕ
  pub parent_process_name : Option Text
  pub process_name : Option Text
  pub executable_name : Option Text
  pub owner_uid : Option ℕ
  pub start_time_marker : Option ProcessStartMarker
  pub rollback_start_time_marker : Option ProcessStartMarker
  pub resume_on_cleanup : Bool
  pub depth : ℕ

unfoldable pub from_info : TreeProcessInfo → ℕ → FrozenNode
from_info info depth = record {
  pid = info.pid;
  parent_pid = info.parent_pid;
  parent_process_name = info.parent_process_name;
  process_name = info.process_name;
  executable_name = info.executable_name;
  owner_uid = info.owner_uid;
  start_time_marker = info.start_time_marker;
  rollback_start_time_marker = info.start_time_marker;
  resume_on_cleanup = true;
  depth = depth;
}

-- `FrozenNode::identity`, as the items that `extend` adds.
unfoldable pub identity : FrozenNode → List ProcessIdentity
identity node = elim node.start_time_marker [
  | none ↦ []
  | some marker ↦ record { pid = node.pid; start_marker = marker } ∷ []
]

pub data SweepScope : Type 0 where
  tree : SweepScope
  group : (pgid : ℕ) → SweepScope

unfoldable pub member_cap : SweepScope → ℕ
member_cap tree = max_tree_processes
member_cap (group _) = max_group_processes

unfoldable pub relation_holds : SweepScope → FrozenNode → TreeProcessInfo → Bool
relation_holds tree node info = (node.depth == 0) || (info.parent_pid == node.parent_pid)
relation_holds (group pgid) node info = info.process_group == some pgid

abbrev pub pids : List FrozenNode → List ℕ
pids = map (λ node. node.pid)

abbrev pub contains : List ℕ → ℕ → Bool
contains set pid = any (λ member. member == pid) set

abbrev pub by_pid_order : FrozenNode → FrozenNode → Bool
by_pid_order left right = leb left.pid right.pid

-- The worklist of `unfrozen_children`; the top of the stack is the head of `frontier`.
pub record Walk : Type 0 where
  pub seen : List ℕ
  pub discovered : List FrozenNode
  pub frontier : List (ℕ × ℕ)

-- One child: skipped if `seen.insert` finds it there.
unfoldable pub visit : ℕ → Walk → TreeProcessInfo → Walk
visit depth w info = if contains w.seen info.pid then w else record {
  seen = info.pid ∷ w.seen;
  discovered = w.discovered ++ from_info info depth ∷ [];
  frontier = (info.pid, depth) ∷ w.frontier;
}

unfoldable pub visit_all : ℕ → Walk → List TreeProcessInfo → Walk
visit_all depth w [] = w
visit_all depth w (info ∷ rest) = visit_all depth (visit depth w info) rest

-- `while let Some(..) = frontier.pop()`, on fuel.
unfoldable pub walk : ℕ → ProcessTreeIndex → Walk → Walk
walk zero index w = w
walk (suc fuel) index w = elim w.frontier [
  | [] ↦ w
  | (parent_pid, parent_depth) ∷ rest ↦
      walk fuel index
        (visit_all (parent_depth + 1) (record w { frontier = rest }) (children index parent_pid))
]

unfoldable pub start_walk : List FrozenNode → Walk
start_walk frozen = record {
  seen = pids frozen;
  discovered = [];
  frontier = reverse (map (λ node. (node.pid, node.depth)) frozen);
}

unfoldable pub unfrozen_children : ℕ → ProcessTreeIndex → List FrozenNode → List FrozenNode
unfolding walk start_walk visit visit_all
unfrozen_children fuel index frozen =
    sort_by by_pid_order (walk fuel index (start_walk frozen)).discovered

unfoldable pub unfrozen_group_members : List TreeProcessInfo → List FrozenNode → ℕ → List FrozenNode
unfrozen_group_members snapshot frozen pgid = sort_by by_pid_order (
    map (λ info. from_info info 1)
      (keep (λ info. (info.process_group == some pgid) && not (contains (pids frozen) info.pid))
        snapshot))

-- Every row is pushed once at most, so the pops are no more than the frozen members and the rows.
abbrev pub walk_fuel : List TreeProcessInfo → List FrozenNode → ℕ
walk_fuel snapshot frozen = length frozen + length snapshot

unfoldable pub unfrozen_members :
    SweepScope → List TreeProcessInfo → ProcessTreeIndex → List FrozenNode → List FrozenNode
unfolding unfrozen_children unfrozen_group_members
unfrozen_members tree snapshot index frozen =
    unfrozen_children (walk_fuel snapshot frozen) index frozen
unfrozen_members (group pgid) snapshot index frozen = unfrozen_group_members snapshot frozen pgid

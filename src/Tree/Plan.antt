-- ===== src/Tree/Plan.antt =====
-- src/tree/plan.rs: the preview of a tree or group kill, from one snapshot of unfrozen processes.
pub mod Build
pub mod Walk
pub mod Closure
pub mod Gates
pub mod Bounds
pub mod Group
mod Tests
use kickoutchi.Prelude.{
  ℕ, zero, suc, ◌+◌, Bool, true, false, not, ◌&&◌, ◌||◌, Option, none, some, List, [], ◌∷◌, ◌++◌,
  if◌then◌else◌, leb, ltb, ◌==◌, nat_eq, option_eq, is_some, is_none, is_some_and, any, find, first,
  keep, length, take, sort_by, Result, ok, err,
}
use kickoutchi.Prelude.Text.{Text, codes}
use kickoutchi.Model.{Platform}
use kickoutchi.Protection.{is_protected_by_names}
use kickoutchi.Process.{Host, KillMode, unsafe_pid_reason}
use kickoutchi.Tree.{TreeProcessInfo}
use kickoutchi.Tree.Index
use kickoutchi.Tree.Index.{
  TreePlanError, ProcessTreeIndex, process, children, process_tree_index_max,
}
use kickoutchi.Tree.Outcome.{
  TreeKillOutcome, truncated, unsafe_pid, protected_descendant, protected_root,
}
use kickoutchi.Tree.Frozen.{contains}
use kickoutchi.Tree.Policy.{is_system}

pub record ProcessTreeNode : Type 0 where
  pub pid : ℕ
  pub parent_pid : Option ℕ
  pub process_name : Option Text
  pub owner_uid : Option ℕ
  pub protected : Bool
  pub system_process : Bool
  pub depth : ℕ

pub record ProcessTreeTarget : Type 0 where
  pub nodes : List ProcessTreeNode
  pub is_truncated : Bool
  pub limit : ℕ

pub data GroupPlanError : Type 0 where
  root_missing group_unavailable : GroupPlanError

pub record ProcessGroupTarget : Type 0 where
  pub pgid : ℕ
  pub members : ProcessTreeTarget

unfoldable pub root : ProcessTreeTarget → Option ProcessTreeNode
root preview = find (λ node. node.depth == 0) preview.nodes

abbrev pub is_protected_descendant : ProcessTreeNode → Bool
is_protected_descendant node = ltb 0 node.depth && node.protected

unfoldable pub protected_descendants : ProcessTreeTarget → List ProcessTreeNode
protected_descendants preview = keep is_protected_descendant preview.nodes

abbrev pub is_unsafe : Host → ProcessTreeNode → Bool
is_unsafe host node = is_some (unsafe_pid_reason host node.pid)

unfoldable pub first_unsafe_node : Host → ProcessTreeTarget → Option ProcessTreeNode
first_unsafe_node host preview = find (is_unsafe host) preview.nodes

unfoldable pub has_system_process : ProcessTreeTarget → Bool
has_system_process preview = any (λ node. node.system_process) preview.nodes

unfoldable pub has_unreadable_name : ProcessTreeTarget → Bool
has_unreadable_name preview = any (λ node. is_none node.process_name) preview.nodes

unfoldable pub has_owner_mismatch : Host → ProcessTreeTarget → Bool
has_owner_mismatch host preview =
    any (λ node. is_some_and node.owner_uid (λ uid. not (uid == host.user_id))) preview.nodes

unfoldable pub has_warnings : Host → ProcessTreeTarget → Bool
unfolding has_system_process has_unreadable_name has_owner_mismatch
has_warnings host preview =
    (has_system_process preview || has_unreadable_name preview) || has_owner_mismatch host preview

unfoldable pub preview_nodes : ProcessTreeTarget → ℕ → List ProcessTreeNode
preview_nodes preview max = take max preview.nodes

unfoldable pub tree_scope_word : KillMode → Text
tree_scope_word KillMode.force = codes "force"
tree_scope_word KillMode.terminate = codes "tree"

unfoldable pub group_scope_word : KillMode → Text
group_scope_word KillMode.force = codes "force"
group_scope_word KillMode.terminate = codes "group"

-- `expect` of the reason cannot fail: the node was found by it.
unsafe_outcome : Host → ℕ → Option TreeKillOutcome
unsafe_outcome host pid = elim (unsafe_pid_reason host pid) [
  | none ↦ none
  | some reason ↦ some (unsafe_pid pid reason)
]

-- `preflight_outcome`, the `Err` as the outcome.
unfoldable pub preflight_outcome : Host → ProcessTreeTarget → Option TreeKillOutcome
unfolding first_unsafe_node protected_descendants unsafe_outcome
preflight_outcome host preview =
    if preview.is_truncated
    then some (truncated preview.limit)
    else elim (first_unsafe_node host preview) [
      | some node ↦ unsafe_outcome host node.pid
      | none ↦ elim (first (protected_descendants preview)) [
        | some node ↦ some (protected_descendant node.pid node.process_name)
        | none ↦ none
      ]
    ]

unfoldable pub root_protection_outcome : ProcessTreeTarget → Bool → Option TreeKillOutcome
unfolding root
root_protection_outcome preview protected_confirmation_completed =
    if protected_confirmation_completed then none else elim (root preview) [
      | none ↦ none
      | some node ↦
          if node.protected then some (protected_root node.pid node.process_name) else none
    ]

unfoldable pub is_protected : TreeProcessInfo → List Text → Platform → Bool
is_protected info protected_names platform =
    is_protected_by_names platform info.process_name info.executable_name protected_names

unfoldable pub preview_node : TreeProcessInfo → ℕ → List Text → Platform → ProcessTreeNode
unfolding is_protected
preview_node info depth protected_names platform = record {
  pid = info.pid;
  parent_pid = info.parent_pid;
  process_name = info.process_name;
  owner_uid = info.owner_uid;
  protected = is_protected info protected_names platform;
  system_process =
      is_system info.pid info.parent_pid info.parent_process_name info.process_name platform;
  depth = depth;
}

-- ===== src/Tree/Policy.antt =====
-- src/tree/plan.rs and src/tree/execute.rs: the policy that the frozen set must meet before any
-- terminating signal.
pub mod Laws
use kickoutchi.Prelude.{
  ℕ, Bool, true, false, not, ◌&&◌, ◌||◌, Option, none, some, List, [], ◌∷◌, if◌then◌else◌, ltb,
  ◌==◌, nat_eq, is_some_and, any, find, length, Result, ok, err, or_else,
}
use kickoutchi.Prelude.Text.{Text}
use kickoutchi.Model.{Platform, SystemProcessCheck, is_system_process}
use kickoutchi.Protection.{is_protected_by_names}
use kickoutchi.Process.{Host, unsafe_pid_reason}
use kickoutchi.Tree.{
  ScopeAuthorization, protected_root_confirmed, prompt_skipped, group_yes_skip_max_processes,
}
use kickoutchi.Tree.Outcome.{
  TreeKillOutcome, unsafe_pid, partial_metadata, protected_descendant, protected_root,
  fresh_confirmation_required,
}
use kickoutchi.Tree.Frozen.{FrozenNode, SweepScope}

unfoldable pub is_system : ℕ → Option ℕ → Option Text → Option Text → Platform → Bool
is_system pid parent_pid parent_process_name process_name platform = is_system_process (record {
  platform = platform;
  pid = some pid;
  parent_pid = parent_pid;
  process_name = process_name;
  parent_process_name = parent_process_name;
})

-- The first loop: no unsafe PID, and every name is known.
unfoldable pub check_members : Host → List FrozenNode → Option TreeKillOutcome
check_members host [] = none
check_members host (node ∷ rest) =
    let later = check_members host rest in
    elim (unsafe_pid_reason host node.pid) [
      | some reason ↦ some (unsafe_pid node.pid reason)
      | none ↦ elim node.process_name [ none ↦ some (partial_metadata node.pid) | some _ ↦ later ]
    ]

unfoldable pub node_protected : Platform → List Text → FrozenNode → Bool
node_protected platform protected_names node =
    is_protected_by_names platform node.process_name node.executable_name protected_names

abbrev pub below_root : FrozenNode → Bool
below_root node = ltb 0 node.depth

abbrev pub at_root : FrozenNode → Bool
at_root node = node.depth == 0

unfoldable pub check_descendants : (FrozenNode → Bool) → List FrozenNode → Option TreeKillOutcome
check_descendants protected frozen =
    elim (find (λ node. below_root node && protected node) frozen) [
      | some node ↦ some (protected_descendant node.pid node.process_name)
      | none ↦ none
    ]

unfoldable pub check_root :
    ScopeAuthorization → (FrozenNode → Bool) → List FrozenNode → Option TreeKillOutcome
check_root authorization protected frozen =
    if protected_root_confirmed authorization then none else elim (find at_root frozen) [
      | none ↦ none
      | some root ↦
          if protected root then some (protected_root root.pid root.process_name) else none
    ]

abbrev pub is_group : SweepScope → Bool
is_group SweepScope.tree = false
is_group (SweepScope.group _) = true

unfoldable pub needs_confirmation : Host → SweepScope → Platform → List FrozenNode → Bool
needs_confirmation host scope platform frozen =
    any
      (λ node.
        is_system node.pid node.parent_pid node.parent_process_name node.process_name platform)
      frozen
    || any (λ node. is_some_and node.owner_uid (λ uid. not (uid == host.user_id))) frozen
    || (is_group scope && ltb group_yes_skip_max_processes (length frozen))

unfoldable pub check_skipped :
    Host → SweepScope → ScopeAuthorization → Platform → List FrozenNode → Option TreeKillOutcome
check_skipped host scope authorization platform frozen =
    if prompt_skipped authorization && needs_confirmation host scope platform frozen
    then some fresh_confirmation_required
    else none

-- `check_tree_policy`, the `Err` as the outcome; each gate is read only if those before it pass.
unfoldable pub check_tree_policy :
    Host
    → List FrozenNode
    → SweepScope
    → ScopeAuthorization
    → List Text
    → Platform
    → Option TreeKillOutcome
check_tree_policy host frozen scope authorization protected_names platform =
    let protected = node_protected platform protected_names in
    or_else (check_members host frozen) (
      or_else (check_descendants protected frozen) (
        or_else (check_root authorization protected frozen)
          (check_skipped host scope authorization platform frozen)))

-- ===== src/Tree/Plan/Build.antt =====
-- src/tree/plan.rs: the walk and the filter that build the previews.
use kickoutchi.Prelude.{
  ℕ, zero, suc, ◌+◌, Bool, true, false, not, ◌&&◌, ◌||◌, none, some, List, [], ◌∷◌, ◌++◌,
  if◌then◌else◌, leb, ltb, ◌==◌, nat_eq, option_eq, find, keep, length, sort_by, Result, ok, err,
}
use kickoutchi.Prelude.Text.{Text}
use kickoutchi.Model.{Platform}
use kickoutchi.Tree.{TreeProcessInfo}
use kickoutchi.Tree.Index
use kickoutchi.Tree.Index.{
  TreePlanError, ProcessTreeIndex, process, children, process_tree_index_max,
}
use kickoutchi.Tree.Frozen.{contains}
use kickoutchi.Tree.Plan.{
  ProcessTreeNode, ProcessTreeTarget, GroupPlanError, group_unavailable, ProcessGroupTarget,
  preview_node,
}

-- The variables of the walk; the top of the stack is the head of `frontier`.
pub record Preview : Type 0 where
  pub nodes : List ProcessTreeNode
  pub seen : List ℕ
  pub frontier : List (ℕ × ℕ)
  pub is_truncated : Bool

abbrev pub cut : Preview → Preview
cut p = record p { is_truncated = true }

module _ (protected_names : List Text) (platform : Platform) (limit : ℕ) where
  unfoldable pub add_child : ℕ → TreeProcessInfo → Preview → Preview
  add_child depth child p = record p {
    nodes = p.nodes ++ preview_node child depth protected_names platform ∷ [];
    seen = child.pid ∷ p.seen;
    frontier = (child.pid, depth) ∷ p.frontier;
  }

  -- The `for` loop: a child that is seen is skipped, and the limit breaks the loop.
  unfoldable pub add_children : ℕ → List TreeProcessInfo → Preview → Preview
  unfolding add_child
  add_children depth [] p = p
  add_children depth (child ∷ rest) p =
      let skipped = add_children depth rest p in
      let added = add_children depth rest (add_child depth child p) in
      if contains p.seen child.pid
      then skipped
      else if leb limit (length p.nodes)
      then cut p
      else added

  -- `while let Some(..) = frontier.pop()`, on fuel.
  unfoldable pub preview_walk : ℕ → ProcessTreeIndex → Preview → Preview
  unfolding add_children
  preview_walk zero index p = p
  preview_walk (suc fuel) index p = elim p.frontier [
    | [] ↦ p
    | (parent_pid, parent_depth) ∷ rest ↦
        let p' =
          add_children (parent_depth + 1) (children index parent_pid)
            (record p { frontier = rest }) in
        let later = preview_walk fuel index p' in if p'.is_truncated then p' else later
  ]

-- By depth, then by PID.
abbrev pub display_order : ProcessTreeNode → ProcessTreeNode → Bool
display_order left right =
    ltb left.depth right.depth || ((left.depth == right.depth) && leb left.pid right.pid)

abbrev pub preview_fuel : ℕ → ℕ
preview_fuel limit = suc limit

abbrev pub start_preview : ℕ → TreeProcessInfo → List Text → Platform → Preview
start_preview root_pid root_info protected_names platform = record {
  nodes = preview_node root_info 0 protected_names platform ∷ [];
  seen = root_pid ∷ [];
  frontier = (root_pid, 0) ∷ [];
  is_truncated = false;
}

unfoldable pub plan_process_tree_with_index :
    ℕ → ProcessTreeIndex → List Text → Platform → ℕ → Result ProcessTreeTarget TreePlanError
unfolding preview_walk preview_node
plan_process_tree_with_index root_pid index protected_names platform limit =
    elim (process index root_pid) [
      | none ↦ err TreePlanError.root_missing
      | some root_info ↦
          let p =
            preview_walk protected_names platform limit (preview_fuel limit) index
              (start_preview root_pid root_info protected_names platform) in
          ok (record {
            nodes = sort_by display_order p.nodes;
            is_truncated = p.is_truncated;
            limit = limit;
          })
    ]

unfoldable pub plan_process_tree :
    ℕ → List TreeProcessInfo → List Text → Platform → ℕ → Result ProcessTreeTarget TreePlanError
unfolding plan_process_tree_with_index
plan_process_tree root_pid snapshot protected_names platform limit =
    elim (Index.new snapshot process_tree_index_max) [
      | err error ↦ err error
      | ok index ↦ plan_process_tree_with_index root_pid index protected_names platform limit
    ]

abbrev pub by_pid_order : TreeProcessInfo → TreeProcessInfo → Bool
by_pid_order left right = leb left.pid right.pid

-- The loop over the members, up to the limit; the flag is `truncated`.
unfoldable pub add_members :
    List Text
    → Platform
    → ℕ
    → List TreeProcessInfo
    → List ProcessTreeNode
    → List ProcessTreeNode × Bool
add_members protected_names platform limit [] nodes = (nodes, false)
add_members protected_names platform limit (member ∷ rest) nodes =
    let later =
      add_members protected_names platform limit rest
        (nodes ++ preview_node member 1 protected_names platform ∷ []) in
    if leb limit (length nodes) then (nodes, true) else later

abbrev pub is_other_member : ℕ → ℕ → TreeProcessInfo → Bool
is_other_member pgid root_pid info = (info.process_group == some pgid) && not (info.pid == root_pid)

unfoldable pub plan_group_of :
    ℕ → TreeProcessInfo → ℕ → List TreeProcessInfo → List Text → Platform → ℕ → ProcessGroupTarget
unfolding add_members
plan_group_of root_pid root_info pgid snapshot protected_names platform limit =
    let (nodes, cut_off) =
      add_members protected_names platform limit
        (sort_by by_pid_order (keep (is_other_member pgid root_pid) snapshot))
        (preview_node root_info 0 protected_names platform ∷ []) in
    record {
      pgid = pgid;
      members = record { nodes = nodes; is_truncated = cut_off; limit = limit };
    }

unfoldable pub plan_process_group :
    ℕ → List TreeProcessInfo → List Text → Platform → ℕ → Result ProcessGroupTarget GroupPlanError
unfolding plan_group_of
plan_process_group root_pid snapshot protected_names platform limit =
    elim (find (λ info. info.pid == root_pid) snapshot) [
      | none ↦ err GroupPlanError.root_missing
      | some root_info ↦ elim root_info.process_group [
        | none ↦ err group_unavailable
        | some pgid ↦
            ok (plan_group_of root_pid root_info pgid snapshot protected_names platform limit)
      ]
    ]

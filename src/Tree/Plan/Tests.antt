-- ===== src/Tree/Plan/Tests.antt =====
-- Previews of src/tree/plan.rs on a small process table.
use kickoutchi.Prelude.{
  ◌≡◌, ◌≤◌, ◌-◌, refl, true, false, not, ◌&&◌, List, [], ◌∷◌, ok, err, length, any, is_none, keep,
  map, take, sort_by, ltb, inl, inr, arith, ℕ_discrete, insert_by,
}
use kickoutchi.Prelude.Text.{Text, codes}
use kickoutchi.Model.{Platform}
use kickoutchi.Tree.{TreeProcessInfo}
use kickoutchi.Tree.Index
use kickoutchi.Tree.Index.{process, children, TreePlanError}
use kickoutchi.Tree.Frozen.{contains}
use kickoutchi.Tree.Plan.{
  ProcessTreeTarget, ProcessGroupTarget, preview_node, preflight_outcome, is_unsafe,
  is_protected_descendant,
}
use kickoutchi.Tree.Plan.Build.{
  plan_process_tree, plan_process_tree_with_index, plan_process_group, preview_walk, add_children,
  add_child, by_pid_order, is_other_member, plan_group_of, add_members,
}
use kickoutchi.Tree.Plan.Walk.{node_pids}
use kickoutchi.Tree.Plan.Closure.{preview_complete}
use kickoutchi.Tree.Plan.Bounds.{preview_bounded}
use kickoutchi.Tree.Plan.Group.{group_preview}
use kickoutchi.Tree.Plan.Gates.{preflight_passes}
use kickoutchi.Tree.Fixture.{row, table, this_host}

abbrev names : List Text
names = codes "nginx" ∷ []

abbrev no_preview : ProcessTreeTarget
no_preview = record { nodes = []; is_truncated = true; limit = 0 }

abbrev preview : ProcessTreeTarget
preview = elim (plan_process_tree 40 table names Platform.linux 3) [ ok t ↦ t | err e ↦ no_preview ]

abbrev group : ProcessGroupTarget
group = elim (plan_process_group 40 table names Platform.linux 2) [
  | ok g ↦ g
  | err e ↦ record { pgid = 0; members = no_preview }
]

planned :
    (plan_process_tree 40 table names Platform.linux 3 ≡ ok preview)
    × (preview.is_truncated ≡ false)
    × (node_pids preview.nodes ≡ 40 ∷ 41 ∷ 42 ∷ [])
unfolding plan_process_tree plan_process_tree_with_index Index.new process children preview_walk
    add_children add_child preview_node sort_by insert_by ℕ_discrete
planned = (refl, refl, refl)

group_planned :
    (plan_process_group 40 table names Platform.linux 2 ≡ ok group)
    × (group.members.is_truncated ≡ true)
unfolding plan_process_group plan_group_of add_members sort_by insert_by preview_node ℕ_discrete
group_planned = (refl, refl)

preview_complete_example : contains (node_pids preview.nodes) 42 ≡ true
preview_complete_example =
    preview_complete 40 table names Platform.linux 3 preview (row 42 41 (codes "sshd")) 41 planned.0
      (omega arith) planned.1 (inr (inr (inl refl))) refl (rw planned.2 refl)

preview_bounded_example : length preview.nodes ≤ 3
preview_bounded_example =
    preview_bounded names Platform.linux 3 40 table preview (omega arith) planned.0

abbrev others : List TreeProcessInfo
others = sort_by by_pid_order (keep (is_other_member 40 40) table)

group_preview_example :
    (group.pgid ≡ 40)
    × (group.members.nodes
        ≡ preview_node (row 40 7 (codes "server")) 0 names Platform.linux
          ∷ map (λ member. preview_node member 1 names Platform.linux) (take (2 - 1) others))
    × (group.members.is_truncated ≡ ltb (2 - 1) (length others))
group_preview_example =
    group_preview names Platform.linux 2 40 table (row 40 7 (codes "server")) 40 group (omega arith)
      refl refl group_planned.0

preflight_passes_example :
    is_none (preflight_outcome this_host preview)
    ≡ not preview.is_truncated
      && (not (any (is_unsafe this_host) preview.nodes)
          && not (any is_protected_descendant preview.nodes))
preflight_passes_example = preflight_passes this_host preview

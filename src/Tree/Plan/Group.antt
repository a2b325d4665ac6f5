-- ===== src/Tree/Plan/Group.antt =====
-- What `plan_process_group` of src/tree/plan.rs shows.
use mathlib.Core.List.{append-nil, append_assoc}
use kickoutchi.Prelude.{
  ℕ, zero, suc, ◌≡◌, ◌≤◌, ◌-◌, refl, sym, ap, ◌∙◌, some, List, [], ◌∷◌, ◌++◌, map, arith,
  Bool-cases, inl, inr, ◌==◌, nat_eq, length, length-append, sort_by, leb, ltb, take, find, keep,
  ok,
}
use kickoutchi.Prelude.Text.{Text}
use kickoutchi.Model.{Platform}
use kickoutchi.Tree.{TreeProcessInfo}
use kickoutchi.Tree.Plan.{ProcessTreeNode, ProcessGroupTarget, preview_node}
use kickoutchi.Tree.Plan.Build.{
  add_members, by_pid_order, is_other_member, plan_group_of, plan_process_group,
}

module _ (protected_names : List Text) (platform : Platform) (limit : ℕ) where
  abbrev member_node : TreeProcessInfo → ProcessTreeNode
  member_node member = preview_node member 1 protected_names platform

  take-nil : (n : ℕ) → map member_node (take n []) ≡ []
  take-nil zero = refl
  take-nil (suc n) = refl

  -- The loop adds as many members as there is room for, and says whether one is left over.
  add_members_lem :
      (members : List TreeProcessInfo) (nodes : List ProcessTreeNode)
      → length nodes ≤ limit
      → let r = add_members protected_names platform limit members nodes in
        (r.0 ≡ nodes ++ map member_node (take (limit - length nodes) members))
        × (r.1 ≡ ltb (limit - length nodes) (length members))
  unfolding add_members
  add_members_lem [] nodes h = (
    sym (append-nil nodes) ∙ ap (◌++◌ nodes) (sym (take-nil (limit - length nodes))),
    ground arith,
  )
  add_members_lem (member ∷ rest) nodes h = elim (Bool-cases (leb limit (length nodes))) [
    | inl full ↦
        let none_left : limit - length nodes ≡ 0 = ground arith in
        rw (full, none_left, append-nil nodes, add_members) (refl, ground arith)
    | inr room ↦
        let one_more : limit - length nodes ≡ suc (limit - suc (length nodes)) = ground arith in
        let longer = length-append nodes (member_node member ∷ []) in
        let left : limit - length (nodes ++ member_node member ∷ []) ≡ limit - suc (length nodes) =
          omega (arith, longer) in
        let later =
          add_members_lem rest (nodes ++ member_node member ∷ []) (ground (arith, longer)) in
        rw (room, one_more, add_members)
          (
            later.0 ∙ rw left (append_assoc nodes (member_node member ∷ []) _),
            later.1 ∙ rw left (ground arith),
          )
  ]

  -- A group preview shows the root and then the other members of its group in the order of their
  -- PIDs, as many as the limit has room for; it is cut off exactly when one is left over.
  pub group_preview :
      (root_pid : ℕ) (snapshot : List TreeProcessInfo) (root_info : TreeProcessInfo) (pgid : ℕ)
      (g : ProcessGroupTarget)
      → 1 ≤ limit
      → find (λ info. info.pid == root_pid) snapshot ≡ some root_info
      → root_info.process_group ≡ some pgid
      → plan_process_group root_pid snapshot protected_names platform limit ≡ ok g
      → let others = sort_by by_pid_order (keep (is_other_member pgid root_pid) snapshot) in
        (g.pgid ≡ pgid)
        × (g.members.nodes
            ≡ preview_node root_info 0 protected_names platform
              ∷ map
                  (λ member. preview_node member 1 protected_names platform)
                  (take (limit - 1) others))
        × (g.members.is_truncated ≡ ltb (limit - 1) (length others))
  unfolding plan_process_group plan_group_of
  group_preview root_pid snapshot root_info pgid g positive e f h =
      let others = sort_by by_pid_order (keep (is_other_member pgid root_pid) snapshot) in
      let made : ok (plan_group_of root_pid root_info pgid snapshot protected_names platform limit)
          ≡ ok g =
        (rw (e, f, plan_process_group) at h) in
      let same : plan_group_of root_pid root_info pgid snapshot protected_names platform limit ≡ g =
        cc in
      let r =
        add_members_lem others (preview_node root_info 0 protected_names platform ∷ [])
          (omega (arith, positive)) in
      (
        sym (ap (λ (g : ProcessGroupTarget). g.pgid) same),
        sym (ap (λ (g : ProcessGroupTarget). g.members.nodes) same) ∙ r.0,
        sym (ap (λ (g : ProcessGroupTarget). g.members.is_truncated) same) ∙ r.1,
      )

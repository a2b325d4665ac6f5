-- ===== src/Tree/Plan/Bounds.antt =====
-- The previews of src/tree/plan.rs never exceed their limit.
use mathlib.Core.Path.{subst}
use kickoutchi.Prelude.{
  ℕ, zero, suc, ◌≡◌, ◌≤◌, ◌+◌, List, [], ◌∷◌, arith, Bool-cases, List-cases, inl, inr, nat_eq,
  length, length-append, length-sort_by, leb, ok,
}
use kickoutchi.Prelude.Text.{Text}
use kickoutchi.Model.{Platform}
use kickoutchi.Tree.{TreeProcessInfo}
use kickoutchi.Tree.Index.{ProcessTreeIndex, children}
use kickoutchi.Tree.Frozen.{contains}
use kickoutchi.Tree.Plan.{ProcessTreeTarget, preview_node}
use kickoutchi.Tree.Plan.Build.{
  Preview, add_child, add_children, preview_walk, display_order, preview_fuel, start_preview,
  plan_process_tree,
}
use kickoutchi.Tree.Plan.Closure.{plan-Planned}

module _ (protected_names : List Text) (platform : Platform) (limit : ℕ) where
  add_children-within :
      (depth : ℕ) (infos : List TreeProcessInfo) (p : Preview)
      → length p.nodes ≤ limit
      → length (add_children protected_names platform limit depth infos p).nodes ≤ limit
  unfolding add_children add_child
  add_children-within depth [] p h = h
  add_children-within depth (child ∷ rest) p h = elim (Bool-cases (contains p.seen child.pid)) [
    | inl e ↦ rw (e, add_children) (add_children-within depth rest p h)
    | inr e ↦ elim (Bool-cases (leb limit (length p.nodes))) [
      | inl full ↦ rw (e, full, add_children) h
      | inr room ↦
          rw (e, room, add_children)
            (add_children-within depth rest _ (
              ground (
                arith,
                room,
                length-append p.nodes (preview_node child depth protected_names platform ∷ []),
              )))
    ]
  ]

  preview_walk-within :
      (fuel : ℕ) (index : ProcessTreeIndex) (p : Preview)
      → length p.nodes ≤ limit
      → length (preview_walk protected_names platform limit fuel index p).nodes ≤ limit
  unfolding preview_walk
  preview_walk-within zero index p h = h
  preview_walk-within (suc fuel) index p h = elim (List-cases p.frontier) [
    | inl e ↦ rw (e, preview_walk) h
    | inr ((parent, depth), rest, e) ↦
        let p' =
          add_children protected_names platform limit (depth + 1) (children index parent)
            (record p { frontier = rest }) in
        let h' =
          add_children-within (depth + 1) (children index parent) (record p { frontier = rest })
            h in
        elim (Bool-cases p'.is_truncated) [
          | inl c ↦ rw (e, c, preview_walk) h'
          | inr c ↦ rw (e, c, preview_walk) (preview_walk-within fuel index p' h')
        ]
  ]

  -- A tree preview has at most as many processes as its limit, which is at least 1.
  pub preview_bounded :
      (root_pid : ℕ) (snapshot : List TreeProcessInfo) (t : ProcessTreeTarget)
      → 1 ≤ limit
      → plan_process_tree root_pid snapshot protected_names platform limit ≡ ok t
      → length t.nodes ≤ limit
  preview_bounded root_pid snapshot t positive h =
      let (index, info, e, f, made) =
        plan-Planned root_pid snapshot protected_names platform limit t h in
      let p =
        preview_walk protected_names platform limit (preview_fuel limit) index
          (start_preview root_pid info protected_names platform) in
      subst (λ (t : ProcessTreeTarget). length t.nodes ≤ limit) made
        (omega (
          arith,
          length-sort_by display_order p.nodes,
          preview_walk-within (preview_fuel limit) index
              (start_preview root_pid info protected_names platform) positive,
        ))

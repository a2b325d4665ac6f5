-- ===== src/Tree/Plan/Gates.antt =====
-- What the gates of src/tree/plan.rs let through.
use kickoutchi.Prelude.{
  ◌≡◌, refl, Bool, true, false, not, ◌&&◌, ◌||◌, List, [], ◌∷◌, arith, any, find, find_holds, first,
  keep, is_none, is_some_and, Bool-cases, Option-cases, inl, inr,
}
use kickoutchi.Process.{Host}
use kickoutchi.Tree.Plan.{
  ProcessTreeNode, ProcessTreeTarget, preflight_outcome, first_unsafe_node, protected_descendants,
  is_protected_descendant, is_unsafe, unsafe_outcome, root, root_protection_outcome,
}

find-any_node :
    (p : ProcessTreeNode → Bool) (nodes : List ProcessTreeNode)
    → is_none (find p nodes) ≡ not (any p nodes)
find-any_node p [] = refl
find-any_node p (node ∷ rest) = ground (arith, find-any_node p rest)

first-keep :
    (p : ProcessTreeNode → Bool) (nodes : List ProcessTreeNode)
    → is_none (first (keep p nodes)) ≡ not (any p nodes)
first-keep p [] = refl
first-keep p (node ∷ rest) = ground (arith, first-keep p rest)

unsafe_refuses :
    (host : Host) (node : ProcessTreeNode)
    → is_unsafe host node ≡ true
    → is_none (unsafe_outcome host node.pid) ≡ false
unfolding unsafe_outcome
unsafe_refuses host node h = ground arith

-- The preflight passes exactly when the preview is complete, none of its processes is unsafe, and
-- no process below the root is protected.
pub preflight_passes :
    (host : Host) (preview : ProcessTreeTarget)
    → is_none (preflight_outcome host preview)
      ≡ not preview.is_truncated
        && (not (any (is_unsafe host) preview.nodes)
            && not (any is_protected_descendant preview.nodes))
unfolding preflight_outcome first_unsafe_node protected_descendants
preflight_passes host preview = elim (Bool-cases preview.is_truncated) [
  | inl e ↦ rw (e, preflight_outcome) refl
  | inr e ↦ elim (Option-cases (find (is_unsafe host) preview.nodes)) [
    | inr (node, f) ↦
        let unsafe = unsafe_refuses host node (find_holds (is_unsafe host) preview.nodes f) in
        let found = find-any_node (is_unsafe host) preview.nodes in
        rw (e, f, preflight_outcome) (ground (arith, unsafe, found, f))
    | inl f ↦
        let safe = find-any_node (is_unsafe host) preview.nodes in
        elim (Option-cases (first (keep is_protected_descendant preview.nodes))) [
          | inl g ↦
              rw (e, f, g, preflight_outcome)
                (ground (arith, f, g, safe, first-keep is_protected_descendant preview.nodes))
          | inr (node, g) ↦
              rw (e, f, g, preflight_outcome)
                (ground (arith, f, g, safe, first-keep is_protected_descendant preview.nodes))
        ]
  ]
]

-- The root gate passes exactly when the protected root was confirmed or the root of the preview is
-- not protected.
pub root_protection_passes :
    (preview : ProcessTreeTarget) (confirmed : Bool)
    → is_none (root_protection_outcome preview confirmed)
      ≡ confirmed || not (is_some_and (root preview) (λ node. node.protected))
unfolding root_protection_outcome
root_protection_passes preview confirmed = ground arith

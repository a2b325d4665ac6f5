-- ===== src/Tree/Plan/Closure.antt =====
-- A preview of src/tree/plan.rs that is not cut off is the whole tree below its root.
use mathlib.Core.Path.{subst}
use kickoutchi.Prelude.{
  ℕ, zero, suc, ◌≡◌, ◌≤◌, ◌+◌, sym, ap, ◌∙◌, true, false, some, List, [], ◌∷◌, arith, Bool-cases,
  Option-cases, Result-cases, List-cases, inl, inr, ◌⊎◌, ◌==◌, nat_eq, nat_beq_iff, find_holds,
  length, sort_by, sort_by-any, sort_by-Some, keep, keep-Some, any-map, All, All-Some, All-weaken,
  ok, false≢true,
}
use kickoutchi.Prelude.Text.{Text}
use kickoutchi.Model.{Platform}
use kickoutchi.Tree.{TreeProcessInfo}
use kickoutchi.Tree.Index
use kickoutchi.Tree.Index.{
  ProcessTreeIndex, process, children, new_lem, is_child_of, process_tree_index_max,
}
use kickoutchi.Tree.Frozen.{contains}
use kickoutchi.Tree.Frozen.Rows.{IsRow}
use kickoutchi.Tree.Plan.{ProcessTreeNode, ProcessTreeTarget, preview_node}
use kickoutchi.Tree.Plan.Build.{
  Preview, add_children, preview_walk, display_order, preview_fuel, start_preview,
  plan_process_tree_with_index, plan_process_tree,
}
use kickoutchi.Tree.Plan.Walk.{node_pids, queued, Tracks, Added, add_children-Added}

abbrev Expanded : ProcessTreeIndex → Preview → ℕ → Type 0
Expanded index p pid = All (λ info. contains p.seen info.pid ≡ true) (children index pid)

abbrev Explored : ProcessTreeIndex → Preview → Type 0
Explored index p =
    (pid : ℕ) → contains p.seen pid ≡ true → (contains (queued p) pid ≡ true) ⊎ Expanded index p pid

round-Explored :
    (limit : ℕ) (index : ProcessTreeIndex) (p p' : Preview) (parent depth : ℕ) (rest : List (ℕ × ℕ))
    → p.frontier ≡ (parent, depth) ∷ rest
    → Added limit (children index parent) (record p { frontier = rest }) p'
    → Explored index p
    → Explored index p'
round-Explored limit index p p' parent depth rest f a h pid s = elim (a.queues pid s) [
  | inr q ↦ inl q
  | inl old ↦ elim (h pid old) [
    | inr e ↦ inr (
        All-weaken (λ info. contains p.seen info.pid ≡ true)
          (λ info. contains p'.seen info.pid ≡ true) (children index pid) (λ info. a.keeps info.pid)
          e)
    | inl q ↦ elim (Bool-cases (parent == pid)) [
      | inl same ↦ inr (subst (Expanded index p') ((nat_beq_iff parent pid).0 same) a.sees)
      | inr other ↦ inl (a.keeps_queue pid (rw (f, other) at q))
    ]
  ]
]

-- The walk ran to its end: nothing waits, and every node has all its children seen.
abbrev Finished : ProcessTreeIndex → Preview → Type 0
Finished index p = (p.frontier ≡ []) × Explored index p × Tracks p

module _ (protected_names : List Text) (platform : Platform) (limit : ℕ)
    (index : ProcessTreeIndex) where
  walk-Finished :
      (fuel : ℕ) (p : Preview)
      → length p.frontier + limit ≤ fuel + length p.nodes
      → length p.nodes ≤ limit
      → Tracks p
      → Explored index p
      → (preview_walk protected_names platform limit fuel index p).is_truncated ≡ false
      → Finished index (preview_walk protected_names platform limit fuel index p)
  unfolding preview_walk
  walk-Finished zero p m n t h k = elim (List-cases p.frontier) [
    | inl e ↦ (e, h, t)
    | inr (entry, rest, e) ↦ absurd (omega (arith, m, n, ap length e))
  ]
  walk-Finished (suc fuel) p m n t h k = elim (List-cases p.frontier) [
    | inl e ↦ rw (e, preview_walk) (e, h, t)
    | inr ((parent, depth), rest, e) ↦
        let popped : Preview = record p { frontier = rest } in
        let p' =
          add_children protected_names platform limit (depth + 1) (children index parent) popped in
        elim (Bool-cases p'.is_truncated) [
          | inl c ↦ absurd (false≢true (sym (rw (e, c, preview_walk) at k) ∙ c))
          | inr c ↦
              rw (e, c, preview_walk)
                (let a =
                    add_children-Added protected_names platform limit (depth + 1)
                      (children index parent) popped c in
                  walk-Finished fuel p' (omega (arith, m, a.balance, ap length e)) (a.within n)
                    (a.tracks t) (round-Explored limit index p p' parent depth rest e a h)
                    (rw (e, c, preview_walk) at k))
        ]
  ]

abbrev pub target_of : ℕ → Preview → ProcessTreeTarget
target_of limit p = record {
  nodes = sort_by display_order p.nodes;
  is_truncated = p.is_truncated;
  limit = limit;
}

-- How a plan came about.
abbrev pub Planned :
    ℕ → List TreeProcessInfo → List Text → Platform → ℕ → ProcessTreeTarget → Type 0
Planned root_pid snapshot protected_names platform limit t =
    (index : ProcessTreeIndex) × (info : TreeProcessInfo) × (Index.new snapshot
        process_tree_index_max
      ≡ ok index)
    × (process index root_pid ≡ some info)
    × (target_of limit (
          preview_walk protected_names platform limit (preview_fuel limit) index
            (start_preview root_pid info protected_names platform))
        ≡ t)

pub plan-Planned :
    (root_pid : ℕ) (snapshot : List TreeProcessInfo) (protected_names : List Text)
    (platform : Platform) (limit : ℕ) (t : ProcessTreeTarget)
    → plan_process_tree root_pid snapshot protected_names platform limit ≡ ok t
    → Planned root_pid snapshot protected_names platform limit t
unfolding plan_process_tree plan_process_tree_with_index
plan-Planned root_pid snapshot protected_names platform limit t h =
    elim (Result-cases (Index.new snapshot process_tree_index_max)) [
      | inr (error, e) ↦ let bad = (rw (e, plan_process_tree) at h) in cc
      | inl (index, e) ↦
          let planned = (rw (e, plan_process_tree) at h) in
          elim (Option-cases (process index root_pid)) [
            | inl f ↦ let bad = (rw (f, plan_process_tree_with_index) at planned) in cc
            | inr (info, f) ↦
                let made = (rw (f, plan_process_tree_with_index) at planned) in
                (index, info, e, f, cc)
          ]
    ]

contains-display :
    (nodes : List ProcessTreeNode) (pid : ℕ)
    → contains (node_pids (sort_by display_order nodes)) pid ≡ contains (node_pids nodes) pid
contains-display nodes pid =
    any-map (λ (n : ProcessTreeNode). n.pid) (λ member. member == pid) (sort_by display_order nodes)
    ∙ sort_by-any display_order (λ (n : ProcessTreeNode). n.pid == pid) nodes
    ∙ sym (any-map (λ (n : ProcessTreeNode). n.pid) (λ member. member == pid) nodes)

module _ (root_pid : ℕ) (snapshot : List TreeProcessInfo) (protected_names : List Text)
    (platform : Platform) (limit : ℕ) where
  start-Tracks :
      (index : ProcessTreeIndex) (info : TreeProcessInfo)
      → Index.new snapshot process_tree_index_max ≡ ok index
      → process index root_pid ≡ some info
      → Tracks (start_preview root_pid info protected_names platform)
  unfolding preview_node
  start-Tracks index info e f pid =
      let found = sym (new_lem snapshot process_tree_index_max index root_pid e).0 ∙ f in
      let same =
        (nat_beq_iff info.pid root_pid).0
          (find_holds (λ i. i.pid == root_pid) snapshot {a = info} found) in
      ap (λ n. contains (n ∷ []) pid) (sym same)

  planned_closed :
      (index : ProcessTreeIndex) (info : TreeProcessInfo)
      → Index.new snapshot process_tree_index_max ≡ ok index
      → process index root_pid ≡ some info
      → 1 ≤ limit
      → (row : TreeProcessInfo) (parent : ℕ) → IsRow snapshot row
      → row.parent_pid ≡ some parent
      → let t = target_of limit (
          preview_walk protected_names platform limit
            (preview_fuel limit)
            index
            (start_preview root_pid info protected_names platform)) in
        t.is_truncated ≡ false
        → contains (node_pids t.nodes) parent ≡ true
        → contains (node_pids t.nodes) row.pid ≡ true
  planned_closed index info e f positive row parent m above k h =
      let p =
        preview_walk protected_names platform limit (preview_fuel limit) index
          (start_preview root_pid info protected_names platform) in
      let done =
        walk-Finished protected_names platform limit index (preview_fuel limit)
          (start_preview root_pid info protected_names platform) (omega arith)
          (omega (arith, positive)) (start-Tracks index info e f) (λ pid s. inl s) k in
      elim (done.1 parent (done.2 parent ∙ sym (contains-display p.nodes parent) ∙ h)) [
        | inl q ↦ absurd (false≢true (rw done.0 at q))
        | inr all ↦
            contains-display p.nodes row.pid
            ∙ sym (done.2 row.pid)
            ∙ All-Some (λ info. contains p.seen info.pid ≡ true) (children index parent) row all
                (rw (new_lem snapshot process_tree_index_max index parent e).1 (
                  sort_by-Some Index.by_pid_order (λ info. info ≡ row)
                    (keep (is_child_of parent) snapshot)
                    (keep-Some (is_child_of parent) snapshot row (rw above (ground arith)) m)))
      ]

  -- A tree preview that is not cut off is closed under children: a row of the snapshot whose
  -- parent is in the preview is in it too.
  pub preview_complete :
      (t : ProcessTreeTarget) (row : TreeProcessInfo) (parent : ℕ)
      → plan_process_tree root_pid snapshot protected_names platform limit ≡ ok t
      → 1 ≤ limit
      → t.is_truncated ≡ false
      → IsRow snapshot row
      → row.parent_pid ≡ some parent
      → contains (node_pids t.nodes) parent ≡ true
      → contains (node_pids t.nodes) row.pid ≡ true
  preview_complete t row parent h positive whole m above =
      let (index, info, e, f, made) =
        plan-Planned root_pid snapshot protected_names platform limit t h in
      subst
        (λ (t : ProcessTreeTarget).
          t.is_truncated ≡ false
          → contains (node_pids t.nodes) parent ≡ true
          → contains (node_pids t.nodes) row.pid ≡ true)
        made (planned_closed index info e f positive row parent m above) whole

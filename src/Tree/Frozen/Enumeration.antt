-- ===== src/Tree/Frozen/Enumeration.antt =====
-- What `unfrozen_members` of src/tree/execute.rs finds in a snapshot.
use mathlib.Core.List.{map-append}
use kickoutchi.Prelude.{
  ℕ, zero, suc, ◌≡◌, ◌≤◌, ◌+◌, refl, sym, ap, ◌∙◌, Bool, true, false, not, ◌||◌, ◌&&◌, some, List,
  [], ◌∷◌, ◌++◌, map, reverse, arith, Bool-cases, List-cases, inl, inr, ◌==◌, nat_eq, keep, any-or,
  any-map, any-reverse, length-reverse, length-map, sort_by, sort_by-any, sort_by-All, sort_by-Some,
  keep-Some, keep-All, All-Some, All-append, All, All-weaken, ok, false≢true, option_eq,
}
use kickoutchi.Tree.{TreeProcessInfo}
use kickoutchi.Tree.Index
use kickoutchi.Tree.Index.{ProcessTreeIndex, children, new_lem, is_child_of}
use kickoutchi.Tree.Frozen.{
  FrozenNode, SweepScope, Walk, contains, visit, visit_all, walk, start_walk, walk_fuel,
  unfrozen_children, unfrozen_group_members, unfrozen_members, pids, from_info, by_pid_order,
}
use kickoutchi.Tree.Frozen.Rows.{IsRow, HasRow, unseen_le, IsRow-HasRow}
use kickoutchi.Tree.Frozen.Closure.{queued, measure, Explored, walk-Explored}

pub contains-append :
    (xs ys : List FrozenNode) (pid : ℕ)
    → contains (pids (xs ++ ys)) pid ≡ contains (pids xs) pid || contains (pids ys) pid
contains-append xs ys pid =
    ap (λ l. contains l pid) (map-append (λ (n : FrozenNode). n.pid) xs ys)
    ∙ any-or (λ member. member == pid) (pids xs) (pids ys)

abbrev entry : FrozenNode → ℕ × ℕ
entry node = (node.pid, node.depth)

contains-sort_by :
    (before : FrozenNode → FrozenNode → Bool) (nodes : List FrozenNode) (pid : ℕ)
    → contains (pids (sort_by before nodes)) pid ≡ contains (pids nodes) pid
contains-sort_by before nodes pid =
    any-map (λ (n : FrozenNode). n.pid) (λ member. member == pid) (sort_by before nodes)
    ∙ sort_by-any before (λ (n : FrozenNode). n.pid == pid) nodes
    ∙ sym (any-map (λ (n : FrozenNode). n.pid) (λ member. member == pid) nodes)

-- What is seen is what was frozen and what has been discovered.
abbrev Tracks : List FrozenNode → Walk → Type 0
Tracks frozen w =
    (pid : ℕ) → contains w.seen pid ≡ contains (pids frozen) pid || contains (pids w.discovered) pid

-- A member that is found is a row of the snapshot that was not frozen.
abbrev pub IsFresh : List TreeProcessInfo → List FrozenNode → FrozenNode → Type 0
IsFresh snapshot frozen node = HasRow snapshot node.pid × (contains (pids frozen) node.pid ≡ false)

-- What the walk keeps.
abbrev Sound : List TreeProcessInfo → List FrozenNode → Walk → Type 0
Sound snapshot frozen w = Tracks frozen w × All (IsFresh snapshot frozen) w.discovered

module _ (snapshot : List TreeProcessInfo) (frozen : List FrozenNode) where
  visit-Sound :
      (depth : ℕ) (w : Walk) (info : TreeProcessInfo)
      → IsRow snapshot info
      → Sound snapshot frozen w
      → Sound snapshot frozen (visit depth w info)
  unfolding visit from_info
  visit-Sound depth w info m h = elim (Bool-cases (contains w.seen info.pid)) [
    | inl e ↦ rw (e, visit) h
    | inr e ↦
        rw (e, visit)
          (
            (λ pid.
                let later = contains-append w.discovered (from_info info depth ∷ []) pid in
                ground (arith, h.0 pid, later)),
            All-append (IsFresh snapshot frozen) w.discovered (from_info info depth ∷ []) h.1
                ((IsRow-HasRow snapshot info m, ground (arith, h.0 info.pid)), tt),
          )
  ]

  visit_all-Sound :
      (depth : ℕ) (infos : List TreeProcessInfo) (w : Walk)
      → All (IsRow snapshot) infos
      → Sound snapshot frozen w
      → Sound snapshot frozen (visit_all depth w infos)
  unfolding visit_all
  visit_all-Sound depth [] w m h = h
  visit_all-Sound depth (info ∷ rest) w m h =
      visit_all-Sound depth rest (visit depth w info) m.1 (visit-Sound depth w info m.0 h)

  walk-Sound :
      (index : ProcessTreeIndex) (fuel : ℕ) (w : Walk)
      → ((pid : ℕ) → All (IsRow snapshot) (children index pid))
      → Sound snapshot frozen w
      → Sound snapshot frozen (walk fuel index w)
  unfolding walk
  walk-Sound index zero w rows h = h
  walk-Sound index (suc fuel) w rows h = elim (List-cases w.frontier) [
    | inl e ↦ rw (e, walk) h
    | inr ((parent, depth), rest, e) ↦
        rw (e, walk)
          (walk-Sound index fuel _ rows (
            visit_all-Sound (depth + 1) (children index parent) (record w { frontier = rest })
              (rows parent) h))
  ]

rows_of : (snapshot : List TreeProcessInfo) → All (IsRow snapshot) snapshot
rows_of [] = tt
rows_of (row ∷ rest) =
    (inl refl, All-weaken (IsRow rest) (IsRow (row ∷ rest)) rest (λ info. inr) (rows_of rest))

pub children-IsRow :
    (snapshot : List TreeProcessInfo) (limit : ℕ) (index : ProcessTreeIndex)
    → Index.new snapshot limit ≡ ok index
    → (pid : ℕ) → All (IsRow snapshot) (children index pid)
children-IsRow snapshot limit index built pid = rw (new_lem snapshot limit index pid built).1 (
    sort_by-All Index.by_pid_order (IsRow snapshot) (keep (is_child_of pid) snapshot)
      (keep-All (IsRow snapshot) (is_child_of pid) snapshot (rows_of snapshot)))

module _ (snapshot : List TreeProcessInfo) (frozen : List FrozenNode) where
  start-queued : (pid : ℕ) → contains (queued (start_walk frozen)) pid ≡ contains (pids frozen) pid
  unfolding start_walk
  start-queued pid =
      any-map (λ (entry : ℕ × ℕ). entry.0) (λ member. member == pid) (reverse (map entry frozen))
      ∙ any-reverse (λ (entry : ℕ × ℕ). entry.0 == pid) (map entry frozen)
      ∙ any-map entry (λ (entry : ℕ × ℕ). entry.0 == pid) frozen
      ∙ sym (any-map (λ (node : FrozenNode). node.pid) (λ member. member == pid) frozen)

  start-measure : measure snapshot (start_walk frozen) ≤ walk_fuel snapshot frozen
  unfolding start_walk
  start-measure =
      let entries : List (ℕ × ℕ) = map entry frozen in
      omega
        (arith, length-reverse entries, length-map entry frozen, unseen_le (pids frozen) snapshot)

  start-Sound : Sound snapshot frozen (start_walk frozen)
  unfolding start_walk
  start-Sound = ((λ pid. ground arith), tt)

  module _ (limit : ℕ) (index : ProcessTreeIndex)
      (built : Index.new snapshot limit ≡ ok index) where
    group-IsFresh :
        (pgid : ℕ) (rows : List TreeProcessInfo)
        → All (λ row. HasRow snapshot row.pid) rows
        → All (IsFresh snapshot frozen) (
            map
              (λ info. from_info info 1)
              (keep
                (λ info. (info.process_group == some pgid) && not (contains (pids frozen) info.pid))
                rows))
    unfolding from_info
    group-IsFresh pgid [] h = tt
    group-IsFresh pgid (row ∷ rest) h = elim (Bool-cases (row.process_group == some pgid)) [
      | inr e ↦ rw e (group-IsFresh pgid rest h.1)
      | inl e ↦ rw e (elim (Bool-cases (contains (pids frozen) row.pid)) [
        | inl f ↦ rw f (group-IsFresh pgid rest h.1)
        | inr f ↦ rw f ((h.0, f), group-IsFresh pgid rest h.1)
      ])
    ]

    abbrev walked : Walk
    walked = walk (walk_fuel snapshot frozen) index (start_walk frozen)

    walked-Explored : (walked.frontier ≡ []) × Explored index walked
    unfolding start_walk
    walked-Explored =
        walk-Explored index snapshot (walk_fuel snapshot frozen) (start_walk frozen)
          (children-IsRow snapshot limit index built) start-measure
          λ pid h. inl (start-queued pid ∙ h)

    walked-Sound : Sound snapshot frozen walked
    walked-Sound =
        walk-Sound snapshot frozen index (walk_fuel snapshot frozen) (start_walk frozen)
          (children-IsRow snapshot limit index built) start-Sound

    seen-members :
        (pid : ℕ)
        → contains walked.seen pid
          ≡ contains (pids (frozen ++ unfrozen_members SweepScope.tree snapshot index frozen)) pid
    unfolding unfrozen_members unfrozen_children
    seen-members pid =
        walked-Sound.0 pid
        ∙ ap (λ b. contains (pids frozen) pid || b)
            (sym (contains-sort_by by_pid_order walked.discovered pid))
        ∙ sym (contains-append frozen (sort_by by_pid_order walked.discovered) pid)

    pub unfrozen_members-IsFresh :
        (scope : SweepScope)
        → All (IsFresh snapshot frozen) (unfrozen_members scope snapshot index frozen)
    unfolding unfrozen_members unfrozen_children unfrozen_group_members
    unfrozen_members-IsFresh SweepScope.tree =
        sort_by-All by_pid_order (IsFresh snapshot frozen) walked.discovered walked-Sound.1
    unfrozen_members-IsFresh (SweepScope.group pgid) =
        sort_by-All by_pid_order (IsFresh snapshot frozen) _ (
          group-IsFresh pgid snapshot
            (All-weaken (IsRow snapshot) _ snapshot (IsRow-HasRow snapshot) (rows_of snapshot)))

    -- With the members that a snapshot adds to the frozen ones, the tree is closed under children:
    -- a row of the snapshot whose parent is a member is a member itself.
    pub enumeration_closed :
        (row : TreeProcessInfo) (parent : ℕ)
        → IsRow snapshot row
        → row.parent_pid ≡ some parent
        → contains (pids (frozen ++ unfrozen_members SweepScope.tree snapshot index frozen)) parent
          ≡ true
        → contains (pids (frozen ++ unfrozen_members SweepScope.tree snapshot index frozen)) row.pid
          ≡ true
    enumeration_closed row parent m e h =
        elim (walked-Explored.1 parent (seen-members parent ∙ h)) [
          | inl q ↦ absurd (false≢true (rw walked-Explored.0 at q))
          | inr all ↦
              sym (seen-members row.pid)
              ∙ All-Some (λ info. contains walked.seen info.pid ≡ true) (children index parent) row
                  all
                  (rw (new_lem snapshot limit index parent built).1 (
                    sort_by-Some Index.by_pid_order (λ info. info ≡ row)
                      (keep (is_child_of parent) snapshot)
                      (keep-Some (is_child_of parent) snapshot row (rw e (ground arith)) m)))
        ]

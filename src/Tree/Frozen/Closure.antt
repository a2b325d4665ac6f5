-- ===== src/Tree/Frozen/Closure.antt =====
-- The worklist of `unfrozen_children` of src/tree/execute.rs runs to its end on the fuel that it is
-- given, and what it has then seen is closed under children.
use mathlib.Core.Path.{subst}
use kickoutchi.Prelude.{
  ℕ, zero, suc, ◌≡◌, ◌≤◌, ◌+◌, ap, true, List, [], ◌∷◌, map, arith, Bool-cases, List-cases, inl,
  inr, ◌⊎◌, ◌==◌, nat_eq, nat_beq_iff, length, All, All-weaken,
}
use kickoutchi.Tree.{TreeProcessInfo}
use kickoutchi.Tree.Index.{ProcessTreeIndex, children}
use kickoutchi.Tree.Frozen.{Walk, contains, visit, visit_all, walk}
use kickoutchi.Tree.Frozen.Rows.{IsRow, unseen, unseen_drops, contains_here, IsRow-HasRow}

abbrev pub queued : Walk → List ℕ
queued w = map (λ (entry : ℕ × ℕ). entry.0) w.frontier

abbrev pub measure : List TreeProcessInfo → Walk → ℕ
measure snapshot w = length w.frontier + unseen w.seen snapshot

module _ (depth : ℕ) where
  visit_seen :
      (w : Walk) (info : TreeProcessInfo) → contains (visit depth w info).seen info.pid ≡ true
  unfolding visit
  visit_seen w info = elim (Bool-cases (contains w.seen info.pid)) [
    | inl e ↦ rw (e, visit) e
    | inr e ↦ rw (e, visit) (contains_here w.seen info.pid)
  ]

  visit_keeps :
      (w : Walk) (info : TreeProcessInfo) (pid : ℕ)
      → contains w.seen pid ≡ true
      → contains (visit depth w info).seen pid ≡ true
  unfolding visit
  visit_keeps w info pid h = ground arith

  visit_keeps_queue :
      (w : Walk) (info : TreeProcessInfo) (pid : ℕ)
      → contains (queued w) pid ≡ true
      → contains (queued (visit depth w info)) pid ≡ true
  unfolding visit
  visit_keeps_queue w info pid h = ground arith

  -- A PID that is seen now was seen before, or waits in the queue.
  visit_queues :
      (w : Walk) (info : TreeProcessInfo) (pid : ℕ)
      → contains (visit depth w info).seen pid ≡ true
      → (contains w.seen pid ≡ true) ⊎ (contains (queued (visit depth w info)) pid ≡ true)
  unfolding visit
  visit_queues w info pid h = elim (Bool-cases (contains w.seen pid)) [
    | inl e ↦ inl e
    | inr e ↦ inr (ground arith)
  ]

  visit-measure :
      (snapshot : List TreeProcessInfo) (w : Walk) (info : TreeProcessInfo)
      → IsRow snapshot info
      → measure snapshot (visit depth w info) ≤ measure snapshot w
  unfolding visit
  visit-measure snapshot w info m = elim (Bool-cases (contains w.seen info.pid)) [
    | inl e ↦ rw (e, visit) (omega arith)
    | inr e ↦
        rw (e, visit)
          (omega (arith, unseen_drops w.seen info.pid snapshot e (IsRow-HasRow snapshot info m)))
  ]

  visit_all_keeps :
      (infos : List TreeProcessInfo) (w : Walk) (pid : ℕ)
      → contains w.seen pid ≡ true
      → contains (visit_all depth w infos).seen pid ≡ true
  unfolding visit_all
  visit_all_keeps [] w pid h = h
  visit_all_keeps (info ∷ rest) w pid h = visit_all_keeps rest _ pid (visit_keeps w info pid h)

  visit_all_keeps_queue :
      (infos : List TreeProcessInfo) (w : Walk) (pid : ℕ)
      → contains (queued w) pid ≡ true
      → contains (queued (visit_all depth w infos)) pid ≡ true
  unfolding visit_all
  visit_all_keeps_queue [] w pid h = h
  visit_all_keeps_queue (info ∷ rest) w pid h =
      visit_all_keeps_queue rest _ pid (visit_keeps_queue w info pid h)

  visit_all_seen :
      (infos : List TreeProcessInfo) (w : Walk)
      → All (λ info. contains (visit_all depth w infos).seen info.pid ≡ true) infos
  unfolding visit_all
  visit_all_seen [] w = tt
  visit_all_seen (info ∷ rest) w = (
    visit_all_keeps rest (visit depth w info) info.pid (visit_seen w info),
    visit_all_seen rest (visit depth w info),
  )

  visit_all_queues :
      (infos : List TreeProcessInfo) (w : Walk) (pid : ℕ)
      → contains (visit_all depth w infos).seen pid ≡ true
      → (contains w.seen pid ≡ true) ⊎ (contains (queued (visit_all depth w infos)) pid ≡ true)
  unfolding visit_all
  visit_all_queues [] w pid h = inl h
  visit_all_queues (info ∷ rest) w pid h = elim (visit_all_queues rest (visit depth w info) pid h) [
    | inr q ↦ inr q
    | inl s ↦ elim (visit_queues w info pid s) [
      | inl old ↦ inl old
      | inr q ↦ inr (visit_all_keeps_queue rest (visit depth w info) pid q)
    ]
  ]

  visit_all-measure :
      (snapshot infos : List TreeProcessInfo) (w : Walk)
      → All (IsRow snapshot) infos
      → measure snapshot (visit_all depth w infos) ≤ measure snapshot w
  unfolding visit_all
  visit_all-measure snapshot [] w m = omega arith
  visit_all-measure snapshot (info ∷ rest) w m = omega (
    arith,
    visit-measure snapshot w info m.0,
    visit_all-measure snapshot rest (visit depth w info) m.1,
  )

-- Every child that the index gives to `pid` is seen.
abbrev Expanded : ProcessTreeIndex → Walk → ℕ → Type 0
Expanded index w pid = All (λ info. contains w.seen info.pid ≡ true) (children index pid)

-- A PID that is seen waits in the queue or has all its children seen.
abbrev pub Explored : ProcessTreeIndex → Walk → Type 0
Explored index w =
    (pid : ℕ) → contains w.seen pid ≡ true → (contains (queued w) pid ≡ true) ⊎ Expanded index w pid

module _ (index : ProcessTreeIndex) where
  -- One round of the loop keeps that.
  round-Explored :
      (w : Walk) (parent depth : ℕ) (rest : List (ℕ × ℕ))
      → w.frontier ≡ (parent, depth) ∷ rest
      → Explored index w
      → Explored index
          (visit_all (depth + 1) (record w { frontier = rest }) (children index parent))
  round-Explored w parent depth rest f h pid s =
      let popped : Walk = record w { frontier = rest } in
      let w' = visit_all (depth + 1) popped (children index parent) in
      elim (visit_all_queues (depth + 1) (children index parent) popped pid s) [
        | inr q ↦ inl q
        | inl old ↦ elim (h pid old) [
          | inr e ↦ inr (
              All-weaken (λ info. contains w.seen info.pid ≡ true)
                (λ info. contains w'.seen info.pid ≡ true) (children index pid)
                (λ info. visit_all_keeps (depth + 1) (children index parent) popped info.pid) e)
          | inl q ↦ elim (Bool-cases (parent == pid)) [
            | inl same ↦ inr (
                subst (Expanded index w') ((nat_beq_iff parent pid).0 same)
                  (visit_all_seen (depth + 1) (children index parent) popped))
            | inr other ↦ inl (
                visit_all_keeps_queue (depth + 1) (children index parent) popped pid
                  (rw (f, other) at q))
          ]
        ]
      ]

  pub walk-Explored :
      (snapshot : List TreeProcessInfo) (fuel : ℕ) (w : Walk)
      → ((pid : ℕ) → All (IsRow snapshot) (children index pid))
      → measure snapshot w ≤ fuel
      → Explored index w
      → ((walk fuel index w).frontier ≡ []) × Explored index (walk fuel index w)
  unfolding walk
  walk-Explored snapshot zero w rows m h = elim (List-cases w.frontier) [
    | inl e ↦ (e, h)
    | inr (entry, rest, e) ↦ absurd (omega (arith, m, ap length e))
  ]
  walk-Explored snapshot (suc fuel) w rows m h = elim (List-cases w.frontier) [
    | inl e ↦ rw (e, walk) (e, h)
    | inr ((parent, depth), rest, e) ↦
        rw (e, walk)
          (walk-Explored snapshot fuel _ rows
            (omega (
              arith,
              m,
              ap length e,
              visit_all-measure (depth + 1) snapshot (children index parent)
                  (record w { frontier = rest }) (rows parent),
            ))
            (round-Explored w parent depth rest e h))
  ]

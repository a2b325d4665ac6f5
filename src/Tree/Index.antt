-- ===== src/Tree/Index.antt =====
-- src/tree/plan.rs: the index over one process-table snapshot.
use kickoutchi.Prelude.{
  ℕ, ◌≡◌, ◌∙◌, Bool, Option, none, some, List, [], ◌∷◌, ◌++◌, arith, if◌then◌else◌, leb, ltb, ◌==◌,
  nat_eq, Result, ok, err, find, keep, length, sort_by, is_some_and, option_eq,
}
use mathlib.Core.List.{append_assoc, append-nil}
use kickoutchi.Tree.{TreeProcessInfo}

abbrev pub process_tree_index_max : ℕ
process_tree_index_max = 131072

pub data TreePlanError : Type 0 where
  root_missing : TreePlanError
  snapshot_limit_exceeded : (limit : ℕ) → TreePlanError

-- The two hash maps, as the functions that look a key up.
pub record ProcessTreeIndex : Type 0 where
  pub by_pid : ℕ → Option TreeProcessInfo
  pub children_by_parent : ℕ → List TreeProcessInfo

-- `by_pid.entry(info.pid).or_insert(info)`.
or_insert : (ℕ → Option TreeProcessInfo) → TreeProcessInfo → ℕ → Option TreeProcessInfo
or_insert by_pid info pid = elim (by_pid pid) [
  | some existing ↦ some existing
  | none ↦ if info.pid == pid then some info else none
]

-- `children_by_parent.entry(parent_pid).or_default().push(info)`, where there is a parent.
push_child : (ℕ → List TreeProcessInfo) → TreeProcessInfo → ℕ → List TreeProcessInfo
push_child children info pid =
    if is_some_and info.parent_pid (λ parent. parent == pid)
    then children pid ++ info ∷ []
    else children pid

add_info : ProcessTreeIndex → TreeProcessInfo → ProcessTreeIndex
unfolding or_insert push_child
add_info index info = record {
  by_pid = or_insert index.by_pid info;
  children_by_parent = push_child index.children_by_parent info;
}

add_all : ProcessTreeIndex → List TreeProcessInfo → ProcessTreeIndex
add_all index [] = index
add_all index (info ∷ rest) = add_all (add_info index info) rest

abbrev pub by_pid_order : TreeProcessInfo → TreeProcessInfo → Bool
by_pid_order left right = leb left.pid right.pid

unfoldable pub empty : ProcessTreeIndex
empty = record { by_pid = λ _. none; children_by_parent = λ _. [] }

sort_children : ProcessTreeIndex → ProcessTreeIndex
sort_children index = record index {
  children_by_parent = λ pid. sort_by by_pid_order (index.children_by_parent pid);
}

unfoldable pub new : List TreeProcessInfo → ℕ → Result ProcessTreeIndex TreePlanError
unfolding add_all add_info empty sort_children
new snapshot limit =
    if ltb limit (length snapshot)
    then err (snapshot_limit_exceeded limit)
    else ok (sort_children (add_all empty snapshot))

unfoldable pub process : ProcessTreeIndex → ℕ → Option TreeProcessInfo
process index pid = index.by_pid pid

unfoldable pub children : ProcessTreeIndex → ℕ → List TreeProcessInfo
children index pid = index.children_by_parent pid

abbrev pub is_child_of : ℕ → TreeProcessInfo → Bool
is_child_of pid info = is_some_and info.parent_pid (λ parent. parent == pid)

add_all-by_pid :
    (index : ProcessTreeIndex) (snapshot : List TreeProcessInfo) (pid : ℕ)
    → (add_all index snapshot).by_pid pid ≡ elim (index.by_pid pid) [
      | some existing ↦ some existing
      | none ↦ find (λ info. info.pid == pid) snapshot
    ]
unfolding add_all add_info
add_all-by_pid index [] pid = ground arith
add_all-by_pid index (info ∷ rest) pid =
    add_all-by_pid (add_info index info) rest pid ∙ ground arith

add_all-children :
    (index : ProcessTreeIndex) (snapshot : List TreeProcessInfo) (pid : ℕ)
    → (add_all index snapshot).children_by_parent pid
      ≡ index.children_by_parent pid ++ keep (is_child_of pid) snapshot
unfolding add_all add_info
add_all-children index [] pid = rw append-nil
add_all-children index (info ∷ rest) pid =
    add_all-children (add_info index info) rest pid
    ∙ ground (
      arith,
      append_assoc (index.children_by_parent pid) (info ∷ []) (keep (is_child_of pid) rest),
    )

-- The index answers as a scan of the snapshot does: the first row of a PID, and the rows whose
-- parent it is, sorted by PID.
pub new_lem :
    (snapshot : List TreeProcessInfo) (limit : ℕ) (index : ProcessTreeIndex) (pid : ℕ)
    → new snapshot limit ≡ ok index
    → (process index pid ≡ find (λ info. info.pid == pid) snapshot)
      × (children index pid ≡ sort_by by_pid_order (keep (is_child_of pid) snapshot))
unfolding new process children
new_lem snapshot limit index pid h = (
  ground (arith, add_all-by_pid empty snapshot pid),
  ground (arith, add_all-children empty snapshot pid),
)

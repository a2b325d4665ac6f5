-- ===== src/Tree/Policy/Laws.antt =====
-- What `check_tree_policy` of src/tree/execute.rs admits.
use kickoutchi.Prelude.{
  ◌≡◌, refl, Bool, not, ◌&&◌, ◌||◌, Option, none, some, List, [], ◌∷◌, arith, all, any, find,
  is_none, is_some, is_some_and, or_else, Option-cases, inl, inr,
}
use kickoutchi.Prelude.Text.{Text}
use kickoutchi.Model.{Platform}
use kickoutchi.Process.{Host, unsafe_pid_reason}
use kickoutchi.Tree.{ScopeAuthorization, protected_root_confirmed, prompt_skipped}
use kickoutchi.Tree.Outcome.{TreeKillOutcome}
use kickoutchi.Tree.Frozen.{FrozenNode, SweepScope}
use kickoutchi.Tree.Policy.{
  check_members, check_descendants, check_root, check_skipped, check_tree_policy, node_protected,
  below_root, at_root, needs_confirmation,
}

is_none-or_else : (a b : Option TreeKillOutcome) → is_none (or_else a b) ≡ is_none a && is_none b
is_none-or_else none b = refl
is_none-or_else (some a) b = refl

abbrev nameable : Host → FrozenNode → Bool
nameable host node = is_none (unsafe_pid_reason host node.pid) && is_some node.process_name

members_pass :
    (host : Host) (frozen : List FrozenNode)
    → is_none (check_members host frozen) ≡ all (nameable host) frozen
unfolding check_members
members_pass host [] = refl
members_pass host (node ∷ rest) = elim (Option-cases (unsafe_pid_reason host node.pid)) [
  | inr (reason, e) ↦ rw (e, check_members) refl
  | inl e ↦
      rw (e, check_members)
        (elim (Option-cases node.process_name) [
          | inl n ↦ rw n refl
          | inr (name, n) ↦ rw n (members_pass host rest)
        ])
]

find-any :
    (p : FrozenNode → Bool) (frozen : List FrozenNode)
    → is_none (find p frozen) ≡ not (any p frozen)
find-any p [] = refl
find-any p (node ∷ rest) = ground (arith, find-any p rest)

descendants_pass :
    (protected : FrozenNode → Bool) (frozen : List FrozenNode)
    → is_none (check_descendants protected frozen)
      ≡ not (any (λ node. below_root node && protected node) frozen)
unfolding check_descendants
descendants_pass protected frozen =
    ground (arith, find-any (λ node. below_root node && protected node) frozen)

root_passes :
    (authorization : ScopeAuthorization) (protected : FrozenNode → Bool) (frozen : List FrozenNode)
    → is_none (check_root authorization protected frozen)
      ≡ protected_root_confirmed authorization || not (is_some_and (find at_root frozen) protected)
unfolding check_root
root_passes authorization protected frozen = ground arith

skipped_passes :
    (host : Host) (scope : SweepScope) (authorization : ScopeAuthorization) (platform : Platform)
    (frozen : List FrozenNode)
    → is_none (check_skipped host scope authorization platform frozen)
      ≡ not (prompt_skipped authorization && needs_confirmation host scope platform frozen)
unfolding check_skipped
skipped_passes host scope authorization platform frozen = ground arith

-- The policy check passes exactly when every frozen member has a safe PID and a known name, no
-- member below the root is protected, a protected root was confirmed as such, and a run that
-- skipped the prompt has nothing in it that needs a confirmation.
pub policy_passes :
    (host : Host) (frozen : List FrozenNode) (scope : SweepScope)
    (authorization : ScopeAuthorization) (protected_names : List Text) (platform : Platform)
    → is_none (check_tree_policy host frozen scope authorization protected_names platform)
      ≡ all (λ node. is_none (unsafe_pid_reason host node.pid) && is_some node.process_name) frozen
        && (not
              (any (λ node. below_root node && node_protected platform protected_names node) frozen)
            && ((protected_root_confirmed authorization
                  || not
                      (is_some_and (find at_root frozen) (node_protected platform protected_names)))
                && not (
                    prompt_skipped authorization && needs_confirmation host scope platform frozen)))
unfolding check_tree_policy
policy_passes host frozen scope authorization protected_names platform =
    let protected = node_protected platform protected_names in
    rw (
      is_none-or_else (check_members host frozen) _,
      is_none-or_else (check_descendants protected frozen) _,
      is_none-or_else (check_root authorization protected frozen) _,
      members_pass host frozen,
      descendants_pass protected frozen,
      root_passes authorization protected frozen,
      skipped_passes host scope authorization platform frozen,
    )

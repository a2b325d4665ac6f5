-- ===== src/Tree/Safety/Checks.antt =====
-- The checks between the freeze and the signals send no signal, keep who is frozen, and answer
-- with refusals.
use kickoutchi.Prelude.{
  ℕ, ◌≡◌, refl, ap, ◌∙◌, Bool, Option, none, some, List, [], ◌∷◌, map, arith, not, find_holds, ◌==◌,
  nat_eq, nat_beq_iff, inl, inr, ◌⊎◌, or_else, Option-cases, Result-cases, Bool-cases, Result, ok,
  err, length,
}
use kickoutchi.Observation.{ProcessStartMarker}
use kickoutchi.Prelude.Text.{Text}
use kickoutchi.Model.{Platform}
use kickoutchi.Process.{Host, KillTarget}
use kickoutchi.Tree.Policy.{
  check_members, check_descendants, check_root, check_skipped, check_tree_policy, node_protected,
}
use kickoutchi.ProcessEvidence
use kickoutchi.ProcessEvidence.{ProcessEvidenceScope, observe, finish}
use kickoutchi.Tree.{
  TreeProcessInfo, TreeProcessOps, TreeSignalResult, delivered, not_found, denied,
  ScopeAuthorization,
}
use kickoutchi.Tree.Index
use kickoutchi.Tree.Index.{ProcessTreeIndex, process, process_tree_index_max}
use kickoutchi.Tree.Outcome.{
  TreeKillOutcome, is_completed, IsRefusal, Refuses, evidence_tree_outcome-IsRefusal,
}
use kickoutchi.Tree.Frozen.{FrozenNode, SweepScope, from_info}
use kickoutchi.Tree.Verify.{
  root_identity_matches, left_group, check_root_row, check_root_snapshot, verify_node, verify_nodes,
  verify_frozen_identities, prepare_delivery_handles, observe_members,
  verify_fresh_delivery_evidence,
}
use kickoutchi.Tree.Record.{Recorded, recording}

-- What a refresh of the names leaves alone.
abbrev pub key : FrozenNode → ℕ × Bool × ℕ
key node = (node.pid, node.resume_on_cleanup, node.depth)

abbrev pub keys : List FrozenNode → List (ℕ × Bool × ℕ)
keys = map key

Signal-cases : (r : TreeSignalResult) → (r ≡ delivered) ⊎ (r ≡ not_found) ⊎ (r ≡ denied)
Signal-cases delivered = inl refl
Signal-cases not_found = inr (inl refl)
Signal-cases denied = inr (inr refl)

key-verify_node :
    (scope : SweepScope) (node : FrozenNode) (info : Option TreeProcessInfo) (node' : FrozenNode)
    → verify_node scope node info ≡ ok node'
    → key node' ≡ key node
unfolding verify_node
key-verify_node scope node none node' h = cc
key-verify_node scope node (some info) node' h = ground arith

verify_node-IsRefusal :
    (scope : SweepScope) (node : FrozenNode) (info : Option TreeProcessInfo) (o : TreeKillOutcome)
    → verify_node scope node info ≡ err o
    → IsRefusal o
unfolding verify_node is_completed
verify_node-IsRefusal scope node none o h = ground arith
verify_node-IsRefusal scope node (some info) o h = ground arith

verify_nodes_checks :
    (scope : SweepScope) (index : ProcessTreeIndex) (frozen : List FrozenNode)
    → let r = verify_nodes scope index frozen in Refuses r.0 × (keys r.1 ≡ keys frozen)
unfolding verify_nodes
verify_nodes_checks scope index [] = (tt, refl)
verify_nodes_checks scope index (node ∷ rest) =
    elim (Result-cases (verify_node scope node (process index node.pid))) [
      | inl (node', e) ↦
          rw (e, verify_nodes)
            (
              (verify_nodes_checks scope index rest).0,
              ap (λ (k : ℕ × Bool × ℕ). k ∷ keys (verify_nodes scope index rest).1)
                    (key-verify_node scope node _ node' e)
                  ∙ ap (◌∷◌ (key node)) (verify_nodes_checks scope index rest).1,
            )
      | inr (o, e) ↦ rw (e, verify_nodes) (verify_node-IsRefusal scope node _ o e, refl)
    ]

pub verify_frozen_checks :
    (frozen : List FrozenNode) (scope : SweepScope) (snapshot : List TreeProcessInfo)
    → let r = verify_frozen_identities frozen scope snapshot in
      Refuses r.0 × (keys r.1 ≡ keys frozen)
unfolding verify_frozen_identities is_completed
verify_frozen_checks frozen scope snapshot =
    elim (Result-cases (Index.new snapshot process_tree_index_max)) [
      | inl (index, e) ↦ rw (e, verify_frozen_identities) (verify_nodes_checks scope index frozen)
      | inr (o, e) ↦ rw (e, verify_frozen_identities) (refl, refl)
    ]

module _ {S : Type 0} (ops : TreeProcessOps S) where
  pub prepare_checks :
      (frozen : List FrozenNode) (w : Recorded S)
      → let r = prepare_delivery_handles (recording ops) frozen w in Refuses r.0 × (r.1.log ≡ w.log)
  unfolding prepare_delivery_handles is_completed
  prepare_checks [] w = (tt, refl)
  prepare_checks (node ∷ rest) w =
      let r = ops.prepare_delivery node.pid node.start_time_marker w.inner in
      elim (Signal-cases r.0) [
        | inl e ↦ rw (e, prepare_delivery_handles) (prepare_checks rest (record w { inner = r.1 }))
        | inr (inl e) ↦ rw (e, prepare_delivery_handles) (refl, refl)
        | inr (inr e) ↦ rw (e, prepare_delivery_handles) (refl, refl)
      ]

  observe_checks :
      (scope : ProcessEvidenceScope) (frozen : List FrozenNode) (w : Recorded S)
      → let r = observe_members (recording ops) scope frozen w in
        Refuses r.0 × (keys r.1 ≡ keys frozen) × (r.2.log ≡ w.log)
  unfolding observe_members is_completed
  observe_checks scope [] w = elim (Option-cases (finish scope)) [
    | inl e ↦ rw (e, observe_members) (tt, refl, refl)
    | inr (error, e) ↦ rw (e, observe_members) (evidence_tree_outcome-IsRefusal error, refl, refl)
  ]
  observe_checks scope (node ∷ rest) w = elim (Option-cases node.start_time_marker) [
    | inl e ↦ rw (e, observe_members) (refl, refl, refl)
    | inr (marker, e) ↦
        rw (e, observe_members)
          (let read = ops.fresh_process_evidence node.pid w.inner in
            let seen =
              observe scope (record { pid = node.pid; start_marker = marker; name = none })
                read.0 in
            let later = observe_checks seen.1 rest (record w { inner = read.1 }) in
            elim (Result-cases seen.0) [
              | inl (fresh, o) ↦ rw o (later.0, ap (◌∷◌ (key node)) later.1, later.2)
              | inr (error, o) ↦ rw o (evidence_tree_outcome-IsRefusal error, refl, refl)
            ])
  ]

  pub fresh_checks :
      (frozen : List FrozenNode) (w : Recorded S)
      → let r = verify_fresh_delivery_evidence (recording ops) frozen w in
        Refuses r.0 × (keys r.1 ≡ keys frozen) × (r.2.log ≡ w.log)
  unfolding verify_fresh_delivery_evidence
  fresh_checks frozen w = elim (Result-cases (ProcessEvidence.new (length frozen))) [
    | inl (scope, e) ↦ rw (e, verify_fresh_delivery_evidence) (observe_checks scope frozen w)
    | inr (error, e) ↦
        rw (e, verify_fresh_delivery_evidence) (evidence_tree_outcome-IsRefusal error, refl, refl)
  ]

check_members-Refuses :
    (host : Host) (frozen : List FrozenNode) → Refuses (check_members host frozen)
unfolding check_members is_completed
check_members-Refuses host [] = tt
check_members-Refuses host (node ∷ rest) = ground (arith, check_members-Refuses host rest)

or_else-Refuses : (a b : Option TreeKillOutcome) → Refuses a → Refuses b → Refuses (or_else a b)
or_else-Refuses none b h k = k
or_else-Refuses (some a) b h k = h

check_descendants-Refuses :
    (protected : FrozenNode → Bool) (frozen : List FrozenNode)
    → Refuses (check_descendants protected frozen)
unfolding check_descendants is_completed
check_descendants-Refuses protected frozen = ground arith

check_root-Refuses :
    (authorization : ScopeAuthorization) (protected : FrozenNode → Bool) (frozen : List FrozenNode)
    → Refuses (check_root authorization protected frozen)
unfolding check_root is_completed
check_root-Refuses authorization protected frozen = ground arith

check_skipped-Refuses :
    (host : Host) (scope : SweepScope) (authorization : ScopeAuthorization) (platform : Platform)
    (frozen : List FrozenNode)
    → Refuses (check_skipped host scope authorization platform frozen)
unfolding check_skipped is_completed
check_skipped-Refuses host scope authorization platform frozen = ground arith

pub policy_checks :
    (host : Host) (frozen : List FrozenNode) (scope : SweepScope)
    (authorization : ScopeAuthorization) (protected_names : List Text) (platform : Platform)
    → Refuses (check_tree_policy host frozen scope authorization protected_names platform)
unfolding check_tree_policy
policy_checks host frozen scope authorization protected_names platform =
    let protected = node_protected platform protected_names in
    or_else-Refuses _ _ (check_members-Refuses host frozen) (
      or_else-Refuses _ _ (check_descendants-Refuses protected frozen) (
        or_else-Refuses _ _ (check_root-Refuses authorization protected frozen)
          (check_skipped-Refuses host scope authorization platform frozen)))

-- The check of the stopped root answers with the root's own PID, or refuses.
abbrev pub RootChecked :
    KillTarget → Result FrozenNode (TreeKillOutcome × Option FrozenNode) → Type 0
RootChecked root (ok node) = node.pid ≡ root.pid
RootChecked root (err (o, none)) = IsRefusal o × (root.pid ≡ root.pid)
RootChecked root (err (o, some node)) = IsRefusal o × (node.pid ≡ root.pid)

check_root_row-RootChecked :
    (root : KillTarget) (scope : SweepScope) (marker : Option ProcessStartMarker)
    (found : Option TreeProcessInfo)
    → ((info : TreeProcessInfo) → found ≡ some info → info.pid ≡ root.pid)
    → RootChecked root (check_root_row root scope marker found)
unfolding check_root_row is_completed from_info
check_root_row-RootChecked root scope marker none h = (refl, refl)
check_root_row-RootChecked root scope marker (some info) h =
    let same = h info refl in
    elim (Bool-cases (not (root_identity_matches root info))) [
      | inl e ↦ rw (e, check_root_row) (refl, same)
      | inr e ↦
          rw (e, check_root_row)
            (elim (Bool-cases (left_group scope info)) [
              | inl e₂ ↦ rw e₂ (refl, same)
              | inr e₂ ↦ rw e₂ same
            ])
    ]

pub root_checks :
    (root : KillTarget) (scope : SweepScope) (marker : Option ProcessStartMarker)
    (snapshot : Result (List TreeProcessInfo) Text)
    → RootChecked root (check_root_snapshot root scope marker snapshot)
unfolding check_root_snapshot is_completed
root_checks root scope marker (err error) = (refl, refl)
root_checks root scope marker (ok snapshot) =
    check_root_row-RootChecked root scope marker _ λ info e.
      (nat_beq_iff info.pid root.pid).0 (find_holds (λ i. i.pid == root.pid) snapshot {a = info} e)

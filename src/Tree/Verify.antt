-- ===== src/Tree/Verify.antt =====
-- src/tree/execute.rs: the identity checks between the freeze and the signals.
use kickoutchi.Prelude.{
  Bool, true, false, not, ◌||◌, Option, none, some, List, [], ◌∷◌, if◌then◌else◌, ◌==◌, nat_eq,
  option_eq, find, length, Result, ok, err, is_none,
}
use kickoutchi.Prelude.Text.{Text, text_eq, codes}
use kickoutchi.Observation.{ProcessStartMarker, marker_eq}
use kickoutchi.ProcessEvidence
use kickoutchi.ProcessEvidence.{
  ProcessEvidenceScope, FreshProcessEvidence, ProcessEvidenceError, observe, finish,
}
use kickoutchi.Process.{KillTarget}
use kickoutchi.Tree.{TreeProcessInfo, TreeProcessOps, delivered, not_found, denied}
use kickoutchi.Tree.Index
use kickoutchi.Tree.Index.{ProcessTreeIndex, process, process_tree_index_max}
use kickoutchi.Tree.Outcome.{
  TreeKillOutcome, root_already_exited, permission_denied, target_changed, partial_metadata,
  snapshot_failed, evidence_tree_outcome,
}
use kickoutchi.Tree.Frozen.{FrozenNode, SweepScope, from_info, relation_holds}

unfoldable pub root_identity_matches : KillTarget → TreeProcessInfo → Bool
root_identity_matches root info = elim root.process_start_time_marker [
  | none ↦ false
  | some confirmed ↦ elim info.start_time_marker [
    | none ↦ false
    | some fresh ↦
        if confirmed == fresh
        then (elim root.process_name [
          | none ↦ true
          | some expected ↦ elim info.process_name [
            | none ↦ false
            | some actual ↦ actual == expected
          ]
        ])
        else false
  ]
]

-- The confirmed group is part of the root's identity in group scope.
unfoldable pub left_group : SweepScope → TreeProcessInfo → Bool
left_group SweepScope.tree info = false
left_group (SweepScope.group pgid) info = not (info.process_group == some pgid)

abbrev pub observed_root : KillTarget → Option ProcessStartMarker → TreeProcessInfo → FrozenNode
observed_root root marker info = record (from_info info 0) {
  start_time_marker = root.process_start_time_marker;
  rollback_start_time_marker = marker;
}

unfoldable pub check_root_row :
    KillTarget
    → SweepScope
    → Option ProcessStartMarker
    → Option TreeProcessInfo
    → Result FrozenNode (TreeKillOutcome × Option FrozenNode)
unfolding root_identity_matches left_group
check_root_row root scope marker none = err (root_already_exited, none)
check_root_row root scope marker (some info) =
    if not (root_identity_matches root info)
    then err (target_changed root.pid, some (observed_root root marker info))
    else if left_group scope info
    then err (target_changed root.pid, some (observed_root root marker info))
    else ok (observed_root root marker info)

unfoldable pub check_root_snapshot :
    KillTarget
    → SweepScope
    → Option ProcessStartMarker
    → Result (List TreeProcessInfo) Text
    → Result FrozenNode (TreeKillOutcome × Option FrozenNode)
unfolding check_root_row
check_root_snapshot root scope marker (err error) = err (snapshot_failed error, none)
check_root_snapshot root scope marker (ok snapshot) =
    check_root_row root scope marker (find (λ info. info.pid == root.pid) snapshot)

unfoldable pub verify_root_after_stop :
    {S : Type 0}
    → KillTarget
    → SweepScope
    → Option ProcessStartMarker
    → TreeProcessOps S
    → S
    → Result FrozenNode (TreeKillOutcome × Option FrozenNode) × S
unfolding check_root_snapshot
verify_root_after_stop root scope marker ops s =
    let (snapshot, s') = ops.snapshot s in (check_root_snapshot root scope marker snapshot, s')

-- One member of `verify_frozen_identities`, refreshed from its row.
unfoldable pub verify_node :
    SweepScope → FrozenNode → Option TreeProcessInfo → Result FrozenNode TreeKillOutcome
verify_node scope node none = err (target_changed node.pid)
verify_node scope node (some info) =
    if is_none info.start_time_marker || is_none info.process_name
    then err (partial_metadata node.pid)
    else if not (relation_holds scope node info)
        || not (info.start_time_marker == node.start_time_marker)
    then err (target_changed node.pid)
    else ok (record node {
      process_name = info.process_name;
      executable_name = info.executable_name;
      owner_uid = info.owner_uid;
    })

-- The loop stops at the first refusal; the members before it stay refreshed.
unfoldable pub verify_nodes :
    SweepScope → ProcessTreeIndex → List FrozenNode → Option TreeKillOutcome × List FrozenNode
unfolding verify_node
verify_nodes scope index [] = (none, [])
verify_nodes scope index (node ∷ rest) =
    let later = verify_nodes scope index rest in
    elim (verify_node scope node (process index node.pid)) [
      | err outcome ↦ (some outcome, node ∷ rest)
      | ok node' ↦ (later.0, node' ∷ later.1)
    ]

unfoldable pub verify_frozen_identities :
    List FrozenNode → SweepScope → List TreeProcessInfo → Option TreeKillOutcome × List FrozenNode
unfolding verify_nodes
verify_frozen_identities frozen scope snapshot = elim (Index.new snapshot process_tree_index_max) [
  | err _ ↦ (
    some (
        snapshot_failed
          (codes "process index construction failed: SnapshotLimitExceeded { limit: 131072 }")),
    frozen,
  )
  | ok index ↦ verify_nodes scope index frozen
]

module _ {S : Type 0} (ops : TreeProcessOps S) where
  unfoldable pub prepare_delivery_handles : List FrozenNode → S → Option TreeKillOutcome × S
  prepare_delivery_handles [] s = (none, s)
  prepare_delivery_handles (node ∷ rest) s =
      let (result, s') = ops.prepare_delivery node.pid node.start_time_marker s in
      let later = prepare_delivery_handles rest s' in
      elim result [
        | delivered ↦ later
        | not_found ↦ (some (target_changed node.pid), s')
        | denied ↦ (some (permission_denied node.pid), s')
      ]

  -- `finish` after the loop, and the loop over the members that are left.
  unfoldable pub observe_members :
      ProcessEvidenceScope → List FrozenNode → S → Option TreeKillOutcome × List FrozenNode × S
  observe_members scope [] s =
      (elim (finish scope) [ none ↦ none | some e ↦ some (evidence_tree_outcome e) ], [], s)
  observe_members scope (node ∷ rest) s = elim node.start_time_marker [
    | none ↦ (some (partial_metadata node.pid), node ∷ rest, s)
    | some marker ↦
        let (read, s') = ops.fresh_process_evidence node.pid s in
        let (observed, scope') =
          observe scope (record { pid = node.pid; start_marker = marker; name = none }) read in
        let later = observe_members scope' rest s' in
        elim observed [
          | err e ↦ (some (evidence_tree_outcome e), node ∷ rest, s')
          | ok fresh ↦ (
            later.0,
            record node { process_name = some fresh.name; executable_name = fresh.executable_name }
                ∷ later.1,
            later.2,
          )
        ]
  ]

  unfoldable pub verify_fresh_delivery_evidence :
      List FrozenNode → S → Option TreeKillOutcome × List FrozenNode × S
  unfolding observe_members
  verify_fresh_delivery_evidence frozen s = elim (ProcessEvidence.new (length frozen)) [
    | err e ↦ (some (evidence_tree_outcome e), frozen, s)
    | ok scope ↦ observe_members scope frozen s
  ]

-- ===== src/Tree/Safety/Passes.antt =====
-- The passes of `freeze_sweep` keep an invariant that has a rule.
use kickoutchi.Prelude.{
  ℕ, zero, suc, ◌≡◌, refl, inl, inr, true, false, none, List, [], ◌∷◌, Bool-cases, Option-cases,
  Result-cases, List-cases, keep, not,
}
use kickoutchi.Process.{Host}
use kickoutchi.Tree.{TreeProcessInfo, TreeProcessOps, KillCancellationGuard}
use kickoutchi.Tree.Index
use kickoutchi.Tree.Index.{
  TreePlanError, root_missing, snapshot_limit_exceeded, ProcessTreeIndex, process_tree_index_max,
}
use kickoutchi.Tree.Outcome.{IsRefusal, is_completed}
use kickoutchi.Tree.Frozen.{FrozenNode, SweepScope, contains, unfrozen_members}
use kickoutchi.Tree.Sweep.{
  Sweep, freeze_members, index_error_outcome, drain, drain_fuel, run_pass, sweep_passes,
  freeze_sweep, max_freeze_passes,
}
use kickoutchi.Tree.Record.{Recorded, recording, guarding}
use kickoutchi.Tree.Safety.Rule.{Invariant, SweepRule, Holds, HoldsAtEnd}
use kickoutchi.Tree.Safety.Members.{freeze_members-Holds}

index_error_outcome-IsRefusal : (e : TreePlanError) → IsRefusal (index_error_outcome e)
unfolding is_completed
index_error_outcome-IsRefusal root_missing = refl
index_error_outcome-IsRefusal (snapshot_limit_exceeded limit) = refl

module _ {S : Type 0} (host : Host) (ops : TreeProcessOps S) (guard : KillCancellationGuard S)
    (scope : SweepScope) (P : Invariant) (rule : SweepRule host scope P) (deadline : ℕ) where
  drain-Holds :
      (fuel : ℕ) (snapshot : List TreeProcessInfo) (index : ProcessTreeIndex)
      (w : Sweep (Recorded S))
      → w.refusal ≡ none
      → P none w.frozen w.world.log
      → Holds P (drain host (recording ops) (guarding guard) fuel deadline scope snapshot index w)
  unfolding drain
  drain-Holds zero snapshot index w n b = rw n b
  drain-Holds (suc fuel) snapshot index w n b =
      elim (List-cases (
        keep (λ member. not (contains w.vanished member.pid))
          (unfrozen_members scope snapshot index w.frozen))) [
            | inl e ↦ rw (e, drain) (rw n b)
            | inr (m, ms, e) ↦
                rw (e, drain)
                  (let w' =
                      freeze_members host (recording ops) (guarding guard) deadline scope (m ∷ ms)
                        (record w { discovered_in_pass = true }) in
                    let b' =
                      freeze_members-Holds host ops guard scope P rule deadline (m ∷ ms)
                        (record w { discovered_in_pass = true }) n b in
                    elim (Option-cases w'.refusal) [
                      | inl e' ↦ rw e' (drain-Holds fuel snapshot index w' e' (rw e' at b'))
                      | inr (o, e') ↦ rw e' b'
                    ])
          ]

  run_pass-Holds :
      (snapshot : List TreeProcessInfo) (index : ProcessTreeIndex) (frozen : List FrozenNode)
      (s : Recorded S)
      → P none frozen s.log
      → Holds P
          (run_pass host (recording ops) (guarding guard) deadline scope snapshot index frozen s)
  unfolding run_pass
  run_pass-Holds snapshot index frozen s b =
      drain-Holds (drain_fuel snapshot) snapshot index
        (record {
          refusal = none;
          frozen = frozen;
          vanished = [];
          discovered_in_pass = false;
          world = s;
        })
        refl b

  sweep_passes-Holds :
      (passes : ℕ) (frozen : List FrozenNode) (s : Recorded S)
      → P none frozen s.log
      → HoldsAtEnd P
          (sweep_passes host (recording ops) (guarding guard) passes deadline scope frozen s)
  unfolding sweep_passes is_completed
  sweep_passes-Holds zero frozen s b = rule.refuses frozen s.log _ refl b
  sweep_passes-Holds (suc passes) frozen s b = elim (Result-cases (guard.check s.inner).0) [
    | inr (error, e) ↦ rw (e, sweep_passes) (rule.refuses frozen s.log _ refl b)
    | inl (_, e) ↦
        rw (e, sweep_passes)
          (let read = ops.snapshot (guard.check s.inner).1 in
            elim (Result-cases read.0) [
              | inr (error, e₂) ↦ rw e₂ (rule.refuses frozen s.log _ refl b)
              | inl (snapshot, e₂) ↦
                  rw e₂ (elim (Result-cases (Index.new snapshot process_tree_index_max)) [
                    | inr (error, e₃) ↦
                        rw e₃ (rule.refuses frozen s.log _ (index_error_outcome-IsRefusal error) b)
                    | inl (index, e₃) ↦ rw e₃ (
                        let s' = record s { inner = read.1 } in
                        let w =
                          run_pass host (recording ops) (guarding guard) deadline scope snapshot
                            index frozen s' in
                        let b' = run_pass-Holds snapshot index frozen s' b in
                        elim (Option-cases w.refusal) [
                          | inr (o, e₄) ↦ rw e₄ (rw e₄ at b')
                          | inl e₄ ↦ rw e₄ (elim (Bool-cases w.discovered_in_pass) [
                            | inl e₅ ↦
                                rw e₅ (sweep_passes-Holds passes w.frozen w.world (rw e₄ at b'))
                            | inr e₅ ↦ rw e₅ (rw e₄ at b')
                          ])
                        ])
                  ])
            ])
  ]

  pub freeze_sweep-Holds :
      (frozen : List FrozenNode) (s : Recorded S)
      → P none frozen s.log
      → HoldsAtEnd P (freeze_sweep host (recording ops) (guarding guard) deadline scope frozen s)
  unfolding freeze_sweep
  freeze_sweep-Holds = sweep_passes-Holds max_freeze_passes

-- ===== src/Tree/Sweep/Settles.antt =====
-- The inner loop of `freeze_sweep` of src/tree/execute.rs ends by its own test, on the fuel that
-- it is given.
use kickoutchi.Prelude.{
  ℕ, zero, suc, ◌≡◌, ◌<◌, ap, ◌∙◌, true, false, not, ◌||◌, none, List, [], ◌∷◌, ◌++◌, arith,
  Bool-cases, Option-cases, Result-cases, List-cases, inl, inr, ◌==◌, nat_eq, keep, keep_holds,
  keep-All, length, any-or, leb, ok,
}
use kickoutchi.Process.{Host, unsafe_pid_reason}
use kickoutchi.Tree.{TreeProcessInfo, TreeProcessOps, KillCancellationGuard, TreeStopResult}
use kickoutchi.Tree.Index
use kickoutchi.Tree.Index.{ProcessTreeIndex}
use kickoutchi.Tree.Frozen.{FrozenNode, SweepScope, member_cap, contains, pids, unfrozen_members}
use kickoutchi.Tree.Frozen.Rows.{unseen, unseen_le, unseen_strict}
use kickoutchi.Tree.Frozen.Enumeration.{IsFresh, unfrozen_members-IsFresh, contains-append}
use kickoutchi.Tree.Sweep.{
  Sweep, stop_before_deadline, push_member, after_stop, stop_member, freeze_member, freeze_members,
  drain, drain_fuel, run_pass,
}

-- The PIDs that the pass is done with: gone, or frozen.
abbrev handled : {S : Type 0} → Sweep S → List ℕ
handled w = w.vanished ++ pids w.frozen

-- `w'` is done with all that `w` is done with.
abbrev Grows : {S : Type 0} → Sweep S → Sweep S → Type 0
Grows w w' = (pid : ℕ) → contains (handled w) pid ≡ true → contains (handled w') pid ≡ true

module _ {S : Type 0} (ops : TreeProcessOps S) where
  pushed :
      (w : Sweep S) (node : FrozenNode) (pid : ℕ)
      → contains (w.vanished ++ pids (w.frozen ++ node ∷ [])) pid
        ≡ contains (handled w) pid || (node.pid == pid)
  pushed w node pid = ground (
    arith,
    contains-append w.frozen (node ∷ []) pid,
    any-or (λ member. member == pid) w.vanished (pids w.frozen),
    any-or (λ member. member == pid) w.vanished (pids (w.frozen ++ node ∷ [])),
  )

  after_stop-Grows :
      (member : FrozenNode) (w : Sweep S) (r : TreeStopResult) (s : S)
      → Grows w (after_stop ops member w r s)
  unfolding after_stop push_member
  after_stop-Grows member w (TreeStopResult.stopped t) s pid h =
      pushed w _ pid ∙ ap (λ b. b || (member.pid == pid)) h
  after_stop-Grows member w TreeStopResult.not_found s pid h = ground arith
  after_stop-Grows member w (TreeStopResult.failed false m e) s pid h = h
  after_stop-Grows member w (TreeStopResult.failed true m e) s pid h =
      pushed w _ pid ∙ ap (λ b. b || (member.pid == pid)) h

  -- A stop that is not refused leaves its member frozen or gone.
  after_stop_handles :
      (member : FrozenNode) (w : Sweep S) (r : TreeStopResult) (s : S)
      → (after_stop ops member w r s).refusal ≡ none
      → contains (handled (after_stop ops member w r s)) member.pid ≡ true
  unfolding after_stop push_member
  after_stop_handles member w (TreeStopResult.stopped t) s h = pushed w _ member.pid ∙ ground arith
  after_stop_handles member w TreeStopResult.not_found s h = ground arith
  after_stop_handles member w (TreeStopResult.failed false m e) s h = cc
  after_stop_handles member w (TreeStopResult.failed true m e) s h = cc

-- A step that handles `member` unless it refuses, and keeps what was handled.
abbrev Handles : {S : Type 0} → FrozenNode → Sweep S → Sweep S → Type 0
Handles member w w' = Grows w w' × (w'.refusal ≡ none → contains (handled w') member.pid ≡ true)

module _ {S : Type 0} (host : Host) (ops : TreeProcessOps S) (guard : KillCancellationGuard S)
    (deadline : ℕ) (scope : SweepScope) where
  stop_member-Handles :
      (member : FrozenNode) (w : Sweep S) (s : S)
      → Handles member w (stop_member host ops guard deadline scope member w s)
  unfolding stop_member
  stop_member-Handles member w s = elim (Bool-cases (leb (member_cap scope) (length w.frozen))) [
    | inl e ↦ rw (e, stop_member) ((λ pid h. h), (λ h. cc))
    | inr e ↦
        rw (e, stop_member)
          (elim (Option-cases (unsafe_pid_reason host member.pid)) [
            | inr (r, u) ↦ rw u ((λ pid h. h), (λ h. cc))
            | inl u ↦ rw u (elim (Option-cases member.start_time_marker) [
              | inl m ↦ rw m ((λ pid h. h), (λ h. cc))
              | inr (k, m) ↦ rw m (
                  let r = stop_before_deadline ops member.pid deadline s in
                  (after_stop-Grows ops member w r.0 r.1, after_stop_handles ops member w r.0 r.1))
            ])
          ])
  ]

  freeze_member-Handles :
      (member : FrozenNode) (w : Sweep S)
      → Handles member w (freeze_member host ops guard deadline scope member w)
  unfolding freeze_member
  freeze_member-Handles member w = elim (Result-cases (guard.check w.world).0) [
    | inl (u, e) ↦ rw (e, freeze_member) (stop_member-Handles member w (guard.check w.world).1)
    | inr (error, e) ↦ rw (e, freeze_member) ((λ pid h. h), (λ h. cc))
  ]

  freeze_members-Grows :
      (members : List FrozenNode) (w : Sweep S)
      → Grows w (freeze_members host ops guard deadline scope members w)
  unfolding freeze_members
  freeze_members-Grows [] w pid h = h
  freeze_members-Grows (member ∷ rest) w pid h =
      let w' = freeze_member host ops guard deadline scope member w in
      let later = (freeze_member-Handles member w).0 pid h in
      elim (Option-cases w'.refusal) [
        | inl e ↦ rw (e, freeze_members) (freeze_members-Grows rest w' pid later)
        | inr (o, e) ↦ rw (e, freeze_members) later
      ]

  freeze_members-Handles :
      (member : FrozenNode) (rest : List FrozenNode) (w : Sweep S)
      → Handles member w (freeze_members host ops guard deadline scope (member ∷ rest) w)
  unfolding freeze_members
  freeze_members-Handles member rest w =
      let w' = freeze_member host ops guard deadline scope member w in
      let step = freeze_member-Handles member w in
      elim (Option-cases w'.refusal) [
        | inl e ↦
            rw (e, freeze_members)
              (
                (λ pid h. freeze_members-Grows rest w' pid (step.0 pid h)),
                (λ h. freeze_members-Grows rest w' member.pid (step.1 e)),
              )
        | inr (o, e) ↦ rw (e, freeze_members) step
      ]

  module _ (snapshot : List TreeProcessInfo) (limit : ℕ) (index : ProcessTreeIndex)
      (built : Index.new snapshot limit ≡ ok index) where
    -- The members that the snapshot still shows to be neither frozen nor gone.
    abbrev remaining : Sweep S → List FrozenNode
    remaining w =
        keep (λ member. not (contains w.vanished member.pid))
          (unfrozen_members scope snapshot index w.frozen)

    remaining-unhandled :
        (w : Sweep S) (member : FrozenNode) (rest : List FrozenNode)
        → remaining w ≡ member ∷ rest
        → IsFresh snapshot w.frozen member × (contains (handled w) member.pid ≡ false)
    remaining-unhandled w member rest e =
        let gone =
          keep_holds (λ node. not (contains w.vanished node.pid))
            (unfrozen_members scope snapshot index w.frozen) in
        let fresh =
          keep-All (IsFresh snapshot w.frozen) (λ node. not (contains w.vanished node.pid))
            (unfrozen_members scope snapshot index w.frozen)
            (unfrozen_members-IsFresh snapshot w.frozen limit index built scope) in
        let gone' = (rw e at gone).0 in
        let fresh' = (rw e at fresh).0 in
        (
          fresh',
          ground (
            arith,
            gone',
            fresh'.1,
            any-or (λ node. node == member.pid) w.vanished (pids w.frozen),
          ),
        )

    drain_settles :
        (fuel : ℕ) (w : Sweep S)
        → unseen (handled w) snapshot < fuel
        → let w' = drain host ops guard fuel deadline scope snapshot index w in
          w'.refusal ≡ none → remaining w' ≡ []
    unfolding drain
    drain_settles zero w m h = absurd (omega (arith, m))
    drain_settles (suc fuel) w m h = elim (List-cases (remaining w)) [
      | inl e ↦ rw (e, drain) e
      | inr (member, rest, e) ↦
          let w' =
            freeze_members host ops guard deadline scope (member ∷ rest)
              (record w { discovered_in_pass = true }) in
          let step = freeze_members-Handles member rest (record w { discovered_in_pass = true }) in
          let new = remaining-unhandled w member rest e in
          elim (Option-cases w'.refusal) [
            | inr (o, r) ↦ let bad = (rw (e, r, drain) at h) in cc
            | inl r ↦
                rw (e, r, drain)
                  (drain_settles fuel w'
                    (omega (
                      arith,
                      m,
                      unseen_strict (handled w) (handled w') step.0 member.pid snapshot new.1
                          (step.1 r) new.0.0,
                    ))
                    (rw (e, r, drain) at h))
          ]
    ]

    -- When a pass over a snapshot ends without a refusal, it ends because the snapshot shows no
    -- member of the scope that is neither frozen nor found gone.
    pub pass_settles :
        (frozen : List FrozenNode) (s : S)
        → (run_pass host ops guard deadline scope snapshot index frozen s).refusal ≡ none
        → let w = run_pass host ops guard deadline scope snapshot index frozen s in
          keep
            (λ member. not (contains w.vanished member.pid))
            (unfrozen_members scope snapshot index w.frozen)
          ≡ []
    unfolding run_pass
    pass_settles frozen s =
        drain_settles (drain_fuel snapshot) _ (omega (arith, unseen_le (pids frozen) snapshot))

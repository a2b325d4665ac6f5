-- ===== src/Tree/Safety/Cleanup.antt =====
-- The cleanup after a refusal continues exactly the members that Kickoutchi stopped.
use mathlib.Core.List.{append-nil, append_assoc, reverse-cons}
use kickoutchi.Prelude.{
  ℕ, ◌≡◌, refl, sym, ap, ◌∙◌, Bool, true, false, List, [], ◌∷◌, ◌++◌, map, reverse, arith,
  if◌then◌else◌, keep,
}
use kickoutchi.Tree.{TreeProcessOps}
use kickoutchi.Tree.Outcome.{TreeKillOutcome, is_completed, IsRefusal}
use kickoutchi.Tree.Frozen.{FrozenNode, pids}
use kickoutchi.Tree.Deliver.{thaw_members, refuse_after_thaw}
use kickoutchi.Tree.Record.{
  Signal, cont_sent, Recorded, recording, owed, continued, killed, owed-append, continued-append,
  killed-append,
}
use kickoutchi.Tree.Safety.Ledger.{Balanced, resumable, resumable-append}

abbrev conts : List FrozenNode → List Signal
conts = map (λ node. cont_sent node.pid)

continued-conts : (nodes : List FrozenNode) → continued (conts nodes) ≡ pids nodes
continued-conts [] = refl
continued-conts (node ∷ rest) = ap (◌∷◌ node.pid) (continued-conts rest)

owed-conts : (nodes : List FrozenNode) → owed (conts nodes) ≡ []
owed-conts [] = refl
owed-conts (node ∷ rest) = owed-conts rest

killed-conts : (nodes : List FrozenNode) → killed (conts nodes) ≡ []
killed-conts [] = refl
killed-conts (node ∷ rest) = killed-conts rest

resumable-reverse :
    (frozen : List FrozenNode) → resumable (reverse frozen) ≡ reverse (resumable frozen)
resumable-reverse [] = refl
resumable-reverse (node ∷ rest) =
    rw (reverse-cons node rest, resumable-append (reverse rest) (node ∷ []), resumable-reverse rest)
      (last node.resume_on_cleanup)
  where
    last :
        (b : Bool)
        → reverse (resumable rest) ++ pids (if b then node ∷ [] else [])
          ≡ reverse (
              pids (
                if b
                then node ∷ keep (λ n. n.resume_on_cleanup) rest
                else keep (λ n. n.resume_on_cleanup) rest))
    last true = sym (reverse-cons node.pid (resumable rest))
    last false = append-nil _

-- No terminating signal is in the record, and what was stopped is continued, last first.
abbrev pub IsUndone : List Signal → Type 0
IsUndone log = (killed log ≡ []) × (continued log ≡ reverse (owed log))

module _ {S : Type 0} (ops : TreeProcessOps S) where
  log-thaw_members :
      (nodes : List FrozenNode) (failed : List ℕ) (w : Recorded S)
      → (thaw_members (recording ops) nodes failed w).1.log ≡ w.log ++ conts nodes
  unfolding thaw_members
  log-thaw_members [] failed w = sym (append-nil w.log)
  log-thaw_members (node ∷ rest) failed w =
      log-thaw_members rest _ _ ∙ append_assoc w.log (cont_sent node.pid ∷ []) (conts rest)

  log-refuse_after_thaw :
      (cause : TreeKillOutcome) (frozen : List FrozenNode) (w : Recorded S)
      → (refuse_after_thaw (recording ops) cause frozen w).1.log
        ≡ w.log ++ conts (keep (λ node. node.resume_on_cleanup) (reverse frozen))
  unfolding refuse_after_thaw
  log-refuse_after_thaw cause frozen w = log-thaw_members _ [] w

  pub refuse_after_thaw-IsRefusal :
      (cause : TreeKillOutcome) (frozen : List FrozenNode) (w : Recorded S)
      → IsRefusal cause
      → IsRefusal (refuse_after_thaw (recording ops) cause frozen w).0
  unfolding refuse_after_thaw is_completed
  refuse_after_thaw-IsRefusal cause frozen w h = ground arith

  pub refuse_after_thaw-IsUndone :
      (cause : TreeKillOutcome) (frozen : List FrozenNode) (w : Recorded S)
      → Balanced frozen w.log
      → IsUndone (refuse_after_thaw (recording ops) cause frozen w).1.log
  refuse_after_thaw-IsUndone cause frozen w b =
      let resumed = keep (λ (node : FrozenNode). node.resume_on_cleanup) (reverse frozen) in
      (
        rw (log-refuse_after_thaw cause frozen w, killed-append w.log (conts resumed), b.no_kill)
            (killed-conts resumed),
        rw
            (
              log-refuse_after_thaw cause frozen w,
              continued-append w.log (conts resumed),
              owed-append w.log (conts resumed),
              b.no_continue,
              b.duties,
              owed-conts resumed,
              continued-conts resumed,
              append-nil (resumable frozen),
            )
            (resumable-reverse frozen),
      )

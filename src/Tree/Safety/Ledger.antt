-- ===== src/Tree/Safety/Ledger.antt =====
-- The ledger of the freeze: what has been stopped so far and what a refusal owes.
use mathlib.Core.List.{append-nil, map-append}
use kickoutchi.Prelude.{ℕ, ◌≡◌, List, [], ◌∷◌, ◌++◌, keep, keep-append}
use kickoutchi.Tree.{TreeStopResult}
use kickoutchi.Tree.Frozen.{FrozenNode, pids}
use kickoutchi.Tree.Record.{
  Signal, stop_sent, owed, continued, killed, owed-append, continued-append, killed-append,
}

abbrev pub resumable : List FrozenNode → List ℕ
resumable frozen = pids (keep (λ node. node.resume_on_cleanup) frozen)

pub resumable-append :
    (xs ys : List FrozenNode) → resumable (xs ++ ys) ≡ resumable xs ++ resumable ys
resumable-append xs ys =
    rw (keep-append (λ node. node.resume_on_cleanup) xs ys)
      (map-append (λ (node : FrozenNode). node.pid) _ _)

-- Nothing has been continued or killed, and the duties are those of the frozen list.
pub record Balanced (frozen : List FrozenNode) (log : List Signal) : Type 0 where
  pub no_continue : continued log ≡ []
  pub no_kill : killed log ≡ []
  pub duties : owed log ≡ resumable frozen

module _ (frozen : List FrozenNode) (log : List Signal) (b : Balanced frozen log) (pid : ℕ) where
  -- A stop that leaves no duty.
  pub Balanced-idle :
      (r : TreeStopResult)
      → owed (stop_sent pid r ∷ []) ≡ []
      → Balanced frozen (log ++ stop_sent pid r ∷ [])
  Balanced-idle r h = record {
    no_continue = rw (continued-append log (stop_sent pid r ∷ []), b.no_continue);
    no_kill = rw (killed-append log (stop_sent pid r ∷ []), b.no_kill);
    duties = rw (owed-append log (stop_sent pid r ∷ []), b.duties, h) (append-nil _);
  }

  -- A stop whose process joins the frozen list with its duty.
  pub Balanced-push :
      (r : TreeStopResult) (node : FrozenNode)
      → owed (stop_sent pid r ∷ []) ≡ resumable (node ∷ [])
      → Balanced (frozen ++ node ∷ []) (log ++ stop_sent pid r ∷ [])
  Balanced-push r node h = record {
    no_continue = rw (continued-append log (stop_sent pid r ∷ []), b.no_continue);
    no_kill = rw (killed-append log (stop_sent pid r ∷ []), b.no_kill);
    duties =
        rw (
          owed-append log (stop_sent pid r ∷ []),
          b.duties,
          h,
          resumable-append frozen (node ∷ []),
        );
  }

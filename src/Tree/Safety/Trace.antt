-- ===== src/Tree/Safety/Trace.antt =====
-- The stages that a run of `execute_freeze_kill` passed before it signals, each with the list and
-- the state that it handed to the next.
use kickoutchi.Prelude.{ℕ, ◌≡◌, Bool, Option, none, List, [], ◌∷◌, ok}
use kickoutchi.Observation.{ProcessStartMarker}
use kickoutchi.Process.{Host, KillTarget}
use kickoutchi.Tree.{TreeProcessInfo, TreeProcessOps, KillCancellationGuard}
use kickoutchi.Tree.Frozen.{FrozenNode, SweepScope}
use kickoutchi.Tree.Sweep.{SweepEnd, freeze_sweep}
use kickoutchi.Tree.Verify.{
  verify_root_after_stop, verify_frozen_identities, prepare_delivery_handles,
  verify_fresh_delivery_evidence,
}
use kickoutchi.Tree.Execute.{resuming}
use kickoutchi.Tree.Record.{Recorded, recording, guarding}

-- The stopped root was read again, and is still the target.
pub record Rooted {S : Type 0} (ops : TreeProcessOps S) (root : KillTarget) (scope : SweepScope)
    (node : FrozenNode) (w : Recorded S) : Type 0 where
  pub marker : Option ProcessStartMarker
  pub transitioned : Bool
  pub observed : FrozenNode
  pub stopped : Recorded S
  pub seen : (verify_root_after_stop root scope marker (recording ops) stopped).0 ≡ ok observed
  pub left : (verify_root_after_stop root scope marker (recording ops) stopped).1 ≡ w
  pub is_root : resuming transitioned observed ≡ node

abbrev pub sweep_from :
    {S : Type 0}
    → Host
    → TreeProcessOps S
    → KillCancellationGuard S
    → SweepScope
    → ℕ
    → FrozenNode
    → Recorded S
    → SweepEnd (Recorded S)
sweep_from host ops guard scope deadline node w =
    freeze_sweep host (recording ops) (guarding guard) deadline scope (node ∷ []) w

-- The sweep from the root ended with a snapshot that has no member left to stop.
pub record Swept {S : Type 0} (host : Host) (ops : TreeProcessOps S)
    (guard : KillCancellationGuard S) (root : KillTarget) (scope : SweepScope)
    (snapshot : List TreeProcessInfo) (frozen : List FrozenNode) (w : Recorded S) : Type 0 where
  pub deadline : ℕ
  pub node : FrozenNode
  pub start : Recorded S
  pub rooted : Rooted ops root scope node start
  pub ended : (sweep_from host ops guard scope deadline node start).result ≡ ok snapshot
  pub members : (sweep_from host ops guard scope deadline node start).frozen ≡ frozen
  pub left : (sweep_from host ops guard scope deadline node start).world ≡ w

-- Every member of the sweep is in that snapshot, under its identity.
pub record Converged {S : Type 0} (host : Host) (ops : TreeProcessOps S)
    (guard : KillCancellationGuard S) (root : KillTarget) (scope : SweepScope)
    (frozen : List FrozenNode) (w : Recorded S) : Type 0 where
  pub snapshot : List TreeProcessInfo
  pub members : List FrozenNode
  pub swept : Swept host ops guard root scope snapshot members w
  pub accepted : (verify_frozen_identities members scope snapshot).0 ≡ none
  pub refreshed : (verify_frozen_identities members scope snapshot).1 ≡ frozen

-- Every member has its delivery handle.
pub record Prepared {S : Type 0} (host : Host) (ops : TreeProcessOps S)
    (guard : KillCancellationGuard S) (root : KillTarget) (scope : SweepScope)
    (frozen : List FrozenNode) (w : Recorded S) : Type 0 where
  pub before : Recorded S
  pub converged : Converged host ops guard root scope frozen before
  pub accepted : (prepare_delivery_handles (recording ops) frozen before).0 ≡ none
  pub left : (prepare_delivery_handles (recording ops) frozen before).1 ≡ w

-- The evidence of every member was read afresh, and its names are those that were read.
pub record Evidenced {S : Type 0} (host : Host) (ops : TreeProcessOps S)
    (guard : KillCancellationGuard S) (root : KillTarget) (scope : SweepScope)
    (frozen : List FrozenNode) (w : Recorded S) : Type 0 where
  pub members : List FrozenNode
  pub before : Recorded S
  pub prepared : Prepared host ops guard root scope members before
  pub accepted : (verify_fresh_delivery_evidence (recording ops) members before).0 ≡ none
  pub refreshed : (verify_fresh_delivery_evidence (recording ops) members before).1 ≡ frozen
  pub left : (verify_fresh_delivery_evidence (recording ops) members before).2 ≡ w

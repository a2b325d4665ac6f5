-- ===== src/Tree/Frozen/Rows.antt =====
-- The rows of a snapshot that a set of PIDs does not hold yet, counted.
use kickoutchi.Prelude.{
  ℕ, suc, ◌≡◌, ◌≤◌, refl, true, false, not, List, [], ◌∷◌, arith, inl, inr, nat_eq, keep, length,
  Some,
}
use kickoutchi.Tree.{TreeProcessInfo}
use kickoutchi.Tree.Frozen.{contains}

-- A row of the snapshot.
abbrev pub IsRow : List TreeProcessInfo → TreeProcessInfo → Type 0
IsRow snapshot info = Some (λ row. row ≡ info) snapshot

abbrev pub HasRow : List TreeProcessInfo → ℕ → Type 0
HasRow snapshot pid = Some (λ row. row.pid ≡ pid) snapshot

abbrev pub unseen : List ℕ → List TreeProcessInfo → ℕ
unseen seen snapshot = length (keep (λ row. not (contains seen row.pid)) snapshot)

pub unseen_le :
    (seen : List ℕ) (snapshot : List TreeProcessInfo) → unseen seen snapshot ≤ length snapshot
unseen_le seen [] = omega arith
unseen_le seen (row ∷ rest) = ground (arith, unseen_le seen rest)

pub contains_here : (seen : List ℕ) (pid : ℕ) → contains (pid ∷ seen) pid ≡ true
contains_here seen pid = ground arith

-- Seeing a further PID never adds an unseen row.
pub unseen_mono :
    (seen : List ℕ) (pid : ℕ) (snapshot : List TreeProcessInfo)
    → unseen (pid ∷ seen) snapshot ≤ unseen seen snapshot
unseen_mono seen pid [] = omega arith
unseen_mono seen pid (row ∷ rest) = ground (arith, unseen_mono seen pid rest)

-- Seeing the PID of a row that was not seen leaves fewer.
pub unseen_drops :
    (seen : List ℕ) (pid : ℕ) (snapshot : List TreeProcessInfo)
    → contains seen pid ≡ false
    → HasRow snapshot pid
    → suc (unseen (pid ∷ seen) snapshot) ≤ unseen seen snapshot
unseen_drops seen pid [] h m = absurd m
unseen_drops seen pid (row ∷ rest) h (inl e) =
    let fresh : contains seen row.pid ≡ false = rw e h in
    ground (arith, unseen_mono seen pid rest, fresh)
unseen_drops seen pid (row ∷ rest) h (inr m) = ground (arith, unseen_drops seen pid rest h m)

pub IsRow-HasRow :
    (snapshot : List TreeProcessInfo) (info : TreeProcessInfo)
    → IsRow snapshot info
    → HasRow snapshot info.pid
IsRow-HasRow [] info m = absurd m
IsRow-HasRow (row ∷ rest) info (inl e) = inl (rw e refl)
IsRow-HasRow (row ∷ rest) info (inr m) = inr (IsRow-HasRow rest info m)

-- Two sets of PIDs, the second of which has all that the first has.
module _ (seen seen' : List ℕ)
    (grows : (pid : ℕ) → contains seen pid ≡ true → contains seen' pid ≡ true) where
  pub unseen_antitone :
      (snapshot : List TreeProcessInfo) → unseen seen' snapshot ≤ unseen seen snapshot
  unseen_antitone [] = omega arith
  unseen_antitone (row ∷ rest) = ground (arith, unseen_antitone rest, grows row.pid)

  pub unseen_strict :
      (pid : ℕ) (snapshot : List TreeProcessInfo)
      → contains seen pid ≡ false
      → contains seen' pid ≡ true
      → HasRow snapshot pid
      → suc (unseen seen' snapshot) ≤ unseen seen snapshot
  unseen_strict pid [] h k m = absurd m
  unseen_strict pid (row ∷ rest) h k (inl e) =
      let old : contains seen row.pid ≡ false = rw e h in
      let now : contains seen' row.pid ≡ true = rw e k in
      ground (arith, unseen_antitone rest, old, now)
  unseen_strict pid (row ∷ rest) h k (inr m) =
      ground (arith, unseen_strict pid rest h k m, grows row.pid)

-- ===== src/Kill/Pids.antt =====
-- A port that resolves has one owner in all its rows (src/cli/kill.rs).
use kickoutchi.Prelude.{
  ℕ, ◌≡◌, refl, sym, ap, ◌∙◌, Bool, true, false, not, Option, none, some, List, [], ◌∷◌,
  if◌then◌else◌, any, keep, sort_by, sort_by-any, leb, ◌==◌, nat_eq, option_eq, is_none, arith, All,
  Result, ok, err,
}
use kickoutchi.Process.Target.{PortEntryView}
use kickoutchi.Kill.{
  KillTargetError, entry_pids, dedup_after, dedup_pids, sole_pid, no_rows,
  resolve_single_port_owner, no_match, missing_pid,
}

-- Some number of the list is another one.
abbrev another : ℕ → List ℕ → Bool
another n xs = any (λ x. not (x == n)) xs

dedup_after-another :
    (n kept : ℕ) (xs : List ℕ) → another n (kept ∷ dedup_after kept xs) ≡ another n (kept ∷ xs)
unfolding dedup_after
dedup_after-another n kept [] = refl
dedup_after-another n kept (x ∷ xs) =
    ground (arith, dedup_after-another n kept xs, dedup_after-another n x xs)

dedup_pids-another : (n : ℕ) (xs : List ℕ) → another n (dedup_pids xs) ≡ another n xs
unfolding dedup_pids
dedup_pids-another n [] = refl
dedup_pids-another n (x ∷ xs) = dedup_after-another n x xs

sole_pid-eq :
    (target_port owner : ℕ) (rows kept : List PortEntryView) (pids : List ℕ)
    → sole_pid target_port rows pids ≡ ok (owner, kept)
    → (pids ≡ owner ∷ []) × (rows ≡ kept)
unfolding sole_pid
sole_pid-eq target_port owner rows kept (n ∷ []) h = (ground (arith, h), ground (arith, h))
sole_pid-eq target_port owner rows kept [] h = cc
sole_pid-eq target_port owner rows kept (n ∷ m ∷ rest) h = cc

abbrev pub OwnedBy : ℕ → List PortEntryView → Type 0
OwnedBy owner rows = All (λ entry. entry.pid ≡ some owner) rows

OwnedBy-cons :
    (owner : ℕ) (entry : PortEntryView) (rest : List PortEntryView)
    → (any (λ e. is_none e.pid) rest ≡ false
        → another owner (entry_pids rest) ≡ false
        → OwnedBy owner rest)
    → (o : Option ℕ) → entry.pid ≡ o
    → any (λ e. is_none e.pid) (entry ∷ rest) ≡ false
    → another owner (entry_pids (entry ∷ rest)) ≡ false
    → OwnedBy owner (entry ∷ rest)
unfolding entry_pids
OwnedBy-cons owner entry rest step none e h k = let bad = (rw (e, is_none) at h) in cc
OwnedBy-cons owner entry rest step (some p) e h k =
    let g : any (λ x. is_none x.pid) rest ≡ false = rw (e, is_none) at h in
    let l : another owner (p ∷ entry_pids rest) ≡ false = rw (e, entry_pids) at k in
    let same : p ≡ owner = ground (arith, l) in
    let m : another owner (entry_pids rest) ≡ false = ground (arith, l) in
    (e ∙ ap some same, step g m)

entry_pids-OwnedBy :
    (owner : ℕ) (rows : List PortEntryView)
    → any (λ entry. is_none entry.pid) rows ≡ false
    → another owner (entry_pids rows) ≡ false
    → OwnedBy owner rows
entry_pids-OwnedBy owner [] h k = tt
entry_pids-OwnedBy owner (entry ∷ rest) h k =
    OwnedBy-cons owner entry rest (entry_pids-OwnedBy owner rest) entry.pid refl h k

sole_rows :
    (target_port owner : ℕ) (kept rows : List PortEntryView)
    → any (λ entry. is_none entry.pid) kept ≡ false
    → sole_pid target_port kept (dedup_pids (sort_by leb (entry_pids kept))) ≡ ok (owner, rows)
    → (rows ≡ kept) × OwnedBy owner kept
sole_rows target_port owner kept rows missing h =
    let (pids, same) =
      sole_pid-eq target_port owner kept rows (dedup_pids (sort_by leb (entry_pids kept))) h in
    let one : another owner (dedup_pids (sort_by leb (entry_pids kept))) ≡ false =
      rw pids (ground arith) in
    let k : another owner (entry_pids kept) ≡ false =
      sym (sort_by-any leb (λ x. not (x == owner)) (entry_pids kept))
      ∙ sym (dedup_pids-another owner (sort_by leb (entry_pids kept)))
      ∙ one in
    (sym same, entry_pids-OwnedBy owner kept missing k)

checked_rows :
    (target_port owner : ℕ) (kept rows : List PortEntryView) (empty missing : Bool)
    → any (λ entry. is_none entry.pid) kept ≡ missing
    → (if empty
        then err no_match
        else if missing
        then err (missing_pid target_port)
        else sole_pid target_port kept (dedup_pids (sort_by leb (entry_pids kept))))
      ≡ ok (owner, rows)
    → (rows ≡ kept) × OwnedBy owner kept
checked_rows target_port owner kept rows true missing e h = absurd cc
checked_rows target_port owner kept rows false true e h = absurd cc
checked_rows target_port owner kept rows false false e h = sole_rows target_port owner kept rows e h

-- All rows of the port are those of the owner that is returned.
pub resolve_single_port_owner-OwnedBy :
    (target_port owner : ℕ) (entries rows : List PortEntryView)
    → resolve_single_port_owner target_port entries ≡ ok (owner, rows)
    → (rows ≡ keep (λ entry. entry.local_port == target_port) entries)
      × OwnedBy owner (keep (λ entry. entry.local_port == target_port) entries)
unfolding resolve_single_port_owner
resolve_single_port_owner-OwnedBy target_port owner entries rows h =
    let kept = keep (λ entry. entry.local_port == target_port) entries in
    checked_rows target_port owner kept rows (no_rows kept) (any (λ entry. is_none entry.pid) kept)
      refl h

matched_rows :
    (empty : Bool) (later : Result (ℕ × List PortEntryView) KillTargetError)
    (found : ℕ × List PortEntryView)
    → (if empty then err no_match else later) ≡ ok found
    → empty ≡ false
matched_rows true later found h = absurd cc
matched_rows false later found h = refl

pub resolve_single_port_owner-no_rows :
    (target_port : ℕ) (entries : List PortEntryView) (found : ℕ × List PortEntryView)
    → resolve_single_port_owner target_port entries ≡ ok found
    → no_rows (keep (λ entry. entry.local_port == target_port) entries) ≡ false
unfolding resolve_single_port_owner
resolve_single_port_owner-no_rows target_port entries found h =
    let kept = keep (λ entry. entry.local_port == target_port) entries in
    matched_rows (no_rows kept)
      (if any (λ entry. is_none entry.pid) kept
        then err (missing_pid target_port)
        else sole_pid target_port kept (dedup_pids (sort_by leb (entry_pids kept))))
      found h

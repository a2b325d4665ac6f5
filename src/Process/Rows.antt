-- ===== src/Process/Rows.antt =====
-- The rows that `revalidate_confirmed_target` of src/process.rs builds its fresh target from.
use kickoutchi.Prelude.{
  ℕ, ◌≡◌, refl, true, Option, none, some, List, [], ◌∷◌, All, keep, keep_holds, keep-All, ◌==◌,
  nat_eq, option_eq,
}
use kickoutchi.Process.{KillTarget}
use kickoutchi.Process.Target.{
  PortEntryView, ProcessContext, Facts, no_facts, port_of, kill_target_has_port, add_entry,
  add_entries, from_entries,
}
use kickoutchi.Process.Confirm.{confirmed_rows}

abbrev Owned : ℕ → PortEntryView → Type 0
Owned pid entry = (entry.pid == some pid) ≡ true

add_entries_total :
    (pid : ℕ) (rows : List PortEntryView) (facts : Facts)
    → All (Owned pid) rows
    → (read : Facts) × (add_entries pid facts rows ≡ some read)
unfolding add_entries
add_entries_total pid [] facts h = (facts, refl)
add_entries_total pid (entry ∷ rest) facts h =
    rw (h.0, add_entries) (add_entries_total pid rest (add_entry pid facts entry) h.1)

confirmed_rows-Owned :
    (confirmed : KillTarget) (entries : List PortEntryView)
    → All (Owned confirmed.pid) (confirmed_rows confirmed entries)
unfolding confirmed_rows
confirmed_rows-Owned confirmed entries =
    keep-All (Owned confirmed.pid) (λ entry. kill_target_has_port confirmed.ports (port_of entry))
      (keep (λ entry. entry.pid == some confirmed.pid) entries)
      (keep_holds (λ entry. entry.pid == some confirmed.pid) entries)

from_entries-Owned :
    (pid : ℕ) (rows : List PortEntryView) (context : Option ProcessContext)
    → All (Owned pid) rows
    → from_entries pid rows context ≡ none
    → rows ≡ []
unfolding from_entries
from_entries-Owned pid [] context owned h = refl
from_entries-Owned pid (entry ∷ rest) context owned h =
    let (read, e) = add_entries_total pid (entry ∷ rest) no_facts owned in
    let bad = (rw (e, from_entries) at h) in cc

-- Building the fresh target of a revalidation never panics on its rows: without a target, there
-- is no row with a confirmed port of the confirmed process.
pub revalidation_never_panics :
    (confirmed : KillTarget) (entries : List PortEntryView) (context : Option ProcessContext)
    → from_entries confirmed.pid (confirmed_rows confirmed entries) context ≡ none
    → confirmed_rows confirmed entries ≡ []
revalidation_never_panics confirmed entries context =
    from_entries-Owned confirmed.pid (confirmed_rows confirmed entries) context
      (confirmed_rows-Owned confirmed entries)

-- ===== src/Process/Identity.antt =====
-- The start marker of a kill target of src/process.rs is that of every row it was built from.
use mathlib.Core.Path.{subst}
use kickoutchi.Prelude.{
  ℕ, ◌≡◌, refl, sym, ap, ◌∙◌, true, Option, none, some, List, [], ◌∷◌, arith, All, All-weaken,
  Bool-cases, Option-cases, inl, inr, ◌⊎◌, ◌==◌, nat_eq, option_eq, or_else, decided_iff,
}
use kickoutchi.Observation.{
  ProcessStartMarker, marker_eq, ProcessStartMarker-discrete, ProcessIdentity,
}
use kickoutchi.Process.{KillTarget}
use kickoutchi.Process.Target.{
  PortEntryView, ProcessContext, Facts, no_facts, identity_beq, still_consistent, add_entry,
  add_entries, marker_of, build_target, from_entries,
}

abbrev identity_of : ℕ → ProcessStartMarker → ProcessIdentity
identity_of pid marker = record { pid = pid; start_marker = marker }

same_fields :
    (p q : ℕ) (m n : ProcessStartMarker) → p ≡ q → m ≡ n → identity_of p m ≡ identity_of q n
same_fields p q m n e f = rw (e, f) refl

identity_beq_sound : (left right : ProcessIdentity) → identity_beq left right ≡ true → left ≡ right
identity_beq_sound left right h =
    let markers = decided_iff (ProcessStartMarker-discrete left.start_marker right.start_marker) in
    same_fields left.pid right.pid left.start_marker right.start_marker (ground (arith, h))
      (markers.0 (ground (arith, h)))

-- A row with the identity `id` of the process `pid`.
abbrev Carries : ℕ → ProcessIdentity → PortEntryView → Type 0
Carries pid id entry = (entry.process_identity ≡ some id) × (id.pid ≡ pid)

-- The identity read so far is `id`, or none.
abbrev Reads : ProcessIdentity → Facts → Type 0
Reads id facts = (facts.process_identity ≡ none) ⊎ (facts.process_identity ≡ some id)

-- One row, of which the identities are consistent afterwards and then read as `id`.
entry-Carries :
    (pid : ℕ) (id : ProcessIdentity) (facts : Facts) (entry : PortEntryView)
    → still_consistent pid facts entry.process_identity ≡ true
    → (or_else facts.process_identity entry.process_identity ≡ none)
      ⊎ (or_else facts.process_identity entry.process_identity ≡ some id)
    → (facts.identity_consistent ≡ true) × Reads id facts × Carries pid id entry
unfolding still_consistent
entry-Carries pid id facts entry c r = elim (Option-cases entry.process_identity) [
  | inl e ↦ let bad = (rw (e, still_consistent) at c) in cc
  | inr (identity, e) ↦
      let consistent = (rw (e, still_consistent) at c) in
      elim (Option-cases facts.process_identity) [
        | inl f ↦ elim (rw (e, f) at r) [
          | inl bad ↦ cc
          | inr same ↦
              let shared : identity ≡ id = cc in
              let own : identity.pid ≡ pid = ground (arith, consistent) in
              (
                ground (arith, consistent),
                inl f,
                (e ∙ ap some shared, subst (λ (i : ProcessIdentity). i.pid ≡ pid) shared own),
              )
        ]
        | inr (existing, f) ↦ elim (rw (e, f) at r) [
          | inl bad ↦ cc
          | inr same ↦
              let agreed = (rw f at consistent) in
              let first : existing ≡ id = cc in
              let shared : identity ≡ id =
                sym (identity_beq_sound existing identity (ground (arith, agreed))) ∙ first in
              let own : identity.pid ≡ pid = ground (arith, consistent) in
              (
                ground (arith, consistent),
                inr (f ∙ ap some first),
                (e ∙ ap some shared, subst (λ (i : ProcessIdentity). i.pid ≡ pid) shared own),
              )
        ]
      ]
]

entries-Carries :
    (pid : ℕ) (id : ProcessIdentity) (rows : List PortEntryView) (facts read : Facts)
    → add_entries pid facts rows ≡ some read
    → read.identity_consistent ≡ true
    → read.process_identity ≡ some id
    → (facts.identity_consistent ≡ true) × Reads id facts × All (Carries pid id) rows
unfolding add_entries add_entry
entries-Carries pid id [] facts read h c r =
    let same : facts ≡ read = cc in
    (
      ap (λ (f : Facts). f.identity_consistent) same ∙ c,
      inr (ap (λ (f : Facts). f.process_identity) same ∙ r),
      tt,
    )
entries-Carries pid id (entry ∷ rest) facts read h c r = elim (Bool-cases (entry.pid == some pid)) [
  | inr e ↦ let bad = (rw (e, add_entries) at h) in cc
  | inl e ↦
      let later =
        entries-Carries pid id rest (add_entry pid facts entry) read (rw (e, add_entries) at h) c
          r in
      let here = entry-Carries pid id facts entry later.0 later.1 in
      (here.0, here.1, (here.2, later.2))
]

marker_of-some :
    (read : Facts) (marker : ProcessStartMarker)
    → marker_of read ≡ some marker
    → (id : ProcessIdentity) × (read.identity_consistent ≡ true)
      × (read.process_identity ≡ some id)
      × (id.start_marker ≡ marker)
marker_of-some read marker h = elim (Bool-cases read.identity_consistent) [
  | inr c ↦ let bad = (rw c at h) in cc
  | inl c ↦ elim (Option-cases read.process_identity) [
    | inl e ↦ let bad = (rw (c, e) at h) in cc
    | inr (id, e) ↦ let made = (rw (c, e) at h) in (id, c, e, cc)
  ]
]

-- Where a kill target has a start marker, every row it was built from carries the identity that
-- is made of the target's PID and that marker.
pub marker_is_shared :
    (pid : ℕ) (rows : List PortEntryView) (context : Option ProcessContext) (target : KillTarget)
    (marker : ProcessStartMarker)
    → from_entries pid rows context ≡ some target
    → target.process_start_time_marker ≡ some marker
    → All
        (λ entry. entry.process_identity ≡ some (record { pid = pid; start_marker = marker }))
        rows
unfolding from_entries build_target
marker_is_shared pid [] context target marker h m = tt
marker_is_shared pid (entry ∷ rest) context target marker h m =
    elim (Option-cases (add_entries pid no_facts (entry ∷ rest))) [
      | inl e ↦ let bad = (rw (e, from_entries) at h) in cc
      | inr (read, e) ↦
          let built : build_target pid read context ≡ target =
            let made = (rw (e, from_entries) at h) in cc in
          let kept : marker_of read ≡ some marker =
            ap (λ (t : KillTarget). t.process_start_time_marker) built ∙ m in
          let (id, c, r, marked) = marker_of-some read marker kept in
          let shared = entries-Carries pid id (entry ∷ rest) no_facts read e c r in
          All-weaken (Carries pid id) (λ row. row.process_identity ≡ some (identity_of pid marker))
            (entry ∷ rest)
            (λ row carries.
              carries.0 ∙ ap some (same_fields id.pid pid id.start_marker marker carries.1 marked))
            shared.2
    ]

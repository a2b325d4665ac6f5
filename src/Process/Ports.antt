-- ===== src/Process/Ports.antt =====
-- The ports of a kill target of src/process.rs are those of the rows it was built from.
use kickoutchi.Prelude.{
  ℕ, ◌≡◌, refl, sym, ap, ◌∙◌, Bool, Option, some, List, [], ◌∷◌, ◌++◌, map, arith, any, any-map,
  sort_by, sort_by-any, Bool-cases, Option-cases, inl, inr, ◌==◌, nat_eq, option_eq,
}
use mathlib.Core.List.{append-nil, append_assoc}
use kickoutchi.Observation.{ipv6_scope_eq}
use kickoutchi.Process.{KillTarget, KillTargetPort}
use kickoutchi.Process.PortOrder.{port_beq_sound, has_sorted_port}
use kickoutchi.Process.Target.{
  PortEntryView, ProcessContext, Facts, no_facts, port_of, port_beq, port_order, dedup, dedup_from,
  kill_target_has_port, add_entry, add_entries, build_target, from_entries,
}

dedup_from-any :
    (p : KillTargetPort → Bool) (kept : KillTargetPort) (rest : List KillTargetPort)
    → any p (kept ∷ dedup_from kept rest) ≡ any p (kept ∷ rest)
unfolding dedup_from
dedup_from-any p kept [] = refl
dedup_from-any p kept (port ∷ rest) = elim (Bool-cases (port_beq port kept)) [
  | inl e ↦
      rw (e, dedup_from)
        (let same = ap p (port_beq_sound port kept e) in
          ground (arith, dedup_from-any p kept rest, same))
  | inr e ↦ rw (e, dedup_from) (ground (arith, dedup_from-any p port rest))
]

dedup-any :
    (p : KillTargetPort → Bool) (ports : List KillTargetPort) → any p (dedup ports) ≡ any p ports
unfolding dedup
dedup-any p [] = refl
dedup-any p (port ∷ rest) = dedup_from-any p port rest

entries-ports :
    (pid : ℕ) (rows : List PortEntryView) (facts read : Facts)
    → add_entries pid facts rows ≡ some read
    → facts.ports ++ map port_of rows ≡ read.ports
unfolding add_entries add_entry
entries-ports pid [] facts read h =
    let same : facts ≡ read = cc in append-nil facts.ports ∙ ap (λ (f : Facts). f.ports) same
entries-ports pid (entry ∷ rest) facts read h = elim (Bool-cases (entry.pid == some pid)) [
  | inr e ↦ let bad = (rw (e, add_entries) at h) in cc
  | inl e ↦
      sym (append_assoc facts.ports (port_of entry ∷ []) (map port_of rest))
      ∙ entries-ports pid rest (add_entry pid facts entry) read (rw (e, add_entries) at h)
]

-- The binary search finds a port among those of a kill target exactly when one of the rows that
-- the target was built from has the port.
pub target_has_row_ports :
    (pid : ℕ) (rows : List PortEntryView) (context : Option ProcessContext) (target : KillTarget)
    (port : KillTargetPort)
    → from_entries pid rows context ≡ some target
    → kill_target_has_port target.ports port ≡ any (λ entry. port_beq (port_of entry) port) rows
unfolding from_entries build_target
target_has_row_ports pid [] context target port h = cc
target_has_row_ports pid (entry ∷ rest) context target port h =
    elim (Option-cases (add_entries pid no_facts (entry ∷ rest))) [
      | inl e ↦ let bad = (rw (e, from_entries) at h) in cc
      | inr (read, e) ↦
          let built : build_target pid read context ≡ target =
            let made = (rw (e, from_entries) at h) in cc in
          sym (ap (λ (t : KillTarget). kill_target_has_port t.ports port) built)
          ∙ has_sorted_port read.ports port
          ∙ dedup-any (λ p. port_beq p port) (sort_by port_order read.ports)
          ∙ sort_by-any port_order (λ p. port_beq p port) read.ports
          ∙ sym (ap (any (λ p. port_beq p port)) (entries-ports pid (entry ∷ rest) no_facts read e))
          ∙ any-map port_of (λ p. port_beq p port) (entry ∷ rest)
    ]

-- ===== src/ProcessEvidence.antt =====
-- src/process_evidence.rs: the bounded name evidence that a termination gate reads once more
-- before it signals.
pub mod Bounds
mod Tests
use kickoutchi.Prelude.{
  ℕ, ◌+◌, Bool, true, false, not, ◌&&◌, ◌||◌, Option, none, some, List, [], ◌∷◌, if◌then◌else◌, leb,
  ltb, ◌==◌, nat_eq, is_some_and, Result, ok, err,
}
use kickoutchi.Prelude.Text.{Text, text_eq, byte_len}
use kickoutchi.Observation.{ProcessStartMarker, marker_eq}

abbrev pub protection_name_max_bytes : ℕ
protection_name_max_bytes = 4096

abbrev pub protection_scope_max_members : ℕ
protection_scope_max_members = 512

abbrev pub protection_scope_max_bytes : ℕ
protection_scope_max_bytes = 2097152

abbrev pub usize_max : ℕ
usize_max = 18446744073709551615

pub record ExpectedProcessEvidence : Type 0 where
  pub pid : ℕ
  pub start_marker : ProcessStartMarker
  pub name : Option Text

pub record FreshProcessEvidence : Type 0 where
  pub pid : ℕ
  pub start_marker : ProcessStartMarker
  pub name : Text
  pub executable_name : Option Text

pub data ProcessEvidenceError : Type 0 where
  permission_denied missing name_missing : ℕ → ProcessEvidenceError
  name_oversized : (pid : ℕ) (bytes : ℕ) → ProcessEvidenceError
  identity_changed name_changed : ℕ → ProcessEvidenceError
  incomplete_scope : (expected : ℕ) (observed : ℕ) → ProcessEvidenceError
  member_limit_exceeded byte_limit_exceeded : ℕ → ProcessEvidenceError

pub record ProcessEvidenceScope : Type 0 where
  pub expected_members : ℕ
  pub observed_members : ℕ
  pub retained_name_bytes : ℕ
  pub max_bytes : ℕ

unfoldable pub with_limits : ℕ → ℕ → ℕ → Result ProcessEvidenceScope ProcessEvidenceError
with_limits expected_members max_members max_bytes =
    if ltb max_members expected_members
    then err (member_limit_exceeded max_members)
    else ok (record {
      expected_members = expected_members;
      observed_members = 0;
      retained_name_bytes = 0;
      max_bytes = max_bytes;
    })

unfoldable pub new : ℕ → Result ProcessEvidenceScope ProcessEvidenceError
unfolding with_limits
new expected_members =
    with_limits expected_members protection_scope_max_members protection_scope_max_bytes

abbrev executable_name_bytes : FreshProcessEvidence → ℕ
executable_name_bytes fresh = elim fresh.executable_name [ none ↦ 0 | some name ↦ byte_len name ]

-- The first of the two lengths that is over the limit.
unfoldable pub oversized : ℕ → ℕ → Option ℕ
oversized name_bytes executable_bytes =
    if ltb protection_name_max_bytes name_bytes
    then some name_bytes
    else if ltb protection_name_max_bytes executable_bytes
    then some executable_bytes
    else none

-- `checked_add` on `usize`, then the filter by the scope's limit.
unfoldable pub checked_total : ℕ → ℕ → ℕ → Option ℕ
checked_total limit a b =
    if ltb usize_max (a + b) then none else if leb (a + b) limit then some (a + b) else none

unfoldable pub retain :
    ProcessEvidenceScope
    → FreshProcessEvidence
    → Result FreshProcessEvidence ProcessEvidenceError × ProcessEvidenceScope
unfolding checked_total
retain scope fresh =
    elim (checked_total scope.max_bytes scope.retained_name_bytes
      (byte_len fresh.name + executable_name_bytes fresh)) [
        | none ↦ (err (byte_limit_exceeded scope.max_bytes), scope)
        | some total ↦ (
          ok fresh,
          record scope {
            observed_members = scope.observed_members + 1;
            retained_name_bytes = total;
          },
        )
      ]

unfoldable pub observe_fresh :
    ProcessEvidenceScope
    → ExpectedProcessEvidence
    → FreshProcessEvidence
    → Result FreshProcessEvidence ProcessEvidenceError × ProcessEvidenceScope
unfolding oversized retain
observe_fresh scope expected fresh =
    if not (fresh.pid == expected.pid) || not (fresh.start_marker == expected.start_marker)
    then (err (identity_changed expected.pid), scope)
    else if fresh.name == []
    then (err (name_missing expected.pid), scope)
    else elim (oversized (byte_len fresh.name) (executable_name_bytes fresh)) [
      | some bytes ↦ (err (name_oversized expected.pid bytes), scope)
      | none ↦
          if is_some_and expected.name (λ name. not (name == fresh.name))
          then (err (name_changed expected.pid), scope)
          else retain scope fresh
    ]

-- `ProcessEvidenceScope::observe`: the scope is mutated in place, so it is returned on each branch.
unfoldable pub observe :
    ProcessEvidenceScope
    → ExpectedProcessEvidence
    → Result FreshProcessEvidence ProcessEvidenceError
    → Result FreshProcessEvidence ProcessEvidenceError × ProcessEvidenceScope
unfolding observe_fresh
observe scope expected fresh =
    if leb scope.expected_members scope.observed_members
    then (err (member_limit_exceeded scope.expected_members), scope)
    else elim fresh [ err e ↦ (err e, scope) | ok evidence ↦ observe_fresh scope expected evidence ]

unfoldable pub finish : ProcessEvidenceScope → Option ProcessEvidenceError
finish scope =
    if scope.observed_members == scope.expected_members
    then none
    else some (incomplete_scope scope.expected_members scope.observed_members)

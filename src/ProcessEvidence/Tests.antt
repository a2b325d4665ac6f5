-- ===== src/ProcessEvidence/Tests.antt =====
-- Runs of the evidence scope of src/process_evidence.rs.
use kickoutchi.Prelude.{
  ◌≤◌, ◌≡◌, ◌≢◌, refl, false, not, none, some, [], ok, ◌==◌, is_some_and, arith, ℕ_discrete, Result,
}
use kickoutchi.Prelude.Text.{codes, text_eq, byte_len}
use kickoutchi.Observation.{linux_start_ticks, ProcessStartMarker-discrete}
use kickoutchi.ProcessEvidence.{
  ExpectedProcessEvidence, FreshProcessEvidence, ProcessEvidenceError, ProcessEvidenceScope,
  protection_name_max_bytes, observe,
}
use kickoutchi.ProcessEvidence.Bounds.{IsBounded, observe-IsBounded, observe_accepts}

abbrev scope : ProcessEvidenceScope
scope = record {
  expected_members = 2;
  observed_members = 1;
  retained_name_bytes = 6;
  max_bytes = 12;
}

abbrev expected : ExpectedProcessEvidence
expected = record { pid = 41; start_marker = linux_start_ticks 900; name = some (codes "worker") }

abbrev evidence : FreshProcessEvidence
evidence = record {
  pid = 41;
  start_marker = linux_start_ticks 900;
  name = codes "worker";
  executable_name = none;
}

abbrev read : Result FreshProcessEvidence ProcessEvidenceError
read = ok evidence

accepted : (observe scope expected (ok evidence)).0 ≡ ok evidence
unfolding observe ProcessStartMarker-discrete ℕ_discrete
accepted = refl

observe-IsBounded_example : IsBounded (observe scope expected (ok evidence)).1
observe-IsBounded_example =
    observe-IsBounded scope expected (ok evidence)
      (record { within_members = omega arith; within_bytes = omega arith })

observe_accepts_example :
    (read ≡ ok evidence)
    × (evidence.pid ≡ 41)
    × (evidence.start_marker ≡ expected.start_marker)
    × (byte_len evidence.name ≤ protection_name_max_bytes)
    × (evidence.name ≢ [])
    × ((observe scope expected (ok evidence)).1.observed_members ≡ 2)
    × (is_some_and expected.name (λ name. not (name == evidence.name)) ≡ false)
observe_accepts_example = observe_accepts scope expected (ok evidence) evidence accepted

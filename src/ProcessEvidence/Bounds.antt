-- ===== src/ProcessEvidence/Bounds.antt =====
-- Bounds and outcomes of the evidence scope of src/process_evidence.rs.
use kickoutchi.Prelude.{
  is_some_and, not, decided_iff, ◌≢◌, [], ◌+◌, ◌≤◌, ◌≡◌, false, arith, ◌==◌, ok, err, Result,
}
use kickoutchi.Prelude.Text.{text_eq, byte_len, text_beq_iff}
use kickoutchi.Observation.{marker_eq, ProcessStartMarker-discrete}
use kickoutchi.ProcessEvidence.{
  ExpectedProcessEvidence, FreshProcessEvidence, ProcessEvidenceError, ProcessEvidenceScope,
  protection_name_max_bytes, observe,
}

pub record IsBounded (s : ProcessEvidenceScope) : Type 0 where
  pub within_members : s.observed_members ≤ s.expected_members
  pub within_bytes : s.retained_name_bytes ≤ s.max_bytes

-- Observing never passes the member count or the byte limit of the scope, whatever is read.
pub observe-IsBounded :
    (s : ProcessEvidenceScope) (expected : ExpectedProcessEvidence)
    (fresh : Result FreshProcessEvidence ProcessEvidenceError)
    → IsBounded s
    → IsBounded (observe s expected fresh).1
unfolding observe
observe-IsBounded s expected (err e) v = ground arith
observe-IsBounded s expected (ok f) v = ground arith

-- Evidence is accepted only for the expected PID and start marker, with a non-empty name within
-- the limit, and never under another name than the one expected; one more member is then counted.
pub observe_accepts :
    (s : ProcessEvidenceScope) (expected : ExpectedProcessEvidence)
    (fresh : Result FreshProcessEvidence ProcessEvidenceError) (f : FreshProcessEvidence)
    → (observe s expected fresh).0 ≡ ok f
    → (fresh ≡ ok f)
      × (f.pid ≡ expected.pid)
      × (f.start_marker ≡ expected.start_marker)
      × (byte_len f.name ≤ protection_name_max_bytes)
      × (f.name ≢ [])
      × ((observe s expected fresh).1.observed_members ≡ s.observed_members + 1)
      × (is_some_and expected.name (λ name. not (name == f.name)) ≡ false)
unfolding observe
observe_accepts s expected (err e) f h = ground arith
observe_accepts s expected (ok g) f h = (
  ground (arith, decided_iff (ProcessStartMarker-discrete g.start_marker expected.start_marker)),
  ground (arith, decided_iff (ProcessStartMarker-discrete g.start_marker expected.start_marker)),
  ground (arith, decided_iff (ProcessStartMarker-discrete g.start_marker expected.start_marker)),
  ground arith,
  (λ e. ground (arith, text_beq_iff g.name [])),
  ground arith,
  ground arith,
)

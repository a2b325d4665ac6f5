-- ===== src/Collector/Ports.antt =====
-- When a snapshot lets a kill act on a port (src/collector.rs, `snapshot_authority` in port mode).
use kickoutchi.Prelude.{
  ℕ, ◌≡◌, refl, sym, ap, ◌∙◌, Bool, true, false, not, ◌&&◌, ◌||◌, Option, none, some, List, [], ◌∷◌,
  if◌then◌else◌, any, ◌==◌, nat_eq, arith, Result, ok, err,
}
use kickoutchi.Model.{tcp, udp, protocol_eq}
use kickoutchi.Observation.Sockets.{
  EndpointIdentity, EvidenceGap, EvidenceImpact, evidence_impact_eq, EvidenceImpact-discrete,
  SocketObservation, SnapshotCompleteness, snapshot_completeness_eq, NetworkSnapshot,
}
use kickoutchi.Diagnostic.{is_listen, is_bound}
use kickoutchi.Process.Target.{PortEntryView}
use kickoutchi.Collector.{
  port, Authority, merge, merge_if, is_permission_code, is_raced_code, destructive_socket_match,
  socket_authority, gap_applies, gap_applies_to_target, merge_matched, merge_sockets, merge_gaps,
  snapshot_authority, target_mode, authorized_rows, kill_ports_from_snapshot,
}
use kickoutchi.Collector.Rows.{ObservationError, project_legacy_target}
use kickoutchi.Collector.Attribution.{
  is_attributed, is_full, merge-is_full, merge_if-is_full, socket_authority_lem,
}

-- A socket that holds the port: a TCP listener or a bound UDP socket.
abbrev pub holds_port : ℕ → SocketObservation → Bool
holds_port n socket =
    (((socket.local_endpoint.protocol == tcp) && is_listen socket.state)
      || ((socket.local_endpoint.protocol == udp) && is_bound socket.state))
    && (socket.local_endpoint.port == n)

abbrev pub is_unattributed : ℕ → SocketObservation → Bool
is_unattributed n socket = holds_port n socket && not (is_attributed socket)

abbrev may_name : ℕ → Option EndpointIdentity → Bool
may_name n none = true
may_name n (some endpoint) = endpoint.port == n

-- A gap that may hide a holder of the port, or a race of the whole collection.
abbrev pub blocks_port : ℕ → EvidenceGap → Bool
blocks_port n gap =
    is_raced_code gap.code
    || (((gap.impact == EvidenceImpact.socket_set) || (gap.impact == EvidenceImpact.ownership))
        && may_name n gap.endpoint)

abbrev pub port_authorized : ℕ → NetworkSnapshot → Bool
port_authorized n s =
    (not (s.completeness == SnapshotCompleteness.raced) && (s.omitted_evidence_gap_count == 0))
    && (not (any (is_unattributed n) s.sockets) && not (any (blocks_port n) s.evidence_gaps))

matched_bits :
    (n : ℕ) (socket : SocketObservation) (matched : List EndpointIdentity) (a : Authority)
    (active same : Bool)
    → (merge_matched socket
        (port n)
        (if not active then none else if same then some none else none)
        (matched, a)).1
      ≡ (if active && same then merge a (socket_authority socket (port n) none) else a)
unfolding merge_matched
matched_bits n socket matched a false same = refl
matched_bits n socket matched a true false = refl
matched_bits n socket matched a true true = refl

held_full :
    (n : ℕ) (socket : SocketObservation) (a : Authority) (held : Bool)
    → is_full (if held then merge a (socket_authority socket (port n) none) else a)
      ≡ is_full a && not (held && not (is_attributed socket))
held_full n socket a false = ground arith
held_full n socket a true =
    merge-is_full a (socket_authority socket (port n) none)
    ∙ rw (socket_authority_lem n socket) (ground arith)

merge_matched_lem :
    (n : ℕ) (socket : SocketObservation) (matched : List EndpointIdentity) (a : Authority)
    → is_full
        (merge_matched socket (port n) (destructive_socket_match socket (port n)) (matched, a)).1
      ≡ is_full a && not (is_unattributed n socket)
unfolding destructive_socket_match
merge_matched_lem n socket matched a =
    let active =
      ((socket.local_endpoint.protocol == tcp) && is_listen socket.state)
      || ((socket.local_endpoint.protocol == udp) && is_bound socket.state) in
    ap is_full (matched_bits n socket matched a active (socket.local_endpoint.port == n))
    ∙ held_full n socket a (holds_port n socket)

merge_sockets_lem :
    (n : ℕ) (sockets : List SocketObservation) (matched : List EndpointIdentity) (a : Authority)
    → is_full (merge_sockets sockets (port n) (matched, a)).1
      ≡ is_full a && not (any (is_unattributed n) sockets)
unfolding merge_sockets
merge_sockets_lem n [] matched a = ground arith
merge_sockets_lem n (socket ∷ rest) matched a =
    let found =
      merge_matched socket (port n) (destructive_socket_match socket (port n)) (matched, a) in
    merge_sockets_lem n rest found.0 found.1
    ∙ rw (merge_matched_lem n socket matched a) (ground arith)

gap_of_impact :
    (n : ℕ) (impact : EvidenceImpact) (endpoint : Option EndpointIdentity) (pid : Option ℕ)
    (matched : List EndpointIdentity)
    → gap_applies impact endpoint pid (port n) matched
      ≡ ((impact == EvidenceImpact.socket_set) || (impact == EvidenceImpact.ownership))
        && may_name n endpoint
unfolding gap_applies EvidenceImpact-discrete
gap_of_impact n EvidenceImpact.socket_set none pid matched = refl
gap_of_impact n EvidenceImpact.socket_set (some endpoint) pid matched = refl
gap_of_impact n EvidenceImpact.ownership none pid matched = refl
gap_of_impact n EvidenceImpact.ownership (some endpoint) pid matched = refl
gap_of_impact n EvidenceImpact.metadata endpoint pid matched = refl
gap_of_impact n EvidenceImpact.scope endpoint pid matched = refl

gap_applies_lem :
    (n : ℕ) (gap : EvidenceGap) (matched : List EndpointIdentity)
    → is_raced_code gap.code || gap_applies_to_target gap (port n) matched ≡ blocks_port n gap
unfolding gap_applies_to_target
gap_applies_lem n gap matched = rw (gap_of_impact n gap.impact gap.endpoint gap.pid matched)

merge_gaps_lem :
    (n : ℕ) (gaps : List EvidenceGap) (matched : List EndpointIdentity) (a : Authority)
    → is_full (merge_gaps gaps (port n) matched a) ≡ is_full a && not (any (blocks_port n) gaps)
unfolding merge_gaps
merge_gaps_lem n [] matched a = ground arith
merge_gaps_lem n (gap ∷ rest) matched a =
    let applies = gap_applies_to_target gap (port n) matched in
    let raced = is_raced_code gap.code in
    let other =
      if is_permission_code gap.code then Authority.permission_denied else Authority.partial in
    let less : is_full other ≡ false = ground arith in
    merge_gaps_lem n rest matched (merge_if applies other (merge_if raced Authority.raced a))
    ∙ rw
        (
          merge_if-is_full applies other (merge_if raced Authority.raced a) less,
          merge_if-is_full raced Authority.raced a refl,
          sym (gap_applies_lem n gap matched),
        )
        (ground arith)

started_lem :
    (raced none_omitted : Bool)
    → is_full (
        merge_if raced Authority.raced
          (merge_if (not none_omitted) Authority.partial Authority.complete))
      ≡ not raced && none_omitted
started_lem true none_omitted =
    merge_if-is_full true Authority.raced
      (merge_if (not none_omitted) Authority.partial Authority.complete) refl
started_lem false true = refl
started_lem false false = refl

snapshot_authority_lem :
    (n : ℕ) (s : NetworkSnapshot) → is_full (snapshot_authority s (port n)) ≡ port_authorized n s
unfolding snapshot_authority
snapshot_authority_lem n s =
    let raced = s.completeness == SnapshotCompleteness.raced in
    let none_omitted = s.omitted_evidence_gap_count == 0 in
    let started =
      merge_if raced Authority.raced
        (merge_if (not none_omitted) Authority.partial Authority.complete) in
    let found = merge_sockets s.sockets (port n) ([], started) in
    merge_gaps_lem n s.evidence_gaps found.0 found.1
    ∙ rw (merge_sockets_lem n s.sockets [] started, started_lem raced none_omitted) (ground arith)

abbrev pub rows_of : {A : Type 0} → {E : Type 0} → Result A E → Option A
rows_of (ok rows) = some rows
rows_of (err error) = none

authorized_rows_lem :
    (a : Authority) (rows : Result (List PortEntryView) ObservationError)
    → rows_of (authorized_rows a rows) ≡ (if is_full a then rows_of rows else none)
unfolding authorized_rows
authorized_rows_lem Authority.complete (ok rows) = refl
authorized_rows_lem Authority.complete (err error) = refl
authorized_rows_lem Authority.partial rows = refl
authorized_rows_lem Authority.permission_denied rows = refl
authorized_rows_lem Authority.raced rows = refl

-- A kill by port receives the projected rows exactly when the snapshot is neither raced nor has
-- omitted gaps, every TCP listener and bound UDP socket on the port has owners, all of them verified,
-- with complete attribution, and no gap tells of a race or of sockets or owners that may be on the port.
pub kill_ports_from_snapshot-port :
    (n : ℕ) (s : NetworkSnapshot)
    → rows_of (kill_ports_from_snapshot s none (some n))
      ≡ (if port_authorized n s then rows_of (project_legacy_target s none (some n)) else none)
unfolding kill_ports_from_snapshot target_mode
kill_ports_from_snapshot-port n s =
    authorized_rows_lem (snapshot_authority s (port n)) (project_legacy_target s none (some n))
    ∙ rw (snapshot_authority_lem n s)

-- ===== src/Collector/Owners.antt =====
-- The rows of a port name every owner of the sockets that hold it (src/observation.rs).
use kickoutchi.Prelude.{
  ℕ, ◌+◌, ◌≡◌, refl, sym, ap, ◌∙◌, Bool, true, false, not, ◌&&◌, ◌||◌, none, some, List, [], ◌∷◌,
  ◌++◌, map, if◌then◌else◌, any, any-or, length, ltb, ◌==◌, nat_eq, option_eq, arith, All, Result,
  ok, err,
}
use kickoutchi.Model.{protocol_eq}
use kickoutchi.Observation.Sockets.{
  OwnerObservation, verified, unverified_pid, SocketObservation, NetworkSnapshot,
}
use kickoutchi.Diagnostic.{is_verified, is_empty}
use kickoutchi.ProcessEvidence.{usize_max}
use kickoutchi.Process.Target.{PortEntryView}
use kickoutchi.Collector.{is_verified_as}
use kickoutchi.Collector.Ports.{holds_port}
use kickoutchi.Collector.Attribution.{is_attributed}
use kickoutchi.Collector.Rows.{
  ObservationError, owner_row, legacy_entry, socket_rows, is_projected, has_port_row_state, prepend,
  project_sockets, legacy_projection_limit_exceeded,
}

-- The port is held by that process, as far as verified owners tell, and by no other.
abbrev pub held_only_by : ℕ → SocketObservation → Bool
held_only_by pid socket =
    not (is_empty socket.owners)
    && not (any (λ owner. not (is_verified_as pid owner)) socket.owners)

abbrev pub all_rows_of : ℕ → ℕ → List PortEntryView → Bool
all_rows_of n pid rows = not (any (λ row. (row.local_port == n) && not (row.pid == some pid)) rows)

abbrev pub held_by_target : ℕ → ℕ → SocketObservation → Bool
held_by_target n pid socket =
    not (holds_port n socket && is_attributed socket) || held_only_by pid socket

-- A row that does not count is not on the port or is the target's.
not_counted :
    (on_port same rest : Bool)
    → on_port ≡ true
    → (if on_port && not same then true else rest) ≡ false
    → (same ≡ true) × (rest ≡ false)
not_counted true true rest e h = (refl, h)
not_counted true false rest e h = absurd cc
not_counted false same rest e h = absurd cc

owner_rows_lem :
    (n pid : ℕ) (s : NetworkSnapshot) (socket : SocketObservation) (owners : List OwnerObservation)
    → (socket.local_endpoint.port == n) ≡ true
    → any
        (λ row. (row.local_port == n) && not (row.pid == some pid))
        (map (owner_row s socket) owners)
      ≡ false
    → any (λ owner. not (is_verified owner)) owners ≡ false
    → any (λ owner. not (is_verified_as pid owner)) owners ≡ false
unfolding owner_row legacy_entry is_verified_as is_verified
owner_rows_lem n pid s socket [] e h k = refl
owner_rows_lem n pid s socket (verified identity ∷ owners) e h k =
    let (same, rest) =
      not_counted (socket.local_endpoint.port == n) (identity.pid == pid)
        (any (λ row. (row.local_port == n) && not (row.pid == some pid))
          (map (owner_row s socket) owners))
        e h in
    rw (same, owner_rows_lem n pid s socket owners e rest k)
owner_rows_lem n pid s socket (unverified_pid p reason ∷ owners) e h k = absurd cc

-- A socket that is projected gives a row for each of its owners.
socket_rows_lem :
    (n pid : ℕ) (s : NetworkSnapshot) (socket : SocketObservation)
    → (socket.local_endpoint.port == n) ≡ true
    → is_attributed socket ≡ true
    → all_rows_of n pid (socket_rows s none socket) ≡ true
    → held_only_by pid socket ≡ true
unfolding socket_rows
socket_rows_lem n pid s socket e a h =
    let owned : is_empty socket.owners ≡ false = ground (arith, a) in
    let known : any (λ owner. not (is_verified owner)) socket.owners ≡ false = ground (arith, a) in
    let rows = rw owned at h in
    let found : any (λ row. (row.local_port == n) && not (row.pid == some pid))
          (map (owner_row s socket) socket.owners)
        ≡ false =
      ground (arith, rows) in
    rw (owned, owner_rows_lem n pid s socket socket.owners e found known)

holds_port_projected :
    (n : ℕ) (socket : SocketObservation)
    → holds_port n socket ≡ true
    → (is_projected (some n) socket ≡ true) × ((socket.local_endpoint.port == n) ≡ true)
unfolding is_projected has_port_row_state
holds_port_projected n socket h = (ground (arith, h), ground (arith, h))

all_rows-append :
    (n pid : ℕ) (xs ys : List PortEntryView)
    → all_rows_of n pid (xs ++ ys) ≡ all_rows_of n pid xs && all_rows_of n pid ys
all_rows-append n pid xs ys =
    rw (any-or (λ row. (row.local_port == n) && not (row.pid == some pid)) xs ys) (ground arith)

-- What the rows of the sockets say is what the first socket and the others say.
prepend-ok :
    (rows all : List PortEntryView) (later : Result (List PortEntryView) ObservationError)
    → prepend rows later ≡ ok all
    → (rest : List PortEntryView) × (later ≡ ok rest) × (all ≡ rows ++ rest)
prepend-ok rows all (ok rest) h = (rest, refl, ground (arith, h))
prepend-ok rows all (err error) h = absurd cc

-- The projection went on after a socket.
went_on :
    (stop : Bool) (later : Result (List PortEntryView) ObservationError) (rest : List PortEntryView)
    → (if stop then err legacy_projection_limit_exceeded else later) ≡ ok rest
    → later ≡ ok rest
went_on true later rest h = absurd cc
went_on false later rest h = h

first_socket :
    (n pid : ℕ) (s : NetworkSnapshot) (socket : SocketObservation) (counts : Bool)
    → holds_port n socket && is_attributed socket ≡ counts
    → all_rows_of n pid (if is_projected (some n) socket then socket_rows s none socket else [])
      ≡ true
    → held_by_target n pid socket ≡ true
first_socket n pid s socket false e h = rw e
first_socket n pid s socket true e h =
    let holds : holds_port n socket ≡ true = ground (arith, e) in
    let attributed : is_attributed socket ≡ true = ground (arith, e) in
    let (projected, on_port) = holds_port_projected n socket holds in
    let rows = rw projected at h in rw (e, socket_rows_lem n pid s socket on_port attributed rows)

pub project_sockets_lem :
    (n pid max : ℕ) (s : NetworkSnapshot) (sockets : List SocketObservation) (count : ℕ)
    (all : List PortEntryView)
    → project_sockets s none (some n) max sockets count ≡ ok all
    → all_rows_of n pid all ≡ true
    → All (λ socket. held_by_target n pid socket ≡ true) sockets
unfolding project_sockets
project_sockets_lem n pid max s [] count all h k = tt
project_sockets_lem n pid max s (socket ∷ sockets) count all h k =
    let rows = if is_projected (some n) socket then socket_rows s none socket else [] in
    let total = count + length rows in
    let later = project_sockets s none (some n) max sockets total in
    let stop = not (length rows == 0) && (ltb usize_max total || ltb max total) in
    let (rest, went, same) =
      prepend-ok rows all (if stop then err legacy_projection_limit_exceeded else later) h in
    let both : all_rows_of n pid rows && all_rows_of n pid rest ≡ true =
      sym (all_rows-append n pid rows rest) ∙ sym (ap (all_rows_of n pid) same) ∙ k in
    let first : all_rows_of n pid rows ≡ true = ground (arith, both) in
    let others : all_rows_of n pid rest ≡ true = ground (arith, both) in
    (
      first_socket n pid s socket (holds_port n socket && is_attributed socket) refl first,
      project_sockets_lem n pid max s sockets total rest (went_on stop later rest went) others,
    )

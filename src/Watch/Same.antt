-- ===== src/Watch/Same.antt =====
-- A poll of src/watch.rs that sees the same sockets again yields no event.
use mathlib.Core.Path.{subst}
use kickoutchi.Prelude.{
  ℕ, zero, suc, ◌-◌, ◌<◌, ◌≤◌, ◌≡◌, refl, sym, ap, ◌∙◌, true, Option, none, some, List, [], ◌∷◌,
  ◌++◌, map, arith, length, Ordering, compare_self, compare_keys_self, inl, inr, ok, sort_by, take,
}
use kickoutchi.ProcessEvidence.{usize_max}
use kickoutchi.Observation.Sockets.{
  SocketObservation, NetworkSnapshot, socket_set_diff_safe, PlatformSocketToken,
}
use kickoutchi.Observation.Compare.{
  token_key, timer_key, compare_owners_self, compare_owner_completeness_self,
}
use kickoutchi.Watch.{
  WatchEvent, ReplacementReadiness, readiness, bucket_key, compare_bucket, compare_token,
  compare_owner_set, compare_socket, serialized_owners_max,
}
use kickoutchi.Watch.Diff.{
  SnapshotDiff, Slices, next_slices, count_remaining, remainder_of, reconcile_single,
  reconcile_bucket, nothing, in_order, diff_snapshots, with_limit, watch_events_per_poll_max,
}
use kickoutchi.Watch.Iterate.{drain}
use kickoutchi.Watch.Expected.{pending_events, Expected}
use kickoutchi.Watch.Steps.{slices_shrink, Expected-cases}
use kickoutchi.Watch.Drain.{start_of, start-Owes, drain-Owes}

compare_bucket_self : (x : SocketObservation) → compare_bucket x x ≡ Ordering.eq
unfolding compare_bucket
compare_bucket_self x = compare_keys_self (bucket_key x)

compare_token_self : (t : Option PlatformSocketToken) → compare_token t t ≡ Ordering.eq
unfolding compare_token
compare_token_self none = refl
compare_token_self (some token) = compare_keys_self (token_key token)

compare_owner_set_self : (x : SocketObservation) → compare_owner_set x x ≡ Ordering.eq
unfolding compare_owner_set
compare_owner_set_self x = rw (
  compare_owner_completeness_self x.owner_completeness,
  compare_self (length x.owners - serialized_owners_max),
  compare_owners_self (take serialized_owners_max x.owners),
)

compare_socket_self : (x : SocketObservation) → compare_socket x x ≡ Ordering.eq
unfolding compare_socket
compare_socket_self x =
    rw
      (
        compare_bucket_self x,
        compare_token_self x.socket_token,
        compare_owner_set_self x,
        compare_owners_self x.owners,
      )
      (compare_keys_self (timer_key x.timer))

count_remaining_self : (xs : List SocketObservation) → count_remaining xs xs ≡ (0, 0)
unfolding count_remaining
count_remaining_self [] = refl
count_remaining_self (x ∷ xs) =
    rw (compare_socket_self x, count_remaining) (count_remaining_self xs)

remainder_of_self : (xs : List SocketObservation) → remainder_of xs xs ≡ nothing
unfolding remainder_of
remainder_of_self xs = rw (count_remaining_self xs, remainder_of) refl

reconcile_bucket_self :
    (before after : ReplacementReadiness) (xs : List SocketObservation)
    → reconcile_bucket before after xs xs ≡ nothing
unfolding reconcile_bucket reconcile_single
reconcile_bucket_self before after [] = remainder_of_self []
reconcile_bucket_self before after (x ∷ []) = rw (compare_socket_self x) refl
reconcile_bucket_self before after (x ∷ y ∷ xs) = remainder_of_self (x ∷ y ∷ xs)

slices_self :
    (xs : List SocketObservation) (slices : Slices)
    → next_slices xs xs ≡ some slices
    → (slices.previous ≡ slices.current) × (slices.previous_after ≡ slices.current_after)
unfolding next_slices
slices_self [] slices h = cc
slices_self (x ∷ xs) slices h =
    let built = (rw (compare_bucket_self x, next_slices) at h) in (cc, cc)

Expected_self :
    (before after : ReplacementReadiness) (n : ℕ) {xs ys : List SocketObservation}
    {es : List WatchEvent}
    → length xs < n
    → xs ≡ ys
    → Expected before after xs ys es
    → es ≡ []
Expected_self before after zero enough same expected = absurd (omega arith)
Expected_self before after (suc n) {xs} {ys} {es} enough same expected =
    elim (Expected-cases before after expected) [
      | inl (e, empty) ↦ empty
      | inr (slices, rest, e, sum, more) ↦
          let (here, later) =
            slices_self xs slices (subst (λ zs. next_slices xs zs ≡ some slices) (sym same) e) in
          let shrink = slices_shrink xs ys slices e in
          let none_later : rest ≡ [] =
            Expected_self before after n (omega (arith, ap length same, ap length later)) later
              more in
          sum
          ∙ ap (λ zs. pending_events (reconcile_bucket before after zs slices.current) ++ rest) here
          ∙ ap (λ pending. pending_events pending ++ rest)
              (reconcile_bucket_self before after slices.current)
          ∙ none_later
    ]

drain_self :
    (previous current : NetworkSnapshot) (n limit : ℕ)
    → previous.sockets ≡ current.sockets
    → 0 < n
    → limit ≤ usize_max
    → drain n (start_of previous current limit) ≡ []
drain_self previous current n limit same enough small =
    let (es, owes, expected) = start-Owes previous current limit in
    let sorted = sort_by in_order previous.sockets in
    let silent : es ≡ [] =
      Expected_self (readiness previous) (readiness current) (suc (length sorted)) (omega arith)
        (ap (sort_by in_order) same) expected in
    drain-Owes limit n 0 es (start_of previous current limit) owes (omega (arith, ap length silent))
      (omega (arith, ap length silent)) small
    ∙ ap (map (λ e. ok e)) silent

-- Two snapshots that are safe to compare and list the same sockets give no event, whatever they say
-- of the processes.
pub diff_snapshots_same :
    (previous current : NetworkSnapshot)
    → socket_set_diff_safe previous ≡ true
    → socket_set_diff_safe current ≡ true
    → previous.sockets ≡ current.sockets
    → (s : SnapshotDiff) × (diff_snapshots previous current ≡ ok s)
      × (drain (suc watch_events_per_poll_max) s ≡ [])
unfolding diff_snapshots with_limit
diff_snapshots_same previous current safe_p safe_c same = (
  start_of previous current watch_events_per_poll_max,
  rw (safe_p, safe_c) refl,
  drain_self previous current (suc watch_events_per_poll_max) watch_events_per_poll_max same
      (omega arith) (omega arith),
)

-- ===== src/Settle/Visibility.antt =====
-- The ports that the settling of src/cli/settle.rs reports as visible.
use mathlib.Core.Path.{subst}
use kickoutchi.Prelude.{
  ℕ, zero, suc, ◌≡◌, ◌∙◌, refl, sym, ap, true, false, not, List, [], ◌∷◌, map, arith, Result, ok,
  err, Bool-cases, inl, inr, All, keep, keep_holds, sort_by, sort_by-All,
}
use kickoutchi.Prelude.Text.{Text}
use kickoutchi.Observation.{ProcessIdentity}
use kickoutchi.Process.{KillTargetPort}
use kickoutchi.Process.PortOrder.{dedup_from-All}
use kickoutchi.Process.Target.{PortEntryView, port_of, port_order, dedup, kill_target_has_port}
use kickoutchi.Settle.{
  ExitObservation, PortsStatus, is_still_visible, SettleProbe, Settling, none_left,
  confirmed_ports_visible, note_exit, retain_running, poll_exits, see_ports, note_ports, poll_ports,
  is_settled, pause, settle_loop, report_of, start_settling, settle, settle_attempts_max,
}

dedup-All :
    (P : KillTargetPort → Type 0) (ports : List KillTargetPort) → All P ports → All P (dedup ports)
unfolding dedup
dedup-All P [] h = h
dedup-All P (port ∷ rest) h = (h.0, dedup_from-All P port rest h.1)

abbrev pub Confirmed : List KillTargetPort → List KillTargetPort → Type 0
Confirmed ports visible = All (λ port. kill_target_has_port ports port ≡ true) visible

visible-Confirmed :
    (ports : List KillTargetPort) (entries : List PortEntryView)
    → Confirmed ports (confirmed_ports_visible ports entries)
unfolding confirmed_ports_visible
visible-Confirmed ports entries =
    let P = (λ (port : KillTargetPort). kill_target_has_port ports port ≡ true) in
    let rows = keep (kill_target_has_port ports) (map port_of entries) in
    dedup-All P (sort_by port_order rows) (
      sort_by-All port_order P rows (keep_holds (kill_target_has_port ports) (map port_of entries)))

-- The status says whether a confirmed port is among those seen.
abbrev pub Agrees : PortsStatus → List KillTargetPort → Type 0
Agrees status visible = is_still_visible status ≡ not (none_left visible)

-- What holds before the first poll of the ports.
abbrev Unpolled : PortsStatus → List KillTargetPort → Type 0
Unpolled status visible = is_still_visible status ≡ false → none_left visible ≡ true

module _ {W : Type 0} (probe : SettleProbe W) (ports : List KillTargetPort) where
  note_keeps :
      (identity : ProcessIdentity) (seen : ExitObservation) (w : W) (s : Settling W)
      → ((note_exit identity seen w s).ports_status ≡ s.ports_status)
        × ((note_exit identity seen w s).visible_ports ≡ s.visible_ports)
  unfolding note_exit
  note_keeps identity ExitObservation.exited w s = (refl, refl)
  note_keeps identity ExitObservation.running w s = (refl, refl)
  note_keeps identity (ExitObservation.unknown error) w s = (refl, refl)

  retain_keeps :
      (ids : List ProcessIdentity) (s : Settling W)
      → ((retain_running probe ids s).ports_status ≡ s.ports_status)
        × ((retain_running probe ids s).visible_ports ≡ s.visible_ports)
  unfolding retain_running
  retain_keeps [] s = (refl, refl)
  retain_keeps (identity ∷ rest) s =
      let (seen, w) = probe.observe_exit identity s.world in
      let noted = note_keeps identity seen w s in
      let kept = retain_keeps rest (note_exit identity seen w s) in
      (kept.0 ∙ noted.0, kept.1 ∙ noted.1)

  polled_keeps :
      (s : Settling W)
      → ((poll_exits probe s).ports_status ≡ s.ports_status)
        × ((poll_exits probe s).visible_ports ≡ s.visible_ports)
  unfolding poll_exits
  polled_keeps s = retain_keeps s.pending (record {
    pending = [];
    exited = s.exited;
    last_errors = s.last_errors;
    ports_status = s.ports_status;
    visible_ports = s.visible_ports;
    world = s.world;
  })

  ports-Agrees :
      (s : Settling W)
      → Unpolled s.ports_status s.visible_ports
      → Confirmed ports s.visible_ports
      → Agrees (poll_ports probe ports s).ports_status (poll_ports probe ports s).visible_ports
        × Confirmed ports (poll_ports probe ports s).visible_ports
  unfolding poll_ports note_ports see_ports is_still_visible none_left
  ports-Agrees s h k = elim (Bool-cases (is_still_visible s.ports_status)) [
    | inr e ↦ rw (e) (ground (arith, h e), k)
    | inl e ↦ rw (e) (noted (probe.collect_ports s.world).0 (probe.collect_ports s.world).1)
  ]
    where
      noted :
          (read : Result (List PortEntryView) Text) (w : W)
          → Agrees
              (note_ports ports read w s).ports_status
              (note_ports ports read w s).visible_ports
            × Confirmed ports (note_ports ports read w s).visible_ports
      noted (ok entries) w = (ground arith, visible-Confirmed ports entries)
      noted (err error) w = (refl, tt)

  pause_keeps :
      (left : ℕ) (s : Settling W)
      → ((pause probe left s).ports_status ≡ s.ports_status)
        × ((pause probe left s).visible_ports ≡ s.visible_ports)
  unfolding pause see_ports
  pause_keeps zero s = (refl, refl)
  pause_keeps (suc left) s = (refl, refl)

  abbrev Sound : Settling W → Type 0
  Sound s = Agrees s.ports_status s.visible_ports × Confirmed ports s.visible_ports

  attempt-Sound :
      (s : Settling W)
      → Unpolled s.ports_status s.visible_ports
      → Confirmed ports s.visible_ports
      → Sound (poll_ports probe ports (poll_exits probe s))
  attempt-Sound s h k =
      let t = poll_exits probe s in
      let (status, visible) = polled_keeps s in
      ports-Agrees t
        (λ e.
          subst (λ v. none_left v ≡ true) (sym visible) (h (sym (ap is_still_visible status) ∙ e)))
        (subst (Confirmed ports) (sym visible) k)

  Agrees-Unpolled :
      (status : PortsStatus) (visible : List KillTargetPort)
      → Agrees status visible
      → Unpolled status visible
  Agrees-Unpolled status visible h e = ground arith

  loop-Sound :
      (left : ℕ) (s : Settling W)
      → Unpolled s.ports_status s.visible_ports
      → Confirmed ports s.visible_ports
      → Sound (settle_loop probe ports (suc left) s)
  unfolding settle_loop pause see_ports
  loop-Sound zero s h k =
      let t = poll_ports probe ports (poll_exits probe s) in
      elim (is_settled t) as (λ b. Sound (elim b [ true ↦ t | false ↦ t ])) [
        | true ↦ attempt-Sound s h k
        | false ↦ attempt-Sound s h k
      ]
  loop-Sound (suc left) s h k =
      let t = poll_ports probe ports (poll_exits probe s) in
      let now = attempt-Sound s h k in
      elim (is_settled t)
        as (λ b. Sound (elim b [
          | true ↦ t
          | false ↦ settle_loop probe ports (suc left) (pause probe (suc left) t)
        ])) [
          | true ↦ now
          | false ↦
              loop-Sound left (pause probe (suc left) t)
                (Agrees-Unpolled t.ports_status t.visible_ports now.0) now.1
        ]

settled-Sound :
    {W : Type 0} (probe : SettleProbe W) (ids : List ProcessIdentity) (ports : List KillTargetPort)
    (w : W)
    → Sound probe ports (settle_loop probe ports settle_attempts_max (start_settling ids ports w))
unfolding start_settling none_left
settled-Sound probe ids ports w =
    loop-Sound probe ports 19 (start_settling ids ports w) (λ e. refl) tt

-- The report says that ports are still visible exactly when it lists some.
pub still_visible_lists_ports :
    {W : Type 0} (probe : SettleProbe W) (ids : List ProcessIdentity) (ports : List KillTargetPort)
    (w : W)
    → is_still_visible (settle probe ids ports w).ports
      ≡ not (none_left (settle probe ids ports w).visible_ports)
unfolding settle report_of
still_visible_lists_ports probe ids ports w = (settled-Sound probe ids ports w).0

-- Every port that the report lists as visible is a confirmed one.
pub visible_ports_confirmed :
    {W : Type 0} (probe : SettleProbe W) (ids : List ProcessIdentity) (ports : List KillTargetPort)
    (w : W)
    → All (λ port. kill_target_has_port ports port ≡ true) (settle probe ids ports w).visible_ports
unfolding settle report_of
visible_ports_confirmed probe ids ports w = (settled-Sound probe ids ports w).1

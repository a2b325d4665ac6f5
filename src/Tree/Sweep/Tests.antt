-- ===== src/Tree/Sweep/Tests.antt =====
-- One pass of `freeze_sweep` of src/tree/execute.rs over a small process table.
use kickoutchi.Prelude.{
  ◌≡◌, refl, true, not, none, List, [], ◌∷◌, ◌++◌, keep, inl, inr, ℕ_discrete, sort_by, insert_by,
}
use kickoutchi.Prelude.Text.{codes}
use kickoutchi.Process.{unsafe_pid_reason}
use kickoutchi.Tree.{TreeProcessInfo}
use kickoutchi.Tree.Index
use kickoutchi.Tree.Index.{children}
use kickoutchi.Tree.Execute.{confirmed_root}
use kickoutchi.Tree.Frozen.{
  FrozenNode, SweepScope, contains, pids, unfrozen_members, from_info, member_cap,
}
use kickoutchi.Tree.Frozen.Enumeration.{enumeration_closed}
use kickoutchi.Tree.Sweep.{
  Sweep, run_pass, drain, freeze_members, freeze_member, stop_member, stop_before_deadline,
  after_stop, push_member,
}
use kickoutchi.Tree.Sweep.Settles.{pass_settles}
use kickoutchi.Tree.Fixture.{table_ops, idle_guard, row, table, table_index, this_host, server}

abbrev stopped_root : List FrozenNode
stopped_root = confirmed_root server none true ∷ []

abbrev pass : Sweep (List TreeProcessInfo)
pass =
    run_pass this_host table_ops idle_guard 10 SweepScope.tree table table_index stopped_root table

-- The pass stops the two descendants, the deeper one found through the other.
pass_run : (pass.refusal ≡ none) × (pids pass.frozen ≡ 40 ∷ 41 ∷ 42 ∷ [])
unfolding run_pass drain unfrozen_members Index.new children freeze_members freeze_member
    stop_member stop_before_deadline after_stop push_member sort_by insert_by from_info
    unsafe_pid_reason member_cap ℕ_discrete
pass_run = (refl, refl)

pass_settles_example :
    keep
      (λ member. not (contains pass.vanished member.pid))
      (unfrozen_members SweepScope.tree table table_index pass.frozen)
    ≡ []
unfolding Index.new
pass_settles_example =
    pass_settles this_host table_ops idle_guard 10 SweepScope.tree table 3 table_index refl
      stopped_root table pass_run.0

abbrev members : List FrozenNode
members = stopped_root ++ unfrozen_members SweepScope.tree table table_index stopped_root

enumeration_closed_example : contains (pids members) 42 ≡ true
unfolding Index.new unfrozen_members children from_info sort_by insert_by ℕ_discrete
enumeration_closed_example =
    enumeration_closed table stopped_root 3 table_index refl (row 42 41 (codes "sshd")) 41
      (inr (inr (inl refl))) refl refl

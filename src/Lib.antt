-- ===== src/Lib.antt =====
-- Kickoutchi: a development beside its source on which processes it may signal, and how.
--
-- Kickoutchi finds the process behind a port and ends it. A kill of one process is confirmed
-- against a `KillTarget` (src/process.rs); a kill of a process tree or of a process group is one
-- pipeline, `execute_freeze_kill` of src/tree/execute.rs. It stops the root, stops every member
-- that a fresh snapshot of the process table shows until a pass finds no more, checks the identity
-- of each, reads its name again as bounded evidence (src/process_evidence.rs), applies the
-- protection rule (src/protection.rs) and the system-process policy (src/model.rs), and only then
-- signals, the deepest members first. On any refusal it continues what it stopped.
--
-- The files:
--   Prelude and its children: Boolean tests, lists over native numbers, sorting, binary search,
--     results, texts as lists of scalar values.
--   Model: `Platform`, `SystemProcessCheck` of src/model.rs.
--   Protection: src/protection.rs, as a release build for Linux or macOS has it. The Unicode
--     comparison of Windows names, which that build leaves out, is not modelled.
--   Observation: the identities of src/observation.rs, with Observation.Sockets the sockets of a
--     snapshot, Observation.Endpoint `EndpointIdentity::new` and Observation.Compare the orders.
--   Settle: `settle` of src/cli/settle.rs, which polls after a kill; its reads are functions over
--     a state, and its loop counts the attempts that are left, 20 at first as in the source.
--   Watch: the events between two snapshots of src/watch.rs. Watch.Diff is the state of the iterator
--     `SnapshotDiff` and its buckets, Watch.Iterate `next_event` and `next`, which it is drained by;
--     Watch.Expected says without positions and cursors which events each bucket should give, and
--     Watch.Steps that the iterator yields those.
--   Collector: src/collector.rs, `kill_ports_from_snapshot` and the authority it computes.
--     Collector.Rows is the projection of a snapshot into rows, of src/observation.rs and
--     src/observation/legacy.rs. A descriptor there holds places of 32 bits, which the bounded
--     lists of a snapshot fit; here a row is made at once. Collector.Ports says without authorities
--     when a port may be acted on, and Collector.Owners that the rows name all its owners.
--   Kill: src/cli/kill.rs, `resolve_kill_target` and `revalidate_single_cli_target`, where a panic
--     is `none` and the rows of `collect_ports` are an argument, as are the facts of
--     `collect_context`. Kill.Holders composes them with Collector.
--     Kill.Batch is the plan of src/cli/kill/batch.rs, Kill.Batch.Deliver its delivery and
--     Kill.Batch.Run the confirmation and the run; the flag `yes` is the field `skip`, and lines of
--     text are left out. Kill.Batch.Record keeps the signals that a batch sends, as Tree.Record does.
--   Diagnostic: `relationship` and `select_verdict` of src/diagnostic/verdict.rs.
--   ProcessEvidence: `ProcessEvidenceScope` of src/process_evidence.rs.
--   Process: `KillMode`, `unsafe_pid_reason`, `KillTarget` of src/process.rs. Process.Target is
--     `KillTarget::from_entries`, where a panic is `none`, and the binary search over
--     the ports of a target, whose order is in Process.PortOrder; Process.Confirm the requirement of a
--     confirmation, `revalidate_confirmed_target` and the two evidence checks; Process.Stopped the
--     end of the termination of a stopped process.
--   Tree: the trait `TreeProcessOps` of src/tree/mod.rs, as a record of functions over a state that
--     stands for the operating system. Tree.Index is `ProcessTreeIndex` of src/tree/plan.rs and
--     Tree.Plan the previews and gates of that file that come before a confirmation, with
--     Tree.Plan.Build the walk that makes them. The rest is src/tree/execute.rs: Tree.Frozen the
--     members, Tree.Sweep `freeze_sweep`, Tree.Verify the checks of identity and evidence,
--     Tree.Policy `check_tree_policy`, Tree.Deliver the signals and the cleanup, Tree.Execute the
--     pipeline.
--   Tree.Record wraps any operations in ones that keep the list of the signals they send. The
--     theorems of Tree.Safety speak of that list, for every operations record and every guard, so
--     the operating system may answer in any way at each call.
--
-- Tree.Fixture is a small process table for the tests, which stand in the modules called Tests.
--
-- `&mut` state is passed and returned. Sizes are native numbers; where the source adds with
-- `checked_add` the limit of `usize` is written out. A loop is recursion over its list, except five
-- that run on fuel. The inner loop of `freeze_sweep` has a round for each row of the snapshot, the
-- worklist of `unfrozen_children` a pop for each frozen member and each row, and the walk of
-- `plan_process_tree` a pop for each node under the limit, since a row is frozen, found gone, or
-- seen once at most. The loops of `prepare_next_bucket` and `next_event` have a round for each socket
-- that is left, since a bucket takes one at least. The binary
-- search of the standard library halves its list, on its length as fuel.
--
-- Not modelled: the platform backends, signal masks and the terminal, which are calls of the
-- operating system and of libraries; the passes of a collection over the platform; the filter
-- language, labels, configuration files and the docker listing, which never give a kill more
-- authority; texts that are only displayed. The Windows pipeline is another program
-- (src/tree/windows.rs).
pub mod Prelude
pub mod Model
pub mod Protection
pub mod Observation
pub mod ProcessEvidence
pub mod Process
pub mod Tree
pub mod Settle
pub mod Watch
pub mod Collector
pub mod Kill
pub mod Diagnostic

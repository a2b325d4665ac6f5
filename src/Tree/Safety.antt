-- ===== src/Tree/Safety.antt =====
-- What the pipeline of src/tree/execute.rs does with its signals, over any process operations.
pub mod Ledger
pub mod Rule
pub mod Members
pub mod Passes
pub mod Cleanup
pub mod Checks
pub mod Trace
pub mod Stages
pub mod Pipeline
pub mod Refusal
pub mod Signals
pub mod Delivery
pub mod Aim
pub mod Targets
pub mod Accounting
pub mod GroupOrder

-- ===== src/Operator.antt =====
-- internal/operator: the reconciler of sandboxes.
pub mod Objects
pub mod Names
pub mod Cluster
pub mod Status
pub mod Ensure
pub mod Deletion
pub mod Render
pub mod Phases
pub mod Samples
pub mod Verdict
pub mod Resolve
pub mod Reconcile

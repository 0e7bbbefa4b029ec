-- ===== src/Supervisor.antt =====
-- internal/supervisor: the processes that run in the pod of a sandbox.
pub mod Manager
pub mod Listing

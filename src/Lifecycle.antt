-- ===== src/Lifecycle.antt =====
-- internal/lifecycle: quotas of a user, idle detection and validation of sandboxes.
pub mod Quota
pub mod Activity
pub mod Secrets
pub mod Validation

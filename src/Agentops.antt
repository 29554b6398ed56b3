-- ===== src/Agentops.antt =====
-- internal/agentops: what the local client does for its callers.
pub mod Permissions
pub mod Bash
pub mod Paths
pub mod Sensitive
pub mod Edits
pub mod Diff
pub mod Patch
pub mod Checkpoints
pub mod Writes
pub mod Rollback
pub mod FileTests
pub mod PathTests
pub mod Rings
pub mod Runs
pub mod RunStore

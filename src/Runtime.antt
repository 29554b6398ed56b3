-- ===== src/Runtime.antt =====
-- internal/runtime: the durable store of codebridged, its journal and its run state machine.
pub mod Entities
pub mod Permits
pub mod Store
pub mod Rollback
pub mod Rows
pub mod Tables
pub mod Journal
pub mod Transitions
pub mod Policies
mod Tests

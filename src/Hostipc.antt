-- ===== src/Hostipc.antt =====
-- internal/hostipc: the wire between codebridged and CodeBridge.app.
pub mod Frame
pub mod Methods
pub mod Hello
pub mod Session
pub mod Tests

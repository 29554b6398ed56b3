-- ===== src/Manager.antt =====
-- internal/manager: the device connections, the accounts that see them and the tools they offer.
pub mod Connections
pub mod Registry
pub mod Calls
pub mod ToolPolicy
pub mod Accounts
pub mod RunEvents
mod Tests

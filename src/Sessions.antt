-- ===== src/Sessions.antt =====
-- remote_ssh_mcp/sessions.py: the keyed sessions of one server process.
pub mod Identity
pub mod Session
pub mod Manager
pub mod Shutdown
pub mod Resolve

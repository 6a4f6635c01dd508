-- ===== src/Commands.antt =====
-- remote_ssh_mcp/commands.py: bounded command execution.
pub mod Runner
pub mod Script
pub mod Capture
pub mod Encoded
pub mod Supervisor

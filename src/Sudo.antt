-- ===== src/Sudo.antt =====
-- remote_ssh_mcp/sudo.py: privileged commands behind a start marker.
pub mod Marker
pub mod Execute

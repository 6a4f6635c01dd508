-- ===== src/Server.antt =====
-- remote_ssh_mcp/server.py and mcp_models.py: the tools that a client of the MCP server calls.
pub mod Models
pub mod Redact
pub mod Tools
pub mod Environment
pub mod Handlers
pub mod Validation
pub mod Dispatch

-- ===== src/Transfers.antt =====
-- remote_ssh_mcp/transfers.py: resumable transfers of single files.
pub mod Operation
pub mod Manager
pub mod Task
pub mod Progress
pub mod Remote
pub mod Download
pub mod Upload
pub mod Start
pub mod Hash

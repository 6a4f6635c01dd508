-- ===== src/Payload.antt =====
-- tools/container_payload.py: the archives that carry files into and out of build containers. A
-- `PayloadError` is `none`.
pub mod Names
pub mod Reader
pub mod Extract
pub mod Create
pub mod Merge
pub mod Choice

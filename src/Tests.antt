-- ===== src/Tests.antt =====
-- The theorems at concrete inputs, by the part of the program that they are about.
mod Checksums
mod Commands
mod Config
mod Inspection
mod Payload
mod Release
mod Server
mod Sudo
mod Supervisor
mod LocalPaths
mod Sessions
mod Transfers
mod Starts

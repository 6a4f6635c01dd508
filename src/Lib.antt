-- ===== src/Lib.antt =====
-- remote-ssh-mcp: a local MCP server that gives its callers keyed SSH sessions to remote hosts, with
-- commands, sudo, file inspection and file transfers over one OpenSSH master for each session.
--
-- The parts and their files:
--
-- - Prelude: texts and byte strings as lists of code points, with the string methods and encodings of
--   Python that the program uses, and the lists and Boolean tests that all modules share.
-- - Errors: the codes of `RemoteMCPError` and the exceptions that calls raise, as values. The message
--   and the details of an exception are left out.
-- - Commands, for remote_ssh_mcp/commands.py: `_capture` is Commands/Capture; `_validate_script`, the
--   framing of `run_script` and what the remote supervisor reads of it are Commands/Script;
--   `run_script`, cut at its waits, and `close` are Commands/Runner; `to_dict` is Commands/Encoded.
--   The remote supervisor with its watcher is Commands/Supervisor.
-- - Sudo, for remote_ssh_mcp/sudo.py: `_remove_marker_from_file` is Sudo/Marker, the rest Sudo/Execute.
-- - LocalPaths, for remote_ssh_mcp/local_paths.py: every decision of `LocalPathPolicy`, and in
--   LocalPaths/Private the making of its directories. What `pathlib`
--   asks the file system for is a record `FileSystem`, an argument of the definitions.
-- - Sessions, for remote_ssh_mcp/sessions.py: `_parse_server_identity` is Sessions/Identity,
--   `resolve_server_identity` Sessions/Resolve, the record of a session Sessions/Session,
--   the manager Sessions/Manager with `list_sessions` in Sessions/Manager/Listing, `_shutdown`
--   Sessions/Shutdown.
-- - Transfers, for remote_ssh_mcp/transfers.py: the operation and `_set_state` are
--   Transfers/Operation, the registry is Transfers/Manager with Transfers/Manager/Calls, the two
--   `start_…` calls are Transfers/Start, the reading of rsync's output is Transfers/Progress, the other
--   remote calls are Transfers/Remote, `_run_download` is Transfers/Download and `_run_upload`
--   Transfers/Upload; `_sha256_file` is Transfers/Hash.
-- - Config, for remote_ssh_mcp/config.py, and Config/Machine, for remote_ssh_mcp/machine.py.
-- - Inspection, for remote_ssh_mcp/inspection.py; `list_directory` is Inspection/Directory.
-- - Server, for remote_ssh_mcp/server.py and mcp_models.py: the input models are Server/Models,
--   `public_transfer` is Server/Redact, `TOOL_DEFINITIONS` Server/Tools, the handlers are
--   Server/Handlers with what they call in Server/Environment, `_validation_message` is
--   Server/Validation and `call_tool` Server/Dispatch.
-- - Payload, for tools/container_payload.py: `safe_archive_path` is Payload/Names, `_BoundedReader`
--   Payload/Reader, `write_archive` Payload/Create, `extract_archive` Payload/Extract and
--   `merge_archive` Payload/Merge; what `main` makes of the arguments of `create` is Payload/Choice.
-- - Checksums, for tools/checksums.py.
-- - Release, for .github/scripts/version.py; the copies of the version and `_sync_mirrors` are
--   Release/Mirrors.
-- - Tests: the theorems at concrete inputs.
--
-- How they interact: a session owns one command runner and one transfer manager, and the managers of
-- all sessions share one set of reservations. Transfers ask the command runner for remote hashes and
-- scripts, and the path policy for local paths; sudo runs its script by the command runner and takes
-- its marker out of what was captured.
--
-- State is passed on explicitly. A coroutine is cut where it waits, and the parts are the steps of a
-- relation (Sessions/Manager/World, Transfers/Manager/World) under which other callers run in between,
-- in any order. The body of a background task is a program in a small monad (Transfers/Task) that
-- keeps what it has changed when an exception is raised; it runs against a record of the answers that
-- rsync, the remote host, hashing and the file system give, any of which may be an exception or a
-- cancellation. `End` in Transfers/Task/Ending says how such a task ends.
--
-- Times are ticks of one clock, a process is a number, and a file is its contents. Loops over reads are
-- recursion on the list of the reads; the search of `PROGRESS_PATTERN` has the length of its window
-- as fuel, and each round uses up a character of it. The program of the remote supervisor runs through
-- at most 25 commands, between which signals come.
--
-- Not modelled: the ssh_wrapper package, which owns the OpenSSH master and is not in the repository,
-- so its answers are arguments; signals that come while the remote supervisor cleans up, and its waits
-- between two signals that it sends; signals sent to local processes; the validation of a tool's
-- arguments, which is pydantic's and an argument of `call_tool`; the stdio loop of the MCP server, the
-- command line, the tar format, the other build tools, and the release scripts but version.py.
pub mod Prelude
pub mod Errors
pub mod Checksums
pub mod Commands
pub mod Config
pub mod Inspection
pub mod LocalPaths
pub mod Payload
pub mod Release
pub mod Server
pub mod Sessions
pub mod Sudo
pub mod Tests
pub mod Transfers

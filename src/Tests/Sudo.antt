-- ===== src/Tests/Sudo.antt =====
-- remote_ssh_mcp/sudo.py at concrete inputs.
use remote_ssh_mcp_server.Prelude.Int.{pos}
use remote_ssh_mcp_server.Prelude.Lists.{length, take}
use remote_ssh_mcp_server.Prelude.Text.{Text, codes, contains}
use remote_ssh_mcp_server.Prelude.{◌-◌, ◌≡◌, refl, false, none, List, [], ◌∷◌, ◌++◌, arith}
use remote_ssh_mcp_server.Commands.Capture.{CapturedStream, capture}
use remote_ssh_mcp_server.Commands.Capture.Bounded.{received}
use remote_ssh_mcp_server.Commands.Runner.{CommandResult}
use remote_ssh_mcp_server.Sudo.Marker.{remove_marker_from_file}
use remote_ssh_mcp_server.Sudo.Marker.Streaming.{without, remove_marker_from_file-received}
use remote_ssh_mcp_server.Sudo.Execute.{marker, Spooled, strip_marker}
use remote_ssh_mcp_server.Sudo.Execute.Started.{spooled_result, strip_marker-capture}

-- The marker is cut in two by the chunks.
abbrev chunks : List Text
chunks = codes "warn MA" ∷ codes "RK tail" ∷ []

remove_marker_from_file-received_example :
    remove_marker_from_file (codes "MARK") (received chunks) chunks
    ≡ without (codes "MARK") (received chunks)
remove_marker_from_file-received_example =
    remove_marker_from_file-received (codes "MARK") chunks (omega arith)

abbrev no_output : CapturedStream
no_output = record { raw = []; total_bytes = 0; truncated = false; spool_path = none }

abbrev exit_0 : CommandResult
exit_0 = record { exit_code = pos 0; stdout = no_output; stderr = no_output; timed_out = false }

abbrev token : Text
token = codes "ab"

abbrev stderr_reads : List Text
stderr_reads = (marker token ++ codes "note") ∷ []

strip_marker-capture_example :
    let s =
      strip_marker
        (marker token)
        (spooled_result exit_0 100 (codes "spool") stderr_reads)
        stderr_reads in
    (s.stderr_spool ≡ without (marker token) (received stderr_reads))
    × (s.result.stderr.raw ≡ take (100 - length (marker token)) s.stderr_spool)
    × (s.result.stderr.total_bytes ≡ length s.stderr_spool)
unfolding marker contains capture
strip_marker-capture_example =
    strip_marker-capture exit_0 100 token (codes "spool") stderr_reads stderr_reads refl refl

abbrev refused_run : Spooled
refused_run = record {
  result = record exit_0 {
    exit_code = pos 1;
    stderr = record no_output { raw = codes "sudo: a password is required" };
  };
  stderr_spool = [];
}

abbrev script : Text
script = codes "printf '%s\\n' __REMOTE_SSH_MCP_SUDO_STARTED_ab__" ++ (codes " >&2\n" ++ codes "id")

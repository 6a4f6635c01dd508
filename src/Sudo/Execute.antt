-- ===== src/Sudo/Execute.antt =====
-- `SudoRunner` of remote_ssh_mcp/sudo.py.
pub mod Started
use remote_ssh_mcp_server.Prelude.Int.{is_status}
use remote_ssh_mcp_server.Prelude.Text.{Text, codes, contains}
use remote_ssh_mcp_server.Prelude.Chars.{strip, lower}
use remote_ssh_mcp_server.Prelude.{
  Bool, true, false, ◌&&◌, ◌||◌, Option, none, some, List, [], ◌∷◌, ◌++◌, if◌then◌else◌,
}
use remote_ssh_mcp_server.Errors.{
  Code, remote, Result, ok, err, ◌>>=◌, sudo_start_timeout, sudo_unavailable,
  sudo_password_required, sudo_not_allowed, sudo_refused,
}
use remote_ssh_mcp_server.Commands.Capture.{remove_once}
use remote_ssh_mcp_server.Commands.Script.{newline, quote, cwd_prefix}
use remote_ssh_mcp_server.Commands.Runner.{CommandResult}
use remote_ssh_mcp_server.Sudo.Marker.{remove_marker_from_file}

-- `any(pattern in lowered for pattern in patterns)`
any_in : Text → List Text → Bool
any_in lowered [] = false
any_in lowered (p ∷ ps) = contains lowered p || any_in lowered ps

abbrev password_patterns : List Text
password_patterns =
    codes "a password is required"
    ∷ codes "no tty present and no askpass program specified"
    ∷ codes "a terminal is required to read the password"
    ∷ codes "must have a tty to run sudo"
    ∷ []

abbrev denied_patterns : List Text
denied_patterns =
    codes "not allowed to execute"
    ∷ codes "not in the sudoers"
    ∷ codes "may not run sudo"
    ∷ codes "is not allowed to run sudo"
    ∷ []

-- `_classify_refusal`. The locale of the program is C: the diagnostic is read as ASCII.
unfoldable pub classify_refusal : CommandResult → Code
unfolding any_in
classify_refusal result =
    let lowered = lower (strip result.stderr.raw) in
    if result.timed_out
    then sudo_start_timeout
    else if is_status 127 result.exit_code
        || (contains lowered (codes "sudo") && contains lowered (codes "not found"))
    then sudo_unavailable
    else if any_in lowered password_patterns
    then sudo_password_required
    else if any_in lowered denied_patterns
    then sudo_not_allowed
    else sudo_refused

-- The marker for a random token.
unfoldable pub marker_text : Text → Text
marker_text token = codes "__REMOTE_SSH_MCP_SUDO_STARTED_" ++ (token ++ codes "__")

unfoldable pub marker : Text → Text
unfolding marker_text
marker token = marker_text token ++ newline ∷ []

-- The script that `execute` runs under sudo.
unfoldable pub sudo_script : Text → Text → Option Text → Result Text
unfolding marker_text
sudo_script token command cwd = do
  prefix ← cwd_prefix cwd
  ok (
      codes "printf '%s\\n' "
      ++ (quote (marker_text token) ++ (codes " >&2\n" ++ (prefix ++ command))))

-- A result, and what the spool file of stderr holds.
pub record Spooled : Type 0 where
  pub result : CommandResult
  pub stderr_spool : Text

has_path : Option Text → Bool
has_path none = false
has_path (some path) = true

-- `_strip_marker`, given the reads of the spool file.
unfoldable pub strip_marker : Text → Spooled → List Text → Spooled
unfolding has_path
strip_marker m s reads = record {
  result = record s.result { stderr = remove_once s.result.stderr m };
  stderr_spool =
      if has_path s.result.stderr.spool_path
      then remove_marker_from_file m s.stderr_spool reads
      else s.stderr_spool;
}

-- `execute`, from what `run_script` gives for the script.
unfoldable pub execute :
    Text → Text → Option Text → (Text → Result Spooled) → List Text → Result Spooled
execute token command cwd run_script reads = do
  script ← sudo_script token command cwd
  s ← run_script script
  if contains s.result.stderr.raw (marker token)
      then ok (strip_marker (marker token) s reads)
      else err (remote (classify_refusal s.result))

-- ===== src/Commands/Encoded.antt =====
-- `CapturedStream.to_dict` and `CommandResult.to_dict` of remote_ssh_mcp/commands.py, and `_encoded_bytes`
-- of remote_ssh_mcp/inspection.py, which does the same to a range of a file.
pub mod Recovered
use remote_ssh_mcp_server.Prelude.Int.{ℤ}
use remote_ssh_mcp_server.Prelude.Lists.{length}
use remote_ssh_mcp_server.Prelude.Text.{Text, codes}
use remote_ssh_mcp_server.Prelude.Encoding.{utf8_decode, b64encode}
use remote_ssh_mcp_server.Prelude.{ℕ, Bool, Option, none, some, List, []}
use remote_ssh_mcp_server.Commands.Capture.{CapturedStream}
use remote_ssh_mcp_server.Commands.Runner.{CommandResult}

pub record EncodedData : Type 0 where
  pub data_text : Text
  pub encoding : Text

-- `_encoded_bytes`, and the first half of `to_dict`
unfoldable pub encoded_bytes : Text → EncodedData
unfolding utf8_decode b64encode
encoded_bytes raw = elim (utf8_decode raw) [
  | some text ↦ record { data_text = text; encoding = codes "utf-8" }
  | none ↦ record { data_text = b64encode raw; encoding = codes "base64" }
]

pub record CapturedStreamData : Type 0 where
  pub encoded : EncodedData
  pub captured_bytes : ℕ
  pub total_bytes : ℕ
  pub truncated : Bool
  pub spool_path : Option Text

-- `CapturedStream.to_dict`
unfoldable pub stream_dict : CapturedStream → CapturedStreamData
unfolding encoded_bytes
stream_dict s = record {
  encoded = encoded_bytes s.raw;
  captured_bytes = length s.raw;
  total_bytes = s.total_bytes;
  truncated = s.truncated;
  spool_path = s.spool_path;
}

pub record CommandData : Type 0 where
  pub exit_code : ℤ
  pub stdout : CapturedStreamData
  pub stderr : CapturedStreamData
  pub timed_out : Bool

-- `CommandResult.to_dict`
unfoldable pub result_dict : CommandResult → CommandData
unfolding stream_dict
result_dict r = record {
  exit_code = r.exit_code;
  stdout = stream_dict r.stdout;
  stderr = stream_dict r.stderr;
  timed_out = r.timed_out;
}

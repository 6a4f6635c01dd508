-- ===== src/Commands/Capture.antt =====
-- `CapturedStream` and `CommandRunner._capture` of remote_ssh_mcp/commands.py.
pub mod Bounded
use remote_ssh_mcp_server.Prelude.Lists.{length, take, drop, is_nil}
use remote_ssh_mcp_server.Prelude.Text.{Text, find?}
use remote_ssh_mcp_server.Prelude.{
  ℕ, ◌+◌, ◌-◌, Bool, true, false, Option, none, some, List, [], ◌∷◌, ◌++◌, ltb, if◌then◌else◌,
}

pub record CapturedStream : Type 0 where
  pub raw : Text
  pub total_bytes : ℕ
  pub truncated : Bool
  pub spool_path : Option Text

-- The locals of `_capture` and what has been written to the spool file.
pub record Capturing : Type 0 where
  pub captured : Text
  pub total : ℕ
  pub spooled : Text

-- One round of the loop: all of the chunk is counted and spooled, what has room is captured.
unfoldable pub capture_chunk : ℕ → Bool → Capturing → Text → Capturing
capture_chunk limit has_spool c chunk =
    let remaining = limit - length c.captured in
    record {
      captured = if ltb 0 remaining then c.captured ++ take remaining chunk else c.captured;
      total = c.total + length chunk;
      spooled = if has_spool then c.spooled ++ chunk else c.spooled;
    }

-- `while True: chunk = await reader.read(65_536); if not chunk: break`
unfoldable pub capture_loop : ℕ → Bool → Capturing → List Text → Capturing
unfolding capture_chunk
capture_loop limit has_spool c [] = c
capture_loop limit has_spool c (chunk ∷ reads) =
    let rest = capture_loop limit has_spool (capture_chunk limit has_spool c chunk) reads in
    if is_nil chunk then c else rest

abbrev pub has_path : Option Text → Bool
has_path none = false
has_path (some path) = true

abbrev pub start : Capturing
start = record { captured = []; total = 0; spooled = [] }

-- `_capture`: the stream, and the contents of the spool file. The argument for the spool is its
-- displayed path.
unfoldable pub capture : ℕ → Option Text → List Text → CapturedStream × Text
unfolding capture_loop
capture limit spool_path reads =
    let c = capture_loop limit (has_path spool_path) start reads in
    (
      record {
        raw = c.captured;
        total_bytes = c.total;
        truncated = ltb (length c.captured) c.total;
        spool_path = spool_path;
      },
      c.spooled,
    )

-- `raw[:index] + raw[index + len(value):]`
unfoldable pub cut : Text → ℕ → Text → Text
cut raw index value = take index raw ++ drop (index + length value) raw

-- `CapturedStream.remove_once`
unfoldable pub remove_once : CapturedStream → Text → CapturedStream
unfolding cut
remove_once s value = elim (find? s.raw value) [
  | none ↦ s
  | some index ↦ record s {
    raw = cut s.raw index value;
    total_bytes = s.total_bytes - length value;
  }
]

-- ===== src/Sudo/Marker.antt =====
-- `_remove_marker_from_file` of remote_ssh_mcp/sudo.py: a spool file is copied in chunks, with the
-- first occurrence of the marker left out.
pub mod Streaming
use remote_ssh_mcp_server.Prelude.Lists.{length, take, drop, is_nil}
use remote_ssh_mcp_server.Prelude.Text.{Text, find?}
use remote_ssh_mcp_server.Prelude.{
  ℕ, ◌+◌, ◌-◌, Bool, true, false, Option, none, some, List, [], ◌∷◌, ◌++◌, ltb, if◌then◌else◌,
}

-- What the temporary file holds, and the locals `pending` and `found`.
pub record Scan : Type 0 where
  pub destination : Text
  pub pending : Text
  pub found : Bool

-- `if not found:` after the chunk has been appended to `pending`.
unfoldable pub look_for : Text → Text → Text → Scan
look_for marker destination pending = elim (find? pending marker) [
  | some index ↦ record {
    destination = destination ++ take index pending;
    pending = drop (index + length marker) pending;
    found = true;
  }
  | none ↦
      if ltb (length marker) (length pending)
      then (let safe_length = length pending - length marker in
          record {
            destination = destination ++ take safe_length pending;
            pending = drop safe_length pending;
            found = false;
          })
      else record { destination = destination; pending = pending; found = false }
]

unfoldable pub scan_chunk : Text → Scan → Text → Scan
unfolding look_for
scan_chunk marker s chunk =
    let pending = s.pending ++ chunk in
    if s.found
    then record { destination = s.destination ++ pending; pending = []; found = true }
    else look_for marker s.destination pending

-- `while chunk := source.read(65_536)`
unfoldable pub scan_loop : Text → Scan → List Text → Scan
unfolding scan_chunk
scan_loop marker s [] = s
scan_loop marker s (chunk ∷ reads) =
    let rest = scan_loop marker (scan_chunk marker s chunk) reads in
    if is_nil chunk then s else rest

abbrev pub begin : Scan
begin = record { destination = []; pending = []; found = false }

-- What the path holds afterwards: the temporary file if the marker was found, or else the contents
-- it had.
unfoldable pub remove_marker_from_file : Text → Text → List Text → Text
unfolding scan_loop
remove_marker_from_file marker contents reads =
    let s = scan_loop marker begin reads in if s.found then s.destination ++ s.pending else contents

-- ===== src/Payload/Names.antt =====
-- `safe_archive_path` of tools/container_payload.py.
pub mod Safe
use remote_ssh_mcp_server.Prelude.Lists.{is_nil}
use remote_ssh_mcp_server.Prelude.Text.{Text, codes, text_eq, starts_with, has_char, mem_text}
use remote_ssh_mcp_server.Prelude.{
  Bool, true, false, not, ◌||◌, Option, none, some, List, [], ◌∷◌, if◌then◌else◌,
}
use remote_ssh_mcp_server.LocalPaths.{parts_of, join}

-- `any(part in {"", ".", ".."} for part in path.parts)`
unfoldable pub any_special : List Text → Bool
unfolding mem_text
any_special [] = false
any_special (p ∷ ps) = mem_text p ([] ∷ codes "." ∷ codes ".." ∷ []) || any_special ps

-- `safe_archive_path`, which gives the parts of the path. `as_posix` joins the parts, and is "." if
-- there are none.
unfoldable pub safe_archive_path : Text → Option (List Text)
unfolding join any_special parts_of has_char starts_with text_eq
safe_archive_path raw =
    let parts = parts_of raw in
    if is_nil raw
      || has_char 0 raw
      || starts_with raw (codes "/")
      || text_eq raw (codes ".")
      || not (text_eq raw (join parts))
      || any_special parts
    then none
    else some parts

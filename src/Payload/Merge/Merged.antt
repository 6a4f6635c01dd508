-- ===== src/Payload/Merge/Merged.antt =====
-- What a merge leaves.
use remote_ssh_mcp_server.Prelude.Lists.{All}
use remote_ssh_mcp_server.Prelude.Text.{Text}
use remote_ssh_mcp_server.Prelude.{ℕ, Bool, ◌≡◌, ◌⊎◌, true, false, some, List, []}
use remote_ssh_mcp_server.Payload.Extract.{Stored, TarInfo}
use remote_ssh_mcp_server.Payload.Extract.Sound.{IsUnpacked, last_first}
use remote_ssh_mcp_server.Payload.Merge.{Tree, at, safe_target}
use remote_ssh_mcp_server.Payload.Merge.Trees.{file_of, Changes}

-- A tree into which the files have been merged, or some of them: no target was a link, a directory or a
-- special file, and at each path there is what was there, a new directory, or one of the files.
pub record IsMerged (files : List Stored) (before after : Tree) : Type 0 where
  pub safe : All (λ s. safe_target (at s.path before) ≡ true) files
  pub changes : Changes files before after

-- How a merge ends.
abbrev pub IsMerge : (max_members max_bytes : ℕ) → List TarInfo → Tree → Bool × Tree → Type 0
IsMerge max_members max_bytes members before (done, after) =
    ((done ≡ false) × (after ≡ before))
    ⊎ ((files : List Stored) × IsUnpacked max_members max_bytes (last_first members []) files
        × IsMerged files before after
        × ((done ≡ false) ⊎ ((done ≡ true) × All (λ s. at s.path after ≡ some (file_of s)) files)))

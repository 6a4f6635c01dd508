-- ===== src/Transfers/Progress/Finds.antt =====
-- The search for the last figure comes to an end by itself.
use remote_ssh_mcp_server.Prelude.Text.{Text}
use remote_ssh_mcp_server.Prelude.{ℕ, ◌≡◌, Bool, false, Option, none, some, [], ◌∷◌}
use remote_ssh_mcp_server.Transfers.Progress.{match_here}

-- `PROGRESS_PATTERN.findall` from a place in the window on, with no bound on its rounds: the search
-- goes on one character later where nothing matches, and behind a match else.
pub data Finds : Bool → Text → Option ℕ → Option ℕ → Type 0 where
  ends : (at_start : Bool) (last : Option ℕ) → Finds at_start [] last last
  skips :
      (at_start : Bool) (c : ℕ) (t : Text) (last result : Option ℕ)
      → match_here at_start c t ≡ none
      → Finds false t last result
      → Finds at_start (c ∷ t) last result
  matches :
      (at_start : Bool) (c : ℕ) (t : Text) (last result : Option ℕ) (n : ℕ) (rest : Text)
      → match_here at_start c t ≡ some (n, rest)
      → Finds false rest (some n) result
      → Finds at_start (c ∷ t) last result

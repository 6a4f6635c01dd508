-- ===== src/Prelude/Int.antt =====
-- Exit statuses: a process that a signal ended has a negative one.
use Prim.Native.Nat.{ℕ}
use mathlib.Core.Bool.{Bool, false}
use remote_ssh_mcp_server.Prelude.Tests.{◌==◌}

-- `negsuc n` is -(n + 1).
pub data ℤ : Type 0 where
  pos : ℕ → ℤ
  negsuc : ℕ → ℤ

-- `status == n`
abbrev pub is_status : ℕ → ℤ → Bool
is_status n (pos m) = m == n
is_status n (negsuc m) = false

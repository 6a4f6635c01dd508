-- ===== src/Transfers/Manager/World.antt =====
-- All that can happen to a manager and to the set it shares, in any order: calls of its own, and
-- claims and releases by the other sessions of the process.
use remote_ssh_mcp_server.Prelude.Text.{Text}
use remote_ssh_mcp_server.Prelude.{ℕ, ◌≡◌, true, false, some, List, ◌∷◌}
use remote_ssh_mcp_server.Transfers.Operation.{
  TransferState, is_final, TransferOperation, claim, release,
}
use remote_ssh_mcp_server.Transfers.Manager.{
  Shared, prune, find_operation, register, change_state, shut, new_manager,
}
use remote_ssh_mcp_server.Transfers.Manager.Reserved.{count, Inv, IsNew}

-- The keys of `others` belong to operations of other sessions.
pub record World : Type 0 where
  pub shared : Shared
  pub others : List Text

pub data Step (w : World) : World → Type 0 where
  registers :
      (now : ℕ) (op : TransferOperation)
      → IsNew op w.shared.manager
      → Step w (record w { shared = (register now op w.shared).1 })
  changes :
      (now : ℕ) (id : Text) (state : TransferState) (op : TransferOperation)
      → find_operation id w.shared.manager.operations ≡ some op
      → is_final op.state ≡ false
      → Step w (record w { shared = change_state now id state w.shared })
  prunes :
      (now : ℕ)
      → Step w (record w { shared = record w.shared { manager = prune now w.shared.manager } })
  shuts : Step w (record w { shared = record w.shared { manager = shut w.shared.manager } })
  claims :
      (key : Text)
      → (claim key w.shared.claimed).0 ≡ true
      → Step w (record {
        shared = record w.shared { claimed = (claim key w.shared.claimed).1 };
        others = key ∷ w.others;
      })
  releases :
      (key : Text)
      → count key w.others ≡ 1
      → Step w (record {
        shared = record w.shared { claimed = release key w.shared.claimed };
        others = release key w.others;
      })

pub data Reach (v : World) : World → Type 0 where
  here : Reach v v
  next : {w x : World} → Reach v w → Step w x → Reach v x

abbrev pub IsExact : World → Type 0
IsExact w = Inv w.others w.shared

-- The manager that a session starts with, beside other sessions that hold each key once.
unfoldable pub new_world : ℕ → ℕ → List Text → World
new_world max_transfers ttl others = record {
  shared = record { manager = new_manager max_transfers ttl; claimed = others };
  others = others;
}

abbrev limit : World → ℕ
limit w = w.shared.manager.max_transfers

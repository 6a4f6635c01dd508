-- ===== src/Transfers/Remote/Rsyncs.antt =====
-- A run of rsync changes figures of its operation only.
use remote_ssh_mcp_server.Prelude.Text.{Text}
use remote_ssh_mcp_server.Prelude.Int.{ℤ}
use remote_ssh_mcp_server.Prelude.{ℕ, refl, Option, none, some}
use remote_ssh_mcp_server.Transfers.Operation.{Reservations}
use remote_ssh_mcp_server.Transfers.Task.Triples.{Triple, Triple-bind, Triple-lift_any}
use remote_ssh_mcp_server.Transfers.Task.Active.{Clean, Frame, Clean-modify}
use remote_ssh_mcp_server.Transfers.Remote.{Rsync, run_rsync, store_progress, store_exit}

store_progress-Frame : (n : Option ℕ) → Frame (store_progress n)
unfolding store_progress
store_progress-Frame none = record {
  state = λ op. refl;
  reserved = λ op. refl;
  resource_key = λ op. refl;
  sha256 = λ op. refl;
}
store_progress-Frame (some n) = record {
  state = λ op. refl;
  reserved = λ op. refl;
  resource_key = λ op. refl;
  sha256 = λ op. refl;
}

store_exit-Frame : (out errors : Text) (status : ℤ) → Frame (store_exit out errors status)
unfolding store_exit
store_exit-Frame out errors status = record {
  state = λ op. refl;
  reserved = λ op. refl;
  resource_key = λ op. refl;
  sha256 = λ op. refl;
}

pub Clean-run_rsync :
    (key : Text) (claimed : Reservations) (w : Rsync)
    → Triple (Clean key claimed) (run_rsync w) (λ _. Clean key claimed) (Clean key claimed)
unfolding run_rsync
Clean-run_rsync key claimed w = Triple-bind (Triple-lift_any w.ready) λ _.
    Triple-bind (Triple-lift_any w.spawned) λ _.
      Triple-bind (Clean-modify (store_progress _) (store_progress-Frame _)) λ _.
        Triple-bind (Triple-lift_any w.waited) λ status.
          Triple-bind (Clean-modify (store_exit _ _ status) (store_exit-Frame _ _ status))
            λ _. Triple-lift_any _

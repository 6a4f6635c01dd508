-- ===== src/Errors.antt =====
-- remote_ssh_mcp/errors.py and the exceptions that the modules raise. A `RemoteMCPError` is known
-- by its code; the message and the details that go with it are not modelled.
use remote_ssh_mcp_server.Prelude.{Bool, true, false, ◌⊎◌, inl, inr, ◌≡◌, refl}

-- The codes of `RemoteMCPError`.
pub data Code : Type 0 where
  invalid_local_path local_path_exists invalid_remote_path remote_path_not_found : Code
  invalid_remote_type remote_protocol_error output_limit_exceeded invalid_range : Code
  invalid_command invalid_configuration connection_lost connection_start_failed : Code
  sudo_start_timeout sudo_unavailable sudo_password_required sudo_not_allowed sudo_refused : Code
  transfer_manager_closed transfer_limit_reached transfer_conflict transfer_not_found : Code
  transfer_failed transfer_internal_error transfer_publish_failed invalid_transfer_partial : Code
  insufficient_local_space verification_failed remote_path_exists : Code
  remote_hash_unavailable remote_hash_failed : Code
  server_closing session_limit_reached already_connected session_closed session_not_found : Code
  invalid_connection : Code
  invalid_session_key session_closing session_not_ready : Code
  unknown_tool invalid_arguments internal_error : Code

-- What a call can raise: a `RemoteMCPError`, `asyncio.CancelledError`, or any other `Exception`.
pub data Raised : Type 0 where
  remote : Code → Raised
  cancelled_error other_error : Raised

pub data Result {ℓ} (A : Type ℓ) : Type ℓ where
  ok : A → Result A
  err : Raised → Result A

-- A call and the code behind it, which a raised exception leaves out.
infixl 5 ◌>>=◌
abbrev pub ◌>>=◌ {ℓ κ} : {T : Type ℓ} {U : Type κ} → Result T → (T → Result U) → Result U
err exception >>= rest = err exception
ok value >>= rest = rest value

-- The same for a call whose value is not used.
infixl 5 ◌>>◌
abbrev pub ◌>>◌ {κ} : {U : Type κ} → Result (Unit {0}) → Result U → Result U
call >> rest = call >>= λ _. rest

-- `if not test: raise RemoteMCPError(code)`
abbrev pub require : Bool → Code → Result (Unit {0})
require true c = ok tt
require false c = err (remote c)

pub Result-cases {ℓ} :
    {A : Type ℓ} (r : Result A) → ((a : A) × (r ≡ ok a)) ⊎ ((e : Raised) × (r ≡ err e))
Result-cases (ok a) = inl (a, refl)
Result-cases (err e) = inr (e, refl)

-- A chain that succeeds has succeeded at each step.
pub bind-ok {ℓ κ} :
    {T : Type ℓ} {U : Type κ} (call : Result T) (rest : T → Result U) (u : U)
    → (call >>= rest) ≡ ok u
    → (value : T) × (call ≡ ok value) × (rest value ≡ ok u)
bind-ok (err exception) rest u h = absurd (cc)
bind-ok (ok value) rest u h = (value, refl, h)

pub require-ok : (test : Bool) (c : Code) (u : Unit {0}) → require test c ≡ ok u → test ≡ true
require-ok true c u h = refl
require-ok false c u h = absurd (cc)

-- ===== src/Config/Owned.antt =====
-- What a configuration that is accepted says.
use remote_ssh_mcp_server.Prelude.Int.{ℤ, pos, negsuc}
use remote_ssh_mcp_server.Prelude.Text.{Text, codes}
use remote_ssh_mcp_server.Prelude.{
  ℕ, ◌≤◌, ◌≡◌, refl, ap, sym, ◌∙◌, true, Option, none, some, List, [], ◌∷◌, ◌++◌, arith,
}
use remote_ssh_mcp_server.Errors.{Result, ok, invalid_configuration, require, bind-ok, require-ok}
use remote_ssh_mcp_server.Prelude.Chars.{strip}
use remote_ssh_mcp_server.LocalPaths.{LocalPath, parent_of, name_of}
use remote_ssh_mcp_server.Config.{
  bounded, min_timeout, max_connect_timeout, max_command_timeout, min_output_bytes,
  max_output_bytes, max_transfers, max_sessions, Arguments, RuntimeConfig, Host, or_invalid,
  settings, from_namespace, same_version, runtime_root_markers,
}

bounded-ok :
    (value : ℤ) (minimum maximum n : ℕ)
    → bounded value minimum maximum ≡ ok n
    → (minimum ≤ n) × (n ≤ maximum)
unfolding bounded
bounded-ok (pos value) minimum maximum n h = (ground arith, ground arith)
bounded-ok (negsuc value) minimum maximum n h = absurd (cc)

-- The limits within which a configuration lies.
pub record IsBounded (c : RuntimeConfig) : Type 0 where
  pub connect : (min_timeout ≤ c.connect_timeout) × (c.connect_timeout ≤ max_connect_timeout)
  pub command : (min_timeout ≤ c.command_timeout) × (c.command_timeout ≤ max_command_timeout)
  pub output : (min_output_bytes ≤ c.max_output_bytes) × (c.max_output_bytes ≤ max_output_bytes)
  pub transfers : (1 ≤ c.max_transfers) × (c.max_transfers ≤ max_transfers)
  pub sessions : (1 ≤ c.max_sessions) × (c.max_sessions ≤ max_sessions)

settings-IsBounded :
    (host : Host) (args : Arguments) (root : LocalPath) (c : RuntimeConfig)
    → settings host args root ≡ ok c
    → IsBounded c × (c.repository_root ≡ root)
unfolding settings
settings-IsBounded host args root c h =
    let (connect, e1, h1) =
      bind-ok (bounded args.connect_timeout min_timeout max_connect_timeout) _ c h in
    let (command, e2, h2) =
      bind-ok (bounded args.command_timeout min_timeout max_command_timeout) _ c h1 in
    let (output, e3, h3) =
      bind-ok (bounded args.max_output_bytes min_output_bytes max_output_bytes) _ c h2 in
    let (transfers, e4, h4) = bind-ok (bounded args.max_transfers 1 max_transfers) _ c h3 in
    let (sessions, e5, h5) = bind-ok (bounded args.max_sessions 1 max_sessions) _ c h4 in
    let (ssh, e6, h6) = bind-ok (host.resolve_program (codes "ssh")) _ c h5 in
    let (rsync, e7, h7) = bind-ok (host.resolve_program (codes "rsync")) _ c h6 in
    let (false_program, e8, h8) = bind-ok (host.resolve_program (codes "false")) _ c h7 in
    let same = ok_inj h8 in
    rw (← same) (
      record {
        connect = bounded-ok args.connect_timeout min_timeout max_connect_timeout connect e1;
        command = bounded-ok args.command_timeout min_timeout max_command_timeout command e2;
        output = bounded-ok args.max_output_bytes min_output_bytes max_output_bytes output e3;
        transfers = bounded-ok args.max_transfers 1 max_transfers transfers e4;
        sessions = bounded-ok args.max_sessions 1 max_sessions sessions e5;
      },
      refl,
    )
  where
    ok_inj : {a b : RuntimeConfig} → ok a ≡ ok b → a ≡ b
    ok_inj e = ground arith

or_invalid-ok : (o : Option LocalPath) (p : LocalPath) → or_invalid o ≡ ok p → o ≡ some p
unfolding or_invalid
or_invalid-ok none p e = absurd (cc)
or_invalid-ok (some q) p e = ground arith

-- A configuration that is accepted lies within every limit, and its root is a directory that has been
-- resolved.
pub from_namespace-IsBounded :
    (host : Host) (args : Arguments) (root_input : Result LocalPath) (c : RuntimeConfig)
    → from_namespace host args root_input ≡ ok c
    → IsBounded c
      × (host.is_dir c.repository_root ≡ true)
      × ((path : LocalPath) × (root_input ≡ ok path) × (host.resolve path ≡ some c.repository_root))
unfolding from_namespace
from_namespace-IsBounded host args root_input c h =
    let (path, e1, h1) = bind-ok root_input _ c h in
    let (root, e2, h2) = bind-ok (or_invalid (host.resolve path)) _ c h1 in
    let (u, e3, h3) = bind-ok (require (host.is_dir root) invalid_configuration) _ c h2 in
    let (limits, same) = settings-IsBounded host args root c h3 in
    (
      limits,
      ap host.is_dir same ∙ require-ok (host.is_dir root) invalid_configuration u e3,
      (path, e1, or_invalid-ok (host.resolve path) root e2 ∙ ap some (sym same)),
    )

-- The markers that are looked for are regular files in the root.
abbrev pub HasMarkers : Host → LocalPath → List Text → Type 0
HasMarkers host root [] = Unit
HasMarkers host root (name ∷ names) =
    (host.is_regular (root ++ (name ∷ [])) ≡ true) × HasMarkers host root names

-- The root owns the environment at `prefix`.
pub record IsOwner (host : Host) (version : Text) (environment_key : Result Text)
    (prefix root : LocalPath) : Type 0 where
  pub found : root ≡ parent_of (parent_of (parent_of prefix))
  pub venvs : name_of (parent_of (parent_of prefix)) ≡ codes ".venvs"
  pub namespace : environment_key ≡ ok (name_of (parent_of prefix))
  pub marked : HasMarkers host root runtime_root_markers
  pub same_version : (t : Text) × (host.version root ≡ some t) × (strip t ≡ version)

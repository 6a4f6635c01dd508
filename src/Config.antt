-- ===== src/Config.antt =====
-- remote_ssh_mcp/config.py and remote_ssh_mcp/machine.py: the settings and their bounds, the project
-- that owns the environment, and the namespace of a machine and user. Times are in milliseconds.
pub mod Machine
pub mod Owned
use remote_ssh_mcp_server.Prelude.Int.{ℤ, pos, negsuc}
use remote_ssh_mcp_server.Prelude.Text.{Text, codes, text_eq}
use remote_ssh_mcp_server.Prelude.Chars.{strip}
use remote_ssh_mcp_server.Prelude.{
  ℕ, Bool, true, false, not, ◌&&◌, Option, none, some, List, [], ◌∷◌, ◌++◌, leb, if◌then◌else◌,
}
use remote_ssh_mcp_server.Errors.{
  Raised, remote, Result, ok, err, ◌>>=◌, ◌>>◌, require, invalid_configuration,
}
use remote_ssh_mcp_server.LocalPaths.{LocalPath, parent_of, name_of}

-- `_bounded_float` and `_bounded_int`
unfoldable pub bounded : ℤ → ℕ → ℕ → Result ℕ
bounded (pos value) minimum maximum =
    if leb minimum value && leb value maximum then ok value else err (remote invalid_configuration)
bounded (negsuc value) minimum maximum = err (remote invalid_configuration)

abbrev pub min_timeout : ℕ
min_timeout = 100

abbrev pub max_connect_timeout : ℕ
max_connect_timeout = 900_000

abbrev pub max_command_timeout : ℕ
max_command_timeout = 86_400_000

abbrev pub min_output_bytes : ℕ
min_output_bytes = 1_024

abbrev pub max_output_bytes : ℕ
max_output_bytes = 67_108_864

abbrev pub max_transfers : ℕ
max_transfers = 16

abbrev pub max_sessions : ℕ
max_sessions = 32

-- The arguments of the command line.
pub record Arguments : Type 0 where
  pub connect_timeout : ℤ
  pub command_timeout : ℤ
  pub max_output_bytes : ℤ
  pub max_transfers : ℤ
  pub max_sessions : ℤ
  pub log_level : Text

pub record RuntimeConfig : Type 0 where
  pub repository_root : LocalPath
  pub connect_timeout : ℕ
  pub command_timeout : ℕ
  pub max_output_bytes : ℕ
  pub max_transfers : ℕ
  pub max_sessions : ℕ
  pub log_level : Text
  pub ssh_path : LocalPath
  pub rsync_path : LocalPath
  pub false_path : LocalPath

-- What the file system and ssh_wrapper's `resolve_program` give: `resolve` is none for an error, and
-- `version` what `.version` holds, if it can be read.
pub record Host : Type 0 where
  pub resolve : LocalPath → Option LocalPath
  pub is_dir : LocalPath → Bool
  pub is_regular : LocalPath → Bool
  pub version : LocalPath → Option Text
  pub resolve_program : Text → Result LocalPath

or_invalid : Option LocalPath → Result LocalPath
or_invalid none = err (remote invalid_configuration)
or_invalid (some path) = ok path

-- The end of `from_namespace`, in the order in which Python evaluates the arguments.
settings : Host → Arguments → LocalPath → Result RuntimeConfig
unfolding bounded
settings host args root = do
  connect ← bounded args.connect_timeout min_timeout max_connect_timeout
  command ← bounded args.command_timeout min_timeout max_command_timeout
  output ← bounded args.max_output_bytes min_output_bytes max_output_bytes
  transfers ← bounded args.max_transfers 1 max_transfers
  sessions ← bounded args.max_sessions 1 max_sessions
  ssh ← host.resolve_program (codes "ssh")
  rsync ← host.resolve_program (codes "rsync")
  false_program ← host.resolve_program (codes "false")
  ok (record {
    repository_root = root;
    connect_timeout = connect;
    command_timeout = command;
    max_output_bytes = output;
    max_transfers = transfers;
    max_sessions = sessions;
    log_level = args.log_level;
    ssh_path = ssh;
    rsync_path = rsync;
    false_path = false_program;
  })

-- `from_namespace`, given the root that it is called with or has found.
unfoldable pub from_namespace : Host → Arguments → Result LocalPath → Result RuntimeConfig
unfolding or_invalid settings
from_namespace host args root_input = do
  path ← root_input
  root ← or_invalid (host.resolve path)
  require (host.is_dir root) invalid_configuration
  settings host args root

-- `for name in _RUNTIME_ROOT_MARKERS: …`
markers : Host → LocalPath → List Text → Result (Unit {0})
markers host root [] = ok tt
markers host root (name ∷ names) =
    require (host.is_regular (root ++ (name ∷ []))) invalid_configuration >> markers host root names

abbrev pub runtime_root_markers : List Text
runtime_root_markers = codes ".version" ∷ codes "requirements.txt" ∷ codes "remote-ssh-mcp" ∷ []

-- `project_version != __version__`, with an error where it cannot be read
same_version : Option Text → Text → Bool
unfolding strip text_eq
same_version none version = false
same_version (some text) version = text_eq (strip text) version

-- `prefix == base_prefix`
unfoldable pub same_path : LocalPath → LocalPath → Bool
unfolding text_eq
same_path [] [] = true
same_path [] (q ∷ qs) = false
same_path (p ∷ ps) [] = false
same_path (p ∷ ps) (q ∷ qs) = let rest = same_path ps qs in text_eq p q && rest

-- `runtime_repository_root`, given `sys.prefix`, `sys.base_prefix` and what `environment_key` gives.
unfoldable pub runtime_repository_root :
    Host → Text → LocalPath → LocalPath → Result Text → Result LocalPath
unfolding or_invalid parent_of name_of text_eq same_path markers same_version
runtime_repository_root host version sys_prefix sys_base_prefix environment_key = do
  prefix ← or_invalid (host.resolve sys_prefix)
  base_prefix ← or_invalid (host.resolve sys_base_prefix)
  require (not (same_path prefix base_prefix)) invalid_configuration
  let namespace = parent_of prefix
  require (text_eq (name_of (parent_of namespace)) (codes ".venvs")) invalid_configuration
  key ← environment_key
  require (text_eq (name_of namespace) key) invalid_configuration
  let root = parent_of (parent_of namespace)
  markers host root runtime_root_markers
  require (same_version (host.version root) version) invalid_configuration
  ok root

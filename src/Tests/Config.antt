-- ===== src/Tests/Config.antt =====
-- remote_ssh_mcp/config.py and remote_ssh_mcp/machine.py at concrete inputs.
use remote_ssh_mcp_server.Prelude.Int.{pos}
use remote_ssh_mcp_server.Prelude.Lists.{take, all}
use remote_ssh_mcp_server.Prelude.Text.{Text, codes, text_eq}
use remote_ssh_mcp_server.Prelude.{ℕ, ◌≡◌, refl, true, some, [], ◌∷◌, ◌++◌}
use remote_ssh_mcp_server.Errors.{ok}
use remote_ssh_mcp_server.LocalPaths.{LocalPath}
use remote_ssh_mcp_server.Config.{Arguments, RuntimeConfig, Host}
use remote_ssh_mcp_server.Config.Machine.{valid_id, hmac_input, environment_key}
use remote_ssh_mcp_server.Config.Machine.Distinct.{environment_key-distinct}

abbrev project : LocalPath
project = codes "project" ∷ []

abbrev host : Host
host = record {
  resolve = some;
  is_dir = λ p. true;
  is_regular = λ p. true;
  version = λ p. some (codes "1.2.3\n");
  resolve_program = λ name. ok (codes "bin" ∷ name ∷ []);
}

abbrev arguments : Arguments
arguments = record {
  connect_timeout = pos 30_000;
  command_timeout = pos 600_000;
  max_output_bytes = pos 65_536;
  max_transfers = pos 4;
  max_sessions = pos 8;
  log_level = codes "INFO";
}

abbrev config : RuntimeConfig
config = record {
  repository_root = project;
  connect_timeout = 30_000;
  command_timeout = 600_000;
  max_output_bytes = 65_536;
  max_transfers = 4;
  max_sessions = 8;
  log_level = codes "INFO";
  ssh_path = codes "bin" ∷ codes "ssh" ∷ [];
  rsync_path = codes "bin" ∷ codes "rsync" ∷ [];
  false_path = codes "bin" ∷ codes "false" ∷ [];
}

abbrev environment : LocalPath
environment = project ++ (codes ".venvs" ∷ codes "0a" ∷ codes "venv-runtime" ∷ [])

abbrev machine_id : Text
machine_id = codes "00112233445566778899aabbccddeeff"

abbrev uid : ℕ
uid = 1000

environment_key-distinct_example :
    (take 32 machine_id ≡ take 32 (machine_id ++ codes "\n")) × (uid ≡ uid)
unfolding environment_key valid_id hmac_input all text_eq
environment_key-distinct_example =
    environment_key-distinct (λ t. t) machine_id (machine_id ++ codes "\n") uid uid
      (hmac_input machine_id uid) (λ s t e. e) refl refl

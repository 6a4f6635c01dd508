-- ===== src/Tests/Release.antt =====
-- .github/scripts/version.py at concrete inputs.
use remote_ssh_mcp_server.Prelude.Text.{codes}
use remote_ssh_mcp_server.Prelude.{◌≡◌, refl, true, false, some, none}
use remote_ssh_mcp_server.Release.{Version}
use remote_ssh_mcp_server.Release.Mirrors.{VersionFiles, sync_mirrors}
use remote_ssh_mcp_server.Release.Mirrors.Synced.{IsSynced, sync_mirrors-IsSynced}

abbrev version : Version
version = record { major = 1; minor = 20; patch = 0 }

-- A project of an older version; the mirror of pyproject.toml is written over two lines.
abbrev files : VersionFiles
files = record {
  version = some (codes "1.20.0\n");
  pyproject = some (codes "[project]\nversion =\n \"1.19.4\"\nversion = 1\n");
  module_text = some (codes "__all__ = []\n__version__ = \"1.19.4\"");
}

abbrev synced : VersionFiles
synced = record {
  version = some (codes "1.20.0\n");
  pyproject = some (codes "[project]\nversion =\n \"1.20.0\"\nversion = 1\n");
  module_text = some (codes "__all__ = []\n__version__ = \"1.20.0\"");
}

sync_mirrors-IsSynced_example : IsSynced version files synced × (false ≡ true → synced ≡ files)
unfolding sync_mirrors
sync_mirrors-IsSynced_example = sync_mirrors-IsSynced false files synced version refl

check_outdated : sync_mirrors true files ≡ (none, files)
unfolding sync_mirrors
check_outdated = refl

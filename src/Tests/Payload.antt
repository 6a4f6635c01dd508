-- ===== src/Tests/Payload.antt =====
-- tools/container_payload.py at concrete inputs.
use remote_ssh_mcp_server.Prelude.Int.{pos}
use remote_ssh_mcp_server.Prelude.Text.{Text, codes}
use remote_ssh_mcp_server.Prelude.{true, false, none, some, List, [], ◌∷◌, ◌++◌}
use remote_ssh_mcp_server.Payload.Extract.{TarInfo, Archive, Place, extract_archive}
use remote_ssh_mcp_server.Payload.Extract.Sound.{Ends, extract_archive-IsExtracted}
use remote_ssh_mcp_server.Payload.Create.{Details, PayloadEntry}
use remote_ssh_mcp_server.Payload.Merge.{Disk, Tree, directory, regular}
use remote_ssh_mcp_server.Payload.Choice.{CreateArguments, Chosen}

abbrev file : Text → Text → TarInfo
file name bytes = record {
  name = name;
  is_reg = true;
  is_sparse = false;
  pax_headers = false;
  size = pos 2;
  uid = 0;
  gid = 0;
  uname = [];
  gname = [];
  mtime = 0;
  mode = 384;
  content = some (bytes ∷ []);
  broken = false;
}

abbrev archive : Archive
archive = record {
  members = file (codes "bin/run") (codes "ab") ∷ file (codes "notes") (codes "cd") ∷ [];
  invalid = false;
  trailing = some (0 ∷ 0 ∷ []);
}

abbrev place : Place
place = record { destination = none; partial = none; parent = true; replaced = true }

extract_archive-IsExtracted_example :
    Ends (λ t. t) 10 100 archive place (extract_archive (λ t. t) 10 100 false archive place)
extract_archive-IsExtracted_example =
    extract_archive-IsExtracted (λ t. t) 10 100 false archive place

abbrev details : Details
details = record {
  is_reg = true;
  dev = 1;
  ino = 7;
  mode = 420;
  nlink = 1;
  size = 2;
  mtime_ns = 5;
  ctime_ns = 6;
}

abbrev entry : Text → Text → PayloadEntry
entry name bytes = record {
  source = record {
    frozen = some details;
    opened = some details;
    afterwards = some details;
    bytes = bytes;
  };
  archive_path = name;
}

abbrev entries : List PayloadEntry
entries = entry (codes "notes") (codes "cd") ∷ entry (codes "bin/run") (codes "ab") ∷ []

abbrev disk : Disk
disk = record { mkdir = λ path. true; replace = λ path. true }

-- The file is replaced, and the directory is made.
abbrev tree : Tree
tree = (codes "notes" ∷ [], regular 384 (codes "old")) ∷ (codes "docs" ∷ [], directory) ∷ []

abbrev arguments : CreateArguments
arguments = record {
  root = none;
  map_root = codes "src=/work/repo" ∷ codes "out=/work/build" ∷ [];
  paths = [];
  null_files_from_stdin = false;
  null_mapped_files_from_stdin = true;
}

abbrev listed : Text
listed = codes "src/a.py" ++ (0 ∷ codes "out/b" ++ (0 ∷ []))

abbrev chosen : List Chosen
chosen =
    record { source = codes "/work/repo" ∷ codes "a.py" ∷ []; archive_path = codes "src/a.py" }
    ∷ record { source = codes "/work/build" ∷ codes "b" ∷ []; archive_path = codes "out/b" }
    ∷ []

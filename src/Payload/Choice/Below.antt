-- ===== src/Payload/Choice/Below.antt =====
-- Where the files lie that are chosen for an archive.
use remote_ssh_mcp_server.Prelude.Lists.{All}
use remote_ssh_mcp_server.Prelude.Text.{Text}
use remote_ssh_mcp_server.Prelude.{Bool, ◌≡◌, ◌⊎◌, Option, some, List, ◌∷◌, ◌++◌}
use remote_ssh_mcp_server.LocalPaths.Relative.{IsPlain}
use remote_ssh_mcp_server.Payload.Names.Safe.{IsSafe}
use remote_ssh_mcp_server.Payload.Choice.{Chosen, CreateArguments}
use remote_ssh_mcp_server.Payload.Choice.Roots.{IsGiven}

module _ (fsdecode : Text → Option Text) (absolute : Text → List Text)
    (is_real : List Text → Bool) where
  -- A file that lies below a root that was given, at the path that its name in the archive spells: below
  -- `--root`, or below the root that its first part is mapped to.
  pub record IsBelow (args : CreateArguments) (c : Chosen) : Type 0 where
    pub root : Text
    pub relative : List Text
    pub named : List Text
    pub source : c.source ≡ absolute root ++ relative
    pub safe : IsSafe c.archive_path named
    pub plain : All IsPlain relative
    pub origin :
        ((args.root ≡ some root) × (named ≡ relative))
        ⊎ ((prefix : Text) × (named ≡ prefix ∷ relative) × IsGiven prefix root args.map_root)

  -- A directory that a prefix is mapped to.
  abbrev IsRoot : CreateArguments → Text → List Text → Type 0
  IsRoot args prefix path =
      (raw_root : Text) × (path ≡ absolute raw_root) × IsGiven prefix raw_root args.map_root

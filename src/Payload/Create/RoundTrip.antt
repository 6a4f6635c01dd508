-- ===== src/Payload/Create/RoundTrip.antt =====
-- `write_archive` followed by `extract_archive`.
use remote_ssh_mcp_server.Prelude.Lists.{length, all, All}
use remote_ssh_mcp_server.Prelude.Text.{Text}
use remote_ssh_mcp_server.Prelude.{◌≡◌, true, false, ◌==◌, none, some, List}
use remote_ssh_mcp_server.Payload.Extract.{TarInfo, Stored, Archive, Place}
use remote_ssh_mcp_server.Payload.Create.{PayloadEntry}
use remote_ssh_mcp_server.Payload.Create.Frozen.{Holds}
use remote_ssh_mcp_server.Payload.Create.ReadBack.{AreReadBack}
use remote_ssh_mcp_server.Payload.Create.Restored.{pairs_of}

-- What `tarfile` makes of an archive that it has written: its members, and zeros behind them.
pub record IsReadFrom (written : List TarInfo) (archive : Archive) : Type 0 where
  pub members : AreReadBack written archive.members
  pub valid : archive.invalid ≡ false
  pub trailing : Text
  pub found : archive.trailing ≡ some trailing
  pub zeros : all (λ c. c == 0) trailing ≡ true

-- Nothing stands where the tree is put, and it can be put there.
pub record IsFree (place : Place) : Type 0 where
  pub destination : place.destination ≡ none
  pub partial : place.partial ≡ none
  pub parent : place.parent ≡ true
  pub replaced : place.replaced ≡ true

-- The tree that holds the entries and nothing else.
pub record IsTreeOf (es : List PayloadEntry) (tree : List Stored) : Type 0 where
  pub holds : All (Holds (pairs_of tree)) es
  pub number : length tree ≡ length es

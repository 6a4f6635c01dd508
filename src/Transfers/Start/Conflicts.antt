-- ===== src/Transfers/Start/Conflicts.antt =====
-- Which transfers exclude each other.
use remote_ssh_mcp_server.Prelude.Text.{Text, codes, has_char}
use remote_ssh_mcp_server.Prelude.{
  ◌≡◌, refl, ap, sym, ◌∙◌, Bool, true, false, [], ◌∷◌, ◌++◌, ◌↔◌, ◌≢◌, arith,
}
use remote_ssh_mcp_server.Errors.{Result, ok, err, bind-ok}
use remote_ssh_mcp_server.LocalPaths.{resolve_existing, resolve_destination, internal_path, display}
use remote_ssh_mcp_server.Transfers.Operation.{TransferOperation}
use remote_ssh_mcp_server.Transfers.Remote.{check_remote_path, check_remote_destination}
use remote_ssh_mcp_server.Transfers.Start.{
  Start, download_key, upload_key, new_operation, prepare_download, prepare_upload,
}

split_nul :
    (a b c d : Text)
    → has_char 0 a ≡ false
    → has_char 0 b ≡ false
    → a ++ (0 ∷ c) ≡ b ++ (0 ∷ d)
    → (a ≡ b) × (c ≡ d)
unfolding has_char
split_nul [] [] c d ha hb e = (refl, ground arith)
split_nul [] (y ∷ b) c d ha hb e = absurd (ground arith)
split_nul (x ∷ a) [] c d ha hb e = absurd (ground arith)
split_nul (x ∷ a) (y ∷ b) c d ha hb e =
    let (f, g) = split_nul a b c d (ground arith) (ground arith) (ground arith) in
    (ground (arith, f), g)

-- The key of an upload, from the operation.
prepare_upload-key :
    (c : Start) (local remote : Text) (overwrite : Bool) (op : TransferOperation)
    → prepare_upload c local remote overwrite ≡ ok op
    → op.resource_key ≡ upload_key c.cache_key op.remote_path
unfolding prepare_upload new_operation
prepare_upload-key c local remote overwrite op h =
    let (source, e1, h1) = bind-ok (resolve_existing c.fs c.repository true local) _ op h in
    let (path, e2, h2) = bind-ok (check_remote_destination remote) _ op h1 in
    let (shown, e3, h3) = bind-ok (display c.fs c.repository source) _ op h2 in
    let (u, e4, h4) = bind-ok c.ready _ op h3 in
    let key = ap (λ (r : Result TransferOperation). key_of r) h4 in
    let path' = ap (λ (r : Result TransferOperation). path_of r) h4 in
    sym key ∙ ap (upload_key c.cache_key) path'
  where
    key_of : Result TransferOperation → Text
    key_of (ok o) = o.resource_key
    key_of (err e) = []

    path_of : Result TransferOperation → Text
    path_of (ok o) = o.remote_path
    path_of (err e) = []

prepare_download-key :
    (c : Start) (remote local : Text) (overwrite : Bool) (op : TransferOperation)
    → prepare_download c remote local overwrite ≡ ok op
    → op.resource_key ≡ download_key op.local_path
unfolding prepare_download new_operation
prepare_download-key c remote local overwrite op h =
    let (path, e1, h1) = bind-ok (check_remote_path remote) _ op h in
    let (destination, e2, h2) =
      bind-ok (resolve_destination c.fs c.repository overwrite local) _ op h1 in
    let (shown, e3, h3) = bind-ok (display c.fs c.repository destination) _ op h2 in
    let (u, e4, h4) = bind-ok c.ready _ op h3 in
    let (partial, e5, h5) =
      bind-ok (internal_path c.repository (codes "partials") _ (codes ".download")) _ op h4 in
    let key = ap (λ (r : Result TransferOperation). key_of r) h5 in
    let path' = ap (λ (r : Result TransferOperation). path_of r) h5 in
    sym key ∙ ap download_key path'
  where
    key_of : Result TransferOperation → Text
    key_of (ok o) = o.resource_key
    key_of (err e) = []

    path_of : Result TransferOperation → Text
    path_of (ok o) = o.local_path
    path_of (err e) = []

-- Two uploads, be it of different sessions, have the same resource key exactly when they go to the
-- same remote path of the same connection; the `cache_key` of a connection holds no NUL.
pub prepare_upload-conflicts :
    (c d : Start) (local1 remote1 local2 remote2 : Text) (overwrite1 overwrite2 : Bool)
    (op1 op2 : TransferOperation)
    → has_char 0 c.cache_key ≡ false
    → has_char 0 d.cache_key ≡ false
    → prepare_upload c local1 remote1 overwrite1 ≡ ok op1
    → prepare_upload d local2 remote2 overwrite2 ≡ ok op2
    → (op1.resource_key ≡ op2.resource_key)
      ↔ ((c.cache_key ≡ d.cache_key) × (op1.remote_path ≡ op2.remote_path))
unfolding upload_key
prepare_upload-conflicts c d local1 remote1 local2 remote2 overwrite1 overwrite2 op1 op2 hc hd h1
      h2 =
    let key1 = prepare_upload-key c local1 remote1 overwrite1 op1 h1 in
    let key2 = prepare_upload-key d local2 remote2 overwrite2 op2 h2 in
    (
      λ same.
          split_nul c.cache_key d.cache_key op1.remote_path op2.remote_path hc hd
            (ground (arith, sym key1 ∙ same ∙ key2)),
      λ same. key1 ∙ rw (same.0, same.1) refl ∙ sym key2,
    )

-- Two downloads have the same resource key exactly when they go to the same local path, and a
-- download never has the key of an upload.
pub prepare_download-conflicts :
    (c d e : Start) (remote1 local1 remote2 local2 remote3 local3 : Text)
    (overwrite1 overwrite2 overwrite3 : Bool) (op1 op2 up : TransferOperation)
    → prepare_download c remote1 local1 overwrite1 ≡ ok op1
    → prepare_download d remote2 local2 overwrite2 ≡ ok op2
    → prepare_upload e local3 remote3 overwrite3 ≡ ok up
    → ((op1.resource_key ≡ op2.resource_key) ↔ (op1.local_path ≡ op2.local_path))
      × (op1.resource_key ≢ up.resource_key)
unfolding download_key upload_key
prepare_download-conflicts c d e remote1 local1 remote2 local2 remote3 local3 overwrite1 overwrite2
      overwrite3 op1 op2 up h1 h2 h3 =
    let key1 = prepare_download-key c remote1 local1 overwrite1 op1 h1 in
    let key2 = prepare_download-key d remote2 local2 overwrite2 op2 h2 in
    (
      (
        λ same. ground (arith, sym key1 ∙ same ∙ key2),
        λ same. key1 ∙ ap download_key same ∙ sym key2,
      ),
      λ same.
          let key3 = prepare_upload-key e local3 remote3 overwrite3 up h3 in
          absurd (ground (arith, sym key1 ∙ same ∙ key3)),
    )

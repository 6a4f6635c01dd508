-- ===== src/Payload/Merge/Order.antt =====
-- Sorting the files keeps them.
use remote_ssh_mcp_server.Prelude.{inl, inr, List, [], ◌∷◌, if-cases}
use remote_ssh_mcp_server.Payload.Extract.{Stored}
use remote_ssh_mcp_server.Payload.Merge.{path_lt, insert_path, sort_paths}
use remote_ssh_mcp_server.Payload.Merge.Trees.{Among}

second_first : (t s u : Stored) (us : List Stored) → Among t (u ∷ s ∷ us) → Among t (s ∷ u ∷ us)
second_first t s u us (inl first) = inr (inl first)
second_first t s u us (inr (inl here)) = inl here
second_first t s u us (inr (inr later)) = inr (inr later)

below :
    (t u : Stored) (us vs : List Stored)
    → (Among t us → Among t vs)
    → Among t (u ∷ us)
    → Among t (u ∷ vs)
below t u us vs f (inl here) = inl here
below t u us vs f (inr later) = inr (f later)

Among-insert_path :
    (t s : Stored) (ss : List Stored) → Among t (insert_path s ss) → Among t (s ∷ ss)
unfolding insert_path
Among-insert_path t s [] = λ h. h
Among-insert_path t s (u ∷ us) =
    if-cases (λ l. Among t l → Among t (s ∷ u ∷ us)) (path_lt u.path s.path)
      (λ _ h.
        second_first t s u us (below t u (insert_path s us) (s ∷ us) (Among-insert_path t s us) h))
      (λ _ h. h)

insert_path-Among :
    (t s : Stored) (ss : List Stored) → Among t (s ∷ ss) → Among t (insert_path s ss)
unfolding insert_path
insert_path-Among t s [] = λ h. h
insert_path-Among t s (u ∷ us) =
    if-cases (λ l. Among t (s ∷ u ∷ us) → Among t l) (path_lt u.path s.path)
      (λ _ h.
        below t u (s ∷ us) (insert_path s us) (insert_path-Among t s us) (second_first t u s us h))
      (λ _ h. h)

pub Among-sort_paths : (t : Stored) (ss : List Stored) → Among t (sort_paths ss) → Among t ss
unfolding sort_paths
Among-sort_paths t [] h = h
Among-sort_paths t (s ∷ ss) h =
    below t s (sort_paths ss) ss (Among-sort_paths t ss) (Among-insert_path t s (sort_paths ss) h)

pub sort_paths-Among : (t : Stored) (ss : List Stored) → Among t ss → Among t (sort_paths ss)
unfolding sort_paths
sort_paths-Among t [] h = h
sort_paths-Among t (s ∷ ss) h =
    insert_path-Among t s (sort_paths ss) (below t s ss (sort_paths ss) (sort_paths-Among t ss) h)

-- ===== src/UbPsi/FromSource.antt =====
-- The unbalanced protocol of psi/algorithm/ecdh/ub_psi/server.cc and client.cc from the server's
-- provider on, a SimpleShuffledBatchProvider of psi/utils/batch_provider_impl.cc.
use mathlib.Core.List.{Permᴰ}
use psi.Prelude.{
  ℕ, suc, ◌+◌, ◌^◌, ◌≡◌, ◌<◌, ◌≤◌, sym, ◌∙◌, ap, subst, true, Option, List, [], ◌∷◌, ◌++◌, map,
  length, length-map, length-append, ◌>>=◌, Returns, if◌then◌else◌, arith,
}
use psi.Prelude.Bytes.{Bytes, concat}
use psi.Prelude.Count.{length-perm, All, All-append, All-imp, All-perm}
use psi.BatchProvider.{iota}
use psi.BatchProvider.Shuffled.{Source, new_shuffled, read_out_shuffled}
use psi.Ecdh.{Provider}
use psi.UbPsi.{OprfServer, OprfClient}
use psi.UbPsi.Cache.{Folder}
use psi.UbPsi.Round.{IsOprf, AreClients, IsFull, all_items}
use psi.UbPsi.Caching.{Accepted}
use psi.UbPsi.Common.{IsInjective}
use psi.UbPsi.Counting.{extra_copies_of, AreMaps}
use psi.UbPsi.Indices.{iota-Within}
use psi.UbPsi.Shuffling.{All-get_or}
use psi.UbPsi.ShuffledExchange.{length-iota}
use psi.UbPsi.Whole.{Fits32, common_of_client, common_of_server}
use psi.UbPsi.Provided.{IsSource, rows_from}
use psi.UbPsi.Buffer.{row_of}
use psi.UbPsi.ServerSource.{source_rows, row_data, new_shuffled-read_out_shuffled}
use psi.UbPsi.Preparation.{All-concat}
use psi.UbPsi.AnyOrder.{RowData, common_of_client-perm, common_of_server-perm}
use psi.UbPsi.Stages.{online-offline_gen_cache}
use psi.UbPsi.Online.{Config, offline_gen_cache, offline_transfer_cache, online}

All-map :
    {A B : Type 0} (P : B → Type 0) (f : A → B) (xs : List A)
    → All (λ x. P (f x)) xs
    → All P (map f xs)
All-map P f [] h = tt
All-map P f (x ∷ xs) h = (h.0, All-map P f xs h.1)

map-All :
    {A B : Type 0} (P : B → Type 0) (f : A → B) (xs : List A)
    → All P (map f xs)
    → All (λ x. P (f x)) xs
map-All P f [] h = tt
map-All P f (x ∷ xs) h = (h.0, map-All P f xs h.1)

module _ (IsItem : Bytes → Type 0) where
  -- The OPRF accepts the row's item, and its number is below the bound.
  abbrev IsGood : ℕ → RowData → Type 0
  IsGood bound d = IsItem d.0 × (d.1 < bound)

  rows_from-IsGood :
      (bound k base : ℕ) (source : Source)
      → All (λ b. All IsItem b.0) source
      → base + length (rows_from (λ k l. l) k base source) ≤ bound
      → All (IsGood bound) (map row_data (rows_from (λ k l. l) k base source))
  rows_from-IsGood bound k base [] accepted h = tt
  rows_from-IsGood bound k base ((items, dup_cnt) ∷ source) accepted h =
      let n = length items in
      let row = row_of base items dup_cnt in
      let now = map row (iota 0 n) in
      let later = rows_from (λ k l. l) (k + 1) (base + n) source in
      let size : length now ≡ n = omega (arith, length-map (iota 0 n) row, length-iota 0 n) in
      let total = length-append now later in
      let good : All (λ i. IsGood bound (row_data (row i))) (iota 0 n) =
        All-imp (iota 0 n)
          (λ i range.
            (All-get_or IsItem items i range accepted.0, omega (arith, h, range, size, total)))
          (iota-Within n 0 n (omega arith)) in
      All-map (IsGood bound) row_data (now ++ later) (
        All-append (λ r. IsGood bound (row_data r)) now later
          (All-map (λ r. IsGood bound (row_data r)) row (iota 0 n) good)
          (map-All (IsGood bound) row_data later (
            rows_from-IsGood bound (k + 1) (base + n) source accepted.1
              (omega (arith, h, size, total)))))

module _ (server : OprfServer) (IsClient : OprfClient → Type 0) (IsItem : Bytes → Type 0)
    (oprf : IsOprf server IsClient IsItem) (injective : IsInjective IsItem oprf.masked)
    (fresh : ℕ → ℕ → OprfClient) (oprf_client : Option OprfClient)
    (are_clients : AreClients IsClient fresh oprf_client) (shuffle : ℕ → List ℕ → List ℕ)
    (permutes : (k : ℕ) (l : List ℕ) → Permᴰ (shuffle k l) l) where
  -- The server reads its source through a new shuffled provider until the first empty batch, makes its
  -- cache and sends it to the client, and then both run the online stage, where both get the result.
  -- The provider's shuffle gives every list back in some order. The OPRF accepts all items and clients
  -- and gives different items different masks, of fewer than 32 bytes; no batch of either party is
  -- empty, and its counts are a map on its positions; the client has fewer than 2^32 items, and so
  -- has the source; the batch size, below 2^32, and the number of threads are not 0. Then all stages
  -- return, whatever the cache's folder held before. The client gets, for each item of the source that
  -- it has, the index of its last such item with the source's count, each once, in some order. The
  -- server gets, for each item of the source that the client has, the item's number in the source with
  -- the client's count at that index, each once, in some order.
  pub online-new_shuffled :
      (config : Config) (mix : List ℕ → List ℕ) (p : Provider) (private_key : Bytes)
      (selected_keys : List Bytes) (source : Source) (folder : Folder)
      → config.client_get_result ≡ true
      → config.server_get_result ≡ true
      → 0 < config.batch_size
      → config.batch_size < 2 ^ 32
      → 0 < config.compare_thread_num
      → server.get_compare_length < 32
      → IsFull IsItem p
      → AreMaps p
      → length (all_items p) < 2 ^ 32
      → IsSource source
      → All (λ b. All IsItem b.0) source
      → length (source_rows source) < 2 ^ 32
      → Returns
          ((new_shuffled shuffle source config.batch_size >>= λ q.
              read_out_shuffled shuffle (suc (length (source_rows source))) q)
            >>= λ batches.
                offline_gen_cache server private_key selected_keys batches folder >>= λ made.
                offline_transfer_cache server config.batch_size made.0 >>= λ sent.
                online config server mix oprf_client fresh p sent.0 made.0)
          (λ out.
            Permᴰ out.client_rows (common_of_client (all_items p) (source_rows source))
            × Permᴰ out.server_rows
                (common_of_server (extra_copies_of p) (all_items p) (source_rows source)))
  online-new_shuffled config mix p private_key selected_keys source folder to_client to_server pos
        wide threads short full maps small valid accepted size =
      let wanted = source_rows source in
      let (batches, reads, (chunks, same, full_chunks, order, perm)) =
        new_shuffled-read_out_shuffled shuffle permutes source config.batch_size valid pos in
      let rows = concat chunks in
      let good : All (λ r. IsGood IsItem (2 ^ 32) (row_data r)) rows =
        map-All (IsGood IsItem (2 ^ 32)) row_data rows (
          All-perm (IsGood IsItem (2 ^ 32)) perm
            (rows_from-IsGood IsItem (2 ^ 32) 0 0 source accepted (omega (arith, size)))) in
      let all_accepted : Accepted server IsClient IsItem oprf rows =
        All-imp rows (λ r g. g.0) good in
      let fits32 : Fits32 rows = All-imp rows (λ r g. g.1) good in
      let few : length rows < 2 ^ 32 =
        omega
          (arith, size, length-perm perm, length-map rows row_data, length-map wanted row_data) in
      let (out, ran, (client_rows, server_rows)) =
        online-offline_gen_cache server IsClient IsItem oprf injective fresh oprf_client are_clients
          config mix p private_key selected_keys chunks folder to_client pos wide threads short full
          maps small full_chunks (All-concat (λ r. IsItem r.item) chunks all_accepted) fits32 few
          order in
      let items = all_items p in
      let cnt = extra_copies_of p in
      let both : out.server_rows ≡ common_of_server cnt items rows =
        server_rows ∙ ap (λ b. if b then common_of_server cnt items rows else []) to_server in
      (
        out,
        rw (reads, same) ran,
        (
          Permᴰ.trans client_rows (common_of_client-perm cnt items rows wanted perm),
          subst (λ l. Permᴰ l (common_of_server cnt items wanted)) (sym both)
              (common_of_server-perm cnt items rows wanted perm),
        ),
      )

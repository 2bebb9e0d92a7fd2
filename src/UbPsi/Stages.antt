-- ===== src/UbPsi/Stages.antt =====
-- Both stages of psi/algorithm/ecdh/ub_psi/server.cc and client.cc, one after the other.
use mathlib.Core.List.{Permᴰ}
use psi.Prelude.{
  ℕ, ◌^◌, ◌≡◌, ◌<◌, true, false, Option, some, List, [], map, length, ◌>>=◌, Returns, if◌then◌else◌,
}
use psi.Prelude.Bytes.{Bytes, concat}
use psi.Prelude.Count.{All}
use psi.Ecdh.{Provider}
use psi.UbPsi.{OprfServer, OprfClient}
use psi.UbPsi.Cache.{Folder}
use psi.UbPsi.Round.{IsOprf, AreClients, IsFull, all_items}
use psi.UbPsi.Offline.{Row, columns}
use psi.UbPsi.Caching.{NonEmpty, Accepted, offline_gen_cache_lem}
use psi.UbPsi.Preparation.{concat-All, transfer_cached}
use psi.UbPsi.Rows.{InOrder}
use psi.UbPsi.Common.{IsInjective}
use psi.UbPsi.Counting.{extra_copies_of, AreMaps}
use psi.UbPsi.Whole.{Fits32, common_of_client, common_of_server, online-common}
use psi.UbPsi.Indices.{IsDistinct}
use psi.UbPsi.ServerOnly.{online-common_of_server}
use psi.UbPsi.Online.{Config, offline_gen_cache, offline_transfer_cache, online}

module _ (server : OprfServer) (IsClient : OprfClient → Type 0) (IsItem : Bytes → Type 0)
    (oprf : IsOprf server IsClient IsItem) (injective : IsInjective IsItem oprf.masked)
    (fresh : ℕ → ℕ → OprfClient) (oprf_client : Option OprfClient)
    (are_clients : AreClients IsClient fresh oprf_client) where
  -- The server makes its cache and sends it to the client, and then both run the online stage, where
  -- the client gets the result. The OPRF accepts all items and clients and gives different items
  -- different masks, of fewer than 32 bytes; no batch is empty; the client has fewer than 2^32 items,
  -- and its counts are maps on the positions of a batch; the server has fewer than 2^32 rows, in the
  -- order of their positions, with numbers below 2^32; the batch size, below 2^32, and the number of
  -- threads are not 0. Then all three stages return, whatever the cache's folder held before. The client gets, for
  -- each of the server's rows whose item it has, the index of its last such item with the server's
  -- count, each once, in an order that depends on the threads. If the server gets the result as well,
  -- it gets the numbers of those rows in the cache's order, each with the client's count at that
  -- index, and otherwise nothing.
  pub online-offline_gen_cache :
      (config : Config) (shuffle : List ℕ → List ℕ) (p : Provider) (private_key : Bytes)
      (selected_keys : List Bytes) (batches : List (List Row)) (folder : Folder)
      → config.client_get_result ≡ true
      → 0 < config.batch_size
      → config.batch_size < 2 ^ 32
      → 0 < config.compare_thread_num
      → server.get_compare_length < 32
      → IsFull IsItem p
      → AreMaps p
      → length (all_items p) < 2 ^ 32
      → NonEmpty batches
      → All (Accepted server IsClient IsItem oprf) batches
      → Fits32 (concat batches)
      → length (concat batches) < 2 ^ 32
      → InOrder 0 (concat batches)
      → Returns
          (offline_gen_cache server private_key selected_keys (map columns batches) folder
            >>= λ made. offline_transfer_cache server config.batch_size made.0 >>= λ sent.
                online config server shuffle oprf_client fresh p sent.0 made.0)
          (λ out.
            Permᴰ out.client_rows (common_of_client (all_items p) (concat batches))
            × (out.server_rows ≡ (
                if config.server_get_result
                then common_of_server (extra_copies_of p) (all_items p) (concat batches)
                else [])))
  online-offline_gen_cache config shuffle p private_key selected_keys batches folder to_client pos
        wide threads short full maps small full_batches accepted fits32 size order =
      let rows = concat batches in
      let all_accepted = concat-All (λ r. IsItem r.item) batches accepted in
      let (sent, transferred, result) =
        transfer_cached server IsClient IsItem oprf private_key selected_keys rows config.batch_size
          short pos wide size all_accepted in
      rw
        (
          offline_gen_cache_lem server IsClient IsItem oprf private_key selected_keys batches folder
              short full_batches accepted,
          transferred,
        )
        (online-common server IsClient IsItem oprf injective fresh oprf_client are_clients config
          shuffle p sent.0 private_key selected_keys rows to_client pos wide threads short full maps
          small all_accepted fits32 size order result.0)

module _ (server : OprfServer) (IsClient : OprfClient → Type 0) (IsItem : Bytes → Type 0)
    (oprf : IsOprf server IsClient IsItem) (injective : IsInjective IsItem oprf.masked)
    (fresh : ℕ → ℕ → OprfClient) (client : OprfClient) (is_client : IsClient client)
    (shuffle : List ℕ → List ℕ) (permutes : (l : List ℕ) → Permᴰ (shuffle l) l) where
  -- The server makes its cache and sends it to the client, and then both run the online stage, where
  -- the client does not get the result and uses one OPRF client for all items: the server puts the
  -- evaluated items into the order of `shuffle`, which gives every list back in some order. The OPRF
  -- accepts the client and all items and gives different items different masks, of fewer than 32
  -- bytes; no batch is empty; the client has fewer than 2^32 items, all different, and its counts are
  -- maps on the positions of a batch; the server has fewer than 2^32 rows, in the order of their
  -- positions, with numbers below 2^32; the batch size, below 2^32, and the number of threads are not
  -- 0. Then all
  -- three stages return, whatever the cache's folder held before. The client gets no rows. The
  -- server, if it gets the result, gets the numbers of its rows whose item the client has, in the
  -- cache's order, each with the client's count for the item before the shuffle, and otherwise
  -- nothing.
  pub online-offline_gen_cache_shuffled :
      (config : Config) (p : Provider) (private_key : Bytes) (selected_keys : List Bytes)
      (batches : List (List Row)) (folder : Folder)
      → config.client_get_result ≡ false
      → 0 < config.batch_size
      → config.batch_size < 2 ^ 32
      → 0 < config.compare_thread_num
      → server.get_compare_length < 32
      → IsFull IsItem p
      → AreMaps p
      → IsDistinct (all_items p)
      → length (all_items p) < 2 ^ 32
      → NonEmpty batches
      → All (Accepted server IsClient IsItem oprf) batches
      → Fits32 (concat batches)
      → length (concat batches) < 2 ^ 32
      → InOrder 0 (concat batches)
      → Returns
          (offline_gen_cache server private_key selected_keys (map columns batches) folder
            >>= λ made. offline_transfer_cache server config.batch_size made.0 >>= λ sent.
                online config server shuffle (some client) fresh p sent.0 made.0)
          (λ out.
            (out.client_rows ≡ [])
            × (out.server_rows ≡ (
                if config.server_get_result
                then common_of_server (extra_copies_of p) (all_items p) (concat batches)
                else [])))
  online-offline_gen_cache_shuffled config p private_key selected_keys batches folder to_server pos
        wide threads short full maps distinct small full_batches accepted fits32 size order =
      let rows = concat batches in
      let all_accepted = concat-All (λ r. IsItem r.item) batches accepted in
      let (sent, transferred, result) =
        transfer_cached server IsClient IsItem oprf private_key selected_keys rows config.batch_size
          short pos wide size all_accepted in
      rw
        (
          offline_gen_cache_lem server IsClient IsItem oprf private_key selected_keys batches folder
              short full_batches accepted,
          transferred,
        )
        (online-common_of_server server IsClient IsItem oprf fresh client is_client shuffle permutes
          injective config p sent.0 private_key selected_keys rows to_server pos wide threads short
          full maps distinct small all_accepted fits32 size order result.0)

-- ===== src/UbPsi/Online.antt =====
-- psi/algorithm/ecdh/ub_psi/server.cc and client.cc: the two stages of the protocol, both parties
-- together. The client's sender and receiver are two threads, of which each reads only its own
-- list. The reading of the key files and of the tables and the writing of the results are not here:
-- the items come as batches, and the rows that go to the join processor are the results.
use psi.Prelude.{
  ℕ, zero, suc, ◌+◌, Bool, false, Option, none, some, List, [], ◌∷◌, ◌++◌, map, length, Result, ok,
  ◌>>=◌, of_option, ◌==◌, at, if◌then◌else◌,
}
use psi.Prelude.Bytes.{Bytes}
use psi.BatchProvider.{ShuffledBatch}
use psi.Ecdh.{DupCnt, dup_at, Provider}
use psi.UbPsi.{OprfServer, OprfClient}
use psi.UbPsi.Server.{
  PeerCntInfo, no_peers, full_evaluate, send_final_evaluated_items, recv_blind_and_send_evaluate,
  recv_blind_and_shuffle_send_evaluate, recv_cache_indexes,
}
use psi.UbPsi.Client.{
  send_blinded_items, recv_evaluated_items, recv_final_evaluated_items, send_server_cache_indexes,
}
use psi.UbPsi.Cache.{Folder, new_cache, new_provider, read_all, read_all_with_dup_cnt}
use psi.UbPsi.Store.{
  FileStore, MemoryStore, Match, empty_memory_store, open_file_store, dump_meta,
  compute_indices_with_dup_cnt,
}

-- `EcdhUbPsiServer::OfflineGenCache`: the folder that the cache leaves. The cache is flushed once
-- more when it is destroyed, which writes the same.
unfoldable pub offline_gen_cache :
    OprfServer → Bytes → List Bytes → List (ShuffledBatch Bytes) → Folder → Result (Folder × ℕ)
offline_gen_cache server private_key selected_keys batches folder = do
  ub_cache ← new_cache server.get_compare_length selected_keys private_key folder
  (sent, self_items_count, cache) ← full_evaluate server batches (some ub_cache) false
  cache' ← of_option cache
  ok (cache'.folder, self_items_count)

-- `OfflineTransferCache` of both parties, where the client has removed an old cache before; its store
-- is flushed at the end.
unfoldable pub offline_transfer_cache : OprfServer → ℕ → Folder → Result (FileStore × ℕ)
offline_transfer_cache server batch_size folder = do
  provider ← new_provider folder batch_size
  batches ← read_all_with_dup_cnt (suc provider.meta.item_count) provider
  let (sent, self_items_count) = send_final_evaluated_items batches
  store ← open_file_store server.get_compare_length [] none
  store' ← recv_final_evaluated_items server.get_compare_length sent store
  ok (dump_meta store', self_items_count)

-- `shuffle_index_cnt_map`: a later write to a key shadows an earlier one.
unfoldable pub index_cnt_map : DupCnt → List ℕ → List ℕ → DupCnt → DupCnt
index_cnt_map peer_dup_cnt [] client_index cnt_map = cnt_map
index_cnt_map peer_dup_cnt (c ∷ cache_index) [] cnt_map = cnt_map
index_cnt_map peer_dup_cnt (c ∷ cache_index) (i ∷ client_index) cnt_map =
    index_cnt_map peer_dup_cnt cache_index client_index ((c, dup_at peer_dup_cnt i) ∷ cnt_map)

-- `shuffle_index_cnt_map.find(index)`
unfoldable pub find_index : DupCnt → ℕ → Option ℕ
find_index [] i = none
find_index ((j, c) ∷ cnt_map) i = if j == i then some c else find_index cnt_map i

-- `row_indexes.index.push_back(shuffle[i])`, with the peer's count, where the index is in the map.
unfoldable pub push_row : Option ℕ → List ℕ → ℕ → List (ℕ × ℕ) → Result (List (ℕ × ℕ))
push_row none shuffle i rows = ok rows
push_row (some cnt) shuffle i rows = at shuffle i >>= λ row. ok ((row, cnt) ∷ rows)

-- The loop over `i != index.size()`, for the `n` positions from `i` on.
unfoldable pub rows_of_batch : DupCnt → ℕ → ℕ → ShuffledBatch Bytes → Result (List (ℕ × ℕ))
rows_of_batch cnt_map zero i batch = ok []
rows_of_batch cnt_map (suc n) i batch = do
  index ← at batch.batch_indices i
  rest ← rows_of_batch cnt_map n (i + 1) batch
  push_row (find_index cnt_map index) batch.shuffled_indices i rest

unfoldable pub rows_of_batches : DupCnt → List (ShuffledBatch Bytes) → Result (List (ℕ × ℕ))
rows_of_batches cnt_map [] = ok []
rows_of_batches cnt_map (batch ∷ batches) = do
  rows ← rows_of_batch cnt_map (length batch.batch_indices) 0 batch
  rest ← rows_of_batches cnt_map batches
  ok (rows ++ rest)

unfoldable pub trans_cache_indexes_to_row_indexs : DupCnt → ℕ → Folder → Result (List (ℕ × ℕ))
trans_cache_indexes_to_row_indexs cnt_map batch_size folder = do
  cache_provider ← new_provider folder batch_size
  batches ← read_all (suc cache_provider.meta.item_count) cache_provider
  rows_of_batches cnt_map batches

pub record Config : Type 0 where
  pub client_get_result : Bool
  pub server_get_result : Bool
  pub batch_size : ℕ
  pub compare_thread_num : ℕ

-- The rows that `DealResultIndex` gets, with the peer's counts of extra copies.
pub record Outcome : Type 0 where
  pub client_rows : List (ℕ × ℕ)
  pub server_rows : List (ℕ × ℕ)
  pub peer_cnt_info : PeerCntInfo

-- The client's masked items in its store, and the server's counts of them.
unfoldable pub exchange_items :
    Config
    → OprfServer
    → (List ℕ → List ℕ)
    → Option OprfClient
    → (ℕ → ℕ → OprfClient)
    → Provider
    → Result (MemoryStore × PeerCntInfo)
exchange_items config server shuffle oprf_client fresh items = do
  (blinded, queue, items_count) ←
      send_blinded_items oprf_client fresh 0 items config.server_get_result
  (evaluated, info) ←
      if config.client_get_result
      then recv_blind_and_send_evaluate server blinded no_peers
      else recv_blind_and_shuffle_send_evaluate server shuffle config.batch_size blinded
  store ←
      recv_evaluated_items oprf_client server.get_ec_point_length queue evaluated empty_memory_store
  ok (store, info)

-- The server's end of `Online`, from the indexes that it receives on.
unfoldable pub server_rows : Config → Folder → PeerCntInfo → List Match → Result (List (ℕ × ℕ))
server_rows config folder info found = do
  (cache_index, client_index) ←
      recv_cache_indexes
        (send_server_cache_indexes (map (λ m. m.peer_index) found) (map (λ m. m.self_index) found))
  trans_cache_indexes_to_row_indexs (index_cnt_map info.peer_dup_cnt cache_index client_index [])
      config.batch_size folder

-- `files` is the client's store of the offline stage, which is opened again on its two files.
unfoldable pub online :
    Config
    → OprfServer
    → (List ℕ → List ℕ)
    → Option OprfClient
    → (ℕ → ℕ → OprfClient)
    → Provider
    → FileStore
    → Folder
    → Result Outcome
online config server shuffle oprf_client fresh items files folder = do
  (store, info) ← exchange_items config server shuffle oprf_client fresh items
  peer ← open_file_store server.get_compare_length files.items files.meta_file
  found ← compute_indices_with_dup_cnt config.compare_thread_num store peer config.batch_size
  rows ← if config.server_get_result then server_rows config folder info found else ok []
  ok (record {
    client_rows =
        if config.client_get_result then map (λ m. (m.self_index, m.peer_dup_cnt)) found else [];
    server_rows = rows;
    peer_cnt_info = info;
  })

-- ===== src/UbPsi/Server.antt =====
-- `EcdhOprfPsiServer` of psi/algorithm/ecdh/ub_psi/ecdh_oprf_psi.cc. The shuffle of the evaluated items
-- (`std::shuffle` with an engine of yacl) is the argument `shuffle`.
use psi.Prelude.{
  ℕ, zero, suc, ◌+◌, ◌*◌, Bool, true, Option, none, some, List, [], ◌∷◌, ◌++◌, length, take, drop,
  Result, ok, err, thrown, undefined, ◌>>=◌, ◌>>◌, enforce, at, ltb, ◌==◌, if◌then◌else◌,
}
use psi.Prelude.Bytes.{Bytes, is_nil, concat}
use psi.BatchProvider.{ShuffledBatch, iota}
use psi.Ecdh.{DupCnt, dup_at, Provider}
use psi.UbPsi.{OprfServer, DataBatch, data_batch, last_batch, split_items, for_each, uint32}
use psi.UbPsi.Cache.{UbPsiCache, save_data, flush}

-- The batches that are sent, and the count of the items.
unfoldable pub send_final_evaluated_items : Provider → List DataBatch × ℕ
send_final_evaluated_items [] = (last_batch ∷ [], 0)
send_final_evaluated_items ((items, dup_cnt) ∷ p) =
    let (sent, items_count) = send_final_evaluated_items p in
    if is_nil items
    then (last_batch ∷ [], 0)
    else (data_batch items dup_cnt ∷ sent, length items + items_count)

-- The loop that sets `batch.duplicate_item_cnt` for the positions from `i` on.
unfoldable pub extra_copies : ℕ → List ℕ → DupCnt
extra_copies i [] = []
extra_copies i (cnt ∷ cnts) =
    let rest = extra_copies (i + 1) cnts in if ltb 0 cnt then (i, cnt) ∷ rest else rest

-- The calls of `SaveData` for the `n` positions from `i` on.
unfoldable pub save_batch : ℕ → ℕ → ℕ → Bytes → ShuffledBatch Bytes → UbPsiCache → Result UbPsiCache
save_batch compare_length zero i flatten_bytes batch cache = ok cache
save_batch compare_length (suc n) i flatten_bytes batch cache = do
  batch_index ← at batch.batch_indices i
  shuffle_index ← at batch.shuffled_indices i
  dup_cnt ← at batch.dup_cnts i
  cache' ←
      save_data (take compare_length (drop (i * compare_length) flatten_bytes)) batch_index
        shuffle_index dup_cnt cache
  save_batch compare_length n (i + 1) flatten_bytes batch cache'

-- `if (ub_cache != nullptr)`
unfoldable pub save_masked :
    ℕ → List Bytes → ShuffledBatch Bytes → Option UbPsiCache → Result (Option UbPsiCache)
save_masked compare_length masked batch none = ok none
save_masked compare_length masked batch (some cache) = do
  cache' ← save_batch compare_length (length batch.batch_items) 0 (concat masked) batch cache
  ok (some cache')

-- The loop of `FullEvaluate`: the batches to send, the count of the items, and the cache.
unfoldable pub evaluate_batches :
    OprfServer
    → List (ShuffledBatch Bytes)
    → Option UbPsiCache
    → Result (List DataBatch × ℕ × Option UbPsiCache)
evaluate_batches server [] cache = ok ([], 0, cache)
evaluate_batches server (batch ∷ batches) cache =
    let more : Result (List DataBatch × ℕ × Option UbPsiCache) = (do
      masked ← for_each server.simple_evaluate batch.batch_items
      cache' ← save_masked server.get_compare_length masked batch cache
      (sent, items_count, cache'') ← evaluate_batches server batches cache'
      ok (
        data_batch masked (extra_copies 0 batch.dup_cnts) ∷ sent,
        length batch.batch_items + items_count,
        cache'',
      )) in
    if is_nil batch.batch_items then ok ([], 0, cache) else more

abbrev flush_cache : Option UbPsiCache → Option UbPsiCache
flush_cache none = none
flush_cache (some cache) = some (flush cache)

unfoldable pub full_evaluate :
    OprfServer
    → List (ShuffledBatch Bytes)
    → Option UbPsiCache
    → Bool
    → Result (List DataBatch × ℕ × Option UbPsiCache)
full_evaluate server provider ub_cache send_flag = do
  (sent, items_count, cache) ← evaluate_batches server provider ub_cache
  ok (if send_flag then sent ++ last_batch ∷ [] else [], items_count, flush_cache cache)

unfoldable pub full_evaluate_and_send :
    OprfServer
    → List (ShuffledBatch Bytes)
    → Option UbPsiCache
    → Result (List DataBatch × ℕ × Option UbPsiCache)
full_evaluate_and_send server provider ub_cache = full_evaluate server provider ub_cache true

pub record PeerCntInfo : Type 0 where
  pub peer_total_cnt : ℕ
  pub peer_unique_cnt : ℕ
  pub peer_dup_cnt : DupCnt

abbrev pub no_peers : PeerCntInfo
no_peers = record { peer_total_cnt = 0; peer_unique_cnt = 0; peer_dup_cnt = [] }

-- `for (auto [index, dup_cnt] : blinded_batch.duplicate_item_cnt)`
unfoldable pub count_dups : DupCnt → PeerCntInfo → PeerCntInfo
count_dups [] info = info
count_dups ((index, dup_cnt) ∷ dups) info = count_dups dups (record {
  peer_total_cnt = uint32 (info.peer_total_cnt + dup_cnt);
  peer_unique_cnt = info.peer_unique_cnt;
  peer_dup_cnt = (uint32 (index + info.peer_unique_cnt), dup_cnt) ∷ info.peer_dup_cnt;
})

unfoldable pub count_items : ℕ → PeerCntInfo → PeerCntInfo
count_items num_items info = record info {
  peer_unique_cnt = uint32 (info.peer_unique_cnt + num_items);
}

-- `cnt_info.peer_total_cnt += cnt_info.peer_unique_cnt` after the loop.
unfoldable pub add_unique : PeerCntInfo → PeerCntInfo
add_unique info = record info {
  peer_total_cnt = uint32 (info.peer_total_cnt + info.peer_unique_cnt);
}

unfoldable pub recv_blind_and_send_evaluate :
    OprfServer → List DataBatch → PeerCntInfo → Result (List DataBatch × PeerCntInfo)
recv_blind_and_send_evaluate server [] info = err thrown
recv_blind_and_send_evaluate server (batch ∷ received) info =
    let more : Result (List DataBatch × PeerCntInfo) = (do
      blinded_items ← split_items server.get_ec_point_length batch.flatten_bytes
      evaluated_items ← for_each server.evaluate blinded_items
      let info' = count_items (length blinded_items) (count_dups batch.duplicate_item_cnt info)
      (sent, info'') ← recv_blind_and_send_evaluate server received info'
      ok (data_batch evaluated_items [] ∷ sent, info'')) in
    if batch.is_last_batch then ok (last_batch ∷ [], add_unique info) else more

-- The first loop of `RecvBlindAndShuffleSendEvaluate`: all the evaluated items, and the counts.
unfoldable pub recv_blind_and_evaluate :
    OprfServer → List DataBatch → PeerCntInfo → Result (List Bytes × PeerCntInfo)
recv_blind_and_evaluate server [] info = err thrown
recv_blind_and_evaluate server (batch ∷ received) info =
    let more : Result (List Bytes × PeerCntInfo) = (do
      blinded_items ← split_items server.get_ec_point_length batch.flatten_bytes
      evaluated_items ← for_each server.evaluate blinded_items
      let info' = count_items (length blinded_items) (count_dups batch.duplicate_item_cnt info)
      (rest, info'') ← recv_blind_and_evaluate server received info'
      ok (evaluated_items ++ rest, info'')) in
    if batch.is_last_batch then ok ([], add_unique info) else more

-- `cnt_info.peer_dup_cnt[i] = peer_dup_cnt[shuffle_index[i]]` for the positions from `i` on.
unfoldable pub move_dups : DupCnt → ℕ → List ℕ → DupCnt
move_dups peer_dup_cnt i [] = []
move_dups peer_dup_cnt i (s ∷ shuffle_index) =
    (i, dup_at peer_dup_cnt s) ∷ move_dups peer_dup_cnt (i + 1) shuffle_index

-- `evaluated_items[shuffle_index[i]]` for the given positions.
unfoldable pub pick : List Bytes → List ℕ → Result (List Bytes)
pick evaluated_items [] = ok []
pick evaluated_items (s ∷ shuffle_index) = do
  item ← at evaluated_items s
  rest ← pick evaluated_items shuffle_index
  ok (item ∷ rest)

-- The loop over `index`, where `shuffle_index` is what is left of it. Every round takes `batch_size`
-- positions, so that one round for each of them is enough.
unfoldable pub send_shuffled : ℕ → ℕ → List Bytes → List ℕ → Result (List DataBatch)
send_shuffled zero batch_size evaluated_items shuffle_index =
    if is_nil shuffle_index then ok (last_batch ∷ []) else err undefined
send_shuffled (suc fuel) batch_size evaluated_items shuffle_index =
    let more : Result (List DataBatch) = (do
      items ← pick evaluated_items (take batch_size shuffle_index)
      rest ← send_shuffled fuel batch_size evaluated_items (drop batch_size shuffle_index)
      ok (data_batch items [] ∷ rest)) in
    if is_nil shuffle_index then ok (last_batch ∷ []) else more

unfoldable pub recv_blind_and_shuffle_send_evaluate :
    OprfServer → (List ℕ → List ℕ) → ℕ → List DataBatch → Result (List DataBatch × PeerCntInfo)
recv_blind_and_shuffle_send_evaluate server shuffle batch_size received = do
  (evaluated_items, info) ← recv_blind_and_evaluate server received no_peers
  let shuffle_index = shuffle (iota 0 (length evaluated_items))
  sent ← send_shuffled (length evaluated_items) batch_size evaluated_items shuffle_index
  ok (sent, record info { peer_dup_cnt = move_dups info.peer_dup_cnt 0 shuffle_index })

-- The cache's positions and the client's, as `RecvCacheIndexes` leaves them.
unfoldable pub recv_cache_indexes : List ℕ × List ℕ → Result (List ℕ × List ℕ)
recv_cache_indexes (cache_index, client_index) = do
  enforce (length client_index == length cache_index)
  ok (cache_index, client_index)

-- ===== src/UbPsi/Client.antt =====
-- `EcdhOprfPsiClient` of psi/algorithm/ecdh/ub_psi/ecdh_oprf_psi.cc. With a key of its own the client
-- has one OPRF client for all items; without one it makes a client for each item, and the queue that
-- the sender fills and the receiver empties hands them over batch by batch.
use psi.Prelude.{
  ℕ, zero, suc, ◌+◌, Bool, Option, none, some, List, [], ◌∷◌, length, replicate, Result, ok, err,
  thrown, ◌>>=◌, ◌>>◌, enforce, ◌==◌, if◌then◌else◌,
}
use psi.Prelude.Bytes.{Bytes, is_nil}
use psi.Ecdh.{Provider}
use psi.UbPsi.{OprfClient, DataBatch, data_batch, last_batch, split_items}
use psi.UbPsi.Store.{FileStore, MemoryStore}
use psi.UbPsi.Store

-- `oprf_clients[idx]->Blind(items[idx])`
unfoldable pub blind_items : List OprfClient → List Bytes → Result (List Bytes)
blind_items clients [] = ok []
blind_items [] (item ∷ items) = err thrown
blind_items (client ∷ clients) (item ∷ items) = do
  blinded ← client.blind item
  rest ← blind_items clients items
  ok (blinded ∷ rest)

-- `oprf_clients[idx]->Finalize(evaluate_items[idx])`
unfoldable pub finalize_items : List OprfClient → List Bytes → Result (List Bytes)
finalize_items clients [] = ok []
finalize_items [] (item ∷ items) = err thrown
finalize_items (client ∷ clients) (item ∷ items) = do
  oprf_item ← client.finalize item
  rest ← finalize_items clients items
  ok (oprf_item ∷ rest)

-- New clients for the `n` positions from `idx` on: `fresh` gives the one that
-- `CreateEcdhOprfClient` makes for a batch and a position.
unfoldable pub new_clients : (ℕ → OprfClient) → ℕ → ℕ → List OprfClient
new_clients fresh idx zero = []
new_clients fresh idx (suc n) = fresh idx ∷ new_clients fresh (idx + 1) n

unfoldable pub oprf_clients : Option OprfClient → (ℕ → ℕ → OprfClient) → ℕ → ℕ → List OprfClient
oprf_clients (some client) fresh batch_count n = replicate n client
oprf_clients none fresh batch_count n = new_clients (fresh batch_count) 0 n

-- `oprf_client_queue_.push(std::move(oprf_clients))`, without a client of its own.
abbrev pub enqueue :
    Option OprfClient → List OprfClient → List (List OprfClient) → List (List OprfClient)
enqueue none clients queue = clients ∷ queue
enqueue (some client) clients queue = queue

-- The batches that are sent, the queue of clients, and the count of the items.
unfoldable pub send_blinded_items :
    Option OprfClient
    → (ℕ → ℕ → OprfClient)
    → ℕ
    → Provider
    → Bool
    → Result (List DataBatch × List (List OprfClient) × ℕ)
send_blinded_items oprf_client fresh batch_count [] server_get_result = ok (last_batch ∷ [], [], 0)
send_blinded_items oprf_client fresh batch_count ((items, dup_cnt) ∷ p) server_get_result =
    let more : Result (List DataBatch × List (List OprfClient) × ℕ) = (do
      let clients = oprf_clients oprf_client fresh batch_count (length items)
      blinded ← blind_items clients items
      (sent, queue, items_count) ←
          send_blinded_items oprf_client fresh (batch_count + 1) p server_get_result
      ok (
        data_batch blinded (if server_get_result then dup_cnt else []) ∷ sent,
        enqueue oprf_client clients queue,
        length items + items_count,
      )) in
    if is_nil items then ok (last_batch ∷ [], [], 0) else more

-- The clients for a batch of `num_items` items that was received, and the rest of the queue. To wait
-- for a batch that is never sent is an error here.
unfoldable pub pop_clients :
    Option OprfClient
    → ℕ
    → List (List OprfClient)
    → Result (List OprfClient × List (List OprfClient))
pop_clients (some client) num_items queue = ok (replicate num_items client, queue)
pop_clients none num_items [] = err thrown
pop_clients none num_items (clients ∷ queue) = ok (clients, queue)

unfoldable pub recv_evaluated_items :
    Option OprfClient
    → ℕ
    → List (List OprfClient)
    → List DataBatch
    → MemoryStore
    → Result MemoryStore
recv_evaluated_items oprf_client ec_point_length queue [] store = err thrown
recv_evaluated_items oprf_client ec_point_length queue (batch ∷ received) store =
    let more : Result MemoryStore = (do
      evaluate_items ← split_items ec_point_length batch.flatten_bytes
      (clients, queue') ← pop_clients oprf_client (length evaluate_items) queue
      enforce (length clients == length evaluate_items)
      oprf_items ← finalize_items clients evaluate_items
      recv_evaluated_items oprf_client ec_point_length queue' received
          (Store.save_items 0 oprf_items batch.duplicate_item_cnt store)) in
    if batch.is_last_batch then ok store else more

unfoldable pub recv_final_evaluated_items : ℕ → List DataBatch → FileStore → Result FileStore
recv_final_evaluated_items compare_length [] store = err thrown
recv_final_evaluated_items compare_length (batch ∷ received) store =
    let more : Result FileStore = (do
      evaluated_items ← split_items compare_length batch.flatten_bytes
      store' ← Store.save_ciphers 0 evaluated_items batch.duplicate_item_cnt store
      recv_final_evaluated_items compare_length received store') in
    if batch.is_last_batch then ok store else more

-- What is sent for `RecvCacheIndexes`.
unfoldable pub send_server_cache_indexes : List ℕ → List ℕ → List ℕ × List ℕ
send_server_cache_indexes peer_indexes self_indexes = (peer_indexes, self_indexes)

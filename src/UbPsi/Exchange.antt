-- ===== src/UbPsi/Exchange.antt =====
-- The online exchange of psi/algorithm/ecdh/ub_psi/ecdh_oprf_psi.cc, batch after batch:
-- `SendBlindedItems`, `RecvBlindAndSendEvaluate` and `RecvEvaluatedItems`.
use psi.Prelude.{
  ℕ, ◌+◌, ◌≡◌, refl, Bool, true, Option, none, some, List, [], ◌∷◌, map, length, length-append, ok,
  ◌==◌, if◌then◌else◌, arith,
}
use psi.Prelude.Bytes.{Bytes}
use psi.Ecdh.{Provider}
use psi.UbPsi.{OprfServer, OprfClient, DataBatch, data_batch, last_batch}
use psi.UbPsi.Server.{
  PeerCntInfo, count_dups, count_items, add_unique, recv_blind_and_send_evaluate,
}
use psi.UbPsi.Client.{enqueue, oprf_clients, send_blinded_items, pop_clients, recv_evaluated_items}
use psi.UbPsi.Store.{MemoryStore, save_items}
use psi.UbPsi.Round.{
  IsOprf, AreClients, IsFull, Paired, all_items, each, length-each, split_items-concat,
  oprf_clients-Paired, blind_items-each, for_each-evaluate, finalize_items-each, each-HaveSize,
}

-- What the server counts of the client's items.
unfoldable pub counts_of : Bool → Provider → PeerCntInfo → PeerCntInfo
counts_of server_get_result [] info = add_unique info
counts_of server_get_result ((items, dup_cnt) ∷ p) info =
    counts_of server_get_result p
      (count_items (length items) (count_dups (if server_get_result then dup_cnt else []) info))

-- The client's store after the masked items of all batches.
unfoldable pub save_batches : (Bytes → Bytes) → Provider → MemoryStore → MemoryStore
save_batches masked [] store = store
save_batches masked ((items, dup_cnt) ∷ p) store =
    save_batches masked p (save_items 0 (map masked items) [] store)

pop_clients-enqueue :
    (fresh : ℕ → ℕ → OprfClient) (oprf_client : Option OprfClient) (k n : ℕ)
    (queue : List (List OprfClient))
    → pop_clients oprf_client n (enqueue oprf_client (oprf_clients oprf_client fresh k n) queue)
      ≡ ok (oprf_clients oprf_client fresh k n, queue)
unfolding pop_clients oprf_clients
pop_clients-enqueue fresh none k n queue = refl
pop_clients-enqueue fresh (some client) k n queue = refl

module _ (server : OprfServer) (IsClient : OprfClient → Type 0) (IsItem : Bytes → Type 0)
    (oprf : IsOprf server IsClient IsItem) (fresh : ℕ → ℕ → OprfClient)
    (oprf_client : Option OprfClient) (are_clients : AreClients IsClient fresh oprf_client)
    (server_get_result : Bool) where
  abbrev clients_of : ℕ → List Bytes → List OprfClient
  clients_of batch_count items = oprf_clients oprf_client fresh batch_count (length items)

  unfoldable pub blinded_batches : ℕ → Provider → List DataBatch
  blinded_batches k [] = last_batch ∷ []
  blinded_batches k ((items, dup_cnt) ∷ p) =
      data_batch (each oprf.blinded (clients_of k items) items)
        (if server_get_result then dup_cnt else [])
      ∷ blinded_batches (k + 1) p

  unfoldable pub evaluated_batches : ℕ → Provider → List DataBatch
  evaluated_batches k [] = last_batch ∷ []
  evaluated_batches k ((items, dup_cnt) ∷ p) =
      data_batch (each oprf.evaluated (clients_of k items) items) [] ∷ evaluated_batches (k + 1) p

  unfoldable pub queue_of : ℕ → Provider → List (List OprfClient)
  queue_of k [] = []
  queue_of k ((items, dup_cnt) ∷ p) = enqueue oprf_client (clients_of k items) (queue_of (k + 1) p)

  pub paired : (k : ℕ) (items : List Bytes) → Paired IsClient (clients_of k items) items
  paired k items = oprf_clients-Paired IsClient fresh oprf_client k items are_clients

  pub send_blinded_items_lem :
      (k : ℕ) (p : Provider)
      → IsFull IsItem p
      → send_blinded_items oprf_client fresh k p server_get_result
        ≡ ok (blinded_batches k p, queue_of k p, length (all_items p))
  unfolding send_blinded_items blinded_batches queue_of
  send_blinded_items_lem k [] h = refl
  send_blinded_items_lem k ((items, dup_cnt) ∷ p) h =
      let blinded =
        blind_items-each server IsClient IsItem oprf (clients_of k items) items (paired k items)
          h.1 in
      rw (h.0, blinded, send_blinded_items_lem (k + 1) p h.2, length-append items (all_items p))
        refl

  pub recv_blind_and_send_evaluate_lem :
      (k : ℕ) (p : Provider) (info : PeerCntInfo)
      → IsFull IsItem p
      → recv_blind_and_send_evaluate server (blinded_batches k p) info
        ≡ ok (evaluated_batches k p, counts_of server_get_result p info)
  unfolding recv_blind_and_send_evaluate blinded_batches evaluated_batches counts_of
  recv_blind_and_send_evaluate_lem k [] info h = refl
  recv_blind_and_send_evaluate_lem k ((items, dup_cnt) ∷ p) info h =
      let clients = clients_of k items in
      let sizes =
        each-HaveSize server IsClient IsItem oprf oprf.blinded clients items oprf.length-blinded
          (paired k items) h.1 in
      let same : length (each oprf.blinded clients items) ≡ length items =
        length-each oprf.blinded clients items (paired k items).1 in
      let info' =
        count_items (length items) (count_dups (if server_get_result then dup_cnt else []) info) in
      rw
        (
          split_items-concat server.get_ec_point_length (each oprf.blinded clients items)
              oprf.ec_point_length_pos sizes,
          for_each-evaluate server IsClient IsItem oprf clients items (paired k items) h.1,
          same,
          recv_blind_and_send_evaluate_lem (k + 1) p info' h.2,
        )
        refl

  pub recv_evaluated_items_lem :
      (k : ℕ) (p : Provider) (store : MemoryStore)
      → IsFull IsItem p
      → recv_evaluated_items oprf_client server.get_ec_point_length
          (queue_of k p)
          (evaluated_batches k p)
          store
        ≡ ok (save_batches oprf.masked p store)
  unfolding recv_evaluated_items evaluated_batches queue_of save_batches
  recv_evaluated_items_lem k [] store h = refl
  recv_evaluated_items_lem k ((items, dup_cnt) ∷ p) store h =
      let clients = clients_of k items in
      let sizes =
        each-HaveSize server IsClient IsItem oprf oprf.evaluated clients items oprf.length-evaluated
          (paired k items) h.1 in
      let same : length (each oprf.evaluated clients items) ≡ length items =
        length-each oprf.evaluated clients items (paired k items).1 in
      let matched : length clients == length items ≡ true = ground (arith, (paired k items).1) in
      rw
        (
          split_items-concat server.get_ec_point_length (each oprf.evaluated clients items)
              oprf.ec_point_length_pos sizes,
          same,
          pop_clients-enqueue fresh oprf_client k (length items) (queue_of (k + 1) p),
          matched,
          finalize_items-each server IsClient IsItem oprf clients items (paired k items) h.1,
        )
        (recv_evaluated_items_lem (k + 1) p (save_items 0 (map oprf.masked items) [] store) h.2)

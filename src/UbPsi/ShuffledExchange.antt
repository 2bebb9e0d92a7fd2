-- ===== src/UbPsi/ShuffledExchange.antt =====
-- The exchange of psi/algorithm/ecdh/ub_psi/ecdh_oprf_psi.cc where the client does not get the result,
-- so that the server shuffles the evaluated items.
use mathlib.Core.List.{Permᴰ}
use psi.Prelude.{
  ℕ, zero, suc, ◌+◌, ◌≡◌, ◌<◌, ◌≤◌, refl, sym, Bool, false, some, List, [], ◌∷◌, length, length-map,
  Result, ok, arith,
}
use psi.Prelude.Bytes.{Bytes, concat}
use psi.Prelude.Count.{length-perm, All, All-append, All-perm}
use psi.BatchProvider.{iota}
use psi.Ecdh.{Provider}
use psi.UbPsi.{OprfServer, OprfClient}
use psi.UbPsi.Server.{PeerCntInfo, no_peers, move_dups, recv_blind_and_shuffle_send_evaluate}
use psi.UbPsi.Store.{MemoryStore, empty_memory_store}
use psi.UbPsi.Round.{IsOprf, IsFull, all_items}
use psi.UbPsi.Client.{recv_evaluated_items}
use psi.UbPsi.Exchange.{
  queue_of, counts_of, save_batches, send_blinded_items_lem, recv_evaluated_items_lem,
}
use psi.UbPsi.Shuffling.{
  picked, bare, shuffled_batches, shuffled_batches-evaluated_batches, queue_of-nil,
  recv_blind_and_evaluate_lem, send_shuffled-Sends,
}
use psi.UbPsi.Indices.{iota-Within}
use psi.UbPsi.Online.{Config, exchange_items}

pub length-iota : (start n : ℕ) → length (iota start n) ≡ n
unfolding iota
length-iota start zero = refl
length-iota start (suc n) = omega (arith, length-iota (start + 1) n)

-- The order that the server gives the client's items.
abbrev pub ids_of : (List ℕ → List ℕ) → Provider → List ℕ
ids_of shuffle p = shuffle (iota 0 (length (all_items p)))

-- What the server has counted, for the positions after the shuffle.
abbrev pub moved : (List ℕ → List ℕ) → Bool → Provider → PeerCntInfo
moved shuffle flag p = record (counts_of flag p no_peers) {
  peer_dup_cnt = move_dups (counts_of flag p no_peers).peer_dup_cnt 0 (ids_of shuffle p);
}

module _ (server : OprfServer) (IsClient : OprfClient → Type 0) (IsItem : Bytes → Type 0)
    (oprf : IsOprf server IsClient IsItem) (fresh : ℕ → ℕ → OprfClient) (client : OprfClient)
    (is_client : IsClient client) (shuffle : List ℕ → List ℕ)
    (permutes : (l : List ℕ) → Permᴰ (shuffle l) l) where
  -- The client stores the masked items in the order of the shuffle.
  abbrev pub Exchanged : Config → Provider → Result (MemoryStore × PeerCntInfo) → Type 0
  Exchanged config p r =
      (chunks : List (List Bytes)) × (concat chunks ≡ picked (all_items p) (ids_of shuffle p))
      × IsFull IsItem (bare chunks)
      × (r
          ≡ ok (
            save_batches oprf.masked (bare chunks) empty_memory_store,
            moved shuffle config.server_get_result p,
          ))

  full-All : (p : Provider) → IsFull IsItem p → All IsItem (all_items p)
  full-All [] full = tt
  full-All ((items, dup_cnt) ∷ p) full =
      All-append IsItem items (all_items p) full.1 (full-All p full.2)

  recv_shuffled :
      (flag : Bool) (p : Provider) (chunks : List (List Bytes))
      → IsFull IsItem (bare chunks)
      → recv_evaluated_items
          (some client)
          server.get_ec_point_length
          (queue_of server IsClient IsItem oprf fresh (some client) is_client flag 0 p)
          (shuffled_batches server IsClient IsItem oprf fresh client is_client flag chunks)
          empty_memory_store
        ≡ ok (save_batches oprf.masked (bare chunks) empty_memory_store)
  recv_shuffled flag p chunks full =
      rw
        (
          queue_of-nil server IsClient IsItem oprf fresh client is_client flag 0 p,
          sym (
              queue_of-nil server IsClient IsItem oprf fresh client is_client flag 0 (bare chunks)),
          shuffled_batches-evaluated_batches server IsClient IsItem oprf fresh client is_client flag
              0 chunks,
        )
        (recv_evaluated_items_lem server IsClient IsItem oprf fresh (some client) is_client flag 0
          (bare chunks) empty_memory_store full)

  pub exchange_items-Exchanged :
      (config : Config) (p : Provider)
      → config.client_get_result ≡ false
      → 0 < config.batch_size
      → IsFull IsItem p
      → Exchanged config p (exchange_items config server shuffle (some client) fresh p)
  unfolding exchange_items recv_blind_and_shuffle_send_evaluate
  exchange_items-Exchanged config p to_server pos full =
      let flag = config.server_get_result in
      let items = all_items p in
      let ids = ids_of shuffle p in
      let perm = permutes (iota 0 (length items)) in
      let enough : length ids ≤ length items =
        omega (arith, length-perm perm, length-iota 0 (length items)) in
      let within =
        All-perm (λ i. i < length items) perm
          (iota-Within (length items) 0 (length items) (omega arith)) in
      let (chunks, sent, whole, bare_full) =
        send_shuffled-Sends server IsClient IsItem oprf fresh client is_client flag (length items)
          config.batch_size items ids pos enough within (full-All p full) in
      (
        chunks,
        whole,
        bare_full,
        rw
            (
              send_blinded_items_lem server IsClient IsItem oprf fresh (some client) is_client flag
                  0 p full,
              to_server,
              recv_blind_and_evaluate_lem server IsClient IsItem oprf fresh client is_client flag 0
                  p no_peers full,
              length-map items (oprf.evaluated client),
              sent,
              recv_shuffled flag p chunks bare_full,
            )
            refl,
      )

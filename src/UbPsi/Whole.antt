-- ===== src/UbPsi/Whole.antt =====
-- `Online` of psi/algorithm/ecdh/ub_psi/server.cc and client.cc, after the offline stage.
use mathlib.Core.Path.{ap₂}
use mathlib.Core.List.{Permᴰ}
use mathlib.Core.List.Permᴰ
use psi.Prelude.{
  ℕ, ◌+◌, ◌%◌, ◌^◌, ◌≡◌, ◌<◌, ◌≤◌, refl, ◌∙◌, ap, subst, Bool, true, false, Option, none, some,
  List, [], ◌∷◌, map, length, length-map, Result, ok, Returns, ◌==◌, if◌then◌else◌, arith,
}
use psi.Prelude.Bytes.{Bytes}
use psi.Prelude.Count.{All}
use psi.Ecdh.{Provider, DupCnt, dup_at}
use psi.UbPsi.{OprfServer, OprfClient, uint32}
use psi.UbPsi.Server.{PeerCntInfo, no_peers, recv_cache_indexes}
use psi.UbPsi.Client.{send_server_cache_indexes}
use psi.UbPsi.Store.{MemoryStore, FileStore, Match, empty_memory_store, push_match}
use psi.UbPsi.Round.{IsOprf, AreClients, IsFull, all_items}
use psi.UbPsi.Exchange.{
  counts_of, save_batches, send_blinded_items_lem, recv_blind_and_send_evaluate_lem,
  recv_evaluated_items_lem,
}
use psi.UbPsi.Offline.{Row}
use psi.UbPsi.Caching.{Accepted, cache_folder}
use psi.UbPsi.Reading.{masked_row, new_provider-ReadsBack}
use psi.UbPsi.Transfer.{in_file}
use psi.UbPsi.Preparation.{Holds, reopened}
use psi.UbPsi.Matching.{matches, compute_indices_with_dup_cnt-perm}
use psi.UbPsi.Rows.{InOrder, share, shared_rows, rows_of_matches}
use psi.UbPsi.Counting.{extra_copies_of, AreMaps, dup_at-counts_of}
use psi.UbPsi.Common.{index_of, at_index, IsInjective, find-save_batches}
use psi.UbPsi.Online.{
  Config, exchange_items, server_rows, trans_cache_indexes_to_row_indexs, online,
}

-- A row of the client, for a row of the server whose item it has: its index and the server's count.
abbrev pub client_row : Option ℕ → Row → List (ℕ × ℕ) → List (ℕ × ℕ)
client_row none r rows = rows
client_row (some i) r rows = (i, r.dup_cnt) ∷ rows

unfoldable pub common_of_client : List Bytes → List Row → List (ℕ × ℕ)
common_of_client items [] = []
common_of_client items (r ∷ rows) =
    client_row (index_of items r.item) r (common_of_client items rows)

-- A row of the server, if the client has its item: the row and the client's count.
abbrev pub server_row : (ℕ → ℕ) → Option ℕ → Row → List (ℕ × ℕ) → List (ℕ × ℕ)
server_row cnt none r rows = rows
server_row cnt (some i) r rows = (r.row_index, cnt i) ∷ rows

unfoldable pub common_of_server : (ℕ → ℕ) → List Bytes → List Row → List (ℕ × ℕ)
common_of_server cnt items [] = []
common_of_server cnt items (r ∷ rows) =
    server_row cnt (index_of items r.item) r (common_of_server cnt items rows)

pub result_rows :
    (b : Bool) {served : Result (List (ℕ × ℕ))} {rows : List (ℕ × ℕ)}
    → served ≡ ok rows
    → (if b then served else ok []) ≡ ok (if b then rows else [])
result_rows true e = e
result_rows false e = refl

pub rows_eq :
    (b : Bool) {rows rows' : List (ℕ × ℕ)}
    → (b ≡ true → rows ≡ rows')
    → (if b then rows else []) ≡ (if b then rows' else [])
rows_eq true e = e refl
rows_eq false e = refl

-- The numbers of the rows fit the cache's 32 bits.
abbrev pub Fits32 : List Row → Type 0
Fits32 rows = All (λ r. r.row_index < 2 ^ 32) rows

module _ (server : OprfServer) (IsClient : OprfClient → Type 0) (IsItem : Bytes → Type 0)
    (oprf : IsOprf server IsClient IsItem) (injective : IsInjective IsItem oprf.masked) where
  abbrev pub stored_row : Row → Row
  stored_row r = masked_row server IsClient IsItem oprf r

  module _ (p : Provider) (full : IsFull IsItem p) (small : length (all_items p) < 2 ^ 32) where
    abbrev pub store_of : MemoryStore
    store_of = save_batches oprf.masked p empty_memory_store

    abbrev client_entry : Match → ℕ × ℕ
    client_entry m = (m.self_index, m.peer_dup_cnt)

    push_match-client_row :
        (o : Option ℕ) (j : ℕ) (r : Row) (found : List Match)
        → map client_entry (push_match (at_index o) j r.dup_cnt found)
          ≡ client_row o r (map client_entry found)
    push_match-client_row none j r found = refl
    push_match-client_row (some i) j r found = refl

    matches-common_of_client :
        (j : ℕ) (rows : List Row)
        → Accepted server IsClient IsItem oprf rows
        → map client_entry (matches store_of j (map in_file (map stored_row rows)))
          ≡ common_of_client (all_items p) rows
    unfolding matches common_of_client
    matches-common_of_client j [] h = refl
    matches-common_of_client j (r ∷ rows) h =
        let found = find-save_batches IsItem oprf.masked p r.item injective h.0 full small in
        rw found (
          push_match-client_row (index_of (all_items p) r.item) j r
            (matches store_of (j + 1) (map in_file (map stored_row rows)))
          ∙ ap (client_row (index_of (all_items p) r.item) r)
              (matches-common_of_client (j + 1) rows h.1))

    share-server_row :
        (dup : DupCnt) (cnt : ℕ → ℕ) (o : Option ℕ) (r : Row) (rows : List (ℕ × ℕ))
        → ((i : ℕ) → dup_at dup i ≡ cnt i)
        → r.row_index < 2 ^ 32
        → share dup (at_index o) (stored_row r) rows ≡ server_row cnt o r rows
    unfolding uint32
    share-server_row dup cnt none r rows same h = refl
    share-server_row dup cnt (some i) r rows same h =
        let fits : r.row_index % 2 ^ 32 ≡ r.row_index = omega (arith, h) in
        ap₂ (λ (n c : ℕ). (n, c) ∷ rows) fits (same i)

    pub shared_rows-common_of_server :
        (dup : DupCnt) (cnt : ℕ → ℕ) (rows : List Row)
        → ((i : ℕ) → dup_at dup i ≡ cnt i)
        → Accepted server IsClient IsItem oprf rows
        → Fits32 rows
        → shared_rows dup store_of (map stored_row rows) ≡ common_of_server cnt (all_items p) rows
    unfolding shared_rows common_of_server
    shared_rows-common_of_server dup cnt [] same h fits = refl
    shared_rows-common_of_server dup cnt (r ∷ rows) same h fits =
        let o = index_of (all_items p) r.item in
        let found = find-save_batches IsItem oprf.masked p r.item injective h.0 full small in
        rw found (
          share-server_row dup cnt o r (shared_rows dup store_of (map stored_row rows)) same fits.0
          ∙ ap (server_row cnt o r) (shared_rows-common_of_server dup cnt rows same h.1 fits.1))

  stored_row-InOrder :
      (j : ℕ) (rows : List Row)
      → j + length rows ≤ 2 ^ 32
      → InOrder j rows
      → InOrder j (map stored_row rows)
  unfolding uint32
  stored_row-InOrder j [] h order = tt
  stored_row-InOrder j (r ∷ rows) h order =
      (omega (arith, order.0, h), stored_row-InOrder (j + 1) rows (omega (arith, h)) order.1)

  -- The server's end, for any matches of the rows in its cache.
  pub server_rows_lem :
      (config : Config) (private_key : Bytes) (selected_keys : List Bytes) (rows : List Row)
      (store : MemoryStore) (info : PeerCntInfo) (found : List Match)
      → 0 < config.batch_size
      → config.batch_size < 2 ^ 32
      → Accepted server IsClient IsItem oprf rows
      → length rows < 2 ^ 32
      → InOrder 0 rows
      → Permᴰ found (matches store 0 (map in_file (map stored_row rows)))
      → server_rows config
          (cache_folder server IsClient IsItem oprf private_key selected_keys rows)
          info
          found
        ≡ ok (shared_rows info.peer_dup_cnt store (map stored_row rows))
  unfolding server_rows recv_cache_indexes send_server_cache_indexes
      trans_cache_indexes_to_row_indexs
  server_rows_lem config private_key selected_keys rows store info found pos wide accepted few order
        perm =
      let (provider, opened, back) =
        new_provider-ReadsBack server IsClient IsItem oprf private_key selected_keys rows
          config.batch_size accepted pos wide few in
      let (chunks, reads, whole, full) = back in
      let same : length (map (λ m. m.self_index) found) == length (map (λ m. m.peer_index) found)
          ≡ true =
        ground
          (arith, length-map found (λ m. m.self_index), length-map found (λ m. m.peer_index)) in
      rw (same, opened, reads)
        (rows_of_matches info.peer_dup_cnt store found chunks (map stored_row rows) perm whole
          (stored_row-InOrder 0 rows (omega (arith, few)) order))

  module _ (fresh : ℕ → ℕ → OprfClient) (oprf_client : Option OprfClient)
      (are_clients : AreClients IsClient fresh oprf_client) where
    exchange_items_lem :
        (config : Config) (shuffle : List ℕ → List ℕ) (p : Provider)
        → config.client_get_result ≡ true
        → IsFull IsItem p
        → exchange_items config server shuffle oprf_client fresh p
          ≡ ok (
            save_batches oprf.masked p empty_memory_store,
            counts_of config.server_get_result p no_peers,
          )
    unfolding exchange_items
    exchange_items_lem config shuffle p to_client full =
        let flag = config.server_get_result in
        rw
          (
            send_blinded_items_lem server IsClient IsItem oprf fresh oprf_client are_clients flag 0
                p full,
            to_client,
            recv_blind_and_send_evaluate_lem server IsClient IsItem oprf fresh oprf_client
                are_clients flag 0 p no_peers full,
            recv_evaluated_items_lem server IsClient IsItem oprf fresh oprf_client are_clients flag
                0 p empty_memory_store full,
          )
          refl

    -- The online stage where the client gets the result, on the cache that the server made of its rows
    -- and the file that it sent the client. The OPRF accepts all items and clients and gives different
    -- items different masks; the client's batches are not empty and have fewer than 2^32 items
    -- together, and their counts are maps on the positions of a batch; the server's rows are fewer than
    -- 2^32, in the order of their positions, with numbers below 2^32; the compare length is below 32;
    -- the batch size, below 2^32, and the number of threads are not 0. Then the stage returns. The client gets, for
    -- each of the server's rows whose item it has, the index of its last such item with the server's
    -- count, each once, in an order that depends on the threads. If the server gets the result as
    -- well, it gets the numbers of those rows in the cache's order, each with the client's count at
    -- that index, and otherwise nothing.
    pub online-common :
        (config : Config) (shuffle : List ℕ → List ℕ) (p : Provider) (peer : FileStore)
        (private_key : Bytes) (selected_keys : List Bytes) (rows : List Row)
        → config.client_get_result ≡ true
        → 0 < config.batch_size
        → config.batch_size < 2 ^ 32
        → 0 < config.compare_thread_num
        → server.get_compare_length < 32
        → IsFull IsItem p
        → AreMaps p
        → length (all_items p) < 2 ^ 32
        → Accepted server IsClient IsItem oprf rows
        → Fits32 rows
        → length rows < 2 ^ 32
        → InOrder 0 rows
        → Holds server IsClient IsItem oprf rows peer
        → Returns
            (online config server shuffle oprf_client fresh p peer
              (cache_folder server IsClient IsItem oprf private_key selected_keys rows))
            (λ out.
              Permᴰ out.client_rows (common_of_client (all_items p) rows)
              × (out.server_rows ≡ (
                  if config.server_get_result
                  then common_of_server (extra_copies_of p) (all_items p) rows
                  else [])))
    unfolding online
    online-common config shuffle p peer private_key selected_keys rows to_client pos wide threads
          short full maps small accepted fits32 size order holds =
        let store : MemoryStore = save_batches oprf.masked p empty_memory_store in
        let info : PeerCntInfo = counts_of config.server_get_result p no_peers in
        let (peer', opened, same) = reopened server IsClient IsItem oprf rows peer short holds in
        let few : length peer'.items ≤ 2 ^ 32 = omega (
          arith,
          size,
          ap length (same ∙ holds.0),
          length-map (map stored_row rows) in_file,
          length-map rows stored_row,
        ) in
        let (found, computed, any_order) =
          compute_indices_with_dup_cnt-perm store config.compare_thread_num peer' config.batch_size
            threads pos few in
        let perm : Permᴰ found (matches store 0 (map in_file (map stored_row rows))) =
          subst (λ l. Permᴰ found (matches store 0 l)) (same ∙ holds.0) any_order in
        let exchanged = exchange_items_lem config shuffle p to_client full in
        let client_rows =
          subst (Permᴰ (map (client_entry p full small) found))
            (matches-common_of_client p full small 0 rows accepted)
            (Permᴰ.map (client_entry p full small) perm) in
        let served =
          server_rows_lem config private_key selected_keys rows store info found pos wide accepted
            size order perm in
        let to_both : config.server_get_result ≡ true
            → shared_rows info.peer_dup_cnt store (map stored_row rows)
              ≡ common_of_server (extra_copies_of p) (all_items p) rows =
          λ both.
            shared_rows-common_of_server p full small info.peer_dup_cnt (extra_copies_of p) rows
              (λ i.
                ap (λ b. dup_at (counts_of b p no_peers).peer_dup_cnt i) both
                ∙ dup_at-counts_of p i maps small)
              accepted fits32 in
        let shared : List (ℕ × ℕ) =
          if config.server_get_result
          then shared_rows info.peer_dup_cnt store (map stored_row rows)
          else [] in
        let client_rows' : List (ℕ × ℕ) = map (client_entry p full small) found in
        (
          record { client_rows = client_rows'; server_rows = shared; peer_cnt_info = info },
          rw (exchanged, opened, computed, result_rows config.server_get_result served)
              (ap
                (λ b. ok (record {
                  client_rows = if b then client_rows' else [];
                  server_rows = shared;
                  peer_cnt_info = info;
                }))
                to_client),
          (client_rows, rows_eq config.server_get_result to_both),
        )

-- ===== src/UbPsi/ServerOnly.antt =====
-- `Online` of psi/algorithm/ecdh/ub_psi/server.cc and client.cc where the client does not get the
-- result, and the server of ecdh_oprf_psi.cc shuffles what it sends the client.
use mathlib.Core.List.{Permᴰ}
use mathlib.Core.Option
use psi.Prelude.{
  ℕ, ◌^◌, ◌≡◌, ◌<◌, ◌≤◌, refl, ◌∙◌, ap, subst, true, false, Option, none, some, List, [], ◌∷◌,
  get_or, map, length, length-map, ok, Returns, if◌then◌else◌, arith,
}
use psi.Prelude.Count.{length-perm}
use psi.Prelude.Bytes.{Bytes, concat}
use psi.BatchProvider.{iota}
use psi.Ecdh.{Provider, dup_at}
use psi.UbPsi.{OprfServer, OprfClient}
use psi.UbPsi.Server.{PeerCntInfo, no_peers}
use psi.UbPsi.Store.{MemoryStore, FileStore, empty_memory_store}
use psi.UbPsi.Round.{IsOprf, IsFull, all_items}
use psi.UbPsi.Exchange.{counts_of, save_batches}
use psi.UbPsi.Offline.{Row}
use psi.UbPsi.Caching.{Accepted, cache_folder}
use psi.UbPsi.Transfer.{in_file}
use psi.UbPsi.Preparation.{Holds, reopened}
use psi.UbPsi.Matching.{matches, compute_indices_with_dup_cnt-perm}
use psi.UbPsi.Rows.{InOrder, shared_rows}
use psi.UbPsi.Counting.{extra_copies_of, AreMaps, dup_at-counts_of}
use psi.UbPsi.Common.{index_of, IsInjective}
use psi.UbPsi.Shuffling.{picked, bare, all_items-bare}
use psi.UbPsi.ShuffledExchange.{ids_of, moved, length-iota, exchange_items-Exchanged}
use psi.UbPsi.Indices.{IsDistinct, index_of-picked}
use psi.UbPsi.Whole.{
  Fits32, server_row, common_of_server, stored_row, result_rows, rows_eq,
  shared_rows-common_of_server, server_rows_lem,
}
use psi.UbPsi.Online.{Config, online}

same_row :
    (cnt cnt' : ℕ → ℕ) (o o' : Option ℕ) (r : Row) (rows : List (ℕ × ℕ))
    → Option.map cnt' o' ≡ Option.map cnt o
    → server_row cnt' o' r rows ≡ server_row cnt o r rows
same_row cnt cnt' none none r rows e = refl
same_row cnt cnt' none (some i) r rows e = absurd (cc)
same_row cnt cnt' (some i) none r rows e = absurd (cc)
same_row cnt cnt' (some i) (some j) r rows e = ap (λ c. (r.row_index, c) ∷ rows) (cc)

-- The server's rows depend only on the counts that it finds for the items.
same_rows :
    (cnt cnt' : ℕ → ℕ) (items items' : List Bytes) (rows : List Row)
    → ((b : Bytes) → Option.map cnt' (index_of items' b) ≡ Option.map cnt (index_of items b))
    → common_of_server cnt' items' rows ≡ common_of_server cnt items rows
unfolding common_of_server
same_rows cnt cnt' items items' [] h = refl
same_rows cnt cnt' items items' (r ∷ rows) h =
    ap (server_row cnt' (index_of items' r.item) r) (same_rows cnt cnt' items items' rows h)
    ∙ same_row cnt cnt' (index_of items r.item) (index_of items' r.item) r
        (common_of_server cnt items rows) (h r.item)

module _ (server : OprfServer) (IsClient : OprfClient → Type 0) (IsItem : Bytes → Type 0)
    (oprf : IsOprf server IsClient IsItem) (fresh : ℕ → ℕ → OprfClient) (client : OprfClient)
    (is_client : IsClient client) (shuffle : List ℕ → List ℕ)
    (permutes : (l : List ℕ) → Permᴰ (shuffle l) l)
    (injective : IsInjective IsItem oprf.masked) where
  shuffled_rows :
      (p : Provider) (chunks : List (List Bytes)) (rows : List Row)
      → concat chunks ≡ picked (all_items p) (ids_of shuffle p)
      → IsFull IsItem (bare chunks)
      → AreMaps p
      → IsDistinct (all_items p)
      → length (all_items p) < 2 ^ 32
      → Accepted server IsClient IsItem oprf rows
      → Fits32 rows
      → shared_rows
          (moved shuffle true p).peer_dup_cnt
          (save_batches oprf.masked (bare chunks) empty_memory_store)
          (map (stored_row server IsClient IsItem oprf injective) rows)
        ≡ common_of_server (extra_copies_of p) (all_items p) rows
  shuffled_rows p chunks rows whole full maps distinct small accepted fits32 =
      let items = all_items p in
      let old = (counts_of true p no_peers).peer_dup_cnt in
      let dup = (moved shuffle true p).peer_dup_cnt in
      let perm = permutes (iota 0 (length items)) in
      let same_items : all_items (bare chunks) ≡ picked items (ids_of shuffle p) =
        all_items-bare chunks ∙ whole in
      let small' : length (all_items (bare chunks)) < 2 ^ 32 = omega (
        arith,
        small,
        ap length same_items,
        length-map (ids_of shuffle p) (λ i. get_or items i []),
        length-perm perm,
        length-iota 0 (length items),
      ) in
      shared_rows-common_of_server server IsClient IsItem oprf injective (bare chunks) full small'
        dup (dup_at dup) rows (λ i. refl) accepted fits32
      ∙ same_rows (extra_copies_of p) (dup_at dup) items (all_items (bare chunks)) rows (λ b.
        ap (λ l. Option.map (dup_at dup) (index_of l b)) same_items
        ∙ index_of-picked items (ids_of shuffle p) perm distinct old (extra_copies_of p) b
            (λ i. dup_at-counts_of p i maps small))

  -- The online stage where the client does not get the result, on the cache that the server made of
  -- its rows and the file that it sent the client.
  pub online-common_of_server :
      (config : Config) (p : Provider) (peer : FileStore) (private_key : Bytes)
      (selected_keys : List Bytes) (rows : List Row)
      → config.client_get_result ≡ false
      → 0 < config.batch_size
      → config.batch_size < 2 ^ 32
      → 0 < config.compare_thread_num
      → server.get_compare_length < 32
      → IsFull IsItem p
      → AreMaps p
      → IsDistinct (all_items p)
      → length (all_items p) < 2 ^ 32
      → Accepted server IsClient IsItem oprf rows
      → Fits32 rows
      → length rows < 2 ^ 32
      → InOrder 0 rows
      → Holds server IsClient IsItem oprf rows peer
      → Returns
          (online config server shuffle
            (some client)
            fresh
            p
            peer
            (cache_folder server IsClient IsItem oprf private_key selected_keys rows))
          (λ out.
            (out.client_rows ≡ [])
            × (out.server_rows ≡ (
                if config.server_get_result
                then common_of_server (extra_copies_of p) (all_items p) rows
                else [])))
  unfolding online
  online-common_of_server config p peer private_key selected_keys rows to_server pos wide threads
        short full maps distinct small accepted fits32 size order holds =
      let (chunks, whole, bare_full, exchanged) =
        exchange_items-Exchanged server IsClient IsItem oprf fresh client is_client shuffle permutes
          config p to_server pos full in
      let shuffled : Provider = bare chunks in
      let store : MemoryStore = save_batches oprf.masked shuffled empty_memory_store in
      let info : PeerCntInfo = moved shuffle config.server_get_result p in
      let stored : List Row = map (stored_row server IsClient IsItem oprf injective) rows in
      let (peer', opened, same) = reopened server IsClient IsItem oprf rows peer short holds in
      let few : length peer'.items ≤ 2 ^ 32 = omega (
        arith,
        size,
        ap length (same ∙ holds.0),
        length-map (stored) in_file,
        length-map rows (stored_row server IsClient IsItem oprf injective),
      ) in
      let (found, computed, any_order) =
        compute_indices_with_dup_cnt-perm store config.compare_thread_num peer' config.batch_size
          threads pos few in
      let perm : Permᴰ found (matches store 0 (map in_file stored)) =
        subst (λ l. Permᴰ found (matches store 0 l)) (same ∙ holds.0) any_order in
      let served =
        server_rows_lem server IsClient IsItem oprf injective config private_key selected_keys rows
          store info found pos wide accepted size order perm in
      let to_both : config.server_get_result ≡ true
          → shared_rows info.peer_dup_cnt store stored
            ≡ common_of_server (extra_copies_of p) (all_items p) rows =
        λ both.
          ap (λ b. shared_rows (moved shuffle b p).peer_dup_cnt store stored) both
          ∙ shuffled_rows p chunks rows whole bare_full maps distinct small accepted fits32 in
      let shared : List (ℕ × ℕ) =
        if config.server_get_result then shared_rows info.peer_dup_cnt store stored else [] in
      (
        record { client_rows = []; server_rows = shared; peer_cnt_info = info },
        rw (exchanged, opened, computed, result_rows config.server_get_result served)
            (ap
              (λ b. ok (record {
                client_rows = if b then map (λ m. (m.self_index, m.peer_dup_cnt)) found else [];
                server_rows = shared;
                peer_cnt_info = info;
              }))
              to_server),
        (refl, rows_eq config.server_get_result to_both),
      )

-- ===== src/UbPsi/Preparation.antt =====
-- The offline stage of psi/algorithm/ecdh/ub_psi/server.cc and client.cc as a whole.
use psi.Prelude.{
  ℕ, suc, ◌+◌, ◌%◌, ◌^◌, ◌≡◌, ◌<◌, refl, sym, ◌∙◌, ap, subst, some, List, [], ◌∷◌, map, length,
  length-map, true, ok, ◌>>=◌, Returns, leb, ◌==◌, arith,
}
use psi.Prelude.Bytes.{Bytes, concat}
use psi.Prelude.Count.{All, total}
use psi.Ecdh.{Provider}
use psi.UbPsi.{OprfServer, OprfClient, uint32}
use psi.UbPsi.Cache.{Folder, non_zero, read_all_with_dup_cnt}
use psi.UbPsi.Store.{FileStore, open_file_store, dump_meta, load_meta}
use psi.UbPsi.Round.{IsOprf}
use psi.UbPsi.Offline.{Row, columns}
use psi.UbPsi.Online.{offline_gen_cache, offline_transfer_cache}
use psi.UbPsi.Caching.{NonEmpty, Accepted, cache_folder, offline_gen_cache_lem}
use psi.UbPsi.Reading.{with_dups, masked_row, read_all_with_dup_cnt_lem, new_provider-ReadsBack}
use psi.UbPsi.Transfer.{
  in_file, copies, filled, items-filled, item_cnt-filled, peer_cnt-filled, cipher_len-filled,
  OfSize, transfer_lem,
}

pub All-concat :
    {A : Type 0} (P : A → Type 0) (xss : List (List A)) → All P (concat xss) → All (All P) xss
All-concat P [] h = tt
All-concat P ([] ∷ xss) h = (tt, All-concat P xss h)
All-concat P ((x ∷ xs) ∷ xss) h =
    let (first, rest) = All-concat P (xs ∷ xss) h.1 in ((h.0, first), rest)

pub concat-All :
    {A : Type 0} (P : A → Type 0) (xss : List (List A)) → All (All P) xss → All P (concat xss)
concat-All P [] h = tt
concat-All P ([] ∷ xss) h = concat-All P xss h.1
concat-All P ((x ∷ xs) ∷ xss) h = (h.0.0, concat-All P (xs ∷ xss) (h.0.1, h.1))

columns-with_dups :
    (chunks : List (List Row))
    → map (λ b. (b.batch_items, non_zero 0 b.dup_cnts)) (map columns chunks) ≡ map with_dups chunks
columns-with_dups [] = refl
columns-with_dups (rows ∷ chunks) = ap (λ l. with_dups rows ∷ l) (columns-with_dups chunks)

total-map :
    (f : Row → Row) (rows : List Row)
    → ((r : Row) → copies (f r) ≡ copies r)
    → total copies (map f rows) ≡ total copies rows
total-map f [] h = refl
total-map f (r ∷ rows) h = omega (arith, h r, total-map f rows h)

module _ (server : OprfServer) (IsClient : OprfClient → Type 0) (IsItem : Bytes → Type 0)
    (oprf : IsOprf server IsClient IsItem) where
  masked_rows : List Row → List Row
  masked_rows rows = map (masked_row server IsClient IsItem oprf) rows

  masked_rows-OfSize :
      (rows : List Row)
      → Accepted server IsClient IsItem oprf rows
      → OfSize server.get_compare_length (masked_rows rows)
  unfolding masked_rows
  masked_rows-OfSize [] h = tt
  masked_rows-OfSize (r ∷ rows) h = (oprf.length-masked r.item h.0, masked_rows-OfSize rows h.1)

  -- What the client's files hold of the server's rows.
  abbrev pub Holds : List Row → FileStore → Type 0
  Holds rows store =
      (store.items ≡ map in_file (map (masked_row server IsClient IsItem oprf) rows))
      × (store.peer_cnt ≡ total copies rows % 2 ^ 32)
      × (store.meta_file
          ≡ some (record {
            item_cnt = length rows % 2 ^ 32;
            peer_cnt = total copies rows % 2 ^ 32;
            cipher_len = server.get_compare_length;
          }))

  -- The client's files are opened again.
  pub reopened :
      (rows : List Row) (store : FileStore)
      → server.get_compare_length < 32
      → Holds rows store
      → Returns
          (open_file_store server.get_compare_length store.items store.meta_file)
          (λ peer. peer.items ≡ store.items)
  unfolding open_file_store load_meta uint32
  reopened rows store short holds =
      let fits : leb server.get_compare_length 32 ≡ true = ground (arith, short) in
      let same : server.get_compare_length == server.get_compare_length ≡ true = ground arith in
      let size : length store.items ≡ length rows =
        ap length holds.0
        ∙ length-map (map (masked_row server IsClient IsItem oprf) rows) in_file
        ∙ length-map rows (masked_row server IsClient IsItem oprf) in
      let counted : (length store.items % 2 ^ 32) == (length rows % 2 ^ 32) ≡ true =
        ground (arith, size) in
      (
        record {
          items = store.items;
          meta_file = store.meta_file;
          cipher_len = server.get_compare_length;
          item_cnt = uint32 (length store.items);
          peer_cnt = total copies rows % 2 ^ 32;
        },
        rw (fits, holds.2, same, counted) refl,
        refl,
      )

  pub transfer_cached :
      (private_key : Bytes) (selected_keys : List Bytes) (rows : List Row) (batch_size : ℕ)
      → server.get_compare_length < 32
      → 0 < batch_size
      → batch_size < 2 ^ 32
      → length rows < 2 ^ 32
      → Accepted server IsClient IsItem oprf rows
      → Returns
          (offline_transfer_cache server batch_size
            (cache_folder server IsClient IsItem oprf private_key selected_keys rows))
          (λ sent. Holds rows sent.0 × (sent.1 ≡ length rows))
  unfolding offline_transfer_cache open_file_store dump_meta masked_rows load_meta uint32
  transfer_cached private_key selected_keys rows batch_size short pos wide few accepted =
      let size = server.get_compare_length in
      let (p, opened, back) =
        new_provider-ReadsBack server IsClient IsItem oprf private_key selected_keys rows batch_size
          accepted pos wide few in
      let (chunks, reads, whole, full) = back in
      let sizes : All (OfSize size) chunks =
        All-concat (λ r. length r.item ≡ size) chunks
          (subst (OfSize size) (sym whole) (masked_rows-OfSize rows accepted)) in
      let batches : read_all_with_dup_cnt (suc p.meta.item_count) p ≡ ok (map with_dups chunks) =
        read_all_with_dup_cnt_lem server IsClient IsItem oprf (suc p.meta.item_count) p
        ∙ (rw reads (ap (λ (l : Provider). ok l) (columns-with_dups chunks))) in
      let fits : leb size 32 ≡ true = ground (arith, short) in
      let start : FileStore = record {
        items = [];
        meta_file = some (record { item_cnt = uint32 0; peer_cnt = 0; cipher_len = size });
        cipher_len = size;
        item_cnt = uint32 0;
        peer_cnt = 0;
      } in
      let (received, count) =
        transfer_lem size chunks start oprf.compare_length_pos refl full sizes in
      let filled_store : FileStore = filled (concat chunks) start in
      let count_rows = ap length whole ∙ length-map rows (masked_row server IsClient IsItem oprf) in
      let items : filled_store.item_cnt ≡ length rows % 2 ^ 32 =
        item_cnt-filled (concat chunks) start (omega arith)
        ∙ ap (λ n. (0 + n) % 2 ^ 32) count_rows
        ∙ omega arith in
      let peers : filled_store.peer_cnt ≡ total copies rows % 2 ^ 32 =
        peer_cnt-filled (concat chunks) start (omega arith)
        ∙ ap (λ (l : List Row). (0 + total copies l) % 2 ^ 32) whole
        ∙ ap (λ n. (0 + n) % 2 ^ 32)
            (total-map (masked_row server IsClient IsItem oprf) rows (λ r. refl))
        ∙ omega arith in
      (
        (dump_meta filled_store, length (concat chunks)),
        rw (opened, batches, fits, received, count) refl,
        (
          (
            items-filled (concat chunks) start ∙ ap (map in_file) whole,
            peers,
            rw (items, peers, cipher_len-filled (concat chunks) start) refl,
          ),
          count_rows,
        ),
      )

  -- The server masks its items into a cache and sends the cache to the client. With batches that are
  -- not empty, of fewer than 2^32 items together, which the OPRF accepts, a compare length below 32 and
  -- a batch size below 2^32 that is not 0, both stages return, whatever the folder held before: the client's file
  -- has the masked items of all the server's rows in order, each with its count of extra copies, the
  -- peer's count is the number of copies modulo 2^32, and the other file has both counts modulo 2^32
  -- and the compare length; the number of items that is reported is the number of rows.
  pub offline_gen_cache-offline_transfer_cache :
      (private_key : Bytes) (selected_keys : List Bytes) (batches : List (List Row))
      (folder : Folder) (batch_size : ℕ)
      → server.get_compare_length < 32
      → 0 < batch_size
      → batch_size < 2 ^ 32
      → length (concat batches) < 2 ^ 32
      → NonEmpty batches
      → All (Accepted server IsClient IsItem oprf) batches
      → Returns
          (offline_gen_cache server private_key selected_keys (map columns batches) folder
            >>= λ made. offline_transfer_cache server batch_size made.0)
          (λ sent. Holds (concat batches) sent.0 × (sent.1 ≡ length (concat batches)))
  offline_gen_cache-offline_transfer_cache private_key selected_keys batches folder batch_size short
        pos wide few full accepted =
      rw
        (offline_gen_cache_lem server IsClient IsItem oprf private_key selected_keys batches folder
          short full accepted)
        (transfer_cached private_key selected_keys (concat batches) batch_size short pos wide few
          (concat-All (λ r. IsItem r.item) batches accepted))

-- ===== src/UbPsi/Caching.antt =====
-- `OfflineGenCache` of psi/algorithm/ecdh/ub_psi/server.cc, and the reading of the cache.
use psi.Prelude.{
  ℕ, ◌+◌, ◌≡◌, ◌<◌, refl, sym, ap, true, false, some, List, [], ◌∷◌, ◌++◌, map, length, length-map,
  length-append, ok, ltb, arith,
}
use psi.Prelude.Bytes.{Bytes, is_nil, concat}
use psi.Prelude.Count.{All}
use psi.UbPsi.{OprfServer, OprfClient, uint32, DataBatch, data_batch, for_each}
use psi.UbPsi.Server.{evaluate_batches, full_evaluate, save_masked, extra_copies}
use psi.UbPsi.Cache.{UbPsiCache, Folder, new_cache, flush}
use psi.UbPsi.Round.{IsOprf}
use psi.UbPsi.Offline.{
  Row, columns, cached, masked_items, Fits, grown, grown-nil, grown-grown, save_batch-grown,
}
use psi.UbPsi.Online.{offline_gen_cache}

-- No batch is empty.
abbrev pub NonEmpty : List (List Row) → Type 0
NonEmpty batches = All (λ rows. is_nil rows ≡ false) batches

module _ (server : OprfServer) (IsClient : OprfClient → Type 0) (IsItem : Bytes → Type 0)
    (oprf : IsOprf server IsClient IsItem) where
  abbrev len : ℕ
  len = server.get_compare_length

  -- The OPRF accepts the items of the rows.
  abbrev pub Accepted : List Row → Type 0
  Accepted rows = All (λ r. IsItem r.item) rows

  Accepted-Fits : (rows : List Row) → Accepted rows → Fits oprf.masked len rows
  Accepted-Fits [] h = tt
  Accepted-Fits (r ∷ rows) h = (oprf.length-masked r.item h.0, Accepted-Fits rows h.1)

  for_each-masked_items :
      (rows : List Row)
      → Accepted rows
      → for_each server.simple_evaluate (map (λ r. r.item) rows)
        ≡ ok (masked_items oprf.masked len rows)
  unfolding for_each
  for_each-masked_items [] h = refl
  for_each-masked_items (r ∷ rows) h =
      rw (oprf.simple_evaluate-masked r.item h.0, for_each-masked_items rows h.1) refl

  sent_batches : List (List Row) → List DataBatch
  sent_batches batches =
      map
        (λ rows.
          data_batch (masked_items oprf.masked len rows)
            (extra_copies 0 (map (λ r. r.dup_cnt) rows)))
        batches

  is_nil-map : {B : Type 0} (f : Row → B) (rows : List Row) → is_nil (map f rows) ≡ is_nil rows
  is_nil-map f [] = refl
  is_nil-map f (r ∷ rows) = refl

  evaluate_batches-grown :
      (batches : List (List Row)) (c : UbPsiCache)
      → c.data_len ≡ len
      → NonEmpty batches
      → All Accepted batches
      → evaluate_batches server (map columns batches) (some c)
        ≡ ok (
          sent_batches batches,
          length (concat batches),
          some (grown oprf.masked len (concat batches) c),
        )
  unfolding evaluate_batches save_masked sent_batches
  evaluate_batches-grown [] c same full accepted =
      ap (λ (g : UbPsiCache). ok ([], 0, some g)) (sym (grown-nil oprf.masked len c))
  evaluate_batches-grown (rows ∷ batches) c same full accepted =
      let saved =
        save_batch-grown oprf.masked len [] rows c same tt (Accepted-Fits rows accepted.0) in
      let rest =
        evaluate_batches-grown batches (grown oprf.masked len rows c) same full.1 accepted.1 in
      rw
        (
          is_nil-map (λ r. r.item) rows,
          full.0,
          for_each-masked_items rows accepted.0,
          length-map rows (λ r. r.item),
          saved,
          rest,
          grown-grown oprf.masked len rows (concat batches) c,
        )
        (ap
          (λ (n : ℕ). ok (
            sent_batches (rows ∷ batches),
            n,
            some (grown oprf.masked len (rows ++ concat batches) c),
          ))
          (sym (length-append rows (concat batches))))

  -- The folder of a cache of the rows.
  abbrev pub cache_folder : Bytes → List Bytes → List Row → Folder
  cache_folder private_key selected_keys rows = record {
    data_file = some (map (cached oprf.masked len) rows);
    meta_file = some (record {
      item_len = len;
      item_count = uint32 (length rows);
      priv_key = private_key;
      key_cols = selected_keys;
    });
  }

  -- With batches that are not empty, of items that the OPRF accepts, and a compare length below the
  -- largest, the cache is made whatever the folder held, and it holds the masked items of all rows in
  -- order, with their positions and rows modulo 2^32 and their counts, and the server's key.
  pub offline_gen_cache_lem :
      (private_key : Bytes) (selected_keys : List Bytes) (batches : List (List Row))
      (folder : Folder)
      → len < 32
      → NonEmpty batches
      → All Accepted batches
      → offline_gen_cache server private_key selected_keys (map columns batches) folder
        ≡ ok (cache_folder private_key selected_keys (concat batches), length (concat batches))
  unfolding offline_gen_cache new_cache full_evaluate flush
  offline_gen_cache_lem private_key selected_keys batches folder short full accepted =
      let fits : ltb len 32 ≡ true = ground (arith, short) in
      let empty : UbPsiCache = record {
        data_len = len;
        cache_cnt = 0;
        meta = record {
          item_len = len;
          item_count = 0;
          priv_key = private_key;
          key_cols = selected_keys;
        };
        buffered = [];
        folder = record { data_file = some []; meta_file = folder.meta_file };
      } in
      let count : 0 + length (concat batches) ≡ length (concat batches) = omega arith in
      rw (fits, evaluate_batches-grown batches empty refl full accepted, count) refl

-- ===== src/UbPsi/Cache.antt =====
-- psi/algorithm/ecdh/ub_psi/ub_psi_cache.h and .cc: the server's cache of masked items, written and
-- read. The folder of a cache is its two files; JSON and the streams keep what they store.
use psi.Prelude.{
  ℕ, zero, suc, ◌+◌, ◌-◌, min, Option, none, some, List, [], ◌∷◌, ◌++◌, map, length, take, drop,
  replicate, Result, ok, err, undefined, ◌>>=◌, ◌>>◌, enforce, of_option, ltb, leb, ◌==◌,
  if◌then◌else◌,
}
use psi.Prelude.Bytes.{Bytes, is_nil}
use psi.BatchProvider.{ShuffledBatch}
use psi.Ecdh.{DupCnt}
use psi.UbPsi.{uint32}

abbrev pub k_max_cipher_size : ℕ
k_max_cipher_size = 32

pub record UbPsiCacheItem : Type 0 where
  pub origin_index : ℕ
  pub shuffle_index : ℕ
  pub dup_cnt : ℕ
  pub text : Bytes

pub record UbPsiCacheMeta : Type 0 where
  pub item_len : ℕ
  pub item_count : ℕ
  pub priv_key : Bytes
  pub key_cols : List Bytes

-- ub_psi_cache.bin and ub_psi_cache.meta
pub record Folder : Type 0 where
  pub data_file : Option (List UbPsiCacheItem)
  pub meta_file : Option UbPsiCacheMeta

-- `buffered` is what the output stream has not written yet.
pub record UbPsiCache : Type 0 where
  pub data_len : ℕ
  pub cache_cnt : ℕ
  pub meta : UbPsiCacheMeta
  pub buffered : List UbPsiCacheItem
  pub folder : Folder

-- `BuildOutputStream` empties the data file.
unfoldable pub new_cache : ℕ → List Bytes → Bytes → Folder → Result UbPsiCache
new_cache data_len selected_fields private_key folder = do
  enforce (ltb data_len k_max_cipher_size)
  ok (record {
    data_len = data_len;
    cache_cnt = 0;
    meta = record {
      item_len = data_len;
      item_count = 0;
      priv_key = private_key;
      key_cols = selected_fields;
    };
    buffered = [];
    folder = record { data_file = some []; meta_file = folder.meta_file };
  })

abbrev written : Option (List UbPsiCacheItem) → List UbPsiCacheItem
written none = []
written (some items) = items

-- The message's `item_count` has 32 bits.
unfoldable pub flush : UbPsiCache → UbPsiCache
flush c =
    let meta = record c.meta { item_count = uint32 c.cache_cnt } in
    record {
      data_len = c.data_len;
      cache_cnt = c.cache_cnt;
      meta = meta;
      buffered = [];
      folder = record {
        data_file = some (written c.folder.data_file ++ c.buffered);
        meta_file = some meta;
      };
    }

unfoldable pub save_data : Bytes → ℕ → ℕ → ℕ → UbPsiCache → Result UbPsiCache
save_data item index shuffle_index dup_cnt c = do
  enforce (length item == c.data_len)
  let cache_item : UbPsiCacheItem = record {
    origin_index = uint32 index;
    shuffle_index = uint32 shuffle_index;
    dup_cnt = dup_cnt;
    text = item ++ replicate (k_max_cipher_size - c.data_len) 0;
  }
  ok (record c { cache_cnt = c.cache_cnt + 1; buffered = c.buffered ++ cache_item ∷ [] })

-- `unread` is what the input stream has not read yet. `batch_size_` and `read_count_` have 32 bits.
pub record UbPsiCacheProvider : Type 0 where
  pub batch_size : ℕ
  pub meta : UbPsiCacheMeta
  pub unread : List UbPsiCacheItem
  pub read_count : ℕ

unfoldable pub new_provider : Folder → ℕ → Result UbPsiCacheProvider
new_provider folder batch_size = do
  items ← of_option folder.data_file
  meta ← of_option folder.meta_file
  enforce (length items == meta.item_count)
  ok (record { batch_size = uint32 batch_size; meta = meta; unread = items; read_count = 0 })

abbrev pub empty_batch : ShuffledBatch Bytes
empty_batch = record { batch_items = []; batch_indices = []; shuffled_indices = []; dup_cnts = [] }

-- The loop over the items that were read.
unfoldable pub batch_of : ℕ → List UbPsiCacheItem → ShuffledBatch Bytes
batch_of item_len items = record {
  batch_items = map (λ item. take item_len item.text) items;
  batch_indices = map (λ item. item.origin_index) items;
  shuffled_indices = map (λ item. item.shuffle_index) items;
  dup_cnts = map (λ item. item.dup_cnt) items;
}

unfoldable pub read_next_shuffled_batch :
    UbPsiCacheProvider → ShuffledBatch Bytes × UbPsiCacheProvider
read_next_shuffled_batch p =
    let count = min p.batch_size (p.meta.item_count - p.read_count) in
    if leb p.meta.item_count p.read_count
    then (empty_batch, p)
    else if ltb 0 count
    then (
      batch_of p.meta.item_len (take count p.unread),
      record p { unread = drop count p.unread; read_count = p.read_count + count },
    )
    else (empty_batch, p)

unfoldable pub non_zero : ℕ → List ℕ → DupCnt
non_zero i [] = []
non_zero i (cnt ∷ cnts) =
    let rest = non_zero (i + 1) cnts in if cnt == 0 then rest else (i, cnt) ∷ rest

unfoldable pub read_next_batch_with_dup_cnt :
    UbPsiCacheProvider → (List Bytes × DupCnt) × UbPsiCacheProvider
read_next_batch_with_dup_cnt p =
    let (batch, p') = read_next_shuffled_batch p in
    ((batch.batch_items, non_zero 0 batch.dup_cnts), p')

unfoldable pub get_selected_fields : UbPsiCacheProvider → List Bytes
get_selected_fields p = p.meta.key_cols

unfoldable pub get_cache_private_key : UbPsiCacheProvider → Bytes
get_cache_private_key p = p.meta.priv_key

-- A reader's loop over the cache, until an empty batch, on fuel.
unfoldable pub read_all : ℕ → UbPsiCacheProvider → Result (List (ShuffledBatch Bytes))
read_all zero p = err undefined
read_all (suc fuel) p =
    let (batch, p') = read_next_shuffled_batch p in
    let rest = read_all fuel p' >>= λ batches. ok (batch ∷ batches) in
    if is_nil batch.batch_items then ok [] else rest

unfoldable pub read_all_with_dup_cnt : ℕ → UbPsiCacheProvider → Result (List (List Bytes × DupCnt))
read_all_with_dup_cnt zero p = err undefined
read_all_with_dup_cnt (suc fuel) p =
    let (batch, p') = read_next_batch_with_dup_cnt p in
    let rest = read_all_with_dup_cnt fuel p' >>= λ batches. ok (batch ∷ batches) in
    if is_nil batch.0 then ok [] else rest

-- ===== src/UbPsi/Store.antt =====
-- The unbalanced client's stores of psi/utils/ec_point_store.h and .cc, and
-- `ComputeIndicesWithDupCnt`, which looks the server's items up in the client's.
use psi.Prelude.{
  ℕ, zero, suc, ◌+◌, min, Option, none, some, List, [], ◌∷◌, ◌++◌, map, length, take, drop,
  replicate, Result, ok, err, undefined, ◌>>=◌, ◌>>◌, enforce, ltb, leb, ◌==◌, if◌then◌else◌,
}
use psi.Prelude.Bytes.{Bytes, is_nil, bytes_eq, concat}
use psi.Ecdh.{DupCnt, dup_at, Provider}
use psi.Indices.{piece, compare_size}
use psi.UbPsi.{uint32}

pub record CacheIndex : Type 0 where
  pub index : ℕ
  pub duplicate_cnt : ℕ

-- UbPsiClientCacheMemoryStore; the entries of `cache` shadow later ones with the same text.
pub record MemoryStore : Type 0 where
  pub cache : List (Bytes × CacheIndex)
  pub item_cnt : ℕ

abbrev pub empty_memory_store : MemoryStore
empty_memory_store = record { cache = []; item_cnt = 0 }

unfoldable pub save_item : Bytes → ℕ → MemoryStore → MemoryStore
save_item ciphertext duplicate_cnt s = record {
  cache = (ciphertext, record { index = s.item_cnt; duplicate_cnt = duplicate_cnt }) ∷ s.cache;
  item_cnt = uint32 (s.item_cnt + 1);
}

-- `Save(ciphertext, duplicate_cnt)` of `IEcPointStore` for the texts from position `i` on.
unfoldable pub save_items : ℕ → List Bytes → DupCnt → MemoryStore → MemoryStore
save_items i [] duplicate_cnt s = s
save_items i (c ∷ ciphertext) duplicate_cnt s =
    save_items (i + 1) ciphertext duplicate_cnt (save_item c (dup_at duplicate_cnt i) s)

unfoldable pub find_in : List (Bytes × CacheIndex) → Bytes → Option CacheIndex
find_in [] ciphertext = none
find_in ((c, entry) ∷ cache) ciphertext =
    if bytes_eq c ciphertext then some entry else find_in cache ciphertext

unfoldable pub find : MemoryStore → Bytes → Option CacheIndex
find s ciphertext = find_in s.cache ciphertext

abbrev pub k_max_cipher_size : ℕ
k_max_cipher_size = 32

pub record CacheMeta : Type 0 where
  pub item_cnt : ℕ
  pub peer_cnt : ℕ
  pub cipher_len : ℕ

-- UbPsiClientCacheFileStore: `items` is the file, of texts and counts of extra copies, and
-- `meta_file` the other file. The bytes of an item past its text are never read.
pub record FileStore : Type 0 where
  pub items : List (Bytes × ℕ)
  pub meta_file : Option CacheMeta
  pub cipher_len : ℕ
  pub item_cnt : ℕ
  pub peer_cnt : ℕ

unfoldable pub dump_meta : FileStore → FileStore
dump_meta s = record s {
  meta_file =
      some (record { item_cnt = s.item_cnt; peer_cnt = s.peer_cnt; cipher_len = s.cipher_len });
}

-- The check of `meta_` when the other file is there.
unfoldable pub load_meta : FileStore → Option CacheMeta → Result FileStore
load_meta s none = ok (dump_meta s)
load_meta s (some meta) = do
  enforce (s.cipher_len == meta.cipher_len)
  enforce (s.item_cnt == meta.item_cnt)
  ok (record s { peer_cnt = meta.peer_cnt })

-- The constructor, on the two files.
unfoldable pub open_file_store : ℕ → List (Bytes × ℕ) → Option CacheMeta → Result FileStore
open_file_store cipher_len items meta_file = do
  enforce (leb cipher_len k_max_cipher_size)
  load_meta
      (record {
        items = items;
        meta_file = meta_file;
        cipher_len = cipher_len;
        item_cnt = uint32 (length items);
        peer_cnt = 0;
      })
      meta_file

unfoldable pub save_cipher : Bytes → ℕ → FileStore → Result FileStore
save_cipher ciphertext duplicate_cnt s = do
  enforce (length ciphertext == s.cipher_len)
  ok (record s {
    items = s.items ++ (ciphertext, duplicate_cnt) ∷ [];
    item_cnt = uint32 (s.item_cnt + 1);
    peer_cnt = uint32 (s.peer_cnt + duplicate_cnt + 1);
  })

unfoldable pub save_ciphers : ℕ → List Bytes → DupCnt → FileStore → Result FileStore
save_ciphers i [] duplicate_cnt s = ok s
save_ciphers i (c ∷ ciphertext) duplicate_cnt s = do
  s' ← save_cipher c (dup_at duplicate_cnt i) s
  save_ciphers (i + 1) ciphertext duplicate_cnt s'

-- UbPsiClientCacheFileStoreProvider by what it has not read yet, since `read_cnt_` of the file's
-- `item_cnt_` items are behind it; the read ahead in another thread is the next read here.
unfoldable pub file_dups : ℕ → List (Bytes × ℕ) → DupCnt
file_dups i [] = []
file_dups i ((c, duplicate_cnt) ∷ items) =
    let rest = file_dups (i + 1) items in
    if ltb 0 duplicate_cnt then (i, duplicate_cnt) ∷ rest else rest

abbrev pub texts : List (Bytes × ℕ) → List Bytes
texts [] = []
texts ((c, n) ∷ items) = c ∷ texts items

unfoldable pub read_batch_with_dup_cnt :
    ℕ → List (Bytes × ℕ) → (List Bytes × DupCnt) × List (Bytes × ℕ)
read_batch_with_dup_cnt batch_size unread =
    let count = min batch_size (length unread) in
    let cache_item = take count unread in
    ((texts cache_item, file_dups 0 cache_item), drop count unread)

-- The reader's loop, until an empty batch, on fuel.
unfoldable pub read_file : ℕ → ℕ → List (Bytes × ℕ) → Result Provider
read_file zero batch_size unread = err undefined
read_file (suc fuel) batch_size unread =
    let (batch, unread') = read_batch_with_dup_cnt batch_size unread in
    let rest = read_file fuel batch_size unread' >>= λ batches. ok (batch ∷ batches) in
    if is_nil batch.0 then ok [] else rest

-- One entry of each of the four vectors, a thread's of `size_t` or those of `IntersectionIndexInfo`.
pub record Match : Type 0 where
  pub self_index : ℕ
  pub peer_index : ℕ
  pub self_dup_cnt : ℕ
  pub peer_dup_cnt : ℕ

-- The `push_back`s of `compare_proc` for an item that was found.
abbrev pub push_match : Option CacheIndex → ℕ → ℕ → List Match → List Match
push_match none peer_index dup_cnt found = found
push_match (some entry) peer_index dup_cnt found =
    record {
      self_index = entry.index;
      peer_index = peer_index;
      self_dup_cnt = entry.duplicate_cnt;
      peer_dup_cnt = dup_cnt;
    }
    ∷ found

-- `compare_proc` over the items from position `i` of the batch on.
unfoldable pub compare_items : MemoryStore → DupCnt → ℕ → ℕ → List Bytes → List Match
compare_items self peer_cnt processed_cnt i [] = []
compare_items self peer_cnt processed_cnt i (item ∷ items) =
    push_match (find self item) (processed_cnt + i) (dup_at peer_cnt i)
      (compare_items self peer_cnt processed_cnt (i + 1) items)

-- Each thread from `idx` on appends its piece's matches to its own vectors.
unfoldable pub compare_batch :
    MemoryStore → DupCnt → ℕ → ℕ → List Bytes → ℕ → List (List Match) → List (List Match)
compare_batch self peer_cnt processed_cnt size peer_items idx [] = []
compare_batch self peer_cnt processed_cnt size peer_items idx (found ∷ threads) =
    let (begin, items) = piece size peer_items idx in
    (found ++ compare_items self peer_cnt processed_cnt begin items)
    ∷ compare_batch self peer_cnt processed_cnt size peer_items (idx + 1) threads

unfoldable pub compare_batches : MemoryStore → ℕ → Provider → List (List Match) → List (List Match)
compare_batches self processed_cnt [] threads = threads
compare_batches self processed_cnt ((peer_items, peer_cnt) ∷ p) threads =
    let found =
      compare_batch self peer_cnt processed_cnt (compare_size (length threads) peer_items)
        peer_items 0 threads in
    let rest = compare_batches self (processed_cnt + length peer_items) p found in
    if is_nil peer_items then threads else rest

-- The vectors of `IntersectionIndexInfo` are of `uint32_t`; all but the position of the peer's item
-- have 32 bits before.
unfoldable pub narrow : Match → Match
narrow m = record m { peer_index = uint32 m.peer_index }

-- With no threads the first batch divides by zero.
unfoldable pub compute_indices_with_dup_cnt : ℕ → MemoryStore → FileStore → ℕ → Result (List Match)
compute_indices_with_dup_cnt compare_thread_num self peer batch_size = do
  batches ← read_file (suc (length peer.items)) batch_size peer.items
  let found = map narrow (concat (compare_batches self 0 batches (replicate compare_thread_num [])))
  if is_nil batches then ok [] else if ltb 0 compare_thread_num then ok found else err undefined

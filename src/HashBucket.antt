-- ===== src/HashBucket.antt =====
-- psi/utils/hash_bucket_cache.h and .cc, with `FinalizeAndComputeIndices` of
-- psi/utils/ec_point_store.cc: items on disk in buckets by the hash of their text, and the
-- intersection of two such stores, bucket by bucket. A bucket is the lines of its file.
use psi.Prelude.{
  ℕ, zero, suc, ◌+◌, ◌%◌, ◌^◌, ◌≤◌, ◌<◌, ◌≡◌, Bool, true, false, Option, none, some, List, [], ◌∷◌,
  ◌++◌, length, replicate, set, get_elem?, Result, ok, err, thrown, ◌>>=◌, ◌>>◌, enforce, at, rem,
  of_option, ltb, ◌==◌, if◌then◌else◌,
}
use psi.Prelude.Bytes.{Bytes, bytes_eq, is_nil}
use psi.IndexStore.{IndexWriter, write_cache, commit}
use psi.Ecdh.{Batch, DupCnt, dup_at}
pub mod Cache
pub mod Matching
pub mod Finalize
pub mod Bins
pub mod Common
mod Tests

-- The library calls: `fmt::format` of a number, `absl::SimpleAtoi` into an integer of that many
-- bits, `absl::StrSplit` at commas, `absl::Base64Escape` and `std::hash<std::string>`.
pub record Text : Type 0 where
  pub format : ℕ → Bytes
  pub simple_atoi : ℕ → Bytes → Option ℕ
  pub str_split : Bytes → List Bytes
  pub base64_escape : Bytes → Bytes
  pub hash : Bytes → ℕ

pub record BucketItem : Type 0 where
  pub index : ℕ
  pub extra_dup_cnt : ℕ
  pub base64_data : Bytes

pub record HashBucketCache : Type 0 where
  pub bucket_os_vec : List (List Bytes)
  pub item_index : ℕ

abbrev pub comma : ℕ
comma = 44

unfoldable pub new : ℕ → Result HashBucketCache
new bucket_num = do
  enforce (ltb 0 bucket_num)
  ok (record { bucket_os_vec = replicate bucket_num []; item_index = 0 })

-- The first of the items with that text: what an `unordered_set` of them finds.
unfoldable pub find_item : Bytes → List BucketItem → Option BucketItem
find_item wanted [] = none
find_item wanted (item ∷ items) =
    if bytes_eq item.base64_data wanted then some item else find_item wanted items

module _ (text : Text) where
  open text use {format, simple_atoi, str_split, base64_escape, hash}

  unfoldable pub serialize : BucketItem → Bytes
  serialize item =
      format item.index ++ (comma ∷ (format item.extra_dup_cnt ++ (comma ∷ item.base64_data)))

  unfoldable pub to_number : ℕ → Bytes → Result ℕ
  to_number bits token = of_option (simple_atoi bits token)

  unfoldable pub from_tokens : List Bytes → Result BucketItem
  from_tokens [] = err thrown
  from_tokens (a ∷ []) = err thrown
  from_tokens (a ∷ b ∷ []) = err thrown
  from_tokens (a ∷ b ∷ c ∷ []) = do
    index ← to_number 64 a
    extra_dup_cnt ← to_number 32 b
    ok (record { index = index; extra_dup_cnt = extra_dup_cnt; base64_data = c })
  from_tokens (a ∷ b ∷ c ∷ d ∷ rest) = err thrown

  unfoldable pub deserialize : Bytes → Result BucketItem
  deserialize line = from_tokens (str_split line)

  unfoldable pub write_item : Bytes → ℕ → HashBucketCache → Result HashBucketCache
  write_item bytes duplicate_cnt c = do
    let bucket_item : BucketItem = record {
      index = c.item_index;
      extra_dup_cnt = duplicate_cnt;
      base64_data = base64_escape bytes;
    }
    b ← rem (hash bucket_item.base64_data) (length c.bucket_os_vec)
    out ← at c.bucket_os_vec b
    ok (record {
      bucket_os_vec = set c.bucket_os_vec b (out ++ serialize bucket_item ∷ []);
      item_index = (c.item_index + 1) % 2 ^ 64;
    })

  unfoldable pub load_lines : List Bytes → Result (List BucketItem)
  load_lines [] = ok []
  load_lines (line ∷ lines) = do
    item ← deserialize line
    items ← load_lines lines
    ok (item ∷ items)

  -- A file that is not there cannot be opened.
  unfoldable pub load_bucket_items : ℕ → HashBucketCache → Result (List BucketItem)
  load_bucket_items index c = of_option (get_elem? c.bucket_os_vec index) >>= load_lines

  -- The loop of `CreateCacheFromProvider` over one batch, from position `i` on.
  unfoldable pub write_batch : ℕ → List Bytes → DupCnt → HashBucketCache → Result HashBucketCache
  write_batch i [] duplicate_cnt c = ok c
  write_batch i (bytes ∷ items) duplicate_cnt c =
      write_item bytes (dup_at duplicate_cnt i) c >>= write_batch (i + 1) items duplicate_cnt

  -- `while (true)`, which ends at an empty batch or at the end of the provider.
  unfoldable pub write_batches : List Batch → HashBucketCache → Result HashBucketCache
  write_batches [] c = ok c
  write_batches ((items, duplicate_cnt) ∷ batches) c =
      let more = write_batch 0 items duplicate_cnt c >>= write_batches batches in
      if is_nil items then ok c else more

  unfoldable pub create_cache_from_provider : List Batch → ℕ → Result HashBucketCache
  create_cache_from_provider provider bucket_num = new bucket_num >>= write_batches provider

-- The variables of `FinalizeAndComputeIndices`.
pub record Tallies : Type 0 where
  pub writer : IndexWriter
  pub peer_total_cnt : ℕ
  pub peer_inter_cnt : ℕ

-- `peer_total_cnt += item.extra_dup_cnt + 1` of a uint32_t.
unfoldable pub add_all : List BucketItem → ℕ → ℕ
add_all [] sum = sum
add_all (item ∷ items) sum = add_all items ((sum + item.extra_dup_cnt + 1) % 2 ^ 32)

-- The body of the loop over `self_results`, with what the set has found.
unfoldable pub write_match : BucketItem → Option BucketItem → Tallies → Result Tallies
write_match item none t = ok t
write_match item (some peer) t = do
  w ← write_cache item.index peer.extra_dup_cnt t.writer
  ok (record t {
    writer = w;
    peer_inter_cnt = (t.peer_inter_cnt + peer.extra_dup_cnt + 1) % 2 ^ 32;
  })

unfoldable pub write_matches : List BucketItem → List BucketItem → Tallies → Result Tallies
write_matches [] peer_set t = ok t
write_matches (item ∷ self_results) peer_set t =
    write_match item (find_item item.base64_data peer_set) t >>= write_matches self_results peer_set

module _ (text : Text) where
  unfoldable pub compute_bin : HashBucketCache → HashBucketCache → ℕ → Tallies → Result Tallies
  compute_bin self peer bin_idx t = do
    self_results ← load_bucket_items text bin_idx self
    peer_results ← load_bucket_items text bin_idx peer
    t' ←
        write_matches self_results peer_results
          (record t { peer_total_cnt = add_all peer_results t.peer_total_cnt })
    w ← commit t'.writer
    ok (record t' { writer = w })

  -- `remaining` bins from `bin_idx` on.
  unfoldable pub compute_bins : HashBucketCache → HashBucketCache → ℕ → ℕ → Tallies → Result Tallies
  compute_bins self peer zero bin_idx t = ok t
  compute_bins self peer (suc remaining) bin_idx t =
      compute_bin self peer bin_idx t >>= compute_bins self peer remaining (bin_idx + 1)

  unfoldable pub finalize_and_compute_indices :
      HashBucketCache → HashBucketCache → IndexWriter → Result Tallies
  finalize_and_compute_indices self peer index_writer = do
    enforce (length self.bucket_os_vec == length peer.bucket_os_vec)
    compute_bins self peer (length self.bucket_os_vec) 0
        (record { writer = index_writer; peer_total_cnt = 0; peer_inter_cnt = 0 })

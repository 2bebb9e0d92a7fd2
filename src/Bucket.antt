-- ===== src/Bucket.antt =====
-- psi/utils/sync.cc and psi/utils/bucket.cc: how the parties agree on buckets and share a bucket's
-- result. A call that all parties make together takes the list of what each brings, by rank, and
-- gives what each gets.
use psi.Prelude.{
  ℕ, zero, suc, ◌+◌, ◌-◌, ◌*◌, ◌/◌, ◌%◌, ◌^◌, ◌≤◌, ◌<◌, min, max, Bool, true, false, ◌||◌, not,
  Option, none, some, List, [], ◌∷◌, ◌++◌, map, length, Result, ok, err, thrown, undefined, ◌>>=◌,
  ◌>>◌, enforce, at, ltb, ◌==◌, if◌then◌else◌,
}
use psi.Prelude.Bytes.{Bytes, bytes_eq, is_nil}
use psi.Ecdh.{DupCnt, dup_at}
use psi.IndexStore.{IndexWriter, write_cache, commit}
use psi.HashBucket.{BucketItem}
pub mod Sharing
pub mod Receiving
pub mod Negotiation
mod Tests

-- A party's `res` and `res_dup_cnt`.
pub record Shared : Type 0 where
  pub res : List Bytes
  pub res_dup_cnt : DupCnt

-- The loop over `res_size_list` from rank `i` on.
unfoldable pub find_broadcast_rank : ℕ → List ℕ → ℕ → Result ℕ
find_broadcast_rank i [] broadcast_rank = ok broadcast_rank
find_broadcast_rank i (size ∷ sizes) broadcast_rank =
    let found = enforce (broadcast_rank == 0) >> find_broadcast_rank (i + 1) sizes i in
    let other = find_broadcast_rank (i + 1) sizes broadcast_rank in
    if ltb 0 size then found else other

abbrev pub max_of : List ℕ → ℕ
max_of [] = 0
max_of (x ∷ xs) = max x (max_of xs)

-- A party with no results takes those that were sent; a count that it has already stays.
unfoldable pub take_shared : Shared → Shared → Shared
take_shared sent mine =
    if is_nil mine.res
    then record { res = sent.res; res_dup_cnt = mine.res_dup_cnt ++ sent.res_dup_cnt }
    else mine

unfoldable pub broadcast_result : List Shared → Result (List Shared)
broadcast_result parties = do
  rank ← find_broadcast_rank 0 (map (λ p. length p.res) parties) 0
  let sent = at parties rank
  if max_of (map (λ p. length p.res) parties) == 0
      then ok parties
      else (sent >>= λ s. ok (map (take_shared s) parties))

-- The smallest size, from a party's own on.
abbrev pub min_of : ℕ → List ℕ → ℕ
min_of own [] = own
min_of own (x ∷ xs) = min_of (min own x) xs

unfoldable pub prepare_bucket_data : List BucketItem → List ℕ → Option (List BucketItem)
prepare_bucket_data bucket_items_list inputs_size_list =
    if min_of (length bucket_items_list) inputs_size_list == 0 then none else some bucket_items_list

-- `std::unordered_map<std::string, uint32_t>`: a new entry stands before an old one.
unfoldable pub peer_result : ℕ → List Bytes → DupCnt → List (Bytes × ℕ) → List (Bytes × ℕ)
peer_result i [] duplicate_item_cnt acc = acc
peer_result i (x ∷ xs) duplicate_item_cnt acc =
    peer_result (i + 1) xs duplicate_item_cnt ((x, dup_at duplicate_item_cnt i) ∷ acc)

unfoldable pub find_result : Bytes → List (Bytes × ℕ) → Option ℕ
find_result x [] = none
find_result x ((y, cnt) ∷ m) = if bytes_eq y x then some cnt else find_result x m

-- The two ways to look an item up: `peer_result[x]`, 0 where it is not there, and `find`.
unfoldable pub write_found : Bool → ℕ → Option ℕ → IndexWriter → Result IndexWriter
write_found all index none w = if all then write_cache index 0 w else ok w
write_found all index (some cnt) w = write_cache index cnt w

unfoldable pub write_results :
    Bool → List (Bytes × ℕ) → List BucketItem → IndexWriter → Result IndexWriter
write_results all results [] w = ok w
write_results all results (item ∷ items) w =
    write_found all item.index (find_result item.base64_data results) w
    >>= write_results all results items

-- `HandleBucketResultBySender` after the broadcast, with what it has given this party.
unfoldable pub handle_bucket_result_by_sender :
    Bool → Shared → List BucketItem → IndexWriter → Result IndexWriter
handle_bucket_result_by_sender broadcasts shared bucket_items_list writer =
    let written =
      write_results (length shared.res == length bucket_items_list)
        (peer_result 0 shared.res shared.res_dup_cnt []) bucket_items_list writer
      >>= commit in
    if not broadcasts || is_nil shared.res then ok writer else written

-- What `HandleBucketResultByReceiver` broadcasts: the texts, and the counts that are not 0.
unfoldable pub extra_dup_cnts : ℕ → List BucketItem → DupCnt
extra_dup_cnts i [] = []
extra_dup_cnts i (item ∷ items) =
    let rest = extra_dup_cnts (i + 1) items in
    if ltb 0 item.extra_dup_cnt then (i, item.extra_dup_cnt) ∷ rest else rest

unfoldable pub shared_by_receiver : List BucketItem → Shared
shared_by_receiver result_list = record {
  res = map (λ item. item.base64_data) result_list;
  res_dup_cnt = extra_dup_cnts 0 result_list;
}

-- The loop that writes `result_list[i].index` with `peer_extra_dup_cnt[i]`.
unfoldable pub write_receiver : List BucketItem → List ℕ → IndexWriter → Result IndexWriter
write_receiver [] cnts w = ok w
write_receiver (item ∷ items) [] w = err undefined
write_receiver (item ∷ items) (cnt ∷ cnts) w =
    write_cache item.index cnt w >>= write_receiver items cnts

unfoldable pub handle_bucket_result_by_receiver :
    List BucketItem → List ℕ → IndexWriter → Result IndexWriter
handle_bucket_result_by_receiver result_list peer_extra_dup_cnt writer =
    write_receiver result_list peer_extra_dup_cnt writer >>= commit

unfoldable pub all_equal : Bytes → List Bytes → Bool
all_equal first [] = true
all_equal first (h ∷ hs) = let rest = all_equal first hs in if bytes_eq h first then rest else false

unfoldable pub hash_list_equal_test : List Bytes → Result Bool
hash_list_equal_test [] = err thrown
hash_list_equal_test (first ∷ hash_list) = ok (all_equal first hash_list)

-- The largest of `(size + self_bucket_size - 1) / self_bucket_size`, in `size_t`; `bucket_size` is not 0.
unfoldable pub max_bucket_count : ℕ → List ℕ → ℕ
max_bucket_count bucket_size [] = 0
max_bucket_count bucket_size (size ∷ sizes) =
    max ((size + bucket_size - 1) % 2 ^ 64 / bucket_size) (max_bucket_count bucket_size sizes)

unfoldable pub negotiate_bucket_num : List ℕ → ℕ → ℕ → Result ℕ
negotiate_bucket_num items_size_list self_items_count self_bucket_size =
    if self_bucket_size == 0
    then err undefined
    else ok (
        if min_of self_items_count items_size_list == 0
        then 0
        else max_bucket_count self_bucket_size items_size_list)

-- ===== src/Bucket/Tests.antt =====
-- Concrete buckets.
use psi.Prelude.{ℕ, ◌≡◌, refl, true, false, List, [], ◌∷◌, ◌++◌, map, ok, Returns, arith, inl, ◌↔◌}
use psi.Prelude.Bytes.{Bytes, bytes_eq}
use psi.Prelude.Count.{All}
use psi.IndexStore.{IndexWriter}
use psi.IndexStore.Writing.{Holds}
use psi.HashBucket.{BucketItem, find_item}
use psi.HashBucket.Finalize.{index_of, count_of, matches}
use psi.Bucket.{
  broadcast_result, shared_by_receiver, handle_bucket_result_by_sender,
  handle_bucket_result_by_receiver, negotiate_bucket_num, hash_list_equal_test,
}
use psi.Bucket.Sharing.{
  result_of, no_result, AreDistinct, broadcast_result-two, broadcast_result-two_results,
  handle_bucket_result_by_sender-rows,
}
use psi.Bucket.Receiving.{indexes_of_items, handle_bucket_result_by_receiver-rows}
use psi.Bucket.Negotiation.{IsBucketNum, negotiate_bucket_num-two, hash_list_equal_test_iff}

broadcast_result-two_example :
    (broadcast_result (result_of (1 ∷ []) [] ((0, 2) ∷ []) ∷ no_result ∷ [])
      ≡ ok (result_of (1 ∷ []) [] ((0, 2) ∷ []) ∷ result_of (1 ∷ []) [] ((0, 2) ∷ []) ∷ []))
    × (broadcast_result (no_result ∷ result_of (1 ∷ []) [] ((0, 2) ∷ []) ∷ [])
        ≡ ok (result_of (1 ∷ []) [] ((0, 2) ∷ []) ∷ result_of (1 ∷ []) [] ((0, 2) ∷ []) ∷ []))
    × (broadcast_result (no_result ∷ no_result ∷ []) ≡ ok (no_result ∷ no_result ∷ []))
broadcast_result-two_example = broadcast_result-two (1 ∷ []) [] ((0, 2) ∷ [])

broadcast_result-two_results_example :
    broadcast_result (result_of (1 ∷ []) [] [] ∷ result_of (2 ∷ []) [] [] ∷ [])
    ≡ ok (result_of (1 ∷ []) [] [] ∷ result_of (2 ∷ []) [] [] ∷ [])
broadcast_result-two_results_example = broadcast_result-two_results (1 ∷ []) (2 ∷ []) [] [] [] []

abbrev item : ℕ → ℕ → Bytes → BucketItem
item index dup text = record { index = index; extra_dup_cnt = dup; base64_data = text }

abbrev common : BucketItem
common = item 5 1 (65 ∷ [])

abbrev also_common : BucketItem
also_common = item 8 0 (66 ∷ [])

abbrev senders : List BucketItem
senders = item 2 0 (66 ∷ []) ∷ item 3 0 (67 ∷ []) ∷ item 4 0 (65 ∷ []) ∷ []

-- A writer with one row that is not committed.
abbrev started : IndexWriter
started = record {
  outfile = [];
  closed = false;
  index_builder = 1 ∷ [];
  cnt_builder = 0 ∷ [];
  cache_cnt = 1;
  write_cnt = 1;
}

started-Holds : Holds started (1 ∷ []) (0 ∷ [])
started-Holds = record {
  indexes_kept = refl;
  counts_kept = refl;
  filled = tt;
  paired = refl;
  cached = refl;
  counted = refl;
  is_open = refl;
}

rows_found : matches senders (common ∷ also_common ∷ []) ≡ (2, 0) ∷ (4, 1) ∷ []
unfolding find_item bytes_eq
rows_found = refl

results-AreDistinct : AreDistinct (common ∷ also_common ∷ [])
unfolding find_item bytes_eq
results-AreDistinct = (refl, (refl, tt))

handle_bucket_result_by_sender-rows_example :
    Returns
      (handle_bucket_result_by_sender true
        (shared_by_receiver (common ∷ also_common ∷ []))
        senders
        started)
      (λ w'.
        Holds w'
          ((1 ∷ []) ++ map index_of (matches senders (common ∷ also_common ∷ [])))
          ((0 ∷ []) ++ map count_of (matches senders (common ∷ also_common ∷ [])))
        × (w'.index_builder ≡ [])
        × (w'.cnt_builder ≡ []))
handle_bucket_result_by_sender-rows_example =
    handle_bucket_result_by_sender-rows common (also_common ∷ []) senders started (1 ∷ []) (0 ∷ [])
      results-AreDistinct (inl refl) started-Holds

negotiate_bucket_num-two_example :
    Returns
      (negotiate_bucket_num (10 ∷ 25 ∷ []) 10 8)
      (λ n. (negotiate_bucket_num (10 ∷ 25 ∷ []) 25 8 ≡ ok n) × IsBucketNum 10 25 8 n)
negotiate_bucket_num-two_example = negotiate_bucket_num-two 10 25 8 (omega arith) (omega arith)

hash_list_equal_test_iff_test :
    Returns
      (hash_list_equal_test ((1 ∷ []) ∷ (1 ∷ []) ∷ (2 ∷ []) ∷ []))
      (λ b. (b ≡ true) ↔ All {A = Bytes} (λ h. h ≡ (1 ∷ [])) ((1 ∷ []) ∷ (2 ∷ []) ∷ []))
hash_list_equal_test_iff_test = hash_list_equal_test_iff (1 ∷ []) ((1 ∷ []) ∷ (2 ∷ []) ∷ [])

handle_bucket_result_by_receiver-rows_example :
    Returns
      (handle_bucket_result_by_receiver (common ∷ also_common ∷ []) (3 ∷ 0 ∷ []) started)
      (λ w'.
        Holds w'
          ((1 ∷ []) ++ indexes_of_items (common ∷ also_common ∷ []))
          ((0 ∷ []) ++ (3 ∷ 0 ∷ []))
        × (w'.index_builder ≡ [])
        × (w'.cnt_builder ≡ []))
handle_bucket_result_by_receiver-rows_example =
    handle_bucket_result_by_receiver-rows (common ∷ also_common ∷ []) (3 ∷ 0 ∷ []) started (1 ∷ [])
      (0 ∷ []) refl started-Holds

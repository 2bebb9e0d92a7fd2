-- ===== src/UbPsi/Found.antt =====
-- `ComputeIndicesWithDupCnt` of psi/utils/ec_point_store.cc against the items that both parties have.
use mathlib.Core.List.{Permᴰ}
use psi.Prelude.{
  ℕ, ◌+◌, ◌^◌, ◌≡◌, ◌<◌, ◌≤◌, refl, ap, subst, Option, none, some, List, [], ◌∷◌, length, Returns,
  if◌then◌else◌, arith, Bool-cases, inl, inr,
}
use psi.Prelude.Bytes.{Bytes, bytes_eq}
use psi.Ecdh.{DupCnt, dup_at}
use psi.UbPsi.{uint32}
use psi.UbPsi.Store.{
  MemoryStore, CacheIndex, FileStore, Match, empty_memory_store, push_match, save_item, save_items,
  find, find_in, compute_indices_with_dup_cnt,
}
use psi.UbPsi.Matching.{matches, compute_indices_with_dup_cnt-perm}
use psi.UbPsi.Common.{position_from, index_of}

-- For each item of the file that the client has: the index of the client's last such item with its
-- count, and the item's position in the file, from `j` on, with its own count.
unfoldable pub common_matches : List Bytes → DupCnt → ℕ → List (Bytes × ℕ) → List Match
common_matches items dup j [] = []
common_matches items dup j ((item, n) ∷ file) = elim (index_of items item) [
  | none ↦ common_matches items dup (j + 1) file
  | some i ↦
      record { self_index = i; peer_index = j; self_dup_cnt = dup_at dup i; peer_dup_cnt = n }
      ∷ common_matches items dup (j + 1) file
]

module _ (dup : DupCnt) (b : Bytes) where
  -- The store's entry for a position.
  abbrev entry_at : Option ℕ → Option CacheIndex
  entry_at none = none
  entry_at (some i) = some (record { index = i; duplicate_cnt = dup_at dup i })

  record Sees (n : ℕ) (last : Option ℕ) (store : MemoryStore) : Type 0 where
    count : store.item_cnt ≡ n
    entry : find store b ≡ entry_at last

  save_item-Sees :
      (n : ℕ) (last : Option ℕ) (store : MemoryStore) (x : Bytes)
      → n + 1 < 2 ^ 32
      → Sees n last store
      → Sees (n + 1) (if bytes_eq x b then some n else last) (save_item x (dup_at dup n) store)
  unfolding save_item find find_in uint32
  save_item-Sees n last store x h sees = elim (Bool-cases (bytes_eq x b)) [
    | inl same ↦ rw same (record {
      count = omega (arith, sees.count, h);
      entry =
          rw same (ap (λ i. some (record { index = i; duplicate_cnt = dup_at dup n })) sees.count);
    })
    | inr other ↦
        rw other (record { count = omega (arith, sees.count, h); entry = rw other sees.entry })
  ]

  save_items-Sees :
      (n : ℕ) (last : Option ℕ) (items : List Bytes) (store : MemoryStore)
      → n + length items < 2 ^ 32
      → Sees n last store
      → Sees (n + length items) (position_from n last items b) (save_items n items dup store)
  unfolding save_items position_from
  save_items-Sees n last [] store h sees =
      let e : n ≡ n + 0 = omega arith in subst (λ k. Sees k last store) e sees
  save_items-Sees n last (x ∷ items) store h sees =
      let e : n + 1 + length items ≡ n + length (x ∷ items) = omega arith in
      let last' = if bytes_eq x b then some n else last in
      let store' = save_item x (dup_at dup n) store in
      subst
        (λ k. Sees k (position_from (n + 1) last' items b) (save_items (n + 1) items dup store')) e
        (save_items-Sees (n + 1) last' items store' (omega (arith, h))
          (save_item-Sees n last store x (omega (arith, h)) sees))

find-save_items :
    (dup : DupCnt) (items : List Bytes) (b : Bytes)
    → length items < 2 ^ 32
    → find (save_items 0 items dup empty_memory_store) b ≡ entry_at dup b (index_of items b)
unfolding index_of find find_in
find-save_items dup items b h =
    (save_items-Sees dup b 0 none items empty_memory_store (omega (arith, h))
      (record { count = refl; entry = refl })).entry

matches-common_matches :
    (dup : DupCnt) (items : List Bytes) (j : ℕ) (file : List (Bytes × ℕ))
    → length items < 2 ^ 32
    → matches (save_items 0 items dup empty_memory_store) j file ≡ common_matches items dup j file
unfolding matches common_matches
matches-common_matches dup items j [] h = refl
matches-common_matches dup items j ((item, n) ∷ file) h =
    let found = find-save_items dup items item h in
    let rest = matches-common_matches dup items (j + 1) file h in
    elim (index_of items item)
        as (λ o.
          find (save_items 0 items dup empty_memory_store) item ≡ entry_at dup item o
          → push_match (find (save_items 0 items dup empty_memory_store) item) j n
              (matches (save_items 0 items dup empty_memory_store) (j + 1) file)
            ≡ elim o [
              | none ↦ common_matches items dup (j + 1) file
              | some i ↦
                  record {
                    self_index = i;
                    peer_index = j;
                    self_dup_cnt = dup_at dup i;
                    peer_dup_cnt = n;
                  }
                  ∷ common_matches items dup (j + 1) file
            ]) [ none ↦ λ e. rw (e, rest) refl | some i ↦ λ e. rw (e, rest) refl ]
      found

-- A client saves its items, fewer than 2^32, with their counts by position, in an empty store. For any
-- number of threads but 0, any batch size but 0 and at most 2^32 items in the file, the look-up of the
-- file's items returns. It gives a match for each item of the file that the client has, each once, in
-- an order that depends on the threads: the index of the client's last such item with the client's count
-- at that index, and the item's position in the file with the file's count.
pub compute_indices_with_dup_cnt-common :
    (items : List Bytes) (dup : DupCnt) (compare_thread_num : ℕ) (peer : FileStore) (batch_size : ℕ)
    → length items < 2 ^ 32
    → 0 < compare_thread_num
    → 0 < batch_size
    → length peer.items ≤ 2 ^ 32
    → Returns
        (compute_indices_with_dup_cnt compare_thread_num
          (save_items 0 items dup empty_memory_store)
          peer
          batch_size)
        (λ found. Permᴰ found (common_matches items dup 0 peer.items))
compute_indices_with_dup_cnt-common items dup threads peer batch_size small some_threads pos few =
    subst
      (λ l.
        Returns
          (compute_indices_with_dup_cnt threads (save_items 0 items dup empty_memory_store) peer
            batch_size)
          (λ found. Permᴰ found l))
      (matches-common_matches dup items 0 peer.items small)
      (compute_indices_with_dup_cnt-perm (save_items 0 items dup empty_memory_store) threads peer
        batch_size some_threads pos few)

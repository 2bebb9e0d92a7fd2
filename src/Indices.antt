-- ===== src/Indices.antt =====
-- psi/utils/ec_point_store.cc: `GetIndicesByItems`. Each batch is cut into one piece for each thread;
-- a thread writes only its own vector, so the pieces are compared one after the other here.
use psi.Prelude.{
  ℕ, zero, suc, ◌+◌, ◌-◌, ◌*◌, ◌/◌, ◌<◌, ◌≤◌, min, Bool, true, false, Option, none, some, List, [],
  ◌∷◌, ◌++◌, length, take, drop, ltb, leb, if◌then◌else◌,
}
use psi.Prelude.Bytes.{Bytes, contains, is_nil}
pub mod Pieces
pub mod Positions
mod Tests

-- The items of `begin` to `end`, which thread `idx` compares, with the position of the first.
unfoldable pub piece : ℕ → List Bytes → ℕ → ℕ × List Bytes
piece compare_size batch_items idx =
    let begin = idx * compare_size in
    let end = min (length batch_items) (begin + compare_size) in
    (begin, take (end - begin) (drop begin batch_items))

-- `compare_proc`: the positions of those of the items that are in the set.
unfoldable pub compare_proc : List Bytes → ℕ → List Bytes → List ℕ
compare_proc items_set position [] = []
compare_proc items_set position (item ∷ items) =
    let rest = compare_proc items_set (position + 1) items in
    if contains items_set item then position ∷ rest else rest

-- `result` of the threads from `idx` on, `n` of them, one after the other.
unfoldable pub compare_pieces : List Bytes → ℕ → ℕ → List Bytes → ℕ → ℕ → List ℕ
compare_pieces items_set item_index compare_size batch_items zero idx = []
compare_pieces items_set item_index compare_size batch_items (suc n) idx =
    let (begin, items) = piece compare_size batch_items idx in
    compare_proc items_set (item_index + begin) items
    ++ compare_pieces items_set item_index compare_size batch_items n (idx + 1)

-- `(batch_items.size() + compare_thread_num - 1) / compare_thread_num`
unfoldable pub compare_size : ℕ → List Bytes → ℕ
compare_size compare_thread_num batch_items =
    (length batch_items + compare_thread_num - 1) / compare_thread_num

-- `while (true)` over the provider's batches, which ends at an empty one.
unfoldable pub get_indices : ℕ → List Bytes → ℕ → List (List Bytes) → List ℕ
get_indices compare_thread_num items_set item_index [] = []
get_indices compare_thread_num items_set item_index (batch_items ∷ batches) =
    let found =
      compare_pieces items_set item_index (compare_size compare_thread_num batch_items) batch_items
        compare_thread_num 0 in
    let rest = get_indices compare_thread_num items_set (item_index + length batch_items) batches in
    if is_nil batch_items then [] else found ++ rest

unfoldable pub get_indices_by_items : ℕ → List (List Bytes) → List Bytes → List ℕ
get_indices_by_items compare_thread_num provider items =
    get_indices compare_thread_num items 0 provider

-- ===== src/BatchProvider.antt =====
-- psi/utils/batch_provider_impl.h and .cc: MemoryBatchProvider. The items are of any type; the
-- shuffle of the constructor (`std::shuffle` with a random engine) is the argument `shuffle`.
use psi.Prelude.{
  ℕ, zero, suc, ◌+◌, ◌-◌, ◌≤◌, ◌<◌, min, Bool, true, false, List, [], ◌∷◌, ◌++◌, map, length, take,
  drop, Result, ok, err, thrown, undefined, ◌>>=◌, ◌>>◌, enforce, at, leb, if◌then◌else◌,
}
use psi.Prelude.Bytes.{is_nil}
pub mod Reading
pub mod Shuffled
mod Tests

pub record MemoryBatchProvider (Item : Type 0) : Type 0 where
  pub batch_size : ℕ
  pub items : List Item
  pub labels : List Item
  pub buffer_shuffled_indices : List ℕ
  pub cursor_index : ℕ

pub record PsiItemData (Item : Type 0) : Type 0 where
  pub buf : Item
  pub cnt : ℕ

pub record ShuffledBatch (Item : Type 0) : Type 0 where
  pub batch_items : List Item
  pub batch_indices : List ℕ
  pub shuffled_indices : List ℕ
  pub dup_cnts : List ℕ

-- `std::iota`
unfoldable pub iota : ℕ → ℕ → List ℕ
iota i zero = []
iota i (suc n) = i ∷ iota (i + 1) n

module _ {Item : Type 0} where
  unfoldable pub new :
      (List ℕ → List ℕ) → List Item → ℕ → List Item → Bool → MemoryBatchProvider Item
  new shuffle items batch_size labels enable_shuffle = record {
    batch_size = batch_size;
    items = items;
    labels = labels;
    buffer_shuffled_indices = if enable_shuffle then shuffle (iota 0 (length items)) else [];
    cursor_index = 0;
  }

  -- `v.begin() + from` up to `v.begin() + from + n`: past the end is undefined.
  unfoldable pub slice : List Item → ℕ → ℕ → Result (List Item)
  slice xs from n = if leb (from + n) (length xs) then ok (take n (drop from xs)) else err undefined

  unfoldable pub read_next_impl :
      ℕ → MemoryBatchProvider Item → Result (List Item × MemoryBatchProvider Item)
  read_next_impl batch_size p = do
    enforce (leb p.cursor_index (length p.items))
    let n_items = min batch_size (length p.items - p.cursor_index)
    batch ← slice p.items p.cursor_index n_items
    ok (batch, record p { cursor_index = p.cursor_index + n_items })

  unfoldable pub read_next_batch :
      MemoryBatchProvider Item → Result (List Item × MemoryBatchProvider Item)
  read_next_batch p = read_next_impl p.batch_size p

  unfoldable pub read_next_labeled_batch :
      MemoryBatchProvider Item → Result (List Item × List Item × MemoryBatchProvider Item)
  read_next_labeled_batch p = do
    enforce (if is_nil p.labels then false else true)
    enforce (leb p.cursor_index (length p.items))
    let n_items = min p.batch_size (length p.items - p.cursor_index)
    batch_items ← slice p.items p.cursor_index n_items
    batch_labels ← slice p.labels p.cursor_index n_items
    ok (batch_items, batch_labels, record p { cursor_index = p.cursor_index + n_items })

  -- The loop over `i < n_items`, from the position `cursor_index + i` on.
  unfoldable pub gather : ℕ → ℕ → List ℕ → List Item → Result (ShuffledBatch Item)
  gather position zero indices items =
      ok (record { batch_items = []; batch_indices = []; shuffled_indices = []; dup_cnts = [] })
  gather position (suc n) indices items = do
    shuffled_index ← at indices position
    item ← at items shuffled_index
    rest ← gather (position + 1) n indices items
    ok (record {
      batch_items = item ∷ rest.batch_items;
      batch_indices = position ∷ rest.batch_indices;
      shuffled_indices = shuffled_index ∷ rest.shuffled_indices;
      dup_cnts = rest.dup_cnts;
    })

  unfoldable pub read_next_shuffled_batch :
      MemoryBatchProvider Item → Result (ShuffledBatch Item × MemoryBatchProvider Item)
  read_next_shuffled_batch p = do
    enforce (if is_nil p.buffer_shuffled_indices then false else true)
    enforce (leb p.cursor_index (length p.items))
    let n_items = min p.batch_size (length p.items - p.cursor_index)
    batch ← gather p.cursor_index n_items p.buffer_shuffled_indices p.items
    ok (batch, record p { cursor_index = p.cursor_index + n_items })

  unfoldable pub read_next :
      ℕ → MemoryBatchProvider Item → Result (List (PsiItemData Item) × MemoryBatchProvider Item)
  read_next size p = do
    (batch, p') ← read_next_impl size p
    ok (map (λ item. record { buf = item; cnt = 1 }) batch, p')

  unfoldable pub read_all : MemoryBatchProvider Item → List (PsiItemData Item)
  read_all p = map (λ item. record { buf = item; cnt = 1 }) p.items

  -- A reader's loop: batches until the first empty one. `fuel` bounds the reads; `none` of them
  -- left is an error here, which `Reading` shows never to occur.
  unfoldable pub drain : ℕ → MemoryBatchProvider Item → Result (List (List Item))
  drain zero p = err undefined
  drain (suc fuel) p = do
    (batch, p') ← read_next_batch p
    let rest = drain fuel p' >>= λ bs. ok (batch ∷ bs)
    if is_nil batch then ok [] else rest

  unfoldable pub drain_shuffled : ℕ → MemoryBatchProvider Item → Result (List (ShuffledBatch Item))
  drain_shuffled zero p = err undefined
  drain_shuffled (suc fuel) p = do
    (batch, p') ← read_next_shuffled_batch p
    let rest = drain_shuffled fuel p' >>= λ bs. ok (batch ∷ bs)
    if is_nil batch.batch_items then ok [] else rest

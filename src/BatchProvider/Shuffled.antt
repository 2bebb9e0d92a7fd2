-- ===== src/BatchProvider/Shuffled.antt =====
-- psi/utils/batch_provider_impl.h and .cc: SimpleShuffledBatchProvider, from a provider that it is
-- given. That provider is the list of the batches it still has, and gives empty ones after them;
-- `shuffle n` is `std::shuffle` in the `n`-th read, with its random engine. The asynchronous read runs
-- alone and is waited for, so that its result is already in `read_future`. A string that is moved out
-- of the buffer keeps its value here: it is not read again.
use psi.Prelude.{
  ℕ, zero, suc, ◌+◌, ◌-◌, ◌*◌, min, Bool, false, Option, none, some, List, [], ◌∷◌, ◌++◌, length,
  set, drop, replicate, Result, ok, err, undefined, ◌>>=◌, at, ltb, if◌then◌else◌,
}
use psi.Prelude.Bytes.{Bytes, is_nil}
use psi.BatchProvider.{ShuffledBatch, iota}

-- The items of a batch and its map of extra copies.
abbrev pub Source : Type 0
Source = List (List Bytes × List (ℕ × ℕ))

pub record RawBatch : Type 0 where
  pub items : List Bytes
  pub shuffled_indices : List ℕ
  pub dup_cnt : List ℕ

pub record SimpleShuffledBatchProvider : Type 0 where
  pub batch_size : ℕ
  pub provider : Source
  pub read_count : ℕ
  pub read_future : Option RawBatch
  pub shuffle_base_index : ℕ
  pub base_index : ℕ
  pub buffer : RawBatch
  pub read_end : Bool

abbrev pub no_items : ShuffledBatch Bytes
no_items = record { batch_items = []; batch_indices = []; shuffled_indices = []; dup_cnts = [] }

abbrev pub empty_raw : RawBatch
empty_raw = record { items = []; shuffled_indices = []; dup_cnt = [] }

-- `ret.dup_cnt[k] = v` for the entries of the map.
unfoldable pub write_dups : List (ℕ × ℕ) → List ℕ → Result (List ℕ)
write_dups [] dup_cnt = ok dup_cnt
write_dups ((k, v) ∷ entries) dup_cnt =
    if ltb k (length dup_cnt) then write_dups entries (set dup_cnt k v) else err undefined

-- The batch of the next `ReadNextBatchWithDupCnt`.
unfoldable pub next_batch : Source → (List Bytes × List (ℕ × ℕ)) × Source
next_batch [] = (([], []), [])
next_batch (batch ∷ source) = (batch, source)

-- The loop over `i < push_items`.
unfoldable pub push_batch : ℕ → ℕ → ℕ → RawBatch → Result (ShuffledBatch Bytes × RawBatch)
push_batch zero base_index shuffle_base_index buffer = ok (no_items, buffer)
push_batch (suc push_items) base_index shuffle_base_index buffer = do
  front ← at buffer.shuffled_indices 0
  dup_cnt ← at buffer.dup_cnt front
  item ← at buffer.items front
  (rest, buffer') ←
      push_batch push_items (base_index + 1) shuffle_base_index
        (record buffer { shuffled_indices = drop 1 buffer.shuffled_indices })
  ok (
    record {
      batch_items = item ∷ rest.batch_items;
      batch_indices = base_index ∷ rest.batch_indices;
      shuffled_indices = (shuffle_base_index + front) ∷ rest.shuffled_indices;
      dup_cnts = dup_cnt ∷ rest.dup_cnts;
    },
    buffer',
  )

-- The batch of this turn of the loop before those of the turns after it.
unfoldable pub join_batches : ShuffledBatch Bytes → ShuffledBatch Bytes → ShuffledBatch Bytes
join_batches a b = record {
  batch_items = a.batch_items ++ b.batch_items;
  batch_indices = a.batch_indices ++ b.batch_indices;
  shuffled_indices = a.shuffled_indices ++ b.shuffled_indices;
  dup_cnts = a.dup_cnts ++ b.dup_cnts;
}

-- The turn of the loop on a buffer with items.
unfoldable pub push_turn :
    ℕ → SimpleShuffledBatchProvider → Result (ShuffledBatch Bytes × ℕ × SimpleShuffledBatchProvider)
push_turn n_items p = do
  let push_items = min (p.batch_size - n_items) (length p.buffer.shuffled_indices)
  (pushed, buffer) ← push_batch push_items p.base_index p.shuffle_base_index p.buffer
  ok (
    pushed,
    n_items + push_items,
    record p { buffer = buffer; base_index = p.base_index + push_items },
  )

module _ (shuffle : ℕ → List ℕ → List ℕ) where
  -- `read_proc`
  unfoldable pub read_proc :
      SimpleShuffledBatchProvider → Result (RawBatch × SimpleShuffledBatchProvider)
  read_proc p = do
    let ((items, entries), source) = next_batch p.provider
    dup_cnt ← write_dups entries (replicate (length items) 0)
    ok (
      record {
        items = items;
        shuffled_indices = shuffle p.read_count (iota 0 (length items));
        dup_cnt = dup_cnt;
      },
      record p { provider = source; read_count = p.read_count + 1 },
    )

  -- `read_future_ = std::async(std::launch::async, read_proc)`
  unfoldable pub start_read :
      RawBatch → SimpleShuffledBatchProvider → Result (RawBatch × SimpleShuffledBatchProvider)
  start_read result p = do
    (next, p') ← read_proc p
    ok (result, record p' { read_future = some next })

  -- `ReadAndShuffle`, by whether `read_future_` is valid.
  unfoldable pub read_and_shuffle :
      Option RawBatch
      → SimpleShuffledBatchProvider
      → Result (RawBatch × SimpleShuffledBatchProvider)
  read_and_shuffle none p = do (result, p') ← read_proc p; start_read result p'
  read_and_shuffle (some result) p =
      let waited : SimpleShuffledBatchProvider = record p { read_future = none } in
      let more = start_read result waited in
      if is_nil result.items then ok (result, waited) else more

  -- The constructor with `Init`.
  unfoldable pub new_shuffled : Source → ℕ → Result SimpleShuffledBatchProvider
  new_shuffled provider batch_size = do
    (buffer, p) ← read_and_shuffle none (record {
      batch_size = batch_size;
      provider = provider;
      read_count = 0;
      read_future = none;
      shuffle_base_index = 0;
      base_index = 0;
      buffer = empty_raw;
      read_end = false;
    })
    ok (record p { buffer = buffer })

  -- The turn of the loop on a buffer without.
  unfoldable pub read_turn :
      ℕ
      → SimpleShuffledBatchProvider
      → Result (ShuffledBatch Bytes × ℕ × SimpleShuffledBatchProvider)
  read_turn n_items p = do
    (buffer, p') ← read_and_shuffle p.read_future p
    ok (
      no_items,
      n_items,
      record p' {
        shuffle_base_index = p.shuffle_base_index + length p.buffer.items;
        buffer = buffer;
        read_end = is_nil buffer.items;
      },
    )

  -- The loop while `n_items < batch_size_`; a turn that sets `read_end_` returns.
  unfoldable pub fill_batch :
      ℕ
      → ℕ
      → SimpleShuffledBatchProvider
      → Result (ShuffledBatch Bytes × SimpleShuffledBatchProvider)
  fill_batch zero n_items p = err undefined
  fill_batch (suc fuel) n_items p =
      let more : Result (ShuffledBatch Bytes × SimpleShuffledBatchProvider) = (do
        (pushed, n_items', p') ←
            if is_nil p.buffer.shuffled_indices then read_turn n_items p else push_turn n_items p
        let rest : Result (ShuffledBatch Bytes × SimpleShuffledBatchProvider) = (do
          (later, p'') ← fill_batch fuel n_items' p'
          ok (join_batches pushed later, p''))
        if p'.read_end then ok (pushed, p') else rest) in
      if ltb n_items p.batch_size then more else ok (no_items, p)

  -- Every batch that is read is one turn, and every batch that is pushed another.
  unfoldable pub read_next_shuffled :
      SimpleShuffledBatchProvider → Result (ShuffledBatch Bytes × SimpleShuffledBatchProvider)
  read_next_shuffled p =
      if p.read_end then ok (no_items, p) else fill_batch (2 * length p.provider + 4) 0 p

  -- A reader's loop until the first empty batch, of `fuel` reads at most.
  unfoldable pub read_out_shuffled :
      ℕ → SimpleShuffledBatchProvider → Result (List (ShuffledBatch Bytes))
  read_out_shuffled zero p = err undefined
  read_out_shuffled (suc fuel) p = do
    (batch, p') ← read_next_shuffled p
    let rest = read_out_shuffled fuel p' >>= λ bs. ok (batch ∷ bs)
    if is_nil batch.batch_items then ok [] else rest

-- ===== src/UbPsi/Provided.antt =====
-- The reads of psi/utils/batch_provider_impl.cc's SimpleShuffledBatchProvider: the rows that are still
-- to come, and what a read takes of them.
use psi.Prelude.{
  ℕ, ◌+◌, ◌≡◌, refl, ◌∙◌, ap, subst, Bool, true, false, none, some, List, [], ◌∷◌, ◌++◌, map,
  length, ok, arith,
}
use psi.Prelude.Bytes.{Bytes, is_nil}
use psi.Prelude.Count.{All}
use psi.BatchProvider.{iota}
use psi.BatchProvider.Shuffled.{
  Source, RawBatch, SimpleShuffledBatchProvider, no_items, next_batch, write_dups, read_proc,
  start_read, read_and_shuffle, read_turn,
}
use psi.Ecdh.{DupCnt}
use psi.UbPsi.Offline.{Row}
use psi.UbPsi.Counting.{IsMap}
use psi.UbPsi.Shuffling.{Within}
use psi.UbPsi.Buffer.{row_of, IsBuffer, write_dups-IsTable}

-- No batch is empty, and the counts of each are a map on its positions.
abbrev pub IsSource : Source → Type 0
IsSource source = All (λ b. (is_nil b.0 ≡ false) × IsMap b.0 b.1 b.1) source

module _ (shuffle : ℕ → List ℕ → List ℕ) where
  abbrev pub order : ℕ → List Bytes → List ℕ
  order k items = shuffle k (iota 0 (length items))

  -- The rows of the batches that are not read yet: `k` is the number of the next read, `base` the
  -- number of the first row.
  abbrev pub rows_from : ℕ → ℕ → Source → List Row
  rows_from k base [] = []
  rows_from k base ((items, dup_cnt) ∷ source) =
      map (row_of base items dup_cnt) (order k items)
      ++ rows_from (k + 1) (base + length items) source

  -- The batch of the `k`-th read.
  abbrev pub IsNext : ℕ → Source → RawBatch → Type 0
  IsNext k [] r = IsBuffer [] [] (order k []) r
  IsNext k ((items, dup_cnt) ∷ source) r = IsBuffer items dup_cnt (order k items) r

  -- All orders are of positions of the items.
  abbrev pub AreOrders : Type 0
  AreOrders = (k : ℕ) (items : List Bytes) → Within (length items) (order k items)

  module _ (orders : AreOrders) where
    pub read_proc-IsNext :
        (source : Source) (p : SimpleShuffledBatchProvider)
        → p.provider ≡ source
        → IsSource source
        → (r : RawBatch) × (read_proc shuffle p
            ≡ ok (r, record p { provider = (next_batch source).1; read_count = p.read_count + 1 }))
          × IsNext p.read_count source r
    unfolding read_proc next_batch write_dups
    read_proc-IsNext [] p same h = (
      record { items = []; shuffled_indices = order p.read_count []; dup_cnt = [] },
      rw same refl,
      record {
        all = refl;
        left = refl;
        table = λ i h. absurd (omega (arith, h));
        within = orders p.read_count [];
      },
    )
    read_proc-IsNext ((items, dup_cnt) ∷ source) p same h =
        let (table, written, holds) = write_dups-IsTable items dup_cnt h.0.1 in
        (
          record { items = items; shuffled_indices = order p.read_count items; dup_cnt = table },
          rw (same, written) refl,
          record { all = refl; left = refl; table = holds; within = orders p.read_count items },
        )

    -- The provider `p` when the next batch has been read from the source.
    abbrev pub reading :
        Source → RawBatch → SimpleShuffledBatchProvider → SimpleShuffledBatchProvider
    reading source r p = record p {
      provider = (next_batch source).1;
      read_count = p.read_count + 1;
      read_future = some r;
    }

    pub start_read-IsNext :
        (result : RawBatch) (source : Source) (p : SimpleShuffledBatchProvider)
        → p.provider ≡ source
        → IsSource source
        → (r : RawBatch) × (start_read shuffle result p ≡ ok (result, reading source r p))
          × IsNext p.read_count source r
    unfolding start_read
    start_read-IsNext result source p same h =
        let (r, read, next) = read_proc-IsNext source p same h in (r, rw read refl, next)

    -- The positions `ids` of the buffer are left, and the batches from the `k`-th on.
    pub record Ready (k : ℕ) (source : Source) (items : List Bytes) (dup_cnt : DupCnt)
        (ids : List ℕ) (p : SimpleShuffledBatchProvider) : Type 0 where
      pub going : p.read_end ≡ false
      pub buffer : IsBuffer items dup_cnt ids p.buffer
      pub future : RawBatch
      pub waits : p.read_future ≡ some future
      pub next : IsNext k source future
      pub unread : p.provider ≡ (next_batch source).1
      pub count : p.read_count ≡ k + 1
      pub valid : IsSource source

    -- The last read finds no items.
    pub read_turn_last :
        (k n_items : ℕ) (items : List Bytes) (dup_cnt : DupCnt) (ids : List ℕ)
        (p : SimpleShuffledBatchProvider)
        → Ready k [] items dup_cnt ids p
        → (p' : SimpleShuffledBatchProvider) × (read_turn shuffle n_items p
            ≡ ok (no_items, n_items, p'))
          × (p'.read_end ≡ true)
          × (p'.base_index ≡ p.base_index)
          × (p'.batch_size ≡ p.batch_size)
    unfolding read_turn read_and_shuffle
    read_turn_last k n_items items dup_cnt ids p ready =
        let none_left : is_nil ready.future.items ≡ true = ap is_nil ready.next.all in
        let at_end : Bool → SimpleShuffledBatchProvider = λ b. record p {
          read_future = none;
          shuffle_base_index = p.shuffle_base_index + length p.buffer.items;
          buffer = ready.future;
          read_end = b;
        } in
        (
          at_end true,
          rw (ready.waits, none_left) (ap (λ b. ok (no_items, n_items, at_end b)) none_left),
          refl,
          refl,
          refl,
        )

    pub read_turn-Ready :
        (k n_items : ℕ) (batch : List Bytes) (dups : DupCnt) (source : Source) (items : List Bytes)
        (dup_cnt : DupCnt) (ids : List ℕ) (p : SimpleShuffledBatchProvider)
        → Ready k ((batch, dups) ∷ source) items dup_cnt ids p
        → (p' : SimpleShuffledBatchProvider) × (read_turn shuffle n_items p
            ≡ ok (no_items, n_items, p'))
          × Ready (k + 1) source batch dups (order k batch) p'
          × (p'.shuffle_base_index ≡ p.shuffle_base_index + length items)
          × (p'.base_index ≡ p.base_index)
          × (p'.batch_size ≡ p.batch_size)
    unfolding read_turn read_and_shuffle next_batch
    read_turn-Ready k n_items batch dups source items dup_cnt ids p ready =
        let waited : SimpleShuffledBatchProvider = record p { read_future = none } in
        let full : is_nil ready.future.items ≡ false = ap is_nil ready.next.all ∙ ready.valid.0.0 in
        let (r, started, next) =
          start_read-IsNext ready.future source waited ready.unread ready.valid.1 in
        let after : Bool → SimpleShuffledBatchProvider = λ b. record (reading source r waited) {
          shuffle_base_index = p.shuffle_base_index + length p.buffer.items;
          buffer = ready.future;
          read_end = b;
        } in
        (
          after false,
          rw (ready.waits, full, started) (ap (λ b. ok (no_items, n_items, after b)) full),
          record {
            going = refl;
            buffer = ready.next;
            future = r;
            waits = refl;
            next = subst (λ k. IsNext k source r) ready.count next;
            unread = refl;
            count = omega (arith, ready.count);
            valid = ready.valid.1;
          },
          ap (λ l. p.shuffle_base_index + length l) ready.buffer.all,
          refl,
          refl,
        )

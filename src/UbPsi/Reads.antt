-- ===== src/UbPsi/Reads.antt =====
-- `ReadNextShuffledBatch` of psi/utils/batch_provider_impl.cc's SimpleShuffledBatchProvider: a read takes
-- the next rows of those that are still to come.
use psi.Prelude.{
  ℕ, suc, ◌+◌, ◌-◌, ◌≡◌, ◌≤◌, min, refl, sym, ◌∙◌, ap, subst, true, false, ◌⊎◌, List, [], ◌++◌, map,
  length, length-append, take, drop, take-past, drop-past, Result, ok, ◌>>=◌, ltb, if◌then◌else◌,
  arith, inr,
}
use psi.Prelude.Bytes.{Bytes, is_nil}
use psi.BatchProvider.{ShuffledBatch}
use psi.BatchProvider.Shuffled.{
  Source, SimpleShuffledBatchProvider, join_batches, push_batch, push_turn, read_turn, fill_batch,
}
use psi.Ecdh.{DupCnt}
use psi.UbPsi.Offline.{Row, columns}
use psi.UbPsi.Buffer.{row_of, numbered, numbered-append, join_batches-columns, push_batch-numbered}
use psi.UbPsi.Provided.{AreOrders, rows_from, Ready}

module _ (shuffle : ℕ → List ℕ → List ℕ) (orders : AreOrders shuffle) where
  abbrev pub rows_left : ℕ → ℕ → Source → List Bytes → DupCnt → List ℕ → List Row
  rows_left base k source items dup_cnt ids =
      map (row_of base items dup_cnt) ids ++ rows_from shuffle k (base + length items) source

  -- The provider has the rows left, in the buffer and in the batches to read.
  pub record Going (rows : List Row) (p : SimpleShuffledBatchProvider) : Type 0 where
    pub k : ℕ
    pub source : Source
    pub items : List Bytes
    pub dup_cnt : DupCnt
    pub ids : List ℕ
    pub ready : Ready shuffle orders k source items dup_cnt ids p
    pub same : rows ≡ rows_left p.shuffle_base_index k source items dup_cnt ids

  -- The provider has the rows left, or has come to its end and has none.
  abbrev pub Pending : List Row → SimpleShuffledBatchProvider → Type 0
  Pending rows p = ((p.read_end ≡ true) × (rows ≡ [])) ⊎ Going rows p

  -- The call takes `m` of the rows, as far as there are.
  abbrev pub Takes :
      List Row
      → ℕ
      → SimpleShuffledBatchProvider
      → Result (ShuffledBatch Bytes × SimpleShuffledBatchProvider)
      → Type 0
  Takes rows m p r =
      (p' : SimpleShuffledBatchProvider) × (r
        ≡ ok (columns (numbered p.base_index (take m rows)), p'))
      × Pending (drop m rows) p'
      × (p'.base_index ≡ p.base_index + length (take m rows))
      × (p'.batch_size ≡ p.batch_size)

  pub push_turn-Ready :
      (k n_items : ℕ) (source : Source) (items : List Bytes) (dup_cnt : DupCnt) (ids : List ℕ)
      (p : SimpleShuffledBatchProvider)
      → Ready shuffle orders k source items dup_cnt ids p
      → let m = min (p.batch_size - n_items) (length ids) in
        (p' : SimpleShuffledBatchProvider) × (push_turn n_items p
          ≡ ok (
            columns (
                numbered p.base_index
                  (map (row_of p.shuffle_base_index items dup_cnt) (take m ids))),
            n_items + m,
            p',
          ))
        × Ready shuffle orders k source items dup_cnt (drop m ids) p'
        × (p'.shuffle_base_index ≡ p.shuffle_base_index)
        × (p'.base_index ≡ p.base_index + m)
        × (p'.batch_size ≡ p.batch_size)
  unfolding push_turn
  push_turn-Ready k n_items source items dup_cnt ids p ready =
      let m = min (p.batch_size - n_items) (length ids) in
      let same : min (p.batch_size - n_items) (length p.buffer.shuffled_indices) ≡ m =
        ap (λ l. min (p.batch_size - n_items) (length l)) ready.buffer.left in
      let pushing : ℕ → Result (ShuffledBatch Bytes × ℕ × SimpleShuffledBatchProvider) = λ m.
        push_batch m p.base_index p.shuffle_base_index p.buffer >>= λ x.
        ok (x.0, n_items + m, record p { buffer = x.1; base_index = p.base_index + m }) in
      let (buffer, pushed, after) =
        push_batch-numbered items dup_cnt p.shuffle_base_index m p.base_index ids p.buffer
          (omega arith) ready.buffer in
      (
        record p { buffer = buffer; base_index = p.base_index + m },
        ap pushing same ∙ (rw pushed refl),
        record {
          going = ready.going;
          buffer = after;
          future = ready.future;
          waits = ready.waits;
          next = ready.next;
          unread = ready.unread;
          count = ready.count;
          valid = ready.valid;
        },
        refl,
        refl,
        refl,
      )

  abbrev pub turn :
      ℕ
      → SimpleShuffledBatchProvider
      → Result (ShuffledBatch Bytes × ℕ × SimpleShuffledBatchProvider)
  turn n_items p =
      if is_nil p.buffer.shuffled_indices then read_turn shuffle n_items p else push_turn n_items p

  pub after_turn :
      (fuel n_items n_items' : ℕ) (p p' : SimpleShuffledBatchProvider)
      (pushed : ShuffledBatch Bytes)
      → ltb n_items p.batch_size ≡ true
      → turn n_items p ≡ ok (pushed, n_items', p')
      → fill_batch shuffle (suc fuel) n_items p ≡ (
          if p'.read_end
          then ok (pushed, p')
          else fill_batch shuffle fuel n_items' p' >>= λ x. ok (join_batches pushed x.0, x.1))
  unfolding fill_batch
  after_turn fuel n_items n_items' p p' pushed more turned = rw (more, turned) refl

  pub full-Takes :
      (fuel n_items : ℕ) (p : SimpleShuffledBatchProvider) (rows : List Row)
      → n_items ≤ p.batch_size
      → ltb n_items p.batch_size ≡ false
      → Going rows p
      → Takes rows (p.batch_size - n_items) p (fill_batch shuffle (suc fuel) n_items p)
  unfolding fill_batch
  full-Takes fuel n_items p rows h full going =
      let none_left : 0 ≡ p.batch_size - n_items = ground (arith, full) in
      let unmoved : p.base_index ≡ p.base_index + 0 = omega arith in
      subst (λ m. Takes rows m p (fill_batch shuffle (suc fuel) n_items p)) none_left
        (p, rw full refl, inr going, unmoved, refl)

  -- A turn that pushes `pushed` and leaves the call to take the rest.
  pub join-Takes :
      (fuel n_items n_items' : ℕ) (p p' : SimpleShuffledBatchProvider) (now rows : List Row)
      → ltb n_items p.batch_size ≡ true
      → n_items ≤ p.batch_size
      → turn n_items p ≡ ok (columns (numbered p.base_index now), n_items', p')
      → p'.read_end ≡ false
      → n_items' ≡ n_items + length now
      → n_items' ≤ p.batch_size
      → p'.base_index ≡ p.base_index + length now
      → p'.batch_size ≡ p.batch_size
      → Takes rows (p'.batch_size - n_items') p' (fill_batch shuffle fuel n_items' p')
      → Takes (now ++ rows) (p.batch_size - n_items) p (fill_batch shuffle (suc fuel) n_items p)
  join-Takes fuel n_items n_items' p p' now rows more h turned going moved h' base size takes =
      let (p'', filled, pending, base', size') = takes in
      let m = p.batch_size - n_items in
      let m' = p'.batch_size - n_items' in
      let rest : m - length now ≡ m' = omega (arith, moved, size) in
      let fits : length now ≤ m = omega (arith, moved, h') in
      let taken : take m (now ++ rows) ≡ now ++ take m' rows =
        take-past m now rows fits ∙ ap (λ k. now ++ take k rows) rest in
      let dropped : drop m (now ++ rows) ≡ drop m' rows =
        drop-past m now rows fits ∙ ap (λ k. drop k rows) rest in
      let later = numbered p'.base_index (take m' rows) in
      let first = columns (numbered p.base_index now) in
      let filling = fill_batch shuffle fuel n_items' p' in
      let joined : join_batches (columns (numbered p.base_index now)) (columns later)
          ≡ columns (numbered p.base_index (take m (now ++ rows))) =
        join_batches-columns (numbered p.base_index now) later
        ∙ ap columns (
            ap (λ k. numbered p.base_index now ++ numbered k (take m' rows)) base
            ∙ sym (numbered-append p.base_index now (take m' rows))
            ∙ ap (numbered p.base_index) (sym taken)) in
      (
        p'',
        after_turn fuel n_items n_items' p p' (columns (numbered p.base_index now)) more turned
            ∙ ap
                (λ b.
                  if b then ok (first, p') else filling >>= λ x. ok (join_batches first x.0, x.1))
                going
            ∙ ap (λ r. r >>= λ x. ok (join_batches first x.0, x.1)) filled
            ∙ ap (λ b. ok (b, p'')) joined,
        subst (λ l. Pending l p'') (sym dropped) pending,
        omega (arith, base', base, ap length taken, length-append now (take m' rows)),
        size' ∙ size,
      )

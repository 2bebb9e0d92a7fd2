-- ===== src/UbPsi/Filled.antt =====
-- The loop of `ReadNextShuffledBatch` of psi/utils/batch_provider_impl.cc's SimpleShuffledBatchProvider:
-- it fills a batch with the next rows, or comes to the end of them.
use mathlib.Core.List.{append_assoc, map-append}
use psi.Prelude.{
  ℕ, zero, suc, ◌+◌, ◌-◌, ◌*◌, ◌≡◌, ◌<◌, ◌≤◌, min, refl, sym, ◌∙◌, ap, subst, true, List, [], ◌∷◌,
  ◌++◌, map, length, length-map, length-take, length-drop, take, drop, take-append-drop, take-nil,
  drop-nil, ok, ◌>>=◌, ltb, if◌then◌else◌, arith, Bool-cases, inl, inr,
}
use psi.Prelude.Bytes.{Bytes, is_nil}
use psi.BatchProvider.Shuffled.{
  Source, SimpleShuffledBatchProvider, no_items, next_batch, join_batches, push_turn, read_turn,
  fill_batch, read_next_shuffled,
}
use psi.Ecdh.{DupCnt}
use psi.UbPsi.Offline.{Row, columns}
use psi.UbPsi.Buffer.{row_of, numbered}
use psi.UbPsi.Provided.{AreOrders, order, rows_from, Ready, read_turn_last, read_turn-Ready}
use psi.UbPsi.Reads.{
  rows_left, Going, Pending, Takes, push_turn-Ready, turn, after_turn, full-Takes, join-Takes,
}

module _ (shuffle : ℕ → List ℕ → List ℕ) (orders : AreOrders shuffle) where
  -- The loop takes the rows from any state, where the fuel has two turns for each batch that is not
  -- read, and one or two more for the buffer and for the end.
  abbrev FillsAll : ℕ → Type 0
  FillsAll fuel =
      (n_items k : ℕ) (source : Source) (items : List Bytes) (dup_cnt : DupCnt) (ids : List ℕ)
      (p : SimpleShuffledBatchProvider)
      → Ready shuffle orders k source items dup_cnt ids p
      → n_items ≤ p.batch_size
      → 2 * length source + 1 ≤ fuel
      → (n_items < p.batch_size → 0 < length ids → 2 * length source + 2 ≤ fuel)
      → Takes shuffle orders
          (rows_left shuffle orders p.shuffle_base_index k source items dup_cnt ids)
          (p.batch_size - n_items) p (fill_batch shuffle fuel n_items p)

  turn_on_empty :
      (n_items k : ℕ) (source : Source) (items : List Bytes) (dup_cnt : DupCnt)
      (p : SimpleShuffledBatchProvider)
      → Ready shuffle orders k source items dup_cnt [] p
      → turn shuffle orders n_items p ≡ read_turn shuffle n_items p
  turn_on_empty n_items k source items dup_cnt p ready =
      ap (λ l. if is_nil l then read_turn shuffle n_items p else push_turn n_items p)
        ready.buffer.left

  turns :
      (fuel : ℕ)
      → FillsAll fuel
      → (n_items k : ℕ) (source : Source) (items : List Bytes) (dup_cnt : DupCnt) (ids : List ℕ)
        (p : SimpleShuffledBatchProvider)
      → ltb n_items p.batch_size ≡ true
      → Ready shuffle orders k source items dup_cnt ids p
      → n_items ≤ p.batch_size
      → 2 * length source ≤ fuel
      → (0 < length ids → 2 * length source + 1 ≤ fuel)
      → Takes shuffle orders
          (rows_left shuffle orders p.shuffle_base_index k source items dup_cnt ids)
          (p.batch_size - n_items)
          p
          (fill_batch shuffle (suc fuel) n_items p)
  turns fuel fills n_items k [] items dup_cnt [] p more ready h enough enough' =
      let (p', read, ended, base, size) =
        read_turn_last shuffle orders k n_items items dup_cnt [] p ready in
      let m = p.batch_size - n_items in
      let turned = turn_on_empty n_items k [] items dup_cnt p ready ∙ read in
      (
        p',
        after_turn shuffle orders fuel n_items n_items p p' no_items more turned
            ∙ ap
                (λ b.
                  if b
                  then ok (no_items, p')
                  else fill_batch shuffle fuel n_items p' >>= λ x.
                      ok (join_batches no_items x.0, x.1))
                ended
            ∙ ap (λ l. ok (columns (numbered p.base_index l), p')) (sym (take-nil m)),
        inl (ended, drop-nil m),
        omega (arith, base, ap length (take-nil {A = Row} m)),
        size,
      )
  turns fuel fills n_items k ((batch, dups) ∷ source) items dup_cnt [] p more ready h enough
        enough' =
      let (p', read, ready', rows_base, base, size) =
        read_turn-Ready shuffle orders k n_items batch dups source items dup_cnt [] p ready in
      let turned = turn_on_empty n_items k ((batch, dups) ∷ source) items dup_cnt p ready ∙ read in
      let ids' = order shuffle k batch in
      let takes =
        fills n_items (k + 1) source batch dups ids' p' ready' (omega (arith, h, size))
          (omega (arith, enough)) (λ lt pos. omega (arith, enough)) in
      join-Takes shuffle orders fuel n_items n_items p p' [] _ more h turned ready'.going
        (omega arith) (omega (arith, h, size)) (omega (arith, base)) size
        (subst
          (λ b.
            Takes shuffle orders (rows_left shuffle orders b (k + 1) source batch dups ids')
              (p'.batch_size - n_items) p' (fill_batch shuffle fuel n_items p'))
          rows_base takes)
  turns fuel fills n_items k source items dup_cnt (i ∷ ids) p more ready h enough enough' =
      let all : List ℕ = i ∷ ids in
      let m = min (p.batch_size - n_items) (length all) in
      let row = row_of p.shuffle_base_index items dup_cnt in
      let (p', pushed, ready', rows_base, base, size) =
        push_turn-Ready shuffle orders k n_items source items dup_cnt all p ready in
      let turned =
        ap (λ l. if is_nil l then read_turn shuffle n_items p else push_turn n_items p)
          ready.buffer.left
        ∙ pushed in
      let later = rows_from shuffle k (p.shuffle_base_index + length items) source in
      let split : map row (take m all) ++ (map row (drop m all) ++ later) ≡ map row all ++ later =
        sym (append_assoc (map row (take m all)) (map row (drop m all)) later)
        ∙ ap (λ l. l ++ later)
            (sym (map-append row (take m all) (drop m all))
              ∙ ap (map row) (take-append-drop m all)) in
      let counted : length (map row (take m all)) ≡ m =
        omega (arith, length-map (take m all) row, length-take m all) in
      let takes =
        fills (n_items + m) k source items dup_cnt (drop m all) p' ready' (omega (arith, h, size))
          (omega (arith, enough' (omega arith)))
          (λ lt pos. absurd (omega (arith, lt, pos, size, length-drop m all))) in
      subst
        (λ l.
          Takes shuffle orders l (p.batch_size - n_items) p
            (fill_batch shuffle (suc fuel) n_items p))
        split
        (join-Takes shuffle orders fuel n_items (n_items + m) p p' (map row (take m all)) _ more h
          turned ready'.going (omega (arith, counted)) (omega (arith, h, size))
          (omega (arith, base, counted)) size
          (subst
            (λ b.
              Takes shuffle orders (rows_left shuffle orders b k source items dup_cnt (drop m all))
                (p'.batch_size - (n_items + m)) p' (fill_batch shuffle fuel (n_items + m) p'))
            rows_base takes))

  fill_batch-Takes : (fuel : ℕ) → FillsAll fuel
  fill_batch-Takes zero n_items k source items dup_cnt ids p ready h enough enough' =
      absurd (omega (arith, enough))
  fill_batch-Takes (suc fuel) n_items k source items dup_cnt ids p ready h enough enough' =
      elim (Bool-cases (ltb n_items p.batch_size)) [
        | inr full ↦
            let going : Going shuffle orders
                (rows_left shuffle orders p.shuffle_base_index k source items dup_cnt ids) p =
              record {
                k = k;
                source = source;
                items = items;
                dup_cnt = dup_cnt;
                ids = ids;
                ready = ready;
                same = refl;
              } in
            full-Takes shuffle orders fuel n_items p _ h full going
        | inl more ↦
            let less : n_items < p.batch_size = ground (arith, more) in
            turns fuel (fill_batch-Takes fuel) n_items k source items dup_cnt ids p more ready h
              (omega (arith, enough)) (λ pos. omega (arith, enough' less pos))
      ]

  length-next_batch : (source : Source) → length source ≤ length (next_batch source).1 + 1
  unfolding next_batch
  length-next_batch [] = omega arith
  length-next_batch (batch ∷ source) = omega arith

  pub read_next_shuffled-Takes :
      (rows : List Row) (p : SimpleShuffledBatchProvider)
      → Pending shuffle orders rows p
      → Takes shuffle orders rows p.batch_size p (read_next_shuffled shuffle p)
  unfolding read_next_shuffled
  read_next_shuffled-Takes rows p (inl (ended, gone)) =
      let m = p.batch_size in
      let none_left : take m rows ≡ [] = ap (take m) gone ∙ take-nil m in
      (
        p,
        ap (λ b. if b then ok (no_items, p) else fill_batch shuffle (2 * length p.provider + 4) 0 p)
              ended
            ∙ ap (λ l. ok (columns (numbered p.base_index l), p)) (sym none_left),
        inl (ended, ap (drop m) gone ∙ drop-nil m),
        omega (arith, ap length none_left),
        refl,
      )
  read_next_shuffled-Takes rows p (inr going) =
      let ready = going.ready in
      let fuel = 2 * length p.provider + 4 in
      let length_unread : length p.provider ≡ length (next_batch going.source).1 =
        ap length ready.unread in
      let all : p.batch_size - 0 ≡ p.batch_size = omega arith in
      let takes =
        fill_batch-Takes fuel 0 going.k going.source going.items going.dup_cnt going.ids p ready
          (omega arith) (omega (arith, length_unread, length-next_batch going.source))
          (λ less pos. omega (arith, length_unread, length-next_batch going.source)) in
      let (p', filled, pending, base, size) =
        subst (λ l. Takes shuffle orders l p.batch_size p (fill_batch shuffle fuel 0 p))
          (sym going.same)
          (subst
            (λ m.
              Takes shuffle orders
                (rows_left shuffle orders p.shuffle_base_index going.k going.source going.items
                  going.dup_cnt going.ids)
                m p (fill_batch shuffle fuel 0 p))
            all takes) in
      (
        p',
        ap (λ b. if b then ok (no_items, p) else fill_batch shuffle fuel 0 p) ready.going ∙ filled,
        pending,
        base,
        size,
      )

-- ===== src/UbPsi/ServerSource.antt =====
-- The server's rows from psi/utils/batch_provider_impl.cc's SimpleShuffledBatchProvider, against the
-- items of its source.
use mathlib.Core.List.{Permᴰ}
use mathlib.Core.List.Permᴰ
use psi.Prelude.{
  ℕ, suc, ◌+◌, ◌≡◌, ◌<◌, refl, sym, ◌∙◌, ap, subst, List, [], ◌∷◌, map, length, ◌>>=◌, Returns,
  arith,
}
use psi.Prelude.Bytes.{Bytes, concat}
use psi.Prelude.Count.{length-perm, All-perm}
use psi.BatchProvider.{iota}
use psi.BatchProvider.Shuffled.{Source, new_shuffled, read_out_shuffled}
use psi.UbPsi.Offline.{Row, columns}
use psi.UbPsi.Caching.{NonEmpty}
use psi.UbPsi.Rows.{InOrder}
use psi.UbPsi.Indices.{iota-Within}
use psi.UbPsi.Buffer.{row_of, numbered}
use psi.UbPsi.Provided.{IsSource, AreOrders, rows_from}
use psi.UbPsi.ReadOut.{read_out_shuffled-ReadsOut, new_shuffled-Pending}

numbered-InOrder : (position : ℕ) (rows : List Row) → InOrder position (numbered position rows)
numbered-InOrder position [] = tt
numbered-InOrder position (r ∷ rows) = (refl, numbered-InOrder (position + 1) rows)

-- The rows of a source in its own order.
abbrev pub source_rows : Source → List Row
source_rows source = rows_from (λ k l. l) 0 0 source

-- What a row is but for its position.
abbrev pub row_data : Row → Bytes × ℕ × ℕ
row_data r = (r.item, r.row_index, r.dup_cnt)

module _ (shuffle : ℕ → List ℕ → List ℕ)
    (permutes : (k : ℕ) (l : List ℕ) → Permᴰ (shuffle k l) l) where
  permutes-AreOrders : AreOrders shuffle
  permutes-AreOrders k items =
      All-perm (λ i. i < length items) (permutes k (iota 0 (length items)))
        (iota-Within (length items) 0 (length items) (omega arith))

  rows_from-perm :
      (k base : ℕ) (source : Source)
      → Permᴰ (rows_from shuffle k base source) (rows_from (λ k l. l) k base source)
  rows_from-perm k base [] = Permᴰ.refl []
  rows_from-perm k base ((items, dup_cnt) ∷ source) =
      let row = row_of base items dup_cnt in
      Permᴰ.trans
        (Permᴰ.append_right (rows_from shuffle (k + 1) (base + length items) source)
          (Permᴰ.map row (permutes k (iota 0 (length items)))))
        (Permᴰ.append_left (map row (iota 0 (length items)))
          (rows_from-perm (k + 1) (base + length items) source))

  row_data-numbered :
      (position : ℕ) (rows : List Row) → map row_data (numbered position rows) ≡ map row_data rows
  row_data-numbered position [] = refl
  row_data-numbered position (r ∷ rows) =
      ap (λ l. row_data r ∷ l) (row_data-numbered (position + 1) rows)

  -- Over a source with no empty batch, whose counts are maps on the positions of a batch, and with a
  -- shuffle that gives every list back in some order, a new provider with a batch size other than 0
  -- is read until its first empty batch: the reading ends, no batch before it is empty, the batches'
  -- four columns have one length, their positions count up from 0, and their rows are, in some
  -- order, the items of the source with their numbers in it and their counts.
  pub new_shuffled-read_out_shuffled :
      (source : Source) (batch_size : ℕ)
      → IsSource source
      → 0 < batch_size
      → Returns
          (new_shuffled shuffle source batch_size >>= λ p.
            read_out_shuffled shuffle (suc (length (source_rows source))) p)
          (λ batches.
            (chunks : List (List Row)) × (batches ≡ map columns chunks)
            × NonEmpty chunks
            × InOrder 0 (concat chunks)
            × Permᴰ (map row_data (concat chunks)) (map row_data (source_rows source)))
  new_shuffled-read_out_shuffled source batch_size h pos =
      let orders = permutes-AreOrders in
      let rows = rows_from shuffle 0 0 source in
      let perm = rows_from-perm 0 0 source in
      let (p, made, pending, base, size) =
        new_shuffled-Pending shuffle orders source batch_size h in
      let (chunks, reads, whole, full) =
        read_out_shuffled-ReadsOut shuffle orders (suc (length (source_rows source))) rows p
          (omega (arith, length-perm perm)) (omega (arith, pos, size)) pending in
      let whole' : concat chunks ≡ numbered 0 rows = whole ∙ ap (λ k. numbered k rows) base in
      (
        map columns chunks,
        rw (made, reads) refl,
        (
          chunks,
          refl,
          full,
          subst (InOrder 0) (sym whole') (numbered-InOrder 0 rows),
          subst (λ l. Permᴰ l (map row_data (source_rows source)))
              (sym (ap (map row_data) whole' ∙ row_data-numbered 0 rows)) (Permᴰ.map row_data perm),
        ),
      )

-- ===== src/UbPsi/Buffer.antt =====
-- The buffer of psi/utils/batch_provider_impl.cc's SimpleShuffledBatchProvider as the rows that the
-- server of psi/algorithm/ecdh/ub_psi/server.cc makes its cache of.
use psi.Prelude.{
  ℕ, zero, suc, ◌+◌, ◌≡◌, ◌<◌, ◌≤◌, refl, sym, ◌∙◌, ap, subst, true, false, ◌||◌, List, [], ◌∷◌,
  ◌++◌, map, length, length-set, set, get_or, take, drop, replicate, ok, Returns, at, ltb, ◌==◌,
  arith, Bool-cases, inl, inr,
}
use psi.Prelude.Bytes.{Bytes}
use psi.Prelude.Count.{All, at-set_self, at-set_ne}
use psi.BatchProvider.{ShuffledBatch}
use psi.BatchProvider.Shuffled.{RawBatch, join_batches, write_dups, push_batch}
use psi.Ecdh.{DupCnt, dup_at}
use psi.UbPsi.Offline.{Row, columns}
use psi.UbPsi.Lookup.{has_key}
use psi.UbPsi.Counting.{IsMap, dup_at_absent}
use psi.UbPsi.Indices.{at-get_or}

-- The row of an item, whose position is not known yet.
abbrev pub row_of : ℕ → List Bytes → DupCnt → ℕ → Row
row_of base items dup_cnt i = record {
  item = get_or items i [];
  position = 0;
  row_index = base + i;
  dup_cnt = dup_at dup_cnt i;
}

-- Rows at the positions from `position` on.
abbrev pub numbered : ℕ → List Row → List Row
numbered position [] = []
numbered position (r ∷ rows) = record r { position = position } ∷ numbered (position + 1) rows

pub numbered-append :
    (position : ℕ) (xs ys : List Row)
    → numbered position (xs ++ ys) ≡ numbered position xs ++ numbered (position + length xs) ys
numbered-append position [] ys =
    let e : position ≡ position + 0 = omega arith in ap (λ k. numbered k ys) e
numbered-append position (r ∷ xs) ys =
    let e : position + 1 + length xs ≡ position + suc (length xs) = omega arith in
    ap (λ l. record r { position = position } ∷ l)
      (numbered-append (position + 1) xs ys
        ∙ ap (λ k. numbered (position + 1) xs ++ numbered k ys) e)

pub join_batches-columns :
    (xs ys : List Row) → join_batches (columns xs) (columns ys) ≡ columns (xs ++ ys)
unfolding join_batches
join_batches-columns [] ys = refl
join_batches-columns (x ∷ xs) ys =
    ap
      (λ (b : ShuffledBatch Bytes). record {
        batch_items = x.item ∷ b.batch_items;
        batch_indices = x.position ∷ b.batch_indices;
        shuffled_indices = x.row_index ∷ b.shuffled_indices;
        dup_cnts = x.dup_cnt ∷ b.dup_cnts;
      })
      (join_batches-columns xs ys)

-- The vector has the map's counts, where the entries left do not write.
abbrev Filled : DupCnt → DupCnt → List ℕ → Type 0
Filled dup_cnt entries l =
    (i : ℕ) → i < length l → has_key entries i ≡ false → at l i ≡ ok (dup_at dup_cnt i)

Filled-set :
    (dup_cnt entries : DupCnt) (k v : ℕ) (l : List ℕ)
    → k < length l
    → dup_at dup_cnt k ≡ v
    → Filled dup_cnt ((k, v) ∷ entries) l
    → Filled dup_cnt entries (set l k v)
unfolding has_key
Filled-set dup_cnt entries k v l range value filled i h other = elim (Bool-cases (k == i)) [
  | inl same ↦
      let same' : k ≡ i = ground (arith, same) in
      subst (λ j. at (set l k v) j ≡ ok (dup_at dup_cnt j)) same'
        (at-set_self l k v range ∙ ap ok (sym value))
  | inr differ ↦
      let differ' : ¬ (k ≡ i) = ground (arith, differ) in
      let absent : (k == i || has_key entries i) ≡ false = rw differ other in
      at-set_ne l k i v differ' ∙ filled i (omega (arith, h, length-set l k v)) absent
]

-- The vector that holds the counts of a map.
abbrev pub IsTable : ℕ → DupCnt → List ℕ → Type 0
IsTable n dup_cnt l = (i : ℕ) → i < n → at l i ≡ ok (dup_at dup_cnt i)

write_dups-IsTable_from :
    (items : List Bytes) (dup_cnt entries : DupCnt) (l : List ℕ)
    → length l ≡ length items
    → IsMap items dup_cnt entries
    → Filled dup_cnt entries l
    → Returns (write_dups entries l) (IsTable (length items) dup_cnt)
unfolding write_dups has_key
write_dups-IsTable_from items dup_cnt [] l size maps filled =
    (l, refl, λ i h. filled i (omega (arith, h, size)) refl)
write_dups-IsTable_from items dup_cnt ((k, v) ∷ entries) l size maps filled =
    let range : ltb k (length l) ≡ true = ground (arith, maps.0.0, size) in
    rw range (
      write_dups-IsTable_from items dup_cnt entries (set l k v) (length-set l k v ∙ size) maps.1
        (Filled-set dup_cnt entries k v l (omega (arith, maps.0.0, size)) maps.0.1 filled))

at-replicate : (n i c : ℕ) → i < n → at (replicate n c) i ≡ ok c
at-replicate zero i c h = absurd (omega arith)
at-replicate (suc n) zero c h = refl
at-replicate (suc n) (suc i) c h = at-replicate n i c (omega (arith, h))

length-replicate : (n c : ℕ) → length (replicate n c) ≡ n
length-replicate zero c = refl
length-replicate (suc n) c = ap suc (length-replicate n c)

pub write_dups-IsTable :
    (items : List Bytes) (dup_cnt : DupCnt)
    → IsMap items dup_cnt dup_cnt
    → Returns (write_dups dup_cnt (replicate (length items) 0)) (IsTable (length items) dup_cnt)
write_dups-IsTable items dup_cnt maps =
    let n = length items in
    write_dups-IsTable_from items dup_cnt dup_cnt (replicate n 0) (length-replicate n 0) maps
      (λ i h absent.
        at-replicate n i 0 (omega (arith, h, length-replicate n 0))
        ∙ ap ok (sym (dup_at_absent dup_cnt i absent)))

-- The buffer holds a batch of which the positions `ids` are left.
pub record IsBuffer (items : List Bytes) (dup_cnt : DupCnt) (ids : List ℕ) (buffer : RawBatch)
    : Type 0 where
  pub all : buffer.items ≡ items
  pub left : buffer.shuffled_indices ≡ ids
  pub table : IsTable (length items) dup_cnt buffer.dup_cnt
  pub within : All (λ i. i < length items) ids

module _ (items : List Bytes) (dup_cnt : DupCnt) (base : ℕ) where
  pub push_batch-numbered :
      (n position : ℕ) (ids : List ℕ) (buffer : RawBatch)
      → n ≤ length ids
      → IsBuffer items dup_cnt ids buffer
      → (buffer' : RawBatch) × (push_batch n position base buffer
          ≡ ok
              (columns (numbered position (map (row_of base items dup_cnt) (take n ids))), buffer'))
        × IsBuffer items dup_cnt (drop n ids) buffer'
  unfolding push_batch
  push_batch-numbered zero position ids buffer h holds = (buffer, refl, holds)
  push_batch-numbered (suc n) position [] buffer h holds = absurd (omega (arith, h))
  push_batch-numbered (suc n) position (i ∷ ids) buffer h holds =
      let buffer' : RawBatch = record buffer {
        shuffled_indices = drop 1 buffer.shuffled_indices;
      } in
      let holds' : IsBuffer items dup_cnt ids buffer' = record {
        all = holds.all;
        left = ap (drop 1) holds.left;
        table = holds.table;
        within = holds.within.1;
      } in
      let (last, pushed, after) =
        push_batch-numbered n (position + 1) ids buffer' (omega (arith, h)) holds' in
      let front : at buffer.shuffled_indices 0 ≡ ok i = ap (λ l. at l 0) holds.left in
      let count : at buffer.dup_cnt i ≡ ok (dup_at dup_cnt i) = holds.table i holds.within.0 in
      let item : at buffer.items i ≡ ok (get_or items i []) =
        ap (λ l. at l i) holds.all ∙ at-get_or items i holds.within.0 in
      (last, rw (front, count, item, pushed) refl, after)

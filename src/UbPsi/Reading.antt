-- ===== src/UbPsi/Reading.antt =====
-- Reading the cache of psi/algorithm/ecdh/ub_psi/ub_psi_cache.cc to its end.
use mathlib.Core.List.{map-append}
use psi.Prelude.{
  ℕ, zero, suc, ◌+◌, ◌-◌, ◌^◌, ◌≡◌, ◌<◌, ◌≤◌, min, refl, sym, ◌∙◌, ap, true, false, List, [], ◌∷◌,
  ◌++◌, map, length, length-map, length-drop, take, drop, take-append-drop, replicate, Result, ok,
  ◌>>=◌, ltb, leb, ◌==◌, arith, Bool-cases, Result-cases, inl, inr,
}
use psi.Prelude.Bytes.{Bytes, is_nil, concat}
use psi.Prelude.Count.{All-take, All-drop}
use psi.BatchProvider.{ShuffledBatch}
use psi.Ecdh.{DupCnt}
use psi.Ecdh.Codec.{take-of-size}
use psi.UbPsi.{OprfServer, OprfClient, uint32}
use psi.UbPsi.Cache.{
  UbPsiCacheProvider, empty_batch, new_provider, batch_of, read_next_shuffled_batch, read_all,
  non_zero, read_next_batch_with_dup_cnt, read_all_with_dup_cnt,
}
use psi.UbPsi.Round.{IsOprf}
use psi.UbPsi.Offline.{Row, columns, cached}
use psi.UbPsi.Caching.{NonEmpty, Accepted, cache_folder}

pub is_nil-map : {A B : Type 0} (f : A → B) (xs : List A) → is_nil (map f xs) ≡ is_nil xs
is_nil-map f [] = refl
is_nil-map f (x ∷ xs) = refl

pub is_nil-take :
    {A : Type 0} (n : ℕ) (x : A) (xs : List A) → 0 < n → is_nil (take n (x ∷ xs)) ≡ false
is_nil-take zero x xs h = absurd (omega arith)
is_nil-take (suc n) x xs h = refl

pub uint32_small : (n : ℕ) → n < 2 ^ 32 → uint32 n ≡ n
unfolding uint32
uint32_small n h = omega (arith, h)

-- The columns that the client is sent of a batch.
abbrev pub with_dups : List Row → List Bytes × DupCnt
with_dups rows = (map (λ r. r.item) rows, non_zero 0 (map (λ r. r.dup_cnt) rows))

module _ (server : OprfServer) (IsClient : OprfClient → Type 0) (IsItem : Bytes → Type 0)
    (oprf : IsOprf server IsClient IsItem) where
  abbrev len : ℕ
  len = server.get_compare_length

  -- A row as the cache gives it back.
  abbrev pub masked_row : Row → Row
  masked_row r = record {
    item = oprf.masked r.item;
    position = uint32 r.position;
    row_index = uint32 r.row_index;
    dup_cnt = r.dup_cnt;
  }

  batch_of-cached :
      (rows : List Row)
      → Accepted server IsClient IsItem oprf rows
      → batch_of len (map (cached oprf.masked len) rows) ≡ columns (map masked_row rows)
  unfolding batch_of
  batch_of-cached [] h = refl
  batch_of-cached (r ∷ rows) h =
      let text =
        take-of-size len (oprf.masked r.item) (replicate (32 - len) 0)
          (oprf.length-masked r.item h.0) in
      rw text (
        ap
          (λ (b : ShuffledBatch Bytes). record {
            batch_items = oprf.masked r.item ∷ b.batch_items;
            batch_indices = uint32 r.position ∷ b.batch_indices;
            shuffled_indices = uint32 r.row_index ∷ b.shuffled_indices;
            dup_cnts = r.dup_cnt ∷ b.dup_cnts;
          })
          (batch_of-cached rows h.1))

  take-map :
      {A B : Type 0} (f : A → B) (n : ℕ) (xs : List A) → take n (map f xs) ≡ map f (take n xs)
  take-map f zero xs = refl
  take-map f (suc n) [] = refl
  take-map f (suc n) (x ∷ xs) = ap (λ l. f x ∷ l) (take-map f n xs)

  drop-map :
      {A B : Type 0} (f : A → B) (n : ℕ) (xs : List A) → drop n (map f xs) ≡ map f (drop n xs)
  drop-map f zero xs = refl
  drop-map f (suc n) [] = refl
  drop-map f (suc n) (x ∷ xs) = drop-map f n xs

  -- The provider has the rows left.
  record Left (rows : List Row) (p : UbPsiCacheProvider) : Type 0 where
    size : p.meta.item_len ≡ len
    unread : p.unread ≡ map (cached oprf.masked len) rows
    count : p.meta.item_count ≡ p.read_count + length rows

  read_nothing :
      (p : UbPsiCacheProvider) → Left [] p → read_next_shuffled_batch p ≡ (empty_batch, p)
  unfolding read_next_shuffled_batch
  read_nothing p left =
      let over : leb p.meta.item_count p.read_count ≡ true = ground (arith, left.count) in
      rw over refl

  abbrev next : ℕ → UbPsiCacheProvider → UbPsiCacheProvider
  next n p = record p { unread = drop n p.unread; read_count = p.read_count + n }

  read_some :
      (r : Row) (rows : List Row) (p : UbPsiCacheProvider)
      → Left (r ∷ rows) p
      → Accepted server IsClient IsItem oprf (r ∷ rows)
      → 0 < p.batch_size
      → let n = min p.batch_size (length (r ∷ rows)) in
        read_next_shuffled_batch p ≡ (columns (map masked_row (take n (r ∷ rows))), next n p)
  unfolding read_next_shuffled_batch
  read_some r rows p left accepted pos =
      let n = min p.batch_size (length (r ∷ rows)) in
      let more : leb p.meta.item_count p.read_count ≡ false = ground (arith, left.count) in
      let count : min p.batch_size (p.meta.item_count - p.read_count) ≡ n =
        omega (arith, left.count) in
      let some_items : ltb 0 n ≡ true = ground (arith, pos) in
      let batch =
        ap (λ l. batch_of p.meta.item_len (take n l)) left.unread
        ∙ ap (λ k. batch_of k (take n (map (cached oprf.masked len) (r ∷ rows)))) left.size
        ∙ ap (batch_of len) (take-map (cached oprf.masked len) n (r ∷ rows))
        ∙ batch_of-cached (take n (r ∷ rows))
            (All-take (λ r. IsItem r.item) n (r ∷ rows) accepted) in
      rw (more, count, some_items) (ap (λ b. (b, next n p)) batch)

  next-Left :
      (n : ℕ) (rows : List Row) (p : UbPsiCacheProvider)
      → n ≤ length rows
      → Left rows p
      → Left (drop n rows) (next n p)
  next-Left n rows p h left = record {
    size = left.size;
    unread = ap (drop n) left.unread ∙ drop-map (cached oprf.masked len) n rows;
    count = omega (arith, left.count, length-drop n rows);
  }

  -- Reading ends, and gives the rows in order.
  abbrev pub ReadsBack : List Row → Result (List (ShuffledBatch Bytes)) → Type 0
  ReadsBack rows r =
      (chunks : List (List Row)) × (r ≡ ok (map columns chunks))
      × (concat chunks ≡ map masked_row rows)
      × NonEmpty chunks

  read_all-ReadsBack :
      (fuel : ℕ) (rows : List Row) (p : UbPsiCacheProvider)
      → length rows < fuel
      → Left rows p
      → Accepted server IsClient IsItem oprf rows
      → 0 < p.batch_size
      → ReadsBack rows (read_all fuel p)
  unfolding read_all
  read_all-ReadsBack zero rows p h left accepted pos = absurd (omega arith)
  read_all-ReadsBack (suc fuel) [] p h left accepted pos =
      ([], rw (read_nothing p left) refl, refl, tt)
  read_all-ReadsBack (suc fuel) (r ∷ rows) p h left accepted pos =
      let n = min p.batch_size (length (r ∷ rows)) in
      let (chunks, reads, whole, full) =
        read_all-ReadsBack fuel (drop n (r ∷ rows)) (next n p)
          (omega (arith, h, pos, length-drop n (r ∷ rows)))
          (next-Left n (r ∷ rows) p (omega arith) left)
          (All-drop (λ r. IsItem r.item) n (r ∷ rows) accepted) pos in
      let all : List Row = r ∷ rows in
      let first : List Row = map masked_row (take n all) in
      let read = read_some r rows p left accepted pos in
      let more : is_nil first ≡ false =
        is_nil-map masked_row (take n all) ∙ is_nil-take n r rows (omega (arith, pos)) in
      let more_items : is_nil (map (λ r. r.item) first) ≡ false =
        is_nil-map (λ r. r.item) first ∙ more in
      (
        first ∷ chunks,
        rw (read, more_items, reads) refl,
        ap (λ l. first ++ l) whole
            ∙ sym (map-append masked_row (take n all) (drop n all))
            ∙ ap (map masked_row) (take-append-drop n all),
        (more, full),
      )

  pub read_all_with_dup_cnt_lem :
      (fuel : ℕ) (p : UbPsiCacheProvider)
      → read_all_with_dup_cnt fuel p
        ≡ (read_all fuel p >>= λ bs. ok (map (λ b. (b.batch_items, non_zero 0 b.dup_cnts)) bs))
  unfolding read_all read_all_with_dup_cnt read_next_batch_with_dup_cnt
  read_all_with_dup_cnt_lem zero p = refl
  read_all_with_dup_cnt_lem (suc fuel) p =
      let next : UbPsiCacheProvider = (read_next_shuffled_batch p).1 in
      elim (Bool-cases (is_nil (read_next_shuffled_batch p).0.batch_items)) [
        | inl last ↦ rw last refl
        | inr more ↦ elim (Result-cases (read_all fuel next)) [
          | inl (failure, failed) ↦ rw (more, read_all_with_dup_cnt_lem fuel next, failed) refl
          | inr (bs, reads) ↦ rw (more, read_all_with_dup_cnt_lem fuel next, reads) refl
        ]
      ]

  -- A cache's folder of fewer than 2^32 rows is read back, in batches of any such size but 0.
  pub new_provider-ReadsBack :
      (private_key : Bytes) (selected_keys : List Bytes) (rows : List Row) (batch_size : ℕ)
      → Accepted server IsClient IsItem oprf rows
      → 0 < batch_size
      → batch_size < 2 ^ 32
      → length rows < 2 ^ 32
      → (p : UbPsiCacheProvider) × (new_provider
            (cache_folder server IsClient IsItem oprf private_key selected_keys rows)
            batch_size
          ≡ ok p)
        × ReadsBack rows (read_all (suc p.meta.item_count) p)
  unfolding new_provider
  new_provider-ReadsBack private_key selected_keys rows batch_size accepted pos size few =
      let wide : uint32 batch_size ≡ batch_size = uint32_small batch_size size in
      let counted : uint32 (length rows) ≡ length rows = uint32_small (length rows) few in
      let same : length (map (cached oprf.masked len) rows) == length rows ≡ true =
        ground (arith, length-map rows (cached oprf.masked len)) in
      let p : UbPsiCacheProvider = record {
        batch_size = batch_size;
        meta = record {
          item_len = len;
          item_count = length rows;
          priv_key = private_key;
          key_cols = selected_keys;
        };
        unread = map (cached oprf.masked len) rows;
        read_count = 0;
      } in
      (
        p,
        rw (wide, counted, same) refl,
        read_all-ReadsBack (suc (length rows)) rows p (omega arith)
            (record { size = refl; unread = refl; count = omega arith }) accepted pos,
      )

-- ===== src/UbPsi/Offline.antt =====
-- The offline stage of psi/algorithm/ecdh/ub_psi/server.cc and client.cc: the server masks its items
-- into a cache, and sends the cache, batch after batch, to the client's file.
use mathlib.Core.List.{append_assoc, append-nil, map-append}
use psi.Prelude.{
  ℕ, ◌+◌, ◌-◌, ◌*◌, ◌≡◌, refl, sym, ◌∙◌, ap, true, List, [], ◌∷◌, ◌++◌, map, length, length-map,
  length-append, take, drop, replicate, ok, at, ◌==◌, arith,
}
use psi.Prelude.Bytes.{Bytes, concat}
use psi.Prelude.Count.{All, All-append}
use psi.BatchProvider.{ShuffledBatch}
use psi.Ecdh.Codec.{HaveSize, length-concat, take-of-size, drop-of-size}
use psi.UbPsi.{uint32}
use psi.UbPsi.Server.{save_batch}
use psi.UbPsi.Cache.{UbPsiCache, UbPsiCacheItem, save_data}

-- An item of the server, with its position in the shuffled order, the row that it came from, and the
-- count of its extra copies.
pub record Row : Type 0 where
  pub item : Bytes
  pub position : ℕ
  pub row_index : ℕ
  pub dup_cnt : ℕ

-- A shuffled batch whose four columns have one length.
abbrev pub columns : List Row → ShuffledBatch Bytes
columns rows = record {
  batch_items = map (λ r. r.item) rows;
  batch_indices = map (λ r. r.position) rows;
  shuffled_indices = map (λ r. r.row_index) rows;
  dup_cnts = map (λ r. r.dup_cnt) rows;
}

pub at-map :
    {B : Type 0} (f : Row → B) (before : List Row) (r : Row) (rows : List Row)
    → at (map f (before ++ r ∷ rows)) (length before) ≡ ok (f r)
at-map f [] r rows = refl
at-map f (b ∷ before) r rows = at-map f before r rows

concat-append : (xs ys : List Bytes) → concat (xs ++ ys) ≡ concat xs ++ concat ys
concat-append [] ys = refl
concat-append (x ∷ xs) ys =
    ap (λ l. x ++ l) (concat-append xs ys) ∙ sym (append_assoc x (concat xs) (concat ys))

module _ (masked : Bytes → Bytes) (len : ℕ) where
  abbrev pub cached : Row → UbPsiCacheItem
  cached r = record {
    origin_index = uint32 r.position;
    shuffle_index = uint32 r.row_index;
    dup_cnt = r.dup_cnt;
    text = masked r.item ++ replicate (32 - len) 0;
  }

  abbrev pub masked_items : List Row → List Bytes
  masked_items rows = map (λ r. masked r.item) rows

  abbrev pub Fits : List Row → Type 0
  Fits rows = All (λ r. length (masked r.item) ≡ len) rows

  -- The cache after the rows.
  abbrev pub grown : List Row → UbPsiCache → UbPsiCache
  grown rows c = record {
    data_len = c.data_len;
    cache_cnt = c.cache_cnt + length rows;
    meta = c.meta;
    buffered = c.buffered ++ map cached rows;
    folder = c.folder;
  }

  Fits-HaveSize : (rows : List Row) → Fits rows → HaveSize len (masked_items rows)
  Fits-HaveSize [] h = tt
  Fits-HaveSize (r ∷ rows) h = (h.0, Fits-HaveSize rows h.1)

  text_at :
      (before : List Row) (r : Row) (rows : List Row)
      → Fits before
      → length (masked r.item) ≡ len
      → take len (drop (length before * len) (concat (masked_items (before ++ r ∷ rows))))
        ≡ masked r.item
  text_at before r rows fits fit =
      let total : length (concat (masked_items before)) ≡ length before * len =
        length-concat len (masked_items before) (Fits-HaveSize before fits)
        ∙ ap (λ n. n * len) (length-map before (λ r. masked r.item)) in
      ap (λ l. take len (drop (length before * len) l))
        (ap concat (map-append (λ r. masked r.item) before (r ∷ rows))
          ∙ concat-append (masked_items before) (masked_items (r ∷ rows)))
      ∙ ap (take len) (
          drop-of-size (length before * len) (concat (masked_items before))
            (concat (masked_items (r ∷ rows))) total)
      ∙ take-of-size len (masked r.item) (concat (masked_items rows)) fit

  save_data-cached :
      (r : Row) (c : UbPsiCache)
      → c.data_len ≡ len
      → length (masked r.item) ≡ len
      → save_data (masked r.item) r.position r.row_index r.dup_cnt c ≡ ok (grown (r ∷ []) c)
  unfolding save_data
  save_data-cached r c same fit =
      let fits : length (masked r.item) == c.data_len ≡ true = ground (arith, same, fit) in
      rw (fits, same) refl

  pub grown-nil : (c : UbPsiCache) → grown [] c ≡ c
  grown-nil c =
      let count : c.cache_cnt + 0 ≡ c.cache_cnt = omega arith in
      ap (λ n. record c { cache_cnt = n; buffered = c.buffered ++ [] }) count
      ∙ ap (λ l. record c { buffered = l }) (append-nil c.buffered)

  pub grown-grown :
      (rows more : List Row) (c : UbPsiCache) → grown more (grown rows c) ≡ grown (rows ++ more) c
  grown-grown rows more c =
      let count : c.cache_cnt + length rows + length more ≡ c.cache_cnt + length (rows ++ more) =
        omega (arith, length-append rows more) in
      rw
        (
          append_assoc c.buffered (map cached rows) (map cached more),
          count,
          map-append cached rows more,
        )
        refl

  pub save_batch-grown :
      (before rows : List Row) (c : UbPsiCache)
      → c.data_len ≡ len
      → Fits before
      → Fits rows
      → save_batch len
          (length rows)
          (length before)
          (concat (masked_items (before ++ rows)))
          (columns (before ++ rows))
          c
        ≡ ok (grown rows c)
  unfolding save_batch
  save_batch-grown before [] c same fits_before fits = ap (λ g. ok g) (sym (grown-nil c))
  save_batch-grown before (r ∷ rows) c same fits_before fits =
      let next : length (before ++ r ∷ []) ≡ length before + 1 = length-append before (r ∷ []) in
      let rest =
        save_batch-grown (before ++ r ∷ []) rows (grown (r ∷ []) c) same
          (All-append (λ r. length (masked r.item) ≡ len) before (r ∷ []) fits_before (fits.0, tt))
          fits.1 in
      rw
        (
          at-map (λ r. r.position) before r rows,
          at-map (λ r. r.row_index) before r rows,
          at-map (λ r. r.dup_cnt) before r rows,
          text_at before r rows fits_before fits.0,
          save_data-cached r c same fits.0,
        )
        (ap
            (λ l.
              save_batch len (length rows) (length before + 1) (concat (masked_items l)) (columns l)
                (grown (r ∷ []) c))
            (sym (append_assoc before (r ∷ []) rows))
          ∙ ap
              (λ i.
                save_batch len (length rows) i (concat (masked_items (before ++ r ∷ [] ++ rows)))
                  (columns (before ++ r ∷ [] ++ rows)) (grown (r ∷ []) c))
              (sym next)
          ∙ rest
          ∙ ap (λ g. ok g) (grown-grown (r ∷ []) rows c))

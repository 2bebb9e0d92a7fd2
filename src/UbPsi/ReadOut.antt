-- ===== src/UbPsi/ReadOut.antt =====
-- Reading a SimpleShuffledBatchProvider of psi/utils/batch_provider_impl.cc from its constructor until
-- the first empty batch, as `FullEvaluate` of psi/algorithm/ecdh/ub_psi/ecdh_oprf_psi.cc does.
use psi.Prelude.{
  ℕ, zero, suc, ◌≡◌, ◌<◌, refl, sym, ◌∙◌, ap, true, false, none, List, [], ◌∷◌, ◌++◌, map, length,
  length-drop, take, drop, take-append-drop, take-nil, Result, ok, arith, inr,
}
use psi.Prelude.Bytes.{Bytes, is_nil, concat}
use psi.BatchProvider.{ShuffledBatch}
use psi.BatchProvider.Shuffled.{
  Source, SimpleShuffledBatchProvider, empty_raw, next_batch, read_and_shuffle, new_shuffled,
  read_out_shuffled,
}
use psi.UbPsi.Offline.{Row, columns}
use psi.UbPsi.Caching.{NonEmpty}
use psi.UbPsi.Reading.{is_nil-map, is_nil-take}
use psi.UbPsi.Shuffling.{Within}
use psi.UbPsi.Buffer.{row_of, numbered, numbered-append}
use psi.UbPsi.Provided.{
  IsSource, AreOrders, order, rows_from, read_proc-IsNext, start_read-IsNext, reading,
}
use psi.UbPsi.Reads.{Pending}
use psi.UbPsi.Filled.{read_next_shuffled-Takes}

is_nil-numbered : (position : ℕ) (rows : List Row) → is_nil (numbered position rows) ≡ is_nil rows
is_nil-numbered position [] = refl
is_nil-numbered position (r ∷ rows) = refl

Within-nil : (ids : List ℕ) → Within 0 ids → ids ≡ []
Within-nil [] h = refl
Within-nil (i ∷ ids) h = absurd (omega (arith, h.0))

module _ (shuffle : ℕ → List ℕ → List ℕ) (orders : AreOrders shuffle) where
  -- Reading ends, and gives the rows in order.
  abbrev pub ReadsOut :
      List Row → SimpleShuffledBatchProvider → Result (List (ShuffledBatch Bytes)) → Type 0
  ReadsOut rows p r =
      (chunks : List (List Row)) × (r ≡ ok (map columns chunks))
      × (concat chunks ≡ numbered p.base_index rows)
      × NonEmpty chunks

  pub read_out_shuffled-ReadsOut :
      (fuel : ℕ) (rows : List Row) (p : SimpleShuffledBatchProvider)
      → length rows < fuel
      → 0 < p.batch_size
      → Pending shuffle orders rows p
      → ReadsOut rows p (read_out_shuffled shuffle fuel p)
  unfolding read_out_shuffled
  read_out_shuffled-ReadsOut zero rows p h pos pending = absurd (omega (arith, h))
  read_out_shuffled-ReadsOut (suc fuel) [] p h pos pending =
      let (p', read, rest, base, size) = read_next_shuffled-Takes shuffle orders [] p pending in
      let last : is_nil (map (λ (r : Row). r.item) (numbered p.base_index (take p.batch_size [])))
          ≡ true =
        ap (λ l. is_nil (map (λ (r : Row). r.item) (numbered p.base_index l)))
          (take-nil p.batch_size) in
      ([], rw (read, last) refl, refl, tt)
  read_out_shuffled-ReadsOut (suc fuel) (r ∷ rows) p h pos pending =
      let all : List Row = r ∷ rows in
      let m = p.batch_size in
      let (p', read, pending', base, size) =
        read_next_shuffled-Takes shuffle orders all p pending in
      let (chunks, rest, whole, full) =
        read_out_shuffled-ReadsOut fuel (drop m all) p' (omega (arith, h, pos, length-drop m all))
          (omega (arith, pos, size)) pending' in
      let first = numbered p.base_index (take m all) in
      let more : is_nil first ≡ false =
        is_nil-numbered p.base_index (take m all) ∙ is_nil-take m r rows pos in
      let more_items : is_nil (map (λ (r : Row). r.item) first) ≡ false =
        is_nil-map (λ (r : Row). r.item) first ∙ more in
      (
        first ∷ chunks,
        rw (read, more_items, rest) refl,
        ap (λ l. first ++ l) (whole ∙ ap (λ k. numbered k (drop m all)) base)
            ∙ sym (numbered-append p.base_index (take m all) (drop m all))
            ∙ ap (numbered p.base_index) (take-append-drop m all),
        (more, full),
      )

  abbrev fresh : Source → ℕ → SimpleShuffledBatchProvider
  fresh source batch_size = record {
    batch_size = batch_size;
    provider = source;
    read_count = 0;
    read_future = none;
    shuffle_base_index = 0;
    base_index = 0;
    buffer = empty_raw;
    read_end = false;
  }

  -- The new provider has all rows of the source left.
  pub new_shuffled-Pending :
      (source : Source) (batch_size : ℕ)
      → IsSource source
      → (p : SimpleShuffledBatchProvider) × (new_shuffled shuffle source batch_size ≡ ok p)
        × Pending shuffle orders (rows_from shuffle 0 0 source) p
        × (p.base_index ≡ 0)
        × (p.batch_size ≡ batch_size)
  unfolding new_shuffled read_and_shuffle next_batch
  new_shuffled-Pending [] batch_size h =
      let p₀ = fresh [] batch_size in
      let (r, read, buffer) = read_proc-IsNext shuffle orders [] p₀ refl tt in
      let p₁ : SimpleShuffledBatchProvider = record p₀ { read_count = 1 } in
      let (r', started, next) = start_read-IsNext shuffle orders r [] p₁ refl tt in
      (
        record (reading shuffle orders [] r' p₁) { buffer = r },
        rw (read, started) refl,
        inr (record {
          k = 1;
          source = [];
          items = [];
          dup_cnt = [];
          ids = order shuffle 0 [];
          ready = record {
            going = refl;
            buffer = buffer;
            future = r';
            waits = refl;
            next = next;
            unread = refl;
            count = refl;
            valid = tt;
          };
          same =
              ap (λ l. map (row_of 0 [] []) l ++ [])
                (sym (Within-nil (order shuffle 0 []) (orders 0 [])));
        }),
        refl,
        refl,
      )
  new_shuffled-Pending ((items, dup_cnt) ∷ source) batch_size h =
      let p₀ = fresh ((items, dup_cnt) ∷ source) batch_size in
      let (r, read, buffer) =
        read_proc-IsNext shuffle orders ((items, dup_cnt) ∷ source) p₀ refl h in
      let p₁ : SimpleShuffledBatchProvider = record p₀ { provider = source; read_count = 1 } in
      let (r', started, next) = start_read-IsNext shuffle orders r source p₁ refl h.1 in
      (
        record (reading shuffle orders source r' p₁) { buffer = r },
        rw (read, started) refl,
        inr (record {
          k = 1;
          source = source;
          items = items;
          dup_cnt = dup_cnt;
          ids = order shuffle 0 items;
          ready = record {
            going = refl;
            buffer = buffer;
            future = r';
            waits = refl;
            next = next;
            unread = refl;
            count = refl;
            valid = h.1;
          };
          same = refl;
        }),
        refl,
        refl,
      )

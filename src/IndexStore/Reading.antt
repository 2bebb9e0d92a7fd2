-- ===== src/IndexStore/Reading.antt =====
-- `FileIndexReader` of psi/utils/index_store.cc, read to its end.
use psi.Prelude.{
  ℕ, zero, suc, ◌+◌, ◌≤◌, ◌<◌, ◌≡◌, refl, true, false, Option, none, some, List, [], ◌∷◌, ◌++◌,
  length, ok, ltb, Bool-cases, inl, inr, arith, ap, sym, ◌∙◌, at, drop, ltb→lt, lt→ltb, ◌⊎◌,
}
use psi.Prelude.Count.{All}
use psi.IndexStore.{
  RecordBatch, FileIndexReader, open_reader, read_next, within, has_next, value,
  get_next_with_peer_cnt, read_out,
}
use psi.IndexStore.Writing.{IsFilled, columns}

abbrev pub rows : List ℕ → List ℕ → List (ℕ × ℕ)
rows [] cs = []
rows (i ∷ is) [] = []
rows (i ∷ is) (c ∷ cs) = (i, c) ∷ rows is cs

rows-append :
    (is cs is' cs' : List ℕ)
    → length is ≡ length cs
    → rows (is ++ is') (cs ++ cs') ≡ rows is cs ++ rows is' cs'
rows-append [] [] is' cs' e = refl
rows-append [] (c ∷ cs) is' cs' e = absurd (omega arith)
rows-append (i ∷ is) [] is' cs' e = absurd (omega arith)
rows-append (i ∷ is) (c ∷ cs) is' cs' e =
    ap (λ l. (i, c) ∷ l) (rows-append is cs is' cs' (omega (arith, e)))

row_at :
    (is cs : List ℕ) (k : ℕ)
    → length is ≡ length cs
    → k < length is
    → (i : ℕ) × (c : ℕ) × (at is k ≡ ok i)
      × (at cs k ≡ ok c)
      × (rows (drop k is) (drop k cs) ≡ (i, c) ∷ rows (drop (k + 1) is) (drop (k + 1) cs))
row_at [] cs k e h = absurd (omega arith)
row_at (i ∷ is) [] k e h = absurd (omega arith)
row_at (i ∷ is) (c ∷ cs) zero e h = (i, c, refl, refl, refl)
row_at (i ∷ is) (c ∷ cs) (suc k) e h =
    let next : suc k + 1 ≡ suc (k + 1) = omega arith in
    rw next (row_at is cs k (omega (arith, e)) (omega (arith, h)))

rows-drop_all : (is cs : List ℕ) (k : ℕ) → length is ≤ k → rows (drop k is) cs ≡ []
rows-drop_all [] cs zero h = refl
rows-drop_all [] cs (suc k) h = refl
rows-drop_all (i ∷ is) cs zero h = absurd (omega arith)
rows-drop_all (i ∷ is) cs (suc k) h = rows-drop_all is cs k (omega (arith, h))

abbrev rest_of_batch : Option RecordBatch → ℕ → List (ℕ × ℕ)
rest_of_batch none idx = []
rest_of_batch (some (is, cs)) idx = rows (drop idx is) (drop idx cs)

abbrev batch_rows : List RecordBatch → List (ℕ × ℕ)
batch_rows [] = []
batch_rows ((is, cs) ∷ bs) = rows is cs ++ batch_rows bs

batch_rows-columns :
    (bs : List RecordBatch) → All IsFilled bs → batch_rows bs ≡ rows (columns bs).0 (columns bs).1
batch_rows-columns [] h = refl
batch_rows-columns ((is, cs) ∷ bs) h =
    ap (λ l. rows is cs ++ l) (batch_rows-columns bs h.1)
    ∙ sym (rows-append is cs (columns bs).0 (columns bs).1 h.0.1)

-- The rows that a reader has not given yet.
abbrev left_of : FileIndexReader → List (ℕ × ℕ)
left_of r = rest_of_batch r.batch r.idx_in_batch ++ batch_rows r.reader

abbrev IsEven : Option RecordBatch → Type 0
IsEven none = Unit {0}
IsEven (some (is, cs)) = length is ≡ length cs

abbrev Gives : FileIndexReader → Type 0
Gives r =
    ((left_of r ≡ []) × ((r' : FileIndexReader) × (get_next_with_peer_cnt r ≡ ok (none, r'))))
    ⊎ ((row : ℕ × ℕ) × (r' : FileIndexReader) × (get_next_with_peer_cnt r ≡ ok (some row, r'))
        × (left_of r ≡ row ∷ left_of r')
        × All IsFilled r'.reader
        × IsEven r'.batch)

module _ (n : ℕ) (bs : List RecordBatch) (filled : All IsFilled bs) where
  Gives-current :
      (is cs : List ℕ) (idx : ℕ)
      → length is ≡ length cs
      → idx < length is
      → Gives (record { reader = bs; batch = some (is, cs); idx_in_batch = idx; read_cnt = n })
  unfolding get_next_with_peer_cnt has_next value
  Gives-current is cs idx e h =
      let (i, c, ei, ec, split) = row_at is cs idx e h in
      let test : ltb idx (length is) ≡ true = ground arith in
      inr (
        (
          (i, c),
          record { reader = bs; batch = some (is, cs); idx_in_batch = idx + 1; read_cnt = n + 1 },
          rw (test, ei, ec) refl,
          ap (λ l. l ++ batch_rows bs) split,
          filled,
          e,
        ))

-- A reader that stands at the end of a batch goes on with the next one.
Gives-next :
    (n : ℕ) (bs : List RecordBatch) (b : Option RecordBatch) (idx : ℕ)
    → All IsFilled bs
    → rest_of_batch b idx ≡ []
    → within (record { reader = bs; batch = b; idx_in_batch = idx; read_cnt = n }) ≡ false
    → Gives (record { reader = bs; batch = b; idx_in_batch = idx; read_cnt = n })
unfolding get_next_with_peer_cnt has_next value read_next
Gives-next n [] b idx h none_left test = inl (
    (
      ap (λ l. l ++ []) none_left,
      (record { reader = []; batch = none; idx_in_batch = idx; read_cnt = n }, rw (test) refl),
    ))
Gives-next n ((is, cs) ∷ bs) b idx h none_left test =
    let (i, c, ei, ec, split) = row_at is cs 0 h.0.1 h.0.0 in
    let first : ltb 0 (length is) ≡ true = lt→ltb 0 (length is) h.0.0 in
    inr (
      (
        (i, c),
        record { reader = bs; batch = some (is, cs); idx_in_batch = 1; read_cnt = n + 1 },
        rw (test, first, ei, ec) refl,
        ap (λ l. l ++ (rows is cs ++ batch_rows bs)) none_left ∙ ap (λ l. l ++ batch_rows bs) split,
        h.1,
        h.0.1,
      ))

gives :
    (n : ℕ) (bs : List RecordBatch) (b : Option RecordBatch) (idx : ℕ)
    → All IsFilled bs
    → IsEven b
    → Gives (record { reader = bs; batch = b; idx_in_batch = idx; read_cnt = n })
gives n bs none idx h e = Gives-next n bs none idx h refl refl
gives n bs (some (is, cs)) idx h e = elim (Bool-cases (ltb idx (length is))) [
  | inl test ↦ Gives-current n bs h is cs idx e (ltb→lt idx (length is) test)
  | inr test ↦
      let past : length is ≤ idx = ground arith in
      Gives-next n bs (some (is, cs)) idx h (rows-drop_all is (drop idx cs) idx past) test
]

read_out_lem :
    (fuel : ℕ) (r : FileIndexReader)
    → length (left_of r) < fuel
    → All IsFilled r.reader
    → IsEven r.batch
    → read_out fuel r ≡ ok (left_of r)
unfolding read_out
read_out_lem zero r h filled even = absurd (omega arith)
read_out_lem (suc fuel) r h filled even =
    elim (gives r.read_cnt r.reader r.batch r.idx_in_batch filled even) [
      | inl (empty, (r', e)) ↦ rw (e, empty) refl
      | inr (row, r', e, split, filled', even') ↦
          let shorter = ap length split in
          let later = read_out_lem fuel r' (omega (arith, h, shorter)) filled' even' in
          rw (e, later, split) refl
    ]

-- A new reader over batches that are not empty gives each of their rows once, in order, with its
-- count, and then nothing: one call more than there are rows is enough.
pub read_out-open_reader :
    (batches : List RecordBatch) (fuel : ℕ)
    → All IsFilled batches
    → length (rows (columns batches).0 (columns batches).1) < fuel
    → read_out fuel (open_reader batches) ≡ ok (rows (columns batches).0 (columns batches).1)
unfolding open_reader
read_out-open_reader batches fuel filled enough =
    let same = batch_rows-columns batches filled in
    read_out_lem fuel (open_reader batches) (omega (arith, enough, ap length same)) filled tt
    ∙ ap ok same

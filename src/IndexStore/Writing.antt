-- ===== src/IndexStore/Writing.antt =====
-- `IndexWriter` of psi/utils/index_store.cc over any sequence of calls.
use mathlib.Core.List.{append_assoc, append-nil}
use psi.Prelude.{
  ℕ, ◌+◌, ◌<◌, ◌≡◌, refl, true, false, not, List, [], ◌∷◌, ◌++◌, length, length-append, ◌>>=◌, ◌>>◌,
  enforce, Returns, ◌==◌, Bool-cases, inl, inr, arith, replicate, ap, sym, ◌∙◌,
}
use psi.Prelude.Count.{All, All-append}
use psi.IndexStore.{
  RecordBatch, IndexWriter, new, write_cache, write_each, write_indexes, write_each_with_cnt,
  write_with_cnt, commit, close, Call, one, indexes, with_cnt, commit_now, step, run,
}

abbrev pub columns : List RecordBatch → RecordBatch
columns [] = ([], [])
columns ((is, cs) ∷ bs) = let (is', cs') = columns bs in (is ++ is', cs ++ cs')

columns-append_one :
    (bs : List RecordBatch) (is cs : List ℕ)
    → columns (bs ++ (is, cs) ∷ []) ≡ ((columns bs).0 ++ is, (columns bs).1 ++ cs)
columns-append_one [] is cs = simp (append-nil)
columns-append_one ((is', cs') ∷ bs) is cs = rw (
  columns-append_one bs is cs,
  append_assoc is' (columns bs).0 is,
  append_assoc cs' (columns bs).1 cs,
)

-- A batch of a file has rows, and a count for each index.
abbrev pub IsFilled : RecordBatch → Type 0
IsFilled (is, cs) = (0 < length is) × (length is ≡ length cs)

-- An open writer that was given the rows `is`, `cs`.
pub record Holds (w : IndexWriter) (is cs : List ℕ) : Type 0 where
  pub indexes_kept : (columns w.outfile).0 ++ w.index_builder ≡ is
  pub counts_kept : (columns w.outfile).1 ++ w.cnt_builder ≡ cs
  pub filled : All IsFilled w.outfile
  pub paired : length w.index_builder ≡ length w.cnt_builder
  pub cached : w.cache_cnt ≡ length w.index_builder
  pub counted : w.write_cnt ≡ length is
  pub is_open : w.closed ≡ false

pub write_cache-Holds :
    (i c : ℕ) (w : IndexWriter) (is cs : List ℕ)
    → Holds w is cs
    → Returns (write_cache i c w) (λ w'. Holds w' (is ++ i ∷ []) (cs ++ c ∷ []))
unfolding write_cache
write_cache-Holds i c w is cs h = (
  record w {
    index_builder = w.index_builder ++ i ∷ [];
    cnt_builder = w.cnt_builder ++ c ∷ [];
    cache_cnt = w.cache_cnt + 1;
    write_cnt = w.write_cnt + 1;
  },
  rw (h.is_open) refl,
  record {
    indexes_kept =
        sym (append_assoc _ w.index_builder (i ∷ [])) ∙ ap (λ l. l ++ i ∷ []) h.indexes_kept;
    counts_kept = sym (append_assoc _ w.cnt_builder (c ∷ [])) ∙ ap (λ l. l ++ c ∷ []) h.counts_kept;
    filled = h.filled;
    paired = omega (
      arith,
      h.paired,
      length-append w.index_builder (i ∷ []),
      length-append w.cnt_builder (c ∷ []),
    );
    cached = omega (arith, h.cached, length-append w.index_builder (i ∷ []));
    counted = omega (arith, h.counted, length-append is (i ∷ []));
    is_open = h.is_open;
  },
)

write_each-Holds :
    (is' : List ℕ) (w : IndexWriter) (is cs : List ℕ)
    → Holds w is cs
    → Returns (write_each is' w) (λ w'. Holds w' (is ++ is') (cs ++ replicate (length is') 0))
unfolding write_each
write_each-Holds [] w is cs h = (w, refl, rw (append-nil is, append-nil cs) h)
write_each-Holds (i ∷ is') w is cs h =
    let (w₁, e₁, h₁) = write_cache-Holds i 0 w is cs h in
    let (w₂, e₂, h₂) = write_each-Holds is' w₁ (is ++ i ∷ []) (cs ++ 0 ∷ []) h₁ in
    (
      w₂,
      rw (e₁) e₂,
      rw
          (
            sym (append_assoc is (i ∷ []) is'),
            sym (append_assoc cs (0 ∷ []) (replicate (length is') 0)),
          )
          h₂,
    )

write_each_with_cnt-Holds :
    (is' cs' : List ℕ) (w : IndexWriter) (is cs : List ℕ)
    → length is' ≡ length cs'
    → Holds w is cs
    → Returns (write_each_with_cnt is' cs' w) (λ w'. Holds w' (is ++ is') (cs ++ cs'))
unfolding write_each_with_cnt
write_each_with_cnt-Holds [] [] w is cs e h = (w, refl, rw (append-nil is, append-nil cs) h)
write_each_with_cnt-Holds [] (c ∷ cs') w is cs e h = absurd (omega arith)
write_each_with_cnt-Holds (i ∷ is') [] w is cs e h = absurd (omega arith)
write_each_with_cnt-Holds (i ∷ is') (c ∷ cs') w is cs e h =
    let (w₁, e₁, h₁) = write_cache-Holds i c w is cs h in
    let (w₂, e₂, h₂) =
      write_each_with_cnt-Holds is' cs' w₁ (is ++ i ∷ []) (cs ++ c ∷ []) (omega (arith, e)) h₁ in
    (w₂, rw (e₁) e₂, rw (sym (append_assoc is (i ∷ []) is'), sym (append_assoc cs (c ∷ []) cs')) h₂)

length-zero : (l : List ℕ) → length l ≡ 0 → l ≡ []
length-zero [] e = refl
length-zero (x ∷ l) e = absurd (omega arith)

pub commit-Holds :
    (w : IndexWriter) (is cs : List ℕ)
    → Holds w is cs
    → Returns (commit w) (λ w'. Holds w' is cs × (w'.index_builder ≡ []) × (w'.cnt_builder ≡ []))
unfolding commit
commit-Holds w is cs h = elim (Bool-cases (w.cache_cnt == 0)) [
  | inl e ↦
      let none_left : w.cache_cnt ≡ 0 = ground arith in
      (
        w,
        rw (h.is_open, e) refl,
        (
          h,
          length-zero w.index_builder (omega (arith, h.cached, none_left)),
          length-zero w.cnt_builder (omega (arith, h.cached, h.paired, none_left)),
        ),
      )
  | inr e ↦
      let some_left : 0 < w.cache_cnt = ground arith in
      let moved = columns-append_one w.outfile w.index_builder w.cnt_builder in
      (
        record w {
          outfile = w.outfile ++ (w.index_builder, w.cnt_builder) ∷ [];
          index_builder = [];
          cnt_builder = [];
          cache_cnt = 0;
        },
        rw (h.is_open, e) refl,
        (
          record {
            indexes_kept = append-nil _ ∙ ap (λ b. b.0) moved ∙ h.indexes_kept;
            counts_kept = append-nil _ ∙ ap (λ b. b.1) moved ∙ h.counts_kept;
            filled =
                All-append IsFilled w.outfile ((w.index_builder, w.cnt_builder) ∷ []) h.filled
                  ((omega (arith, h.cached, some_left), h.paired), tt);
            paired = refl;
            cached = refl;
            counted = h.counted;
            is_open = h.is_open;
          },
          refl,
          refl,
        ),
      )
]

pub pair-eq : {b : RecordBatch} {is cs : List ℕ} → b.0 ≡ is → b.1 ≡ cs → b ≡ (is, cs)
pair-eq {b = (is', cs')} {is = is} e f = ap (λ l. (l, cs')) e ∙ ap (λ l. (is, l)) f

abbrev pub indexes_of : Call → List ℕ
indexes_of (one i c) = i ∷ []
indexes_of (indexes is) = is
indexes_of (with_cnt is cs) = is
indexes_of commit_now = []

abbrev pub counts_of : Call → List ℕ
counts_of (one i c) = c ∷ []
counts_of (indexes is) = replicate (length is) 0
counts_of (with_cnt is cs) = cs
counts_of commit_now = []

-- A call gives a count for each index.
abbrev pub IsPaired : Call → Type 0
IsPaired (with_cnt is cs) = length is ≡ length cs
IsPaired c = Unit

abbrev pub all_of : (Call → List ℕ) → List Call → List ℕ
all_of f [] = []
all_of f (c ∷ cs) = f c ++ all_of f cs

step-Holds :
    (c : Call) (w : IndexWriter) (is cs : List ℕ)
    → IsPaired c
    → Holds w is cs
    → Returns (step c w) (λ w'. Holds w' (is ++ indexes_of c) (cs ++ counts_of c))
unfolding step write_indexes write_with_cnt
step-Holds (one i c) w is cs p h = write_cache-Holds i c w is cs h
step-Holds (indexes is') w is cs p h =
    let (w', e, h') = write_each-Holds is' w is cs h in
    (w', ap (λ b. enforce (not b) >> write_each is' w) h.is_open ∙ e, h')
step-Holds (with_cnt is' cs') w is cs p h =
    let (w', e, h') = write_each_with_cnt-Holds is' cs' w is cs p h in
    (w', ap (λ b. enforce (not b) >> write_each_with_cnt is' cs' w) h.is_open ∙ e, h')
step-Holds commit_now w is cs p h =
    let (w', e, (h', _, _)) = commit-Holds w is cs h in
    (w', e, rw (append-nil is, append-nil cs) h')

run-Holds :
    (calls : List Call) (w : IndexWriter) (is cs : List ℕ)
    → All IsPaired calls
    → Holds w is cs
    → Returns
        (run calls w)
        (λ w'. Holds w' (is ++ all_of indexes_of calls) (cs ++ all_of counts_of calls))
unfolding run
run-Holds [] w is cs p h = (w, refl, rw (append-nil is, append-nil cs) h)
run-Holds (c ∷ calls) w is cs p h =
    let (w₁, e₁, h₁) = step-Holds c w is cs p.0 h in
    let (w₂, e₂, h₂) = run-Holds calls w₁ (is ++ indexes_of c) (cs ++ counts_of c) p.1 h₁ in
    (
      w₂,
      rw (e₁) e₂,
      rw
          (
            sym (append_assoc is (indexes_of c) (all_of indexes_of calls)),
            sym (append_assoc cs (counts_of c) (all_of counts_of calls)),
          )
          h₂,
    )

-- Any calls on a new writer, with a count for each index where counts are given, and then `Close`
-- return; the file then holds every index and count that was written, in order, in batches that
-- are not empty, and `write_cnt` is their number.
pub close-run :
    (calls : List Call)
    → All IsPaired calls
    → Returns (run calls new >>= close) (λ w.
      (w.closed ≡ true)
      × (columns w.outfile ≡ (all_of indexes_of calls, all_of counts_of calls))
      × All IsFilled w.outfile
      × (w.write_cnt ≡ length (all_of indexes_of calls)))
unfolding new close
close-run calls p =
    let (w₁, e₁, h₁) = run-Holds calls new [] [] p (record {
      indexes_kept = refl;
      counts_kept = refl;
      filled = tt;
      paired = refl;
      cached = refl;
      counted = refl;
      is_open = refl;
    }) in
    let (w₂, e₂, (h₂, no_index, no_count)) = commit-Holds w₁ _ _ h₁ in
    let kept : (columns w₂.outfile).0 ≡ all_of indexes_of calls =
      sym (append-nil _) ∙ ap (λ l. (columns w₂.outfile).0 ++ l) (sym no_index) ∙ h₂.indexes_kept in
    let kept' : (columns w₂.outfile).1 ≡ all_of counts_of calls =
      sym (append-nil _) ∙ ap (λ l. (columns w₂.outfile).1 ++ l) (sym no_count) ∙ h₂.counts_kept in
    (
      record w₂ { closed = true },
      rw (e₁, h₁.is_open, e₂) refl,
      (refl, pair-eq kept kept', h₂.filled, h₂.counted),
    )

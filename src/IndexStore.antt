-- ===== src/IndexStore.antt =====
-- psi/utils/index_store.h and .cc: the file of result indexes. The calls of arrow succeed here; a
-- record batch is its two columns, and the file is the batches written to it. The reader gets its
-- batches from arrow's csv reader, which may cut the file's rows in another way.
use psi.Prelude.{
  ℕ, zero, suc, ◌+◌, ◌≤◌, ◌<◌, Bool, true, false, not, Option, none, some, List, [], ◌∷◌, ◌++◌,
  length, Result, ok, err, thrown, undefined, ◌>>=◌, ◌>>◌, enforce, at, ltb, leb, ◌==◌,
  if◌then◌else◌,
}
pub mod Writing
pub mod Reading
pub mod Memory
mod Tests

-- The columns `psi_index` and `psi_peer_cnt`.
abbrev pub RecordBatch : Type 0
RecordBatch = List ℕ × List ℕ

pub record IndexWriter : Type 0 where
  pub outfile : List RecordBatch
  pub closed : Bool
  pub index_builder : List ℕ
  pub cnt_builder : List ℕ
  pub cache_cnt : ℕ
  pub write_cnt : ℕ

-- The constructor with `trunc`, or on a path that is new.
unfoldable pub new : IndexWriter
new = record {
  outfile = [];
  closed = false;
  index_builder = [];
  cnt_builder = [];
  cache_cnt = 0;
  write_cnt = 0;
}

-- `WriteCache(index, cnt)`
unfoldable pub write_cache : ℕ → ℕ → IndexWriter → Result IndexWriter
write_cache index cnt w = do
  enforce (not w.closed)
  ok (record w {
    index_builder = w.index_builder ++ index ∷ [];
    cnt_builder = w.cnt_builder ++ cnt ∷ [];
    cache_cnt = w.cache_cnt + 1;
    write_cnt = w.write_cnt + 1;
  })

-- The loop of `WriteCache(indexes)`; `cnt` is 0 by default.
unfoldable pub write_each : List ℕ → IndexWriter → Result IndexWriter
write_each [] w = ok w
write_each (i ∷ is) w = write_cache i 0 w >>= write_each is

unfoldable pub write_indexes : List ℕ → IndexWriter → Result IndexWriter
write_indexes indexes w = enforce (not w.closed) >> write_each indexes w

-- The loop of `WriteCache(indexes, duplicate_cnt)`, which reads as many counts as indexes.
unfoldable pub write_each_with_cnt : List ℕ → List ℕ → IndexWriter → Result IndexWriter
write_each_with_cnt [] cnts w = ok w
write_each_with_cnt (i ∷ is) [] w = err undefined
write_each_with_cnt (i ∷ is) (c ∷ cs) w = write_cache i c w >>= write_each_with_cnt is cs

unfoldable pub write_with_cnt : List ℕ → List ℕ → IndexWriter → Result IndexWriter
write_with_cnt indexes duplicate_cnt w =
    enforce (not w.closed) >> write_each_with_cnt indexes duplicate_cnt w

unfoldable pub commit : IndexWriter → Result IndexWriter
commit w = do
  enforce (not w.closed)
  ok (
      if w.cache_cnt == 0 then w else record w {
        outfile = w.outfile ++ (w.index_builder, w.cnt_builder) ∷ [];
        index_builder = [];
        cnt_builder = [];
        cache_cnt = 0;
      })

unfoldable pub close : IndexWriter → Result IndexWriter
close w =
    let committed = commit w in
    if w.closed then ok w else committed >>= λ w'. ok (record w' { closed = true })

-- The calls on a writer that is open.
pub data Call : Type 0 where
  one : ℕ → ℕ → Call
  indexes : List ℕ → Call
  with_cnt : List ℕ → List ℕ → Call
  commit_now : Call

unfoldable pub step : Call → IndexWriter → Result IndexWriter
step (one index cnt) w = write_cache index cnt w
step (indexes is) w = write_indexes is w
step (with_cnt is cs) w = write_with_cnt is cs w
step commit_now w = commit w

unfoldable pub run : List Call → IndexWriter → Result IndexWriter
run [] w = ok w
run (c ∷ cs) w = step c w >>= run cs

-- `reader` holds the batches that `reader_->ReadNext` has not given yet.
pub record FileIndexReader : Type 0 where
  pub reader : List RecordBatch
  pub batch : Option RecordBatch
  pub idx_in_batch : ℕ
  pub read_cnt : ℕ

unfoldable pub open_reader : List RecordBatch → FileIndexReader
open_reader batches = record { reader = batches; batch = none; idx_in_batch = 0; read_cnt = 0 }

-- `ReadNext`: a null batch at the end. The position is reset where a batch came.
unfoldable pub read_next : FileIndexReader → FileIndexReader
read_next r = elim r.reader [
  | [] ↦ record r { batch = none }
  | b ∷ bs ↦ record r { reader = bs; batch = some b; idx_in_batch = 0 }
]

abbrev pub num_rows : RecordBatch → ℕ
num_rows b = length b.0

abbrev pub within : FileIndexReader → Bool
within r = elim r.batch [ none ↦ false | some b ↦ ltb r.idx_in_batch (num_rows b) ]

unfoldable pub has_next : FileIndexReader → Bool × FileIndexReader
has_next r = if within r then (true, r) else (within (read_next r), read_next r)

-- The values under the position.
unfoldable pub value : FileIndexReader → Result (ℕ × ℕ)
value r = elim r.batch [
  | none ↦ err undefined
  | some b ↦ do v ← at b.0 r.idx_in_batch; c ← at b.1 r.idx_in_batch; ok (v, c)
]

unfoldable pub get_next_with_peer_cnt : FileIndexReader → Result (Option (ℕ × ℕ) × FileIndexReader)
get_next_with_peer_cnt r =
    let (more, r') = has_next r in
    let next = record r' { idx_in_batch = r'.idx_in_batch + 1; read_cnt = r'.read_cnt + 1 } in
    if more then (value r' >>= λ v. ok (some v, next)) else ok (none, r')

-- `array_->Value(idx_in_batch_)`
unfoldable pub index_value : FileIndexReader → Result ℕ
index_value r = elim r.batch [ none ↦ err undefined | some b ↦ at b.0 r.idx_in_batch ]

unfoldable pub get_next : FileIndexReader → Result (Option ℕ × FileIndexReader)
get_next r =
    let (more, r') = has_next r in
    let next = record r' { idx_in_batch = r'.idx_in_batch + 1; read_cnt = r'.read_cnt + 1 } in
    if more then (index_value r' >>= λ v. ok (some v, next)) else ok (none, r')

-- A client that reads until there is nothing left, `n` times at most.
unfoldable pub read_out : ℕ → FileIndexReader → Result (List (ℕ × ℕ))
read_out zero r = err thrown
read_out (suc n) r = do
  (row, r') ← get_next_with_peer_cnt r
  let rest = read_out n r'
  elim row [ none ↦ ok [] | some v ↦ rest >>= λ vs. ok (v ∷ vs) ]

-- ===== src/IndexStore/Tests.antt =====
-- A concrete result file, written and read back.
use mathlib.Core.List.{reverse}
use psi.Prelude.{some, ◌≡◌, refl, List, [], ◌∷◌, ok, ◌>>=◌, Returns, arith, true, length}
use psi.Prelude.Count.{All}
use psi.IndexStore.{
  get_next, has_next, index_value, read_next, RecordBatch, Call, one, indexes, with_cnt, commit_now,
  new, run, close, open_reader, read_out,
}
use psi.IndexStore.Memory.{
  new_memory_reader, index_items, read_items, next_item_with_peer_cnt, has_next_item,
}
use psi.IndexStore.Writing.{IsFilled, columns, all_of, indexes_of, counts_of, close-run}
use psi.IndexStore.Reading.{read_out-open_reader}

abbrev calls : List Call
calls = one 4 1 ∷ commit_now ∷ indexes (7 ∷ 9 ∷ []) ∷ with_cnt (11 ∷ []) (5 ∷ []) ∷ []

close-run_example : Returns (run calls new >>= close) (λ w.
    (w.closed ≡ true)
    × (columns w.outfile ≡ (all_of indexes_of calls, all_of counts_of calls))
    × All IsFilled w.outfile
    × (w.write_cnt ≡ length (all_of indexes_of calls)))
close-run_example = close-run calls (tt, (tt, (tt, (refl, tt))))

abbrev batches : List RecordBatch
batches = (4 ∷ [], 1 ∷ []) ∷ (7 ∷ 9 ∷ 11 ∷ [], 0 ∷ 0 ∷ 5 ∷ []) ∷ []

read_out-open_reader_example :
    read_out 5 (open_reader batches) ≡ ok ((4, 1) ∷ (7, 0) ∷ (9, 0) ∷ (11, 5) ∷ [])
read_out-open_reader_example =
    read_out-open_reader batches 5 ((omega arith, refl), ((omega arith, refl), tt)) (omega arith)

-- The indexes 9 and 4 by a sort of two items.
read_items-new_memory_reader_test :
    (new_memory_reader reverse (9 ∷ 4 ∷ []) (0 ∷ 2 ∷ []) >>= λ r. read_items 3 r)
    ≡ ok ((4, 2) ∷ (9, 0) ∷ [])
unfolding new_memory_reader index_items read_items next_item_with_peer_cnt has_next_item
read_items-new_memory_reader_test = refl

get_next_test : (get_next (open_reader batches) >>= λ r. ok r.0) ≡ ok (some 4)
unfolding get_next open_reader has_next index_value read_next
get_next_test = refl

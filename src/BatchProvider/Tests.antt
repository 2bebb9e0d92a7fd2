-- ===== src/BatchProvider/Tests.antt =====
-- A provider of five items in batches of two.
use psi.Prelude.{ℕ, ◌≤◌, ◌<◌, ◌≡◌, refl, [], ◌∷◌, length, arith, ok, Returns}
use psi.Prelude.Bytes.{concat}
use psi.Prelude.Count.{All}
use psi.BatchProvider.{MemoryBatchProvider, slice, read_next_impl, read_next_batch, drain}
use psi.BatchProvider.Reading.{drain-Returns}

abbrev five : MemoryBatchProvider ℕ
five = record {
  batch_size = 2;
  items = 10 ∷ 11 ∷ 12 ∷ 13 ∷ 14 ∷ [];
  labels = [];
  buffer_shuffled_indices = 4 ∷ 2 ∷ 0 ∷ 3 ∷ 1 ∷ [];
  cursor_index = 1;
}

drain_runs : drain 9 five ≡ ok ((11 ∷ 12 ∷ []) ∷ (13 ∷ 14 ∷ []) ∷ [])
unfolding drain read_next_batch read_next_impl slice
drain_runs = refl

drain-Returns_example :
    Returns
      (drain 9 five)
      (λ bs. (concat bs ≡ 11 ∷ 12 ∷ 13 ∷ 14 ∷ []) × All (λ b. (0 < length b) × (length b ≤ 2)) bs)
drain-Returns_example = drain-Returns 9 five (omega arith) (omega arith) (omega arith)

-- ===== src/Table/Tests.antt =====
-- A table of four rows with three keys, and the theorems at it.
use psi.Prelude.{ℕ, ◌%◌, ◌^◌, ◌≡◌, refl, some, List, [], ◌∷◌, length, ok, Returns, ◌>>=◌, arith}
use psi.Prelude.Bytes.{Bytes, bytes_eq, concat}
use psi.Table.{write_record, write_to_csv, scan_item, scan_batch, scan_batches, make}
use psi.Table.Runs.{IsRuns, make-IsRuns}
use psi.Table.Split.{
  ResultDumper, to_intersect, to_except, new_processor, scan_infos, collect, get_batch_info,
  skip_rows, take_rows, apply_info, apply_infos, apply_batches, rest_to_except, apply_peer_dup_cnt,
}
use psi.Table.Split.Batch.{matches}
use psi.Table.Split.Dumping.{totals, own_rows, peer_rows, rows_of}
use psi.Table.Split.Lines.{intersected, excepted, put}
use psi.Table.Split.Composition.{columns_of, make-apply_peer_dup_cnt}
use psi.Table.Split.Whole.{IsKeyed, apply_peer_dup_cnt-Returns}

abbrev key : ℕ → Bytes
key k = k ∷ []

-- The keys 1, 2, 2, 3 in two batches.
make-IsRuns_example :
    IsRuns
      (key 1 ∷ key 2 ∷ key 2 ∷ key 3 ∷ [])
      (make ((key 1 ∷ key 2 ∷ []) ∷ (key 2 ∷ key 3 ∷ []) ∷ []))
make-IsRuns_example =
    make-IsRuns (key 1 ∷ key 2 ∷ []) ((key 2 ∷ key 3 ∷ []) ∷ []) refl (refl, tt) (omega arith)

make_records :
    (make ((key 1 ∷ key 2 ∷ []) ∷ (key 2 ∷ key 3 ∷ []) ∷ [])).records
    ≡ record { key = key 1; start_index = 0; dup_cnt = 0 }
      ∷ record { key = key 2; start_index = 1; dup_cnt = 1 }
      ∷ record { key = key 3; start_index = 3; dup_cnt = 0 }
      ∷ []
unfolding make scan_batches scan_batch scan_item write_to_csv write_record bytes_eq
make_records = refl

-- A table without rows has one record, of the empty key.
make_empty : (make []).original_cnt ≡ 1
unfolding make scan_batches write_to_csv write_record
make_empty = refl

abbrev rows : List Bytes
rows = key 10 ∷ key 20 ∷ key 21 ∷ key 30 ∷ []

abbrev key_info : List (List (ℕ × ℕ))
key_info = ((0, 0) ∷ (1, 1) ∷ []) ∷ ((3, 0) ∷ []) ∷ []

abbrev two_files : ResultDumper
two_files = record {
  intersect_file = some [];
  except_file = some [];
  intersect_cnt = 0;
  except_cnt = 0;
}

key_info-IsKeyed : IsKeyed key_info rows
unfolding rows_of
key_info-IsKeyed = record {
  full = (refl, (refl, tt));
  starts = (refl, (refl, (refl, tt)));
  fits = omega arith;
}

-- The key 2 is in the intersection, and the peer has it three times.
apply_peer_dup_cnt-Returns_example :
    Returns (apply_peer_dup_cnt (key 0 ∷ rows) key_info ((1, 2) ∷ []) two_files) (λ s. totals s ≡ (
      put
          (key 0 ∷ intersected 0 (concat key_info) ((1, 2) ∷ []) rows)
          (key 0 ∷ excepted 0 (concat key_info) ((1, 2) ∷ []) rows)
          two_files,
      4,
      own_rows (matches 0 (concat key_info) ((1, 2) ∷ [])),
      peer_rows (matches 0 (concat key_info) ((1, 2) ∷ [])) % 2 ^ 32,
      length (matches 0 (concat key_info) ((1, 2) ∷ [])),
    ))
apply_peer_dup_cnt-Returns_example =
    apply_peer_dup_cnt-Returns (key 0) rows key_info ((1, 2) ∷ []) two_files key_info-IsKeyed
      (omega arith) (omega arith) (omega arith, omega arith, omega arith, tt)

apply_dumps :
    (apply_peer_dup_cnt (key 0 ∷ rows) key_info ((1, 2) ∷ []) two_files >>= λ s.
    ok s.dumper.intersect_file)
    ≡ ok (some (key 0 ∷ key 20 ∷ key 20 ∷ key 20 ∷ key 21 ∷ key 21 ∷ key 21 ∷ []))
unfolding apply_peer_dup_cnt new_processor get_batch_info collect scan_infos apply_batches
    apply_infos apply_info skip_rows take_rows rest_to_except to_intersect to_except
apply_dumps = refl

abbrev key_batch : List Bytes
key_batch = key 1 ∷ key 2 ∷ []

abbrev more_keys : List (List Bytes)
more_keys = (key 2 ∷ key 3 ∷ []) ∷ []

made_key_info :
    (concat key_info ≡ columns_of (make (key_batch ∷ more_keys)).records)
    × (length (make (key_batch ∷ more_keys)).records ≡ 3)
unfolding make scan_batches scan_batch scan_item write_to_csv write_record bytes_eq
made_key_info = (refl, refl)

make-apply_peer_dup_cnt_example :
    Returns (apply_peer_dup_cnt (key 0 ∷ rows) key_info ((1, 2) ∷ []) two_files) (λ s. totals s ≡ (
      put
          (key 0
            ∷ intersected 0 (columns_of (make (key_batch ∷ more_keys)).records) ((1, 2) ∷ []) rows)
          (key 0
            ∷ excepted 0 (columns_of (make (key_batch ∷ more_keys)).records) ((1, 2) ∷ []) rows)
          two_files,
      4,
      own_rows (matches 0 (columns_of (make (key_batch ∷ more_keys)).records) ((1, 2) ∷ [])),
      peer_rows (matches 0 (columns_of (make (key_batch ∷ more_keys)).records) ((1, 2) ∷ []))
          % 2 ^ 32,
      length (matches 0 (columns_of (make (key_batch ∷ more_keys)).records) ((1, 2) ∷ [])),
    ))
make-apply_peer_dup_cnt_example =
    make-apply_peer_dup_cnt key_batch more_keys (key 0) rows key_info ((1, 2) ∷ []) two_files refl
      (refl, tt) (omega arith) refl made_key_info.0 (refl, (refl, tt))
      (omega arith, omega (arith, made_key_info.1), omega arith, tt)

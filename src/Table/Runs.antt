-- ===== src/Table/Runs.antt =====
-- The key info of `KeyInfo::Make` (psi/utils/table_utils.cc) and the key column that it comes from.
use psi.Prelude.{
  ℕ, ◌+◌, ◌%◌, ◌^◌, ◌<◌, ◌≤◌, ◌≡◌, ◌==◌, min, refl, false, List, [], ◌∷◌, ◌++◌, length, replicate,
  length-append, length-replicate, map, Bool-cases, inl, inr, arith, ap, sym, ◌∙◌, subst,
}
use mathlib.Core.List.{append-nil}
use psi.Prelude.Bytes.{Bytes, is_nil, concat}
use psi.Prelude.Count.{All, total, total-append}
use psi.Table.{
  KeyRecord, KeyInfo, write_record, write_to_csv, Scan, scan_start, current_record, scan_batch,
  scan_batches, make,
}
use psi.Table.Scanning.{
  expand, expand-append, length-expand, StartFrom, StartFrom-snoc, Alternate, IsScanned,
  first_batch-IsScanned, write_to_csv-records, scan_batches-IsScanned,
}

-- 1 for a key that is there more than once.
abbrev pub more_than_once : KeyRecord → ℕ
more_than_once r = min 1 r.dup_cnt

-- What the file and its counters say of each other.
record IsCounted (info : KeyInfo) : Type 0 where
  keys : info.hashed ≡ map (λ r. r.key) info.records
  unique : info.unique_key_cnt ≡ length info.records % 2 ^ 32
  original : info.original_cnt ≡ length (expand info.records) % 2 ^ 32
  duplicates : info.duplicate_key_cnt ≡ total more_than_once info.records % 2 ^ 32

map-append :
    (rs : List KeyRecord) (r : KeyRecord)
    → map (λ x. x.key) (rs ++ r ∷ []) ≡ map (λ x. x.key) rs ++ r.key ∷ []
map-append [] r = refl
map-append (x ∷ rs) r = ap (λ l. x.key ∷ l) (map-append rs r)

abbrev empty : KeyInfo
empty = record {
  records = [];
  hashed = [];
  duplicate_key_cnt = 0;
  unique_key_cnt = 0;
  original_cnt = 0;
}

nothing-IsCounted : IsCounted empty
unfolding expand
nothing-IsCounted = record { keys = refl; unique = refl; original = refl; duplicates = refl }

write_record-IsCounted :
    (r : KeyRecord) (info : KeyInfo) → IsCounted info → IsCounted (write_record r info)
unfolding write_record expand
write_record-IsCounted r info inv =
    let rows =
      ap length (expand-append info.records (r ∷ []))
      ∙ length-append (expand info.records) (replicate (1 + r.dup_cnt) r.key ++ []) in
    let own = length-append (replicate (1 + r.dup_cnt) r.key) [] in
    let longer = length-append info.records (r ∷ []) in
    let again = total-append more_than_once info.records (r ∷ []) in
    record {
      keys = ap (λ l. l ++ r.key ∷ []) inv.keys ∙ sym (map-append info.records r);
      unique = omega (arith, inv.unique, longer);
      original = omega (arith, inv.original, rows, own, length-replicate (1 + r.dup_cnt) r.key);
      duplicates = elim (Bool-cases (r.dup_cnt == 0)) [
        | inl once ↦
            let none_more : r.dup_cnt ≡ 0 = ground arith in
            rw once (omega (arith, inv.duplicates, again, none_more))
        | inr twice ↦
            let more : 0 < r.dup_cnt = ground arith in
            rw twice (omega (arith, inv.duplicates, again, more))
      ];
    }

write_to_csv-IsCounted :
    (rs : List KeyRecord) (info : KeyInfo) → IsCounted info → IsCounted (write_to_csv rs info)
unfolding write_to_csv
write_to_csv-IsCounted [] info inv = inv
write_to_csv-IsCounted (r ∷ rs) info inv =
    write_to_csv-IsCounted rs (write_record r info) (write_record-IsCounted r info inv)

scan_batches-IsCounted :
    (batches : List (List Bytes)) (s : Scan) (info : KeyInfo)
    → IsCounted info
    → IsCounted (scan_batches batches s info).1
unfolding scan_batches
scan_batches-IsCounted [] s info inv = inv
scan_batches-IsCounted (batch ∷ batches) s info inv = elim (Bool-cases (is_nil batch)) [
  | inl stop ↦ rw stop inv
  | inr go ↦
      let info' = write_to_csv (scan_batch batch s).0 info in
      rw go (
        scan_batches-IsCounted batches (scan_batch batch s).1 info'
          (write_to_csv-IsCounted (scan_batch batch s).0 info inv))
]

-- The key info of a column: the records are its runs, and the counters count them.
pub record IsRuns (column : List Bytes) (info : KeyInfo) : Type 0 where
  pub covers : expand info.records ≡ column
  pub starts : StartFrom 0 info.records
  pub alternate : Alternate info.records
  pub keys : info.hashed ≡ map (λ r. r.key) info.records
  pub unique : info.unique_key_cnt ≡ length info.records
  pub original : info.original_cnt ≡ length column
  pub duplicates : info.duplicate_key_cnt ≡ total more_than_once info.records

total-le : (rs : List KeyRecord) → total more_than_once rs ≤ length rs
total-le [] = omega arith
total-le (r ∷ rs) = omega (arith, total-le rs)

last_run : (s : Scan) → expand (current_record s ∷ []) ≡ replicate (1 + s.cur_key_dup_cnt) s.cur_key
unfolding expand
last_run s = append-nil (replicate (1 + s.cur_key_dup_cnt) s.cur_key)

make_run-IsRuns :
    (column : List Bytes) (s : Scan) (info : KeyInfo)
    → IsScanned column info.records s
    → IsCounted info
    → length column < 2 ^ 32
    → IsRuns column (write_to_csv (current_record s ∷ []) info)
make_run-IsRuns column s info inv counted bound =
    let info' = write_to_csv (current_record s ∷ []) info in
    let appended = write_to_csv-records (current_record s ∷ []) info in
    let after = write_to_csv-IsCounted (current_record s ∷ []) info counted in
    let repeated = total-le info'.records in
    let covers : expand info'.records ≡ column =
      ap expand appended
      ∙ expand-append info.records (current_record s ∷ [])
      ∙ ap (λ l. expand info.records ++ l) (last_run s)
      ∙ inv.covers in
    record {
      covers = covers;
      starts = rw appended (
          StartFrom-snoc 0 info.records (current_record s) inv.starts
            (omega (arith, inv.start_is)));
      alternate = rw appended inv.alternate;
      keys = after.keys;
      unique = omega (arith, after.unique, length-expand info'.records, ap length covers, bound);
      original = omega (arith, after.original, ap length covers, bound);
      duplicates =
          omega (
            arith,
            after.duplicates,
            repeated,
            length-expand info'.records,
            ap length covers,
            bound,
          );
    }

-- For a column of fewer than 2^32 keys that comes in non-empty batches, of which there is one, the
-- records expand to the column, each starts at the row where it is, neighbours have different keys, the
-- hash goes over their keys, and the counters are the numbers of records, of rows and of the records
-- that stand for more than one row.
pub make-IsRuns :
    (first : List Bytes) (batches : List (List Bytes))
    → is_nil first ≡ false
    → All (λ b. is_nil b ≡ false) batches
    → length (concat (first ∷ batches)) < 2 ^ 32
    → IsRuns (concat (first ∷ batches)) (make (first ∷ batches))
unfolding make scan_batches
make-IsRuns [] batches some_key full bound = cc
make-IsRuns (item ∷ items) batches some_key full bound =
    let parts = length-append (item ∷ items) (concat batches) in
    let (done, s) = scan_batch (item ∷ items) scan_start in
    let info = write_to_csv done empty in
    let one : IsScanned (item ∷ items) info.records s =
      subst (λ rs. IsScanned (item ∷ items) rs s) (sym (write_to_csv-records done empty))
        (first_batch-IsScanned item items (omega (arith, bound, parts))) in
    let counted = write_to_csv-IsCounted done empty nothing-IsCounted in
    let all =
      scan_batches-IsScanned (item ∷ items) batches s info one full (omega (arith, bound, parts)) in
    make_run-IsRuns (concat ((item ∷ items) ∷ batches)) (scan_batches batches s info).0
      (scan_batches batches s info).1 all (scan_batches-IsCounted batches s info counted) bound

-- ===== src/Table.antt =====
-- psi/utils/table_utils.h and .cc: the unique keys of a sorted table with their counts (`KeyInfo`), and
-- the split of the table's lines by an intersection (`ApplyPeerDupCnt`). A table is the list of its
-- lines after the header, each ended by a newline. What arrow's csv reader gives is a list of batches,
-- none of them empty; the file that `KeyInfo::Make` writes is the list of its records.
use psi.Prelude.{
  ℕ, zero, suc, ◌+◌, ◌*◌, ◌%◌, ◌^◌, ◌<◌, ◌≤◌, ◌≡◌, Bool, true, false, not, Option, none, some, List,
  [], ◌∷◌, ◌++◌, length, replicate, Result, ok, err, thrown, ◌>>=◌, ◌>>◌, enforce, ltb, leb, ◌==◌,
  if◌then◌else◌,
}
use psi.Prelude.Bytes.{Bytes, bytes_eq, is_nil}
pub mod Scanning
pub mod Runs
pub mod Split
mod Tests

-- A line of the key info file.
pub record KeyRecord : Type 0 where
  pub key : Bytes
  pub start_index : ℕ
  pub dup_cnt : ℕ

-- The key info file so far, the keys that were hashed, and the counters, which wrap at 2^32.
pub record KeyInfo : Type 0 where
  pub records : List KeyRecord
  pub hashed : List Bytes
  pub duplicate_key_cnt : ℕ
  pub unique_key_cnt : ℕ
  pub original_cnt : ℕ

-- One round of the loop of `write_to_csv`.
unfoldable pub write_record : KeyRecord → KeyInfo → KeyInfo
write_record r info = record info {
  records = info.records ++ r ∷ [];
  hashed = info.hashed ++ r.key ∷ [];
  duplicate_key_cnt =
      if not (r.dup_cnt == 0)
      then (info.duplicate_key_cnt + 1) % 2 ^ 32
      else info.duplicate_key_cnt;
  unique_key_cnt = (info.unique_key_cnt + 1) % 2 ^ 32;
  original_cnt = (info.original_cnt + (1 + r.dup_cnt) % 2 ^ 32) % 2 ^ 32;
}

unfoldable pub write_to_csv : List KeyRecord → KeyInfo → KeyInfo
write_to_csv [] info = info
write_to_csv (r ∷ rs) info = write_to_csv rs (write_record r info)

-- The variables of the loop in `Make`.
pub record Scan : Type 0 where
  pub cur_key : Bytes
  pub cur_key_start_index : ℕ
  pub table_index : ℕ
  pub cur_key_dup_cnt : ℕ

abbrev pub scan_start : Scan
scan_start = record { cur_key = []; cur_key_start_index = 0; table_index = 0; cur_key_dup_cnt = 0 }

abbrev pub current_record : Scan → KeyRecord
current_record s = record {
  key = s.cur_key;
  start_index = s.cur_key_start_index;
  dup_cnt = s.cur_key_dup_cnt;
}

-- One item: the records that it completes, and the variables after it.
unfoldable pub scan_item : Bytes → Scan → List KeyRecord × Scan
scan_item item s =
    let next = (s.table_index + 1) % 2 ^ 32 in
    if s.table_index == 0
    then ([], record s { cur_key = item; table_index = next })
    else if not (bytes_eq s.cur_key item)
    then (
      current_record s ∷ [],
      record {
        cur_key = item;
        cur_key_start_index = s.table_index;
        table_index = next;
        cur_key_dup_cnt = 0;
      },
    )
    else ([], record s { table_index = next; cur_key_dup_cnt = (s.cur_key_dup_cnt + 1) % 2 ^ 32 })

unfoldable pub scan_batch : List Bytes → Scan → List KeyRecord × Scan
scan_batch [] s = ([], s)
scan_batch (item ∷ items) s =
    let (done, s₁) = scan_item item s in let (more, s₂) = scan_batch items s₁ in (done ++ more, s₂)

-- The loop over the batches of the key column, up to an empty one. A batch is written while the next
-- one is read; the writes happen in order.
unfoldable pub scan_batches : List (List Bytes) → Scan → KeyInfo → Scan × KeyInfo
scan_batches [] s info = (s, info)
scan_batches (batch ∷ batches) s info =
    let (done, s') = scan_batch batch s in
    let rest = scan_batches batches s' (write_to_csv done info) in
    if is_nil batch then (s, info) else rest

-- `KeyInfo::Make(sorted_table, path)` where no key info is there yet.
unfoldable pub make : List (List Bytes) → KeyInfo
make batches =
    let (s, info) = scan_batches batches scan_start (record {
      records = [];
      hashed = [];
      duplicate_key_cnt = 0;
      unique_key_cnt = 0;
      original_cnt = 0;
    }) in
    write_to_csv (current_record s ∷ []) info

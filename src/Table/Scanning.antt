-- ===== src/Table/Scanning.antt =====
-- The loop of `KeyInfo::Make` (psi/utils/table_utils.cc) over the key column.
use psi.Prelude.{
  ℕ, zero, suc, ◌+◌, ◌%◌, ◌^◌, ◌<◌, ◌≤◌, ◌≡◌, refl, false, List, [], ◌∷◌, ◌++◌, length, replicate,
  length-append, length-replicate, ◌==◌, Bool-cases, inl, inr, arith, ap, sym, ◌∙◌, subst,
}
use mathlib.Core.List.{append_assoc, append-nil}
use mathlib.Core.Logic.{◌≢◌}
use psi.Prelude.Bytes.{Bytes, bytes_eq, bytes_eq_iff, is_nil, concat}
use psi.Prelude.Count.{All}
use psi.Table.{
  KeyRecord, KeyInfo, write_record, write_to_csv, Scan, scan_start, current_record, scan_item,
  scan_batch, scan_batches,
}

-- The column that records stand for: each key as often as it was there.
unfoldable pub expand : List KeyRecord → List Bytes
expand [] = []
expand (r ∷ rs) = replicate (1 + r.dup_cnt) r.key ++ expand rs

-- Each record starts where the rows of those before it end.
abbrev pub StartFrom : ℕ → List KeyRecord → Type 0
StartFrom n [] = Unit {0}
StartFrom n (r ∷ rs) = (r.start_index ≡ n) × StartFrom (n + (1 + r.dup_cnt)) rs

-- Neighbours have different keys.
abbrev pub Alternate : List KeyRecord → Type 0
Alternate [] = Unit {0}
Alternate (r ∷ []) = Unit {0}
Alternate (r ∷ r' ∷ rs) = (r.key ≢ r'.key) × Alternate (r' ∷ rs)

pub expand-append : (rs rs' : List KeyRecord) → expand (rs ++ rs') ≡ expand rs ++ expand rs'
unfolding expand
expand-append [] rs' = refl
expand-append (r ∷ rs) rs' = simp (expand-append rs rs', append_assoc)

pub length-expand : (rs : List KeyRecord) → length rs ≤ length (expand rs)
unfolding expand
length-expand [] = omega arith
length-expand (r ∷ rs) =
    let rows = length-append (replicate (1 + r.dup_cnt) r.key) (expand rs) in
    omega (arith, rows, length-replicate (1 + r.dup_cnt) r.key, length-expand rs)

pub StartFrom-snoc :
    (n : ℕ) (rs : List KeyRecord) (r : KeyRecord)
    → StartFrom n rs
    → r.start_index ≡ n + length (expand rs)
    → StartFrom n (rs ++ r ∷ [])
unfolding expand
StartFrom-snoc n [] r h e = (omega (arith, e), tt)
StartFrom-snoc n (x ∷ rs) r h e =
    let rows = length-append (replicate (1 + x.dup_cnt) x.key) (expand rs) in
    (
      h.0,
      StartFrom-snoc (n + (1 + x.dup_cnt)) rs r h.1
          (omega (arith, e, rows, length-replicate (1 + x.dup_cnt) x.key)),
    )

Alternate-snoc :
    (rs : List KeyRecord) (r r' : KeyRecord)
    → Alternate (rs ++ r ∷ [])
    → r.key ≢ r'.key
    → Alternate ((rs ++ r ∷ []) ++ r' ∷ [])
Alternate-snoc [] r r' h ne = (ne, tt)
Alternate-snoc (x ∷ []) r r' h ne = (h.0, (ne, tt))
Alternate-snoc (x ∷ y ∷ rs) r r' h ne = (h.0, Alternate-snoc (y ∷ rs) r r' h.1 ne)

Alternate-same_key :
    (rs : List KeyRecord) (r r' : KeyRecord)
    → Alternate (rs ++ r ∷ [])
    → r.key ≡ r'.key
    → Alternate (rs ++ r' ∷ [])
Alternate-same_key [] r r' h e = tt
Alternate-same_key (x ∷ []) r r' h e = ((λ same. h.0 (same ∙ sym e)), tt)
Alternate-same_key (x ∷ y ∷ rs) r r' h e = (h.0, Alternate-same_key (y ∷ rs) r r' h.1 e)

replicate-snoc : (n : ℕ) (k : Bytes) → replicate n k ++ k ∷ [] ≡ replicate (n + 1) k
replicate-snoc zero k = refl
replicate-snoc (suc n) k =
    let next : suc n + 1 ≡ suc (n + 1) = omega arith in
    rw next (ap (λ l. k ∷ l) (replicate-snoc n k))

-- The records so far and the variables, after a non-empty part of the column.
pub record IsScanned (column : List Bytes) (records : List KeyRecord) (s : Scan) : Type 0 where
  pub covers : expand records ++ replicate (1 + s.cur_key_dup_cnt) s.cur_key ≡ column
  pub starts : StartFrom 0 records
  pub start_is : s.cur_key_start_index ≡ length (expand records)
  pub alternate : Alternate (records ++ current_record s ∷ [])
  pub counted : s.table_index ≡ length column

IsScanned-column :
    {column column' : List Bytes} {records : List KeyRecord} {s : Scan}
    → column ≡ column'
    → IsScanned column records s
    → IsScanned column' records s
IsScanned-column {records} {s} e inv = subst (λ c. IsScanned c records s) e inv

rows_before :
    (column : List Bytes) (records : List KeyRecord) (s : Scan)
    → IsScanned column records s
    → length (expand records) + (1 + s.cur_key_dup_cnt) ≡ length column
rows_before column records s inv =
    let parts = length-append (expand records) (replicate (1 + s.cur_key_dup_cnt) s.cur_key) in
    let last = length-replicate (1 + s.cur_key_dup_cnt) s.cur_key in
    omega (arith, parts, last, ap length inv.covers)

-- The variables after another row of the same key.
abbrev one_more_row : Scan → Scan
one_more_row s = record s {
  table_index = (s.table_index + 1) % 2 ^ 32;
  cur_key_dup_cnt = (s.cur_key_dup_cnt + 1) % 2 ^ 32;
}

IsScanned-same :
    (column : List Bytes) (records : List KeyRecord) (s : Scan)
    → IsScanned column records s
    → length column + 1 < 2 ^ 32
    → IsScanned (column ++ s.cur_key ∷ []) (records ++ []) (one_more_row s)
IsScanned-same column records s inv bound =
    let rows = rows_before column records s inv in
    let longer = length-append column (s.cur_key ∷ []) in
    let one_longer : 1 + (s.cur_key_dup_cnt + 1) % 2 ^ 32 ≡ (1 + s.cur_key_dup_cnt) + 1 =
      omega (arith, rows, bound) in
    rw (append-nil records) (record {
      covers =
          ap (λ n. expand records ++ replicate n s.cur_key) one_longer
          ∙ ap (λ l. expand records ++ l) (sym (replicate-snoc (1 + s.cur_key_dup_cnt) s.cur_key))
          ∙ sym (
              append_assoc (expand records) (replicate (1 + s.cur_key_dup_cnt) s.cur_key)
                (s.cur_key ∷ []))
          ∙ ap (λ l. l ++ s.cur_key ∷ []) inv.covers;
      starts = inv.starts;
      start_is = inv.start_is;
      alternate = Alternate-same_key records (current_record s) _ inv.alternate refl;
      counted = omega (arith, inv.counted, longer, bound);
    })

IsScanned-other :
    (column : List Bytes) (records : List KeyRecord) (s : Scan) (item : Bytes)
    → IsScanned column records s
    → length column + 1 < 2 ^ 32
    → s.cur_key ≢ item
    → IsScanned (column ++ item ∷ []) (records ++ current_record s ∷ []) (record {
      cur_key = item;
      cur_key_start_index = s.table_index;
      table_index = (s.table_index + 1) % 2 ^ 32;
      cur_key_dup_cnt = 0;
    })
unfolding expand
IsScanned-other column records s item inv bound ne =
    let rows = rows_before column records s inv in
    let longer = length-append column (item ∷ []) in
    let all : expand (records ++ current_record s ∷ []) ≡ column =
      expand-append records (current_record s ∷ [])
      ∙ ap (λ l. expand records ++ l) (append-nil (replicate (1 + s.cur_key_dup_cnt) s.cur_key))
      ∙ inv.covers in
    record {
      covers = ap (λ l. l ++ item ∷ []) all;
      starts = StartFrom-snoc 0 records (current_record s) inv.starts (omega (arith, inv.start_is));
      start_is = inv.counted ∙ ap length (sym all);
      alternate = Alternate-snoc records (current_record s) _ inv.alternate ne;
      counted = omega (arith, inv.counted, longer, bound);
    }

scan_item-IsScanned :
    (column : List Bytes) (records : List KeyRecord) (s : Scan) (item : Bytes)
    → IsScanned column records s
    → length column + 1 < 2 ^ 32
    → IsScanned (column ++ item ∷ []) (records ++ (scan_item item s).0) (scan_item item s).1
unfolding scan_item
scan_item-IsScanned column records s item inv bound =
    let rows = rows_before column records s inv in
    let started : (s.table_index == 0) ≡ false = ground (arith, rows, inv.counted) in
    elim (Bool-cases (bytes_eq s.cur_key item)) [
      | inl same ↦
          let e : s.cur_key ≡ item = (bytes_eq_iff s.cur_key item).0 same in
          rw (started, same)
            (subst (λ k. IsScanned (column ++ k ∷ []) (records ++ []) (one_more_row s)) e
              (IsScanned-same column records s inv bound))
      | inr other ↦
          let ne : s.cur_key ≢ item = λ e. cc (other, (bytes_eq_iff s.cur_key item).1 e) in
          rw (started, other) (IsScanned-other column records s item inv bound ne)
    ]

scan_batch-IsScanned :
    (column : List Bytes) (records : List KeyRecord) (s : Scan) (batch : List Bytes)
    → IsScanned column records s
    → length column + length batch < 2 ^ 32
    → IsScanned (column ++ batch) (records ++ (scan_batch batch s).0) (scan_batch batch s).1
unfolding scan_batch
scan_batch-IsScanned column records s [] inv bound = rw (append-nil column, append-nil records) inv
scan_batch-IsScanned column records s (item ∷ items) inv bound =
    let longer = length-append column (item ∷ []) in
    let one = scan_item-IsScanned column records s item inv (omega (arith, bound)) in
    let rest =
      scan_batch-IsScanned (column ++ item ∷ []) (records ++ (scan_item item s).0)
        (scan_item item s).1 items one (omega (arith, bound, longer)) in
    rw (← append_assoc records (scan_item item s).0 (scan_batch items (scan_item item s).1).0)
      (IsScanned-column (append_assoc column (item ∷ []) items) rest)

-- The first batch, which has an item.
pub first_batch-IsScanned :
    (item : Bytes) (items : List Bytes)
    → 1 + length items < 2 ^ 32
    → IsScanned
        (item ∷ items)
        (scan_batch (item ∷ items) scan_start).0
        (scan_batch (item ∷ items) scan_start).1
unfolding scan_batch scan_item expand
first_batch-IsScanned item items bound =
    let first : IsScanned (item ∷ []) [] (scan_item item scan_start).1 = record {
      covers = refl;
      starts = tt;
      start_is = refl;
      alternate = tt;
      counted = refl;
    } in
    scan_batch-IsScanned (item ∷ []) [] (scan_item item scan_start).1 items first bound

pub write_to_csv-records :
    (rs : List KeyRecord) (info : KeyInfo) → (write_to_csv rs info).records ≡ info.records ++ rs
unfolding write_to_csv write_record
write_to_csv-records [] info = sym (append-nil info.records)
write_to_csv-records (r ∷ rs) info =
    write_to_csv-records rs (write_record r info) ∙ append_assoc info.records (r ∷ []) rs

pub scan_batches-IsScanned :
    (column : List Bytes) (batches : List (List Bytes)) (s : Scan) (info : KeyInfo)
    → IsScanned column info.records s
    → All (λ b. is_nil b ≡ false) batches
    → length column + length (concat batches) < 2 ^ 32
    → IsScanned
        (column ++ concat batches)
        (scan_batches batches s info).1.records
        (scan_batches batches s info).0
unfolding scan_batches
scan_batches-IsScanned column [] s info inv full bound = rw (append-nil column) inv
scan_batches-IsScanned column (batch ∷ batches) s info inv full bound =
    let parts = length-append batch (concat batches) in
    let longer = length-append column batch in
    let one = scan_batch-IsScanned column info.records s batch inv (omega (arith, bound, parts)) in
    let info' = write_to_csv (scan_batch batch s).0 info in
    let written : IsScanned (column ++ batch) info'.records (scan_batch batch s).1 =
      subst (λ rs. IsScanned (column ++ batch) rs (scan_batch batch s).1)
        (sym (write_to_csv-records (scan_batch batch s).0 info)) one in
    rw full.0 (
      IsScanned-column (append_assoc column batch (concat batches)) (
        scan_batches-IsScanned (column ++ batch) batches (scan_batch batch s).1 info' written full.1
          (omega (arith, bound, parts, longer))))

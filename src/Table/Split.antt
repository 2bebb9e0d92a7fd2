-- ===== src/Table/Split.antt =====
-- `ResultDumper`, `InterIndexProcessor` and `KeyInfo::ApplyPeerDupCnt` (psi/utils/table_utils.h and
-- .cc). An index reader is the list of the indexes and peer counts that it has still to give. The
-- sums that the source keeps in 32 bits wrap; the dumper's 64-bit counts are numbers.
use psi.Prelude.{
  ℕ, zero, suc, ◌+◌, ◌-◌, ◌%◌, ◌^◌, ◌≡◌, Bool, true, false, not, Option, none, some, List, [], ◌∷◌,
  ◌++◌, length, replicate, Result, ok, err, thrown, ◌>>=◌, ◌>>◌, enforce, ltb, ◌==◌, if◌then◌else◌,
}
use psi.Prelude.Bytes.{Bytes, is_nil}
use psi.Table.{KeyRecord}
pub mod Batch
pub mod Reading
pub mod Lines
pub mod Dumping
pub mod Whole
pub mod Composition

-- A file that is not there is not written.
pub record ResultDumper : Type 0 where
  pub intersect_file : Option (List Bytes)
  pub except_file : Option (List Bytes)
  pub intersect_cnt : ℕ
  pub except_cnt : ℕ

-- `Dump` to a file: the line is written `duplicate_cnt + 1` times.
abbrev pub dumped : Bytes → ℕ → Option (List Bytes) → Option (List Bytes)
dumped line duplicate_cnt none = none
dumped line duplicate_cnt (some file) = some (file ++ replicate (duplicate_cnt + 1) line)

unfoldable pub to_intersect : Bytes → ℕ → ResultDumper → ResultDumper
to_intersect line duplicate_cnt d = record d {
  intersect_file = dumped line duplicate_cnt d.intersect_file;
  intersect_cnt = d.intersect_cnt + (1 + duplicate_cnt);
}

unfoldable pub to_except : Bytes → ℕ → ResultDumper → ResultDumper
to_except line duplicate_cnt d = record d {
  except_file = dumped line duplicate_cnt d.except_file;
  except_cnt = d.except_cnt + (1 + duplicate_cnt);
}

pub record InterInfo : Type 0 where
  pub start_index : ℕ
  pub self_dup_cnt : ℕ
  pub peer_dup_cnt : ℕ

-- `infos` are the batches of start indexes and counts that the key info provider has still to give.
pub record InterIndexProcessor : Type 0 where
  pub reader : List (ℕ × ℕ)
  pub infos : List (List (ℕ × ℕ))
  pub index_with_peer_cnt : Option (ℕ × ℕ)
  pub self_info_index : ℕ
  pub finish : Bool

-- `index_with_peer_cnt_ = reader_.GetNextWithPeerCnt()`
abbrev pub advance : InterIndexProcessor → InterIndexProcessor
advance p = elim p.reader [
  | [] ↦ record p { index_with_peer_cnt = none }
  | next ∷ rest ↦ record p { reader = rest; index_with_peer_cnt = some next }
]

unfoldable pub new_processor : List (ℕ × ℕ) → List (List (ℕ × ℕ)) → InterIndexProcessor
new_processor reader infos = advance (record {
  reader = reader;
  infos = infos;
  index_with_peer_cnt = none;
  self_info_index = 0;
  finish = false;
})

abbrev pub step_index : InterIndexProcessor → InterIndexProcessor
step_index p = record p { self_info_index = (p.self_info_index + 1) % 2 ^ 32 }

-- The loop over one batch of infos; the second argument is the index that is waited for. `InterInfo`
-- takes the peer's 64-bit count as 32 bits.
unfoldable pub scan_infos :
    List (ℕ × ℕ)
    → Option (ℕ × ℕ)
    → InterIndexProcessor
    → Result (List InterInfo × InterIndexProcessor)
scan_infos [] waiting p = ok ([], p)
scan_infos ((start, dup) ∷ infos) none p = ok ([], record p { finish = true })
scan_infos ((start, dup) ∷ infos) (some (index, cnt)) p =
    let p' = step_index (advance p) in
    let matched = scan_infos infos p'.index_with_peer_cnt p' >>= λ (inter, q).
    ok (
      record { start_index = start; self_dup_cnt = dup; peer_dup_cnt = cnt % 2 ^ 32 } ∷ inter,
      q,
    ) in
    let skipped =
      enforce (not (ltb index p.self_info_index))
      >> scan_infos infos (some (index, cnt)) (step_index p) in
    if p.self_info_index == index then matched else skipped

-- At the end of the key info no index may be left.
abbrev pub reach_end : InterIndexProcessor → Result (List InterInfo × InterIndexProcessor)
reach_end p = elim p.index_with_peer_cnt [ none ↦ ok ([], p) | some left ↦ err thrown ]

-- The loop of `GetBatchInfo`, up to a batch that has something in the intersection.
unfoldable pub collect :
    List (List (ℕ × ℕ)) → InterIndexProcessor → Result (List InterInfo × InterIndexProcessor)
collect [] p = reach_end (record p { infos = [] })
collect (batch ∷ batches) p =
    let p' = record p { infos = batches } in
    let read = scan_infos batch p'.index_with_peer_cnt p' >>= λ (inter, q).
    (let rest = collect batches q in if is_nil inter then rest else ok (inter, q)) in
    if is_nil batch then reach_end p' else read

unfoldable pub get_batch_info : InterIndexProcessor → Result (List InterInfo × InterIndexProcessor)
get_batch_info p =
    let read : Result (List InterInfo × InterIndexProcessor) = elim p.index_with_peer_cnt [
      | none ↦ ok ([], record p { finish = true })
      | some waiting ↦ collect p.infos p
    ] in
    if p.finish then ok ([], p) else read

-- The variables of `ApplyPeerDupCnt`; `sorted_file` are the lines that are not read yet.
pub record Splitting : Type 0 where
  pub sorted_file : List Bytes
  pub line : Bytes
  pub dumper : ResultDumper
  pub sorted_file_index : ℕ
  pub self_intersection_count : ℕ
  pub peer_intersection_count : ℕ
  pub inter_unique_cnt : ℕ

-- `std::getline`; at the end it leaves an empty line.
abbrev pub getline : Splitting → Splitting
getline s = elim s.sorted_file [
  | [] ↦ record s { line = [] }
  | l ∷ ls ↦ record s { sorted_file = ls; line = l }
]

-- The loop up to the start index, `n` rounds of it.
unfoldable pub skip_rows : ℕ → Splitting → Splitting
skip_rows zero s = s
skip_rows (suc n) s =
    let s' = getline s in
    skip_rows n (record s' {
      dumper = to_except s'.line 0 s'.dumper;
      sorted_file_index = (s'.sorted_file_index + 1) % 2 ^ 32;
    })

-- The loop over the rows of one key, `n` rounds of it: the source's `i <= self_dup_cnt` on 32 bits ends
-- where the count is not the largest.
unfoldable pub take_rows : ℕ → ℕ → Splitting → Splitting
take_rows zero peer_dup_cnt s = s
take_rows (suc n) peer_dup_cnt s =
    let s' = getline s in
    take_rows n peer_dup_cnt (record s' { dumper = to_intersect s'.line peer_dup_cnt s'.dumper })

unfoldable pub apply_info : InterInfo → Splitting → Splitting
apply_info info s =
    let skipped = skip_rows (info.start_index - s.sorted_file_index) s in
    let s' = take_rows (info.self_dup_cnt + 1) info.peer_dup_cnt skipped in
    record s' {
      sorted_file_index = (s'.sorted_file_index + (info.self_dup_cnt + 1)) % 2 ^ 32;
      self_intersection_count = (s'.self_intersection_count + (info.self_dup_cnt + 1)) % 2 ^ 32;
      peer_intersection_count = (s'.peer_intersection_count + (info.peer_dup_cnt + 1)) % 2 ^ 32;
    }

unfoldable pub apply_infos : List InterInfo → Splitting → Splitting
apply_infos [] s = s
apply_infos (info ∷ infos) s = apply_infos infos (apply_info info s)

-- `while (!inter_index_info.empty())`, on fuel.
unfoldable pub apply_batches :
    ℕ → List InterInfo → InterIndexProcessor → Splitting → Result Splitting
apply_batches zero inter p s = err thrown
apply_batches (suc fuel) inter p s =
    let counted = record s { inter_unique_cnt = (s.inter_unique_cnt + length inter) % 2 ^ 32 } in
    let more = get_batch_info p >>= λ (inter', p').
    apply_batches fuel inter' p' (apply_infos inter counted) in
    if is_nil inter then ok s else more

-- The rows after the last key of the intersection.
unfoldable pub rest_to_except : List Bytes → Splitting → Splitting
rest_to_except [] s = record s { sorted_file = [] }
rest_to_except (l ∷ ls) s = rest_to_except ls (record s {
  line = l;
  dumper = to_except l 0 s.dumper;
  sorted_file_index = (s.sorted_file_index + 1) % 2 ^ 32;
})

-- `ApplyPeerDupCnt` on the source file with its header, the key info and the indexes. The caller's
-- `StatInfo` is read off the result; its join count is that of the lines dumped less the header,
-- cast to 32 bits.
unfoldable pub apply_peer_dup_cnt :
    List Bytes → List (List (ℕ × ℕ)) → List (ℕ × ℕ) → ResultDumper → Result Splitting
apply_peer_dup_cnt source_file infos reader dumper = do
  let opened = getline (record {
    sorted_file = source_file;
    line = [];
    dumper = dumper;
    sorted_file_index = 0;
    self_intersection_count = 0;
    peer_intersection_count = 0;
    inter_unique_cnt = 0;
  })
  let started = record opened {
    dumper = to_except opened.line 0 (to_intersect opened.line 0 opened.dumper);
  }
  (inter, p) ← get_batch_info (new_processor reader infos)
  s ← apply_batches (length infos + 2) inter p started
  ok (rest_to_except s.sorted_file s)

-- ===== src/Table/Split/Composition.antt =====
-- `KeyInfo::ApplyPeerDupCnt` on the key info that `KeyInfo::Make` wrote (psi/utils/table_utils.cc).
use psi.Prelude.{
  ℕ, ◌+◌, ◌%◌, ◌^◌, ◌<◌, ◌≡◌, refl, false, List, [], ◌∷◌, map, length, length-map, length-append,
  replicate, length-replicate, Returns, arith, ap, sym, ◌∙◌, subst,
}
use psi.Prelude.Bytes.{Bytes, is_nil, concat}
use psi.Prelude.Count.{All}
use psi.Table.{KeyRecord, make}
use psi.Table.Scanning.{expand, length-expand, StartFrom}
use psi.Table.Runs.{make-IsRuns}
use psi.Table.Split.{ResultDumper, apply_peer_dup_cnt}
use psi.Table.Split.Batch.{Ascends, matches}
use psi.Table.Split.Dumping.{totals, own_rows, peer_rows, StartsFrom, rows_of}
use psi.Table.Split.Lines.{intersected, excepted, put}
use psi.Table.Split.Whole.{IsKeyed, apply_peer_dup_cnt-Returns}

-- The columns of starts and counts of a key info.
abbrev pub columns_of : List KeyRecord → List (ℕ × ℕ)
columns_of rs = map (λ r. (r.start_index, r.dup_cnt)) rs

columns_of-StartsFrom :
    (n : ℕ) (rs : List KeyRecord) → StartFrom n rs → StartsFrom n (columns_of rs)
columns_of-StartsFrom n [] h = tt
columns_of-StartsFrom n (r ∷ rs) h =
    let next : n + (1 + r.dup_cnt) ≡ n + (r.dup_cnt + 1) = omega arith in
    (
      h.0,
      subst (λ m. StartsFrom m (columns_of rs)) next
          (columns_of-StartsFrom (n + (1 + r.dup_cnt)) rs h.1),
    )

rows_of-columns_of : (rs : List KeyRecord) → rows_of (columns_of rs) ≡ length (expand rs)
unfolding rows_of expand
rows_of-columns_of [] = refl
rows_of-columns_of (r ∷ rs) =
    let parts = length-append (replicate (1 + r.dup_cnt) r.key) (expand rs) in
    omega (arith, parts, length-replicate (1 + r.dup_cnt) r.key, rows_of-columns_of rs)

-- For the rows of a sorted table and their keys, fewer than 2^32, in batches that are not empty and of
-- which there is one: a run on the key info of these keys, read in any batches that are not empty, with
-- indexes that grow, are those of its records and have counts below 2^32, returns. It has split the
-- rows, each intersecting one as often as the peer has its key. The counters are all rows, the own rows
-- of the keys in the intersection, the peer's rows of them modulo 2^32, and the number of these keys.
pub make-apply_peer_dup_cnt :
    (first : List Bytes) (batches : List (List Bytes)) (header : Bytes) (lines : List Bytes)
    (infos : List (List (ℕ × ℕ))) (reader : List (ℕ × ℕ)) (dumper : ResultDumper)
    → is_nil first ≡ false
    → All (λ b. is_nil b ≡ false) batches
    → length (concat (first ∷ batches)) < 2 ^ 32
    → length lines ≡ length (concat (first ∷ batches))
    → concat infos ≡ columns_of (make (first ∷ batches)).records
    → All (λ b. is_nil b ≡ false) infos
    → Ascends 0 (length (make (first ∷ batches)).records) reader
    → Returns (apply_peer_dup_cnt (header ∷ lines) infos reader dumper) (λ s. totals s ≡ (
      put
          (header ∷ intersected 0 (columns_of (make (first ∷ batches)).records) reader lines)
          (header ∷ excepted 0 (columns_of (make (first ∷ batches)).records) reader lines)
          dumper,
      length lines,
      own_rows (matches 0 (columns_of (make (first ∷ batches)).records) reader),
      peer_rows (matches 0 (columns_of (make (first ∷ batches)).records) reader) % 2 ^ 32,
      length (matches 0 (columns_of (make (first ∷ batches)).records) reader),
    ))
make-apply_peer_dup_cnt first batches header lines infos reader dumper some_key full bound same_rows
      cut full_infos up =
    let runs = make-IsRuns first batches some_key full bound in
    let rs = (make (first ∷ batches)).records in
    let column_length = ap length runs.covers in
    let few : length (columns_of rs) ≡ length rs =
      length-map rs (λ r. (r.start_index, r.dup_cnt)) in
    let keyed : IsKeyed infos lines = record {
      full = full_infos;
      starts = subst (StartsFrom 0) (sym cut) (columns_of-StartsFrom 0 rs runs.starts);
      fits = omega (arith, ap rows_of cut, rows_of-columns_of rs, column_length, same_rows);
    } in
    let count : length (concat infos) ≡ length rs = ap length cut ∙ few in
    let below : length (concat infos) < 2 ^ 32 =
      omega (arith, count, length-expand rs, column_length, bound) in
    rw (← cut) (
      apply_peer_dup_cnt-Returns header lines infos reader dumper keyed below
        (omega (arith, same_rows, bound)) (subst (λ n. Ascends 0 n reader) (sym count) up))

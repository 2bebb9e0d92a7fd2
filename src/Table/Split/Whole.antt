-- ===== src/Table/Split/Whole.antt =====
-- `KeyInfo::ApplyPeerDupCnt` (psi/utils/table_utils.cc) as a whole.
use psi.Prelude.{
  ℕ, zero, suc, ◌+◌, ◌-◌, ◌%◌, ◌^◌, ◌<◌, ◌≤◌, ◌≡◌, refl, false, List, [], ◌∷◌, ◌++◌, length,
  length-append, ok, Returns, arith, ap, ap₂, sym, ◌∙◌,
}
use psi.Prelude.Bytes.{Bytes, is_nil, concat}
use psi.Prelude.Count.{All}
use psi.Table.Split.{
  ResultDumper, to_intersect, to_except, InterInfo, InterIndexProcessor, new_processor, Splitting,
  skip_rows, take_rows, apply_info, apply_infos, apply_batches, rest_to_except, apply_peer_dup_cnt,
}
use psi.Table.Split.Reading.{Given, get_batch_info-Given, new_processor-Reads}
use psi.Table.Split.Batch.{Ascends, matches}
use psi.Table.Split.Dumping.{
  totals, totals_congr, ended, own_rows, peer_rows, StartsFrom, rows_of, apply_infos-eq,
  own_rows-le, length-matches-le,
}
use psi.Table.Split.Lines.{intersected, excepted, put, put-put, to_except-put, to_intersect-put, mk}

abbrev with_unique : ℕ → Splitting → Splitting
with_unique unique s = record s { inter_unique_cnt = unique }

-- The loops do not look at the count of keys.
module _ (own peer v : ℕ) where
  skip_rows-with_unique :
      (n : ℕ) (file : List Bytes) (line : Bytes) (d : ResultDumper) (index u : ℕ)
      → skip_rows n (mk file line d index own peer v)
        ≡ with_unique v (skip_rows n (mk file line d index own peer u))
  unfolding skip_rows
  skip_rows-with_unique zero file line d index u = refl
  skip_rows-with_unique (suc n) [] line d index u =
      skip_rows-with_unique n [] [] (to_except [] 0 d) ((index + 1) % 2 ^ 32) u
  skip_rows-with_unique (suc n) (l ∷ ls) line d index u =
      skip_rows-with_unique n ls l (to_except l 0 d) ((index + 1) % 2 ^ 32) u

  take_rows-with_unique :
      (n c : ℕ) (file : List Bytes) (line : Bytes) (d : ResultDumper) (index u : ℕ)
      → take_rows n c (mk file line d index own peer v)
        ≡ with_unique v (take_rows n c (mk file line d index own peer u))
  unfolding take_rows
  take_rows-with_unique zero c file line d index u = refl
  take_rows-with_unique (suc n) c [] line d index u =
      take_rows-with_unique n c [] [] (to_intersect [] c d) index u
  take_rows-with_unique (suc n) c (l ∷ ls) line d index u =
      take_rows-with_unique n c ls l (to_intersect l c d) index u

skip_with :
    (n v : ℕ) (s : Splitting) → skip_rows n (with_unique v s) ≡ with_unique v (skip_rows n s)
skip_with n v s =
    skip_rows-with_unique s.self_intersection_count s.peer_intersection_count v n s.sorted_file
      s.line s.dumper s.sorted_file_index s.inter_unique_cnt

take_with :
    (n c v : ℕ) (s : Splitting) → take_rows n c (with_unique v s) ≡ with_unique v (take_rows n c s)
take_with n c v s =
    take_rows-with_unique s.self_intersection_count s.peer_intersection_count v n c s.sorted_file
      s.line s.dumper s.sorted_file_index s.inter_unique_cnt

apply_info-with_unique :
    (info : InterInfo) (v : ℕ) (s : Splitting)
    → apply_info info (with_unique v s) ≡ with_unique v (apply_info info s)
unfolding apply_info
apply_info-with_unique info v s =
    let n = info.start_index - s.sorted_file_index in
    let m = info.self_dup_cnt + 1 in
    rw (skip_with n v s, take_with m info.peer_dup_cnt v (skip_rows n s)) refl

apply_infos-with_unique :
    (infos : List InterInfo) (v : ℕ) (s : Splitting)
    → apply_infos infos (with_unique v s) ≡ with_unique v (apply_infos infos s)
unfolding apply_infos
apply_infos-with_unique [] v s = refl
apply_infos-with_unique (info ∷ infos) v s =
    ap (apply_infos infos) (apply_info-with_unique info v s)
    ∙ apply_infos-with_unique infos v (apply_info info s)

apply_infos-append :
    (a b : List InterInfo) (s : Splitting)
    → apply_infos (a ++ b) s ≡ apply_infos b (apply_infos a s)
unfolding apply_infos
apply_infos-append [] b s = refl
apply_infos-append (info ∷ a) b s = apply_infos-append a b (apply_info info s)

-- All keys of a list of infos, counted too.
abbrev all_of : List InterInfo → Splitting → Splitting
all_of m s = with_unique ((s.inter_unique_cnt + length m) % 2 ^ 32) (apply_infos m s)

all_of-nil : (s : Splitting) → s.inter_unique_cnt < 2 ^ 32 → all_of [] s ≡ s
unfolding apply_infos
all_of-nil s h = ap (λ u. with_unique u s) (omega arith)

all_of-append : (a b : List InterInfo) (s : Splitting) → all_of b (all_of a s) ≡ all_of (a ++ b) s
all_of-append a b s =
    let first =
      apply_infos-with_unique b ((s.inter_unique_cnt + length a) % 2 ^ 32) (apply_infos a s) in
    ap₂ with_unique (omega (arith, length-append a b)) (
      first
      ∙ ap (with_unique ((s.inter_unique_cnt + length a) % 2 ^ 32))
          (sym (apply_infos-append a b s)))

module _ (n : ℕ) (bound : n < 2 ^ 32) where
  -- The fuel is enough, since each batch of the intersection takes a batch of the key info.
  apply_batches-eq :
      (fuel k : ℕ) (is : List (ℕ × ℕ)) (infos : List (List (ℕ × ℕ))) (inter : List InterInfo)
      (q : InterIndexProcessor) (s : Splitting)
      → Given n k is infos inter q
      → length infos < fuel
      → s.inter_unique_cnt < 2 ^ 32
      → apply_batches fuel inter q s ≡ ok (all_of (matches k (concat infos) is) s)
  unfolding apply_batches
  apply_batches-eq zero k is infos inter q s given h few = absurd (omega arith)
  apply_batches-eq (suc fuel) k is infos [] q s given h few =
      ap ok (sym (ap (λ m. all_of m s) (given.done refl) ∙ all_of-nil s few))
  apply_batches-eq (suc fuel) k is infos (x ∷ inter) q s given h few =
      let (p, eq, next) =
        get_batch_info-Given n bound given.next_key given.next_is given.next_infos q given.reads in
      let u : ℕ = (s.inter_unique_cnt + length (x ∷ inter)) % 2 ^ 32 in
      let s₁ = apply_infos (x ∷ inter) (with_unique u s) in
      let first : s₁ ≡ all_of (x ∷ inter) s = apply_infos-with_unique (x ∷ inter) u s in
      let m = matches given.next_key (concat given.next_infos) given.next_is in
      let rest =
        apply_batches-eq fuel given.next_key given.next_is given.next_infos p.0 p.1 s₁ next
          (omega (arith, h, given.shorter (λ e. cc e)))
          (omega (arith, ap (λ (t : Splitting). t.inter_unique_cnt) first)) in
      rw eq rest
      ∙ ap ok (
          ap (all_of m) first
          ∙ all_of-append (x ∷ inter) m s
          ∙ ap (λ l. all_of l s) (sym given.matched))

-- The lines of the source file are the rows of the keys, in the key info's order.
pub record IsKeyed (infos : List (List (ℕ × ℕ))) (lines : List Bytes) : Type 0 where
  pub full : All (λ b. is_nil b ≡ false) infos
  pub starts : StartsFrom 0 (concat infos)
  pub fits : rows_of (concat infos) ≤ length lines

-- For a key info whose batches are not empty, of fewer than 2^32 keys, each with the row where it
-- starts, on a file of at least as many rows and of fewer than 2^32, and for indexes that grow, are
-- those of keys and have counts below 2^32: the run returns. It has dumped the header to both files, the
-- rows of the keys of the indexes, each as often as the peer has the key, to the one of the intersection,
-- and the other rows to the other. The counters are all rows, the own rows of the keys in the
-- intersection, the peer's rows of them modulo 2^32, and the number of these keys.
pub apply_peer_dup_cnt-Returns :
    (header : Bytes) (lines : List Bytes) (infos : List (List (ℕ × ℕ))) (reader : List (ℕ × ℕ))
    (dumper : ResultDumper)
    → IsKeyed infos lines
    → length (concat infos) < 2 ^ 32
    → length lines < 2 ^ 32
    → Ascends 0 (length (concat infos)) reader
    → Returns (apply_peer_dup_cnt (header ∷ lines) infos reader dumper) (λ s. totals s ≡ (
      put
          (header ∷ intersected 0 (concat infos) reader lines)
          (header ∷ excepted 0 (concat infos) reader lines)
          dumper,
      length lines,
      own_rows (matches 0 (concat infos) reader),
      peer_rows (matches 0 (concat infos) reader) % 2 ^ 32,
      length (matches 0 (concat infos) reader),
    ))
unfolding apply_peer_dup_cnt
apply_peer_dup_cnt-Returns header lines infos reader dumper keyed bound small up =
    let n = length (concat infos) in
    let reads = new_processor-Reads n reader infos up refl keyed.full in
    let (p, eq, given) =
      get_batch_info-Given n bound 0 reader infos (new_processor reader infos) reads in
    let d = to_except header 0 (to_intersect header 0 dumper) in
    let started = mk lines header d 0 0 0 0 in
    let m = matches 0 (concat infos) reader in
    let ran =
      apply_batches-eq n bound (length infos + 2) 0 reader infos p.0 p.1 started given (omega arith)
        (omega arith) in
    let own = own_rows-le 0 (concat infos) reader in
    let keys = length-matches-le 0 (concat infos) reader in
    let s = all_of m started in
    let same : s ≡ apply_infos m (mk lines header d 0 0 0 (length m)) =
      ap (λ u. with_unique u (apply_infos m started)) (omega (arith, keys, bound))
      ∙ sym (apply_infos-with_unique m (length m) started) in
    let header_put : d ≡ put (header ∷ []) (header ∷ []) dumper =
      to_except-put header (to_intersect header 0 dumper)
      ∙ ap (put [] (header ∷ [])) (to_intersect-put header 0 dumper)
      ∙ put-put (header ∷ []) [] [] (header ∷ []) dumper in
    let inter = intersected 0 (concat infos) reader lines in
    let except = excepted 0 (concat infos) reader lines in
    (
      rest_to_except s.sorted_file s,
      rw (eq, ran) refl,
      ap ended same
          ∙ apply_infos-eq (concat infos) reader 0 0 lines header d 0 0 0 (length m) keyed.starts
              (omega (arith, keyed.fits)) (omega (arith, small)) (omega arith) (omega arith)
          ∙ totals_congr
              (ap (put inter except) header_put
                ∙ put-put (header ∷ []) (header ∷ []) inter except dumper)
              (omega arith) (omega (arith, own, keyed.fits, small)) (omega arith),
    )

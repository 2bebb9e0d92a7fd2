-- ===== src/Table/Split/Dumping.antt =====
-- The lines that `KeyInfo::ApplyPeerDupCnt` (psi/utils/table_utils.cc) dumps, against the rows of the
-- keys of the intersection and the other rows.
use mathlib.Core.List.{append_assoc, append-nil}
use psi.Prelude.{
  ℕ, zero, suc, ◌+◌, ◌-◌, ◌%◌, ◌^◌, ◌<◌, ◌≤◌, ◌≡◌, refl, List, [], ◌∷◌, ◌++◌, length, take, drop,
  length-drop, take-append-drop, ◌==◌, Bool-cases, inl, inr, arith, ap, ap₂, sym, ◌∙◌, subst,
}
use psi.Prelude.Bytes.{Bytes}
use psi.Table.Split.{
  ResultDumper, to_except, InterInfo, Splitting, apply_info, apply_infos, rest_to_except,
}
use psi.Table.Split.Batch.{matches}
use psi.Table.Split.Lines.{
  repeated, intersected, excepted, put, put-put, put-nil, to_except-put, mk, last_read,
  skip_rows-eq, take_rows-eq,
}

-- The dumper and the counters: all rows, the own ones and the peer's in the intersection, and its keys.
abbrev pub Totals : Type 0
Totals = ResultDumper × ℕ × ℕ × ℕ × ℕ

abbrev pub totals : Splitting → Totals
totals s = (
  s.dumper, s.sorted_file_index, s.self_intersection_count, s.peer_intersection_count,
  s.inter_unique_cnt,
)

-- The end of the run: the rows after the last key.
abbrev pub ended : Splitting → Totals
ended s = totals (rest_to_except s.sorted_file s)

rest_to_except-eq :
    (ls file : List Bytes) (line : Bytes) (d : ResultDumper) (index own peer unique : ℕ)
    → index + length ls < 2 ^ 32
    → totals (rest_to_except ls (mk file line d index own peer unique))
      ≡ (put [] ls d, index + length ls, own, peer, unique)
unfolding rest_to_except
rest_to_except-eq [] file line d index own peer unique fits =
    ap₂ (λ x j. (x, j, own, peer, unique)) (sym (put-nil d)) (omega arith)
rest_to_except-eq (l ∷ ls) file line d index own peer unique fits =
    let step : (index + 1) % 2 ^ 32 ≡ index + 1 = omega (arith, fits) in
    ap (λ j. totals (rest_to_except ls (mk file l (to_except l 0 d) j own peer unique))) step
    ∙ rest_to_except-eq ls file l (to_except l 0 d) (index + 1) own peer unique
        (omega (arith, fits))
    ∙ ap₂ (λ x j. (x, j, own, peer, unique))
        (ap (put [] ls) (to_except-put l d) ∙ put-put [] (l ∷ []) [] ls d) (omega arith)

unfoldable pub own_rows : List InterInfo → ℕ
own_rows [] = 0
own_rows (info ∷ infos) = (info.self_dup_cnt + 1) + own_rows infos

unfoldable pub peer_rows : List InterInfo → ℕ
peer_rows [] = 0
peer_rows (info ∷ infos) = (info.peer_dup_cnt + 1) + peer_rows infos

-- Each key starts at the row where the one before it ends.
abbrev pub StartsFrom : ℕ → List (ℕ × ℕ) → Type 0
StartsFrom n [] = Unit {0}
StartsFrom n ((start, dup) ∷ infos) = (start ≡ n) × StartsFrom (n + (dup + 1)) infos

unfoldable pub rows_of : List (ℕ × ℕ) → ℕ
rows_of [] = 0
rows_of ((start, dup) ∷ infos) = (dup + 1) + rows_of infos

-- The rows of the keys of the intersection are rows of the file.
pub own_rows-le : (k : ℕ) (infos is : List (ℕ × ℕ)) → own_rows (matches k infos is) ≤ rows_of infos
unfolding matches own_rows rows_of
own_rows-le k [] is = omega arith
own_rows-le k ((start, dup) ∷ infos) [] = omega arith
own_rows-le k ((start, dup) ∷ infos) ((i, c) ∷ is) = elim (Bool-cases (k == i)) [
  | inl here ↦ rw here (omega (arith, own_rows-le (k + 1) infos is))
  | inr other ↦ rw other (omega (arith, own_rows-le (k + 1) infos ((i, c) ∷ is)))
]

pub length-matches-le :
    (k : ℕ) (infos is : List (ℕ × ℕ)) → length (matches k infos is) ≤ length infos
unfolding matches
length-matches-le k [] is = omega arith
length-matches-le k ((start, dup) ∷ infos) [] = omega arith
length-matches-le k ((start, dup) ∷ infos) ((i, c) ∷ is) = elim (Bool-cases (k == i)) [
  | inl here ↦ rw here (omega (arith, length-matches-le (k + 1) infos is))
  | inr other ↦ rw other (omega (arith, length-matches-le (k + 1) infos ((i, c) ∷ is)))
]

drop-empty : (n : ℕ) → drop {A = Bytes} n [] ≡ []
drop-empty zero = refl
drop-empty (suc n) = refl

take-empty : (n : ℕ) → take {A = Bytes} n [] ≡ []
take-empty zero = refl
take-empty (suc n) = refl

drop-drop : (a b : ℕ) (ls : List Bytes) → drop b (drop a ls) ≡ drop (a + b) ls
drop-drop zero b ls = ap (λ n. drop n ls) (omega arith)
drop-drop (suc a) b [] = drop-empty b ∙ sym (drop-empty (suc a + b))
drop-drop (suc a) b (l ∷ ls) =
    drop-drop a b ls
    ∙ ap (λ n. drop n (l ∷ ls)) (let e : suc (a + b) ≡ suc a + b = omega arith in e)

take-add : (a b : ℕ) (ls : List Bytes) → take (a + b) ls ≡ take a ls ++ take b (drop a ls)
take-add zero b ls = ap (λ n. take n ls) (omega arith)
take-add (suc a) b [] = take-empty (suc a + b) ∙ sym (take-empty b)
take-add (suc a) b (l ∷ ls) =
    ap (λ n. take n (l ∷ ls)) (let e : suc a + b ≡ suc (a + b) = omega arith in e)
    ∙ ap (λ t. l ∷ t) (take-add a b ls)

apply_info-mk :
    (start dup c gap : ℕ) (file : List Bytes) (line : Bytes) (d : ResultDumper)
    (index own peer unique : ℕ)
    → start ≡ index + gap
    → gap + (dup + 1) ≤ length file
    → index + length file < 2 ^ 32
    → (line' : Bytes) × (apply_info
          (record { start_index = start; self_dup_cnt = dup; peer_dup_cnt = c })
          (mk file line d index own peer unique)
        ≡ mk
            (drop (dup + 1) (drop gap file))
            line'
            (put (repeated c (take (dup + 1) (drop gap file))) (take gap file) d)
            ((index + gap) + (dup + 1))
            ((own + (dup + 1)) % 2 ^ 32)
            ((peer + (c + 1)) % 2 ^ 32)
            unique)
unfolding apply_info
apply_info-mk start dup c gap file line d index own peer unique at fits small =
    let n : start - index ≡ gap = omega (arith, at) in
    let skipped =
      skip_rows-eq own peer unique gap file line d index (omega arith)
        (omega (arith, fits, small)) in
    let taken =
      take_rows-eq own peer unique (dup + 1) c (drop gap file) (last_read gap file line)
        (put [] (take gap file) d) (index + gap) (omega (arith, length-drop gap file)) in
    let rows = repeated c (take (dup + 1) (drop gap file)) in
    let index_is : ((index + gap) + (dup + 1)) % 2 ^ 32 ≡ (index + gap) + (dup + 1) =
      omega (arith, fits, small) in
    let line' = last_read (dup + 1) (drop gap file) (last_read gap file line) in
    (
      line',
      rw (n, skipped, taken, index_is)
          (ap
            (λ x.
              mk (drop (dup + 1) (drop gap file)) line' x ((index + gap) + (dup + 1))
                ((own + (dup + 1)) % 2 ^ 32) ((peer + (c + 1)) % 2 ^ 32) unique)
            (put-put [] (take gap file) rows [] d
              ∙ ap (λ e. put rows e d) (append-nil (take gap file)))),
    )

pub totals_congr :
    {d d' : ResultDumper} {a a' b b' c c' u : ℕ}
    → d ≡ d'
    → a ≡ a'
    → b ≡ b'
    → c ≡ c'
    → (let t : Totals = (d, a, b, c, u) in t) ≡ (d', a', b', c', u)
totals_congr p q r t = rw (p, q, r, t) refl

all_rest :
    (gap : ℕ) (file : List Bytes) (line : Bytes) (d : ResultDumper) (index own peer unique : ℕ)
    → index + length file < 2 ^ 32
    → own < 2 ^ 32
    → peer < 2 ^ 32
    → ended (mk file line d index own peer unique) ≡ (
      put [] (take gap file ++ drop gap file) d,
      index + length file,
      (own + 0) % 2 ^ 32,
      (peer + 0) % 2 ^ 32,
      unique,
    )
all_rest gap file line d index own peer unique small own_small peer_small =
    rest_to_except-eq file file line d index own peer unique small
    ∙ totals_congr (ap (λ e. put [] e d) (sym (take-append-drop gap file))) refl (omega arith)
        (omega arith)

-- The keys of the intersection and the rest of the rows, from a row `gap` rows before the next key.
pub apply_infos-eq :
    (infos is : List (ℕ × ℕ)) (k gap : ℕ) (file : List Bytes) (line : Bytes) (d : ResultDumper)
    (index own peer unique : ℕ)
    → StartsFrom (index + gap) infos
    → gap + rows_of infos ≤ length file
    → index + length file < 2 ^ 32
    → own < 2 ^ 32
    → peer < 2 ^ 32
    → ended (apply_infos (matches k infos is) (mk file line d index own peer unique)) ≡ (
      put
          (intersected k infos is (drop gap file))
          (take gap file ++ excepted k infos is (drop gap file))
          d,
      index + length file,
      (own + own_rows (matches k infos is)) % 2 ^ 32,
      (peer + peer_rows (matches k infos is)) % 2 ^ 32,
      unique,
    )
unfolding apply_infos matches intersected excepted own_rows peer_rows rows_of
apply_infos-eq [] is k gap file line d index own peer unique starts fits small own_small
      peer_small =
    all_rest gap file line d index own peer unique small own_small peer_small
apply_infos-eq ((start, dup) ∷ infos) [] k gap file line d index own peer unique starts fits small
      own_small peer_small =
    all_rest gap file line d index own peer unique small own_small peer_small
apply_infos-eq ((start, dup) ∷ infos) ((i, c) ∷ is) k gap file line d index own peer unique starts
      fits small own_small peer_small =
    elim (Bool-cases (k == i)) [
      | inl here ↦
          let (line', eq) =
            apply_info-mk start dup c gap file line d index own peer unique starts.0
              (omega (arith, fits)) small in
          let rows = repeated c (take (dup + 1) (drop gap file)) in
          let file' = drop (dup + 1) (drop gap file) in
          let d' = put rows (take gap file) d in
          let index' = (index + gap) + (dup + 1) in
          let own' : ℕ = (own + (dup + 1)) % 2 ^ 32 in
          let peer' : ℕ = (peer + (c + 1)) % 2 ^ 32 in
          let size = length-drop gap file in
          let size' = length-drop (dup + 1) (drop gap file) in
          let rest =
            apply_infos-eq infos is (k + 1) 0 file' line' d' index' own' peer' unique
              (subst (λ m. StartsFrom m infos) (omega arith) starts.1)
              (omega (arith, fits, size, size')) (omega (arith, fits, size, size', small))
              (omega arith) (omega arith) in
          rw here (
            ap (λ s. ended (apply_infos (matches (k + 1) infos is) s)) eq
            ∙ rest
            ∙ totals_congr
                (put-put rows (take gap file) (intersected (k + 1) infos is file')
                  (excepted (k + 1) infos is file') d)
                (omega (arith, fits, size, size')) (omega arith) (omega arith))
      | inr other ↦
          let rest =
            apply_infos-eq infos ((i, c) ∷ is) (k + 1) (gap + (dup + 1)) file line d index own peer
              unique (subst (λ m. StartsFrom m infos) (omega arith) starts.1) (omega (arith, fits))
              small own_small peer_small in
          let next = drop-drop gap (dup + 1) file in
          rw other (
            rest
            ∙ totals_congr
                (ap₂ (λ i e. put i e d) (ap (intersected (k + 1) infos ((i, c) ∷ is)) (sym next))
                  (ap₂ (λ t r. t ++ excepted (k + 1) infos ((i, c) ∷ is) r)
                      (take-add gap (dup + 1) file) (sym next)
                    ∙ append_assoc (take gap file) (take (dup + 1) (drop gap file))
                        (excepted (k + 1) infos ((i, c) ∷ is) (drop (dup + 1) (drop gap file)))))
                refl refl refl)
    ]

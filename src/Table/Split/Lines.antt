-- ===== src/Table/Split/Lines.antt =====
-- Lines and their dumping (`ResultDumper`, psi/utils/table_utils.cc) in the loops of `ApplyPeerDupCnt`.
use mathlib.Core.List.{append_assoc, append-nil}
use psi.Prelude.{
  ℕ, zero, suc, ◌+◌, ◌%◌, ◌^◌, ◌<◌, ◌≤◌, ◌≡◌, refl, Option, none, some, List, [], ◌∷◌, ◌++◌, length,
  length-append, replicate, length-replicate, take, drop, ◌==◌, if◌then◌else◌, arith, ap, ap₂, sym,
  ◌∙◌,
}
use psi.Prelude.Bytes.{Bytes}
use psi.Table.Split.{ResultDumper, dumped, to_intersect, to_except, Splitting, skip_rows, take_rows}

-- Each line `c + 1` times.
unfoldable pub repeated : ℕ → List Bytes → List Bytes
repeated c [] = []
repeated c (l ∷ ls) = replicate (c + 1) l ++ repeated c ls

-- Of the lines of the keys from the key `k` on, those of the keys whose index is given, each as often
-- as the peer has the key.
unfoldable pub intersected : ℕ → List (ℕ × ℕ) → List (ℕ × ℕ) → List Bytes → List Bytes
intersected k [] is lines = []
intersected k ((start, dup) ∷ infos) [] lines = []
intersected k ((start, dup) ∷ infos) ((i, c) ∷ is) lines =
    if k == i
    then repeated c (take (dup + 1) lines) ++ intersected (k + 1) infos is (drop (dup + 1) lines)
    else intersected (k + 1) infos ((i, c) ∷ is) (drop (dup + 1) lines)

-- The other lines.
unfoldable pub excepted : ℕ → List (ℕ × ℕ) → List (ℕ × ℕ) → List Bytes → List Bytes
excepted k [] is lines = lines
excepted k ((start, dup) ∷ infos) [] lines = lines
excepted k ((start, dup) ∷ infos) ((i, c) ∷ is) lines =
    if k == i
    then excepted (k + 1) infos is (drop (dup + 1) lines)
    else take (dup + 1) lines ++ excepted (k + 1) infos ((i, c) ∷ is) (drop (dup + 1) lines)

abbrev pub extended : List Bytes → Option (List Bytes) → Option (List Bytes)
extended ls none = none
extended ls (some file) = some (file ++ ls)

extended-extended :
    (a b : List Bytes) (f : Option (List Bytes)) → extended b (extended a f) ≡ extended (a ++ b) f
extended-extended a b none = refl
extended-extended a b (some file) = ap some (append_assoc file a b)

extended-nil : (f : Option (List Bytes)) → extended [] f ≡ f
extended-nil none = refl
extended-nil (some file) = ap some (append-nil file)

-- A dumper after these lines have gone to its two files.
abbrev pub put : List Bytes → List Bytes → ResultDumper → ResultDumper
put inter except d = record {
  intersect_file = extended inter d.intersect_file;
  except_file = extended except d.except_file;
  intersect_cnt = d.intersect_cnt + length inter;
  except_cnt = d.except_cnt + length except;
}

dumper_congr :
    {i i' e e' : Option (List Bytes)} {a a' b b' : ℕ}
    → i ≡ i'
    → e ≡ e'
    → a ≡ a'
    → b ≡ b'
    → (let d : ResultDumper = record {
      intersect_file = i;
      except_file = e;
      intersect_cnt = a;
      except_cnt = b;
    } in
        d)
      ≡ record { intersect_file = i'; except_file = e'; intersect_cnt = a'; except_cnt = b' }
dumper_congr p q r t = rw (p, q, r, t) refl

pub put-put :
    (i e i' e' : List Bytes) (d : ResultDumper) → put i' e' (put i e d) ≡ put (i ++ i') (e ++ e') d
put-put i e i' e' d =
    dumper_congr (extended-extended i i' d.intersect_file) (extended-extended e e' d.except_file)
      (omega (arith, length-append i i')) (omega (arith, length-append e e'))

pub put-nil : (d : ResultDumper) → put [] [] d ≡ d
put-nil d =
    dumper_congr (extended-nil d.intersect_file) (extended-nil d.except_file) (omega arith)
      (omega arith)

dumped-extended :
    (l : Bytes) (c : ℕ) (f : Option (List Bytes)) → dumped l c f ≡ extended (replicate (c + 1) l) f
dumped-extended l c none = refl
dumped-extended l c (some file) = refl

pub to_except-put : (l : Bytes) (d : ResultDumper) → to_except l 0 d ≡ put [] (l ∷ []) d
unfolding to_except
to_except-put l d =
    dumper_congr (sym (extended-nil d.intersect_file)) (dumped-extended l 0 d.except_file)
      (omega arith) refl

pub to_intersect-put :
    (l : Bytes) (c : ℕ) (d : ResultDumper) → to_intersect l c d ≡ put (replicate (c + 1) l) [] d
unfolding to_intersect
to_intersect-put l c d =
    dumper_congr (dumped-extended l c d.intersect_file) (sym (extended-nil d.except_file))
      (omega (arith, length-replicate (c + 1) l)) (omega arith)

-- The variables of the loops.
abbrev pub mk : List Bytes → Bytes → ResultDumper → ℕ → ℕ → ℕ → ℕ → Splitting
mk file line d index own peer unique = record {
  sorted_file = file;
  line = line;
  dumper = d;
  sorted_file_index = index;
  self_intersection_count = own;
  peer_intersection_count = peer;
  inter_unique_cnt = unique;
}

abbrev pub last_read : ℕ → List Bytes → Bytes → Bytes
last_read zero file line = line
last_read (suc n) [] line = []
last_read (suc n) (l ∷ ls) line = last_read n ls l

module _ (own peer unique : ℕ) where
  pub skip_rows-eq :
      (n : ℕ) (file : List Bytes) (line : Bytes) (d : ResultDumper) (index : ℕ)
      → n ≤ length file
      → index + n < 2 ^ 32
      → skip_rows n (mk file line d index own peer unique)
        ≡ mk
            (drop n file)
            (last_read n file line)
            (put [] (take n file) d)
            (index + n)
            own
            peer
            unique
  unfolding skip_rows
  skip_rows-eq zero file line d index h fits =
      ap₂ (λ x j. mk file line x j own peer unique) (sym (put-nil d)) (omega arith)
  skip_rows-eq (suc n) [] line d index h fits = absurd (omega arith)
  skip_rows-eq (suc n) (l ∷ ls) line d index h fits =
      let step : (index + 1) % 2 ^ 32 ≡ index + 1 = omega (arith, fits) in
      ap (λ j. skip_rows n (mk ls l (to_except l 0 d) j own peer unique)) step
      ∙ skip_rows-eq n ls l (to_except l 0 d) (index + 1) (omega arith) (omega (arith, fits))
      ∙ ap₂ (λ x j. mk (drop n ls) (last_read n ls l) x j own peer unique)
          (ap (put [] (take n ls)) (to_except-put l d) ∙ put-put [] (l ∷ []) [] (take n ls) d)
          (omega arith)

  pub take_rows-eq :
      (n c : ℕ) (file : List Bytes) (line : Bytes) (d : ResultDumper) (index : ℕ)
      → n ≤ length file
      → take_rows n c (mk file line d index own peer unique)
        ≡ mk
            (drop n file)
            (last_read n file line)
            (put (repeated c (take n file)) [] d)
            index
            own
            peer
            unique
  unfolding take_rows repeated
  take_rows-eq zero c file line d index h =
      ap (λ x. mk file line x index own peer unique) (sym (put-nil d))
  take_rows-eq (suc n) c [] line d index h = absurd (omega arith)
  take_rows-eq (suc n) c (l ∷ ls) line d index h =
      take_rows-eq n c ls l (to_intersect l c d) index (omega arith)
      ∙ ap (λ x. mk (drop n ls) (last_read n ls l) x index own peer unique)
          (ap (put (repeated c (take n ls)) []) (to_intersect-put l c d)
            ∙ put-put (replicate (c + 1) l) [] (repeated c (take n ls)) [] d)

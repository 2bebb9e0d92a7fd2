-- ===== src/UbPsi/Matching.antt =====
-- `ComputeIndicesWithDupCnt` of psi/utils/ec_point_store.cc.
use mathlib.Core.List.{Permᴰ, append_assoc, append-nil}
use mathlib.Core.List.Permᴰ
use psi.Prelude.{
  ℕ, zero, suc, ◌+◌, ◌%◌, ◌^◌, ◌≡◌, ◌<◌, ◌≤◌, refl, sym, ◌∙◌, ap, subst, true, false, Option, none,
  some, List, [], ◌∷◌, ◌++◌, map, length, length-append, replicate, length-replicate, Returns, ltb,
  arith, Bool-cases, inl, inr,
}
use psi.Prelude.Bytes.{Bytes, is_nil, concat}
use psi.Prelude.Count.{}
use psi.Ecdh.{DupCnt, dup_at}
use psi.Indices.{compare_size}
use psi.Indices.Pieces.{all_pieces}
use psi.UbPsi.{uint32}
use psi.UbPsi.Cache.{non_zero}
use psi.UbPsi.Store.{
  MemoryStore, CacheIndex, FileStore, Match, push_match, narrow, find, texts, file_dups,
  compare_items, compare_batch, compare_batches, compute_indices_with_dup_cnt,
}
use psi.UbPsi.Threads.{push_match-append, scan, scan-nil, scan-append, compare_batch-perm}
use psi.UbPsi.Transfer.{dup_at-non_zero}
use psi.UbPsi.Chunks.{chunk_batch, FullChunks, is_nil-texts, length-texts, read_file-Returns}

-- The matches of the server's items, in the order of the file, from position `j` on.
unfoldable pub matches : MemoryStore → ℕ → List (Bytes × ℕ) → List Match
matches self j [] = []
matches self j ((item, dup_cnt) ∷ items) =
    push_match (find self item) j dup_cnt (matches self (j + 1) items)

cnt_of : Bytes × ℕ → ℕ
cnt_of (item, dup_cnt) = dup_cnt

file_dups-non_zero :
    (i : ℕ) (items : List (Bytes × ℕ)) → file_dups i items ≡ non_zero i (map cnt_of items)
unfolding file_dups non_zero cnt_of
file_dups-non_zero i [] = refl
file_dups-non_zero i ((item, c) ∷ items) = ground (arith, file_dups-non_zero (i + 1) items)

-- The items of a batch, with the counts that are found by position.
compare_items-matches :
    (self : MemoryStore) (processed_cnt : ℕ) (before items : List (Bytes × ℕ))
    → compare_items self (file_dups 0 (before ++ items)) processed_cnt (length before) (texts items)
      ≡ matches self (processed_cnt + length before) items
unfolding compare_items matches cnt_of
compare_items-matches self processed_cnt before [] = refl
compare_items-matches self processed_cnt before ((item, c) ∷ items) =
    let all : List (Bytes × ℕ) = before ++ (item, c) ∷ items in
    let start : length before ≡ 0 + length before = omega arith in
    let dup : dup_at (file_dups 0 all) (length before) ≡ c =
      ap (λ d. dup_at d (length before)) (file_dups-non_zero 0 all)
      ∙ ap (dup_at (non_zero 0 (map cnt_of all))) start
      ∙ dup_at-non_zero cnt_of 0 before (item, c) items in
    let next : length (before ++ (item, c) ∷ []) ≡ length before + 1 =
      length-append before ((item, c) ∷ []) in
    let there : processed_cnt + (length before + 1) ≡ processed_cnt + length before + 1 =
      omega arith in
    let rest : compare_items self (file_dups 0 all) processed_cnt (length before + 1) (texts items)
        ≡ matches self (processed_cnt + length before + 1) items =
      ap (λ l. compare_items self (file_dups 0 l) processed_cnt (length before + 1) (texts items))
        (sym (append_assoc before ((item, c) ∷ []) items))
      ∙ ap
          (λ k.
            compare_items self (file_dups 0 (before ++ (item, c) ∷ [] ++ items)) processed_cnt k
              (texts items))
          (sym next)
      ∙ compare_items-matches self processed_cnt (before ++ (item, c) ∷ []) items
      ∙ ap (λ k. matches self (processed_cnt + k) items) next
      ∙ ap (λ k. matches self k items) there in
    rw dup (ap (push_match (find self item) (processed_cnt + length before) c) rest)

matches-append :
    (self : MemoryStore) (j : ℕ) (xs ys : List (Bytes × ℕ))
    → matches self j (xs ++ ys) ≡ matches self j xs ++ matches self (j + length xs) ys
unfolding matches
matches-append self j [] ys = let e : j ≡ j + 0 = omega arith in ap (λ k. matches self k ys) e
matches-append self j ((item, c) ∷ xs) ys =
    let e : j + 1 + length xs ≡ j + suc (length xs) = omega arith in
    ap (push_match (find self item) j c)
      (matches-append self (j + 1) xs ys ∙ ap (λ k. matches self (j + 1) xs ++ matches self k ys) e)
    ∙ push_match-append (find self item) j c (matches self (j + 1) xs)
        (matches self (j + suc (length xs)) ys)

length-compare_batch :
    (self : MemoryStore) (dup : DupCnt) (processed_cnt size : ℕ) (items : List Bytes) (idx : ℕ)
    (threads : List (List Match))
    → length (compare_batch self dup processed_cnt size items idx threads) ≡ length threads
unfolding compare_batch
length-compare_batch self dup processed_cnt size items idx [] = refl
length-compare_batch self dup processed_cnt size items idx (found ∷ threads) =
    ap suc (length-compare_batch self dup processed_cnt size items (idx + 1) threads)

nil_of_is_nil : {A : Type 0} (xs : List A) → is_nil xs ≡ true → xs ≡ []
nil_of_is_nil [] e = refl
nil_of_is_nil (x ∷ xs) e = cc

module _ (self : MemoryStore) where
  one_batch :
      (processed_cnt : ℕ) (chunk : List (Bytes × ℕ)) (threads : List (List Match))
      → 0 < length threads
      → Permᴰ
          (concat (
            compare_batch self
              (file_dups 0 chunk)
              processed_cnt
              (compare_size (length threads) (texts chunk))
              (texts chunk)
              0
              threads))
          (concat threads ++ matches self processed_cnt chunk)
  unfolding scan
  one_batch processed_cnt chunk threads pos =
      let dup : DupCnt = file_dups 0 chunk in
      let start : processed_cnt + 0 ≡ processed_cnt = omega arith in
      let whole =
        all_pieces (scan self dup processed_cnt) (scan-nil self dup processed_cnt)
          (scan-append self dup processed_cnt) (length threads) (texts chunk) pos
        ∙ compare_items-matches self processed_cnt [] chunk
        ∙ ap (λ k. matches self k chunk) start in
      subst
        (λ l.
          Permᴰ
            (concat (
              compare_batch self dup processed_cnt (compare_size (length threads) (texts chunk))
                (texts chunk) 0 threads))
            (concat threads ++ l))
        whole
        (compare_batch-perm self dup processed_cnt (compare_size (length threads) (texts chunk))
          (texts chunk) 0 threads)

  compare_batches-perm :
      (processed_cnt : ℕ) (chunks : List (List (Bytes × ℕ))) (threads : List (List Match))
      → 0 < length threads
      → FullChunks chunks
      → Permᴰ
          (concat (compare_batches self processed_cnt (map chunk_batch chunks) threads))
          (concat threads ++ matches self processed_cnt (concat chunks))
  unfolding compare_batches matches
  compare_batches-perm processed_cnt [] threads pos full =
      subst (λ l. Permᴰ (concat threads) l) (sym (append-nil (concat threads)))
        (Permᴰ.refl (concat threads))
  compare_batches-perm processed_cnt (chunk ∷ chunks) threads pos full =
      let found : List (List Match) =
        compare_batch self (file_dups 0 chunk) processed_cnt
          (compare_size (length threads) (texts chunk)) (texts chunk) 0 threads in
      let same : length found ≡ length threads =
        length-compare_batch self (file_dups 0 chunk) processed_cnt
          (compare_size (length threads) (texts chunk)) (texts chunk) 0 threads in
      let more : is_nil (texts chunk) ≡ false = is_nil-texts chunk ∙ full.0 in
      let after : ℕ = processed_cnt + length (texts chunk) in
      let later : List Match = matches self after (concat chunks) in
      let rest = compare_batches-perm after chunks found (omega (arith, same, pos)) full.1 in
      let first = Permᴰ.append_right later (one_batch processed_cnt chunk threads pos) in
      let whole : concat threads ++ matches self processed_cnt chunk ++ later
          ≡ concat threads ++ matches self processed_cnt (chunk ++ concat chunks) =
        append_assoc (concat threads) (matches self processed_cnt chunk) later
        ∙ ap
            (λ k.
              concat threads
              ++ (matches self processed_cnt chunk
                  ++ matches self (processed_cnt + k) (concat chunks)))
            (length-texts chunk)
        ∙ ap (λ l. concat threads ++ l)
            (sym (matches-append self processed_cnt chunk (concat chunks))) in
      rw more (
        subst (λ l. Permᴰ (concat (compare_batches self after (map chunk_batch chunks) found)) l)
          whole (Permᴰ.trans rest first))

  concat-replicate : (n : ℕ) → concat (replicate {A = List Match} n []) ≡ []
  concat-replicate zero = refl
  concat-replicate (suc n) = concat-replicate n

  narrow-push_match :
      (o : Option CacheIndex) (j c : ℕ) (found : List Match)
      → j < 2 ^ 32
      → map narrow found ≡ found
      → map narrow (push_match o j c found) ≡ push_match o j c found
  unfolding narrow uint32
  narrow-push_match none j c found h e = e
  narrow-push_match (some entry) j c found h e =
      let fits : j % 2 ^ 32 ≡ j = omega (arith, h) in rw (fits, e) refl

  narrow-matches :
      (j : ℕ) (items : List (Bytes × ℕ))
      → j + length items ≤ 2 ^ 32
      → map narrow (matches self j items) ≡ matches self j items
  unfolding matches
  narrow-matches j [] h = refl
  narrow-matches j ((item, c) ∷ items) h =
      narrow-push_match (find self item) j c (matches self (j + 1) items) (omega (arith, h))
        (narrow-matches (j + 1) items (omega (arith, h)))

  -- For any number of threads, any batch size but 0 and at most 2^32 items, the look-up of the file's
  -- items in the client's store returns the matches of all items of the file, in some order.
  pub compute_indices_with_dup_cnt-perm :
      (compare_thread_num : ℕ) (peer : FileStore) (batch_size : ℕ)
      → 0 < compare_thread_num
      → 0 < batch_size
      → length peer.items ≤ 2 ^ 32
      → Returns
          (compute_indices_with_dup_cnt compare_thread_num self peer batch_size)
          (λ found. Permᴰ found (matches self 0 peer.items))
  unfolding compute_indices_with_dup_cnt matches compare_batches
  compute_indices_with_dup_cnt-perm threads peer batch_size some_threads pos few =
      let items : List (Bytes × ℕ) = peer.items in
      let (chunks, reads, whole, full) =
        read_file-Returns (suc (length items)) batch_size items (omega arith) pos in
      let counted : ltb 0 threads ≡ true = ground (arith, some_threads) in
      let start : List (List Match) = replicate threads [] in
      let found : List Match = concat (compare_batches self 0 (map chunk_batch chunks) start) in
      let size : length start ≡ threads = length-replicate threads [] in
      let wide : Permᴰ found (matches self 0 items) =
        subst (Permᴰ found)
          (ap (λ l. l ++ matches self 0 (concat chunks)) (concat-replicate threads)
            ∙ ap (matches self 0) whole)
          (compare_batches-perm 0 chunks start (omega (arith, size, some_threads)) full) in
      let perm : Permᴰ (map narrow found) (matches self 0 items) =
        subst (Permᴰ (map narrow found)) (narrow-matches 0 items (omega (arith, few)))
          (Permᴰ.map narrow wide) in
      elim (Bool-cases (is_nil (map chunk_batch chunks))) [
        | inl empty ↦
            let nothing : map narrow found ≡ [] = ap (map narrow) (
              ap (λ p. concat (compare_batches self 0 p start)) (nil_of_is_nil _ empty)
              ∙ concat-replicate threads) in
            ([], rw (reads, empty) refl, subst (λ l. Permᴰ l (matches self 0 items)) nothing perm)
        | inr more ↦ (map narrow found, rw (reads, more, counted) refl, perm)
      ]

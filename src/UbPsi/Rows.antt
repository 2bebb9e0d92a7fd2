-- ===== src/UbPsi/Rows.antt =====
-- The server's end of `Online` in psi/algorithm/ecdh/ub_psi/server.cc: from the indexes that the
-- client sends to the rows of the server's table.
use mathlib.Core.List.{Permᴰ, append_assoc, append-nil}
use mathlib.Core.List.Permᴰ
use psi.Prelude.{
  ℕ, ◌+◌, ◌≡◌, ◌≤◌, refl, sym, ◌∙◌, ap, subst, true, false, Option, none, some, List, [], ◌∷◌, ◌++◌,
  map, length, length-map, length-append, ok, ◌==◌, arith, Option-cases, inl, inr,
}
use psi.Prelude.Bytes.{concat}
use psi.Ecdh.{DupCnt, dup_at}
use psi.UbPsi.Store.{MemoryStore, CacheIndex, Match, push_match, find}
use psi.UbPsi.Offline.{Row, columns, at-map}
use psi.UbPsi.Transfer.{in_file}
use psi.UbPsi.Matching.{matches}
use psi.UbPsi.Lookup.{Grows, Grows-weaken, find_index_below, find_index-perm}
use psi.UbPsi.Online.{index_cnt_map, find_index, push_row, rows_of_batch, rows_of_batches}

module _ (peer_dup_cnt : DupCnt) where
  -- What the server writes for a match.
  abbrev entry : Match → ℕ × ℕ
  entry m = (m.peer_index, dup_at peer_dup_cnt m.self_index)

  index_cnt_map-perm :
      (found : List Match) (acc : DupCnt)
      → Permᴰ
          (index_cnt_map peer_dup_cnt
            (map (λ m. m.peer_index) found)
            (map (λ m. m.self_index) found)
            acc)
          (map entry found ++ acc)
  unfolding index_cnt_map
  index_cnt_map-perm [] acc = Permᴰ.refl acc
  index_cnt_map-perm (m ∷ found) acc = Permᴰ.trans (index_cnt_map-perm found (entry m ∷ acc)) (
      subst (λ l. Permᴰ l (entry m ∷ map entry found ++ acc))
        (append_assoc (map entry found) (entry m ∷ []) acc)
        (Permᴰ.append_right acc (Permᴰ.append_comm (map entry found) (entry m ∷ []))))

  -- A row of the server is among the results where the client has its item.
  abbrev pub share : Option CacheIndex → Row → List (ℕ × ℕ) → List (ℕ × ℕ)
  share none r rows = rows
  share (some found) r rows = (r.row_index, dup_at peer_dup_cnt found.index) ∷ rows

  unfoldable pub shared_rows : MemoryStore → List Row → List (ℕ × ℕ)
  shared_rows store [] = []
  shared_rows store (r ∷ rows) = share (find store r.item) r (shared_rows store rows)

abbrev choose : Option ℕ → Row → List (ℕ × ℕ) → List (ℕ × ℕ)
choose none r rows = rows
choose (some c) r rows = (r.row_index, c) ∷ rows

choose-append :
    (o : Option ℕ) (r : Row) (xs ys : List (ℕ × ℕ)) → choose o r (xs ++ ys) ≡ choose o r xs ++ ys
choose-append none r xs ys = refl
choose-append (some c) r xs ys = refl

-- The rows whose positions are looked up.
selected : (ℕ → Option ℕ) → List Row → List (ℕ × ℕ)
selected look [] = []
selected look (r ∷ rows) = choose (look r.position) r (selected look rows)

selected-append :
    (look : ℕ → Option ℕ) (xs ys : List Row)
    → selected look (xs ++ ys) ≡ selected look xs ++ selected look ys
unfolding selected
selected-append look [] ys = refl
selected-append look (r ∷ xs) ys =
    ap (choose (look r.position) r) (selected-append look xs ys)
    ∙ choose-append (look r.position) r (selected look xs) (selected look ys)

push_row-choose :
    (o : Option ℕ) (before : List Row) (r : Row) (after : List Row) (rows : List (ℕ × ℕ))
    → push_row o (map (λ r. r.row_index) (before ++ r ∷ after)) (length before) rows
      ≡ ok (choose o r rows)
unfolding push_row
push_row-choose none before r after rows = refl
push_row-choose (some c) before r after rows = rw (at-map (λ r. r.row_index) before r after) refl

rows_of_batch-selected :
    (cnt_map : DupCnt) (before rows : List Row)
    → rows_of_batch cnt_map (length rows) (length before) (columns (before ++ rows))
      ≡ ok (selected (find_index cnt_map) rows)
unfolding rows_of_batch selected
rows_of_batch-selected cnt_map before [] = refl
rows_of_batch-selected cnt_map before (r ∷ rows) =
    let next : length (before ++ r ∷ []) ≡ length before + 1 = length-append before (r ∷ []) in
    let rest : rows_of_batch cnt_map (length rows) (length before + 1)
          (columns (before ++ r ∷ rows))
        ≡ ok (selected (find_index cnt_map) rows) =
      ap (λ l. rows_of_batch cnt_map (length rows) (length before + 1) (columns l))
        (sym (append_assoc before (r ∷ []) rows))
      ∙ ap (λ i. rows_of_batch cnt_map (length rows) i (columns (before ++ r ∷ [] ++ rows)))
          (sym next)
      ∙ rows_of_batch-selected cnt_map (before ++ r ∷ []) rows in
    rw (at-map (λ r. r.position) before r rows, rest)
      (push_row-choose (find_index cnt_map r.position) before r rows
        (selected (find_index cnt_map) rows))

rows_of_batches-selected :
    (cnt_map : DupCnt) (chunks : List (List Row))
    → rows_of_batches cnt_map (map columns chunks)
      ≡ ok (selected (find_index cnt_map) (concat chunks))
unfolding rows_of_batches selected
rows_of_batches-selected cnt_map [] = refl
rows_of_batches-selected cnt_map (rows ∷ chunks) =
    rw
      (
        length-map rows (λ r. r.position),
        rows_of_batch-selected cnt_map [] rows,
        rows_of_batches-selected cnt_map chunks,
      )
      (ap (λ (l : List (ℕ × ℕ)). ok l)
        (sym (selected-append (find_index cnt_map) rows (concat chunks))))

-- The rows are in the order that they were sent in, from position `j` on.
abbrev pub InOrder : ℕ → List Row → Type 0
InOrder j [] = Unit
InOrder j (r ∷ rows) = (r.position ≡ j) × InOrder (j + 1) rows

module _ (peer_dup_cnt : DupCnt) (store : MemoryStore) where
  abbrev entries : ℕ → List Row → DupCnt
  entries j rows = map (entry peer_dup_cnt) (matches store j (map in_file rows))

  entries-Grows : (j : ℕ) (rows : List Row) → Grows j (entries j rows)
  unfolding matches
  entries-Grows j [] = tt
  entries-Grows j (r ∷ rows) =
      let later = entries-Grows (j + 1) rows in
      elim (Option-cases (find store r.item)) [
        | inl absent ↦ rw absent (Grows-weaken (j + 1) j (entries (j + 1) rows) later (omega arith))
        | inr (found, there) ↦ rw there (omega arith, later)
      ]

  selected-shared_rows :
      (look : ℕ → Option ℕ) (j : ℕ) (rows : List Row)
      → InOrder j rows
      → ((k : ℕ) → j ≤ k → look k ≡ find_index (entries j rows) k)
      → selected look rows ≡ shared_rows peer_dup_cnt store rows
  unfolding selected shared_rows matches find_index
  selected-shared_rows look j [] order agree = refl
  selected-shared_rows look j (r ∷ rows) order agree =
      let grows = entries-Grows (j + 1) rows in
      elim (Option-cases (find store r.item)) [
        | inl absent ↦
            let agree' : (k : ℕ) → j ≤ k → look k ≡ find_index (entries (j + 1) rows) k = λ k le.
              agree k le
              ∙ ap
                  (λ o.
                    find_index
                      (map (entry peer_dup_cnt)
                        (push_match o j r.dup_cnt (matches store (j + 1) (map in_file rows))))
                      k)
                  absent in
            let here : look r.position ≡ none =
              ap look order.0
              ∙ agree' j (omega arith)
              ∙ find_index_below (j + 1) j (entries (j + 1) rows) grows (omega arith) in
            rw (absent, here)
              (selected-shared_rows look (j + 1) rows order.1
                (λ k le. agree' k (omega (arith, le))))
        | inr (found, there) ↦
            let c = dup_at peer_dup_cnt found.index in
            let agree' : (k : ℕ) → j ≤ k → look k ≡ find_index ((j, c) ∷ entries (j + 1) rows) k =
              λ k le.
                agree k le
                ∙ ap
                    (λ o.
                      find_index
                        (map (entry peer_dup_cnt)
                          (push_match o j r.dup_cnt (matches store (j + 1) (map in_file rows))))
                        k)
                    there in
            let same : j == j ≡ true = ground arith in
            let here : look r.position ≡ some c =
              ap look order.0 ∙ agree' j (omega arith) ∙ (rw same refl) in
            rw (there, here)
              (ap (λ l. (r.row_index, c) ∷ l)
                (selected-shared_rows look (j + 1) rows order.1 (λ k le.
                  let other : j == k ≡ false = ground (arith, le) in
                  agree' k (omega (arith, le)) ∙ (rw other refl))))
      ]

  -- The server's rows for what the client sends of any matches of the rows, whatever their order.
  pub rows_of_matches :
      (found : List Match) (chunks : List (List Row)) (rows : List Row)
      → Permᴰ found (matches store 0 (map in_file rows))
      → concat chunks ≡ rows
      → InOrder 0 rows
      → rows_of_batches
          (index_cnt_map peer_dup_cnt
            (map (λ m. m.peer_index) found)
            (map (λ m. m.self_index) found)
            [])
          (map columns chunks)
        ≡ ok (shared_rows peer_dup_cnt store rows)
  rows_of_matches found chunks rows perm whole order =
      let cnt_map : DupCnt =
        index_cnt_map peer_dup_cnt (map (λ m. m.peer_index) found) (map (λ m. m.self_index) found)
          [] in
      let reordered : Permᴰ cnt_map (entries 0 rows) =
        Permᴰ.trans (index_cnt_map-perm peer_dup_cnt found []) (
          subst (λ l. Permᴰ l (entries 0 rows)) (sym (append-nil (map (entry peer_dup_cnt) found)))
            (Permᴰ.map (entry peer_dup_cnt) perm)) in
      rows_of_batches-selected cnt_map chunks
      ∙ ap (λ l. ok (selected (find_index cnt_map) l)) whole
      ∙ ap (λ (l : List (ℕ × ℕ)). ok l)
          (selected-shared_rows (find_index cnt_map) 0 rows order
            (λ k le. find_index-perm k (entries-Grows 0 rows) reordered))

-- ===== src/Indices/Pieces.antt =====
-- The cut of a batch into pieces in `GetIndicesByItems` (psi/utils/ec_point_store.cc).
use psi.Prelude.{
  ℕ, zero, suc, ◌+◌, ◌-◌, ◌*◌, ◌/◌, ◌<◌, ◌≤◌, ◌≡◌, refl, min, false, List, [], ◌∷◌, ◌++◌, length,
  length-take, length-drop, take, drop, take-append-drop, leb, Bool-cases, inl, inr, arith, ap, sym,
  ◌∙◌,
}
use psi.Prelude.Bytes.{Bytes, contains, is_nil, concat}
use psi.Prelude.Count.{All}
use psi.Indices.{
  piece, compare_proc, compare_pieces, compare_size, get_indices, get_indices_by_items,
}

compare_proc-append :
    (set : List Bytes) (p : ℕ) (xs ys : List Bytes)
    → compare_proc set p (xs ++ ys) ≡ compare_proc set p xs ++ compare_proc set (p + length xs) ys
unfolding compare_proc
compare_proc-append set p [] ys =
    let e : p ≡ p + 0 = omega arith in ap (λ k. compare_proc set k ys) e
compare_proc-append set p (x ∷ xs) ys =
    let e : p + 1 + length xs ≡ p + suc (length xs) = omega arith in
    let rest =
      compare_proc-append set (p + 1) xs ys
      ∙ ap (λ k. compare_proc set (p + 1) xs ++ compare_proc set k ys) e in
    elim (Bool-cases (contains set x)) [ inl f ↦ rw f (ap (λ l. p ∷ l) rest) | inr f ↦ rw f rest ]

drop_all : (k : ℕ) (xs : List Bytes) → length xs ≤ k → drop k xs ≡ []
drop_all zero [] h = refl
drop_all zero (x ∷ xs) h = absurd (omega arith)
drop_all (suc k) [] h = refl
drop_all (suc k) (x ∷ xs) h = drop_all k xs (omega (arith, h))

drop-drop : (a b : ℕ) (xs : List Bytes) → drop a (drop b xs) ≡ drop (b + a) xs
drop-drop a zero xs = let e : a ≡ 0 + a = omega arith in ap (λ k. drop k xs) e
drop-drop a (suc b) [] = drop_all a [] (omega arith) ∙ sym (drop_all (suc b + a) [] (omega arith))
drop-drop a (suc b) (x ∷ xs) =
    let e : suc (b + a) ≡ suc b + a = omega arith in drop-drop a b xs ∙ ap (λ k. drop k (x ∷ xs)) e

-- A loop over a batch that goes by the positions of its items.
module _ {Found : Type 0} (scan : ℕ → List Bytes → List Found) (scan-nil : (p : ℕ) → scan p [] ≡ [])
    (scan-append : (p : ℕ) (xs ys : List Bytes)
      → scan p (xs ++ ys) ≡ scan p xs ++ scan (p + length xs) ys)
    (size : ℕ) (batch : List Bytes) where
  -- The threads from `idx` on, `n` of them, one after the other.
  abbrev pub scan_pieces : ℕ → ℕ → List Found
  scan_pieces zero idx = []
  scan_pieces (suc n) idx =
      scan (piece size batch idx).0 (piece size batch idx).1 ++ scan_pieces n (idx + 1)

  -- The first piece of what is left, and the positions after it.
  split_piece :
      (b k : ℕ)
      → k ≡ min (length batch) (b + size) - b
      → scan b (drop b batch)
        ≡ scan b (take k (drop b batch)) ++ scan (b + size) (drop (b + size) batch)
  split_piece b k e =
      let left = drop b batch in
      let first : List Found = scan b (take k left) in
      let whole : scan b left ≡ first ++ scan (b + length (take k left)) (drop k left) =
        ap (scan b) (sym (take-append-drop k left)) ∙ scan-append b (take k left) (drop k left) in
      elim (Bool-cases (leb (b + size) (length batch))) [
        | inl f ↦
            let le : b + size ≤ length batch = ground arith in
            let full : k ≡ size = omega (arith, e, le) in
            let there : b + length (take k left) ≡ b + size =
              omega (arith, length-take k left, length-drop b batch, full, le) in
            whole
            ∙ ap (λ l. first ++ scan (b + length (take k left)) l)
                (drop-drop k b batch ∙ ap (λ m. drop (b + m) batch) full)
            ∙ ap (λ m. first ++ scan m (drop (b + size) batch)) there
        | inr f ↦
            let gt : length batch < b + size = ground arith in
            let none_left : drop k left ≡ [] =
              drop_all k left (omega (arith, e, gt, length-drop b batch)) in
            let none_after : drop (b + size) batch ≡ [] =
              drop_all (b + size) batch (omega (arith, gt)) in
            whole
            ∙ ap (λ l. first ++ scan (b + length (take k left)) l) none_left
            ∙ ap (λ l. first ++ l) (scan-nil (b + length (take k left)) ∙ sym (scan-nil (b + size)))
            ∙ ap (λ l. first ++ scan (b + size) l) (sym none_after)
      ]

  pub scan_pieces_lem :
      (n idx : ℕ)
      → length batch ≤ (n + idx) * size
      → scan_pieces n idx ≡ scan (idx * size) (drop (idx * size) batch)
  unfolding piece
  scan_pieces_lem zero idx h =
      let past : length batch ≤ idx * size = grind arith in
      sym (ap (scan (idx * size)) (drop_all (idx * size) batch past) ∙ scan-nil (idx * size))
  scan_pieces_lem (suc n) idx h =
      let shift : n + (idx + 1) ≡ suc n + idx = omega arith in
      let next : (idx + 1) * size ≡ idx * size + size = grind arith in
      let later = scan_pieces_lem n (idx + 1) (rw shift h) in
      ap
        (λ l.
          scan (idx * size)
            (take (min (length batch) (idx * size + size) - idx * size) (drop (idx * size) batch))
          ++ l)
        (later ∙ ap (λ m. scan m (drop m batch)) next)
      ∙ sym (split_piece (idx * size) _ refl)

pub enough_pieces : (n len : ℕ) → 0 < n → len ≤ n * ((len + n - 1) / n)
enough_pieces n len h = grind arith

module _ {Found : Type 0} (scan : ℕ → List Bytes → List Found) (scan-nil : (p : ℕ) → scan p [] ≡ [])
    (scan-append : (p : ℕ) (xs ys : List Bytes)
      → scan p (xs ++ ys) ≡ scan p xs ++ scan (p + length xs) ys) where
  -- The pieces of all threads are the whole batch.
  pub all_pieces :
      (threads : ℕ) (batch : List Bytes)
      → 0 < threads
      → scan_pieces scan scan-nil scan-append (compare_size threads batch) batch threads 0
        ≡ scan 0 batch
  unfolding compare_size
  all_pieces threads batch h =
      let size : ℕ = (length batch + threads - 1) / threads in
      let plus : threads + 0 ≡ threads = omega arith in
      let none : 0 * size ≡ 0 = grind arith in
      scan_pieces_lem scan scan-nil scan-append size batch threads 0
        (rw plus (enough_pieces threads (length batch) h))
      ∙ ap (λ m. scan m (drop m batch)) none

module _ (set : List Bytes) (i : ℕ) where
  scan_from : ℕ → List Bytes → List ℕ
  scan_from p items = compare_proc set (i + p) items

  scan_from-append :
      (p : ℕ) (xs ys : List Bytes)
      → scan_from p (xs ++ ys) ≡ scan_from p xs ++ scan_from (p + length xs) ys
  unfolding scan_from
  scan_from-append p xs ys =
      let e : i + p + length xs ≡ i + (p + length xs) = omega arith in
      compare_proc-append set (i + p) xs ys
      ∙ ap (λ m. compare_proc set (i + p) xs ++ compare_proc set m ys) e

  scan_from-nil : (p : ℕ) → scan_from p [] ≡ []
  unfolding scan_from compare_proc
  scan_from-nil p = refl

  compare_pieces-scan_pieces :
      (size : ℕ) (batch : List Bytes) (n idx : ℕ)
      → compare_pieces set i size batch n idx
        ≡ scan_pieces scan_from scan_from-nil scan_from-append size batch n idx
  unfolding compare_pieces scan_from
  compare_pieces-scan_pieces size batch zero idx = refl
  compare_pieces-scan_pieces size batch (suc n) idx =
      ap (λ l. compare_proc set (i + (piece size batch idx).0) (piece size batch idx).1 ++ l)
        (compare_pieces-scan_pieces size batch n (idx + 1))

  compare_pieces_lem :
      (threads : ℕ) (batch : List Bytes)
      → 0 < threads
      → compare_pieces set i (compare_size threads batch) batch threads 0 ≡ compare_proc set i batch
  unfolding scan_from
  compare_pieces_lem threads batch h =
      let start : i + 0 ≡ i = omega arith in
      compare_pieces-scan_pieces (compare_size threads batch) batch threads 0
      ∙ all_pieces scan_from scan_from-nil scan_from-append threads batch h
      ∙ ap (λ m. compare_proc set m batch) start

-- Whether a batch is the one that the loop ends at.
abbrev IsFull : List Bytes → Type 0
IsFull batch = is_nil batch ≡ false

get_indices_lem :
    (threads : ℕ) (set : List Bytes) (i : ℕ) (batches : List (List Bytes))
    → 0 < threads
    → All IsFull batches
    → get_indices threads set i batches ≡ compare_proc set i (concat batches)
unfolding get_indices compare_proc
get_indices_lem threads set i [] h full = refl
get_indices_lem threads set i (batch ∷ batches) h full =
    let first = compare_pieces_lem set i threads batch h in
    rw (full.0, first, get_indices_lem threads set (i + length batch) batches h full.1)
      (sym (compare_proc-append set i batch (concat batches)))

-- For any number of threads but 0 and any batches but empty ones, the indices are the positions, in
-- the whole input and in order, of the items that are in the set.
pub get_indices_by_items-concat :
    (compare_thread_num : ℕ) (provider : List (List Bytes)) (items : List Bytes)
    → 0 < compare_thread_num
    → All IsFull provider
    → get_indices_by_items compare_thread_num provider items
      ≡ compare_proc items 0 (concat provider)
unfolding get_indices_by_items
get_indices_by_items-concat threads provider items h full =
    get_indices_lem threads items 0 provider h full

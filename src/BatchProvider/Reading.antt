-- ===== src/BatchProvider/Reading.antt =====
-- `MemoryBatchProvider::ReadNextBatch` (psi/utils/batch_provider_impl.cc), read until an empty batch.
use psi.Prelude.{
  ℕ, zero, suc, ◌+◌, ◌-◌, ◌≤◌, ◌<◌, ◌≡◌, refl, ap, sym, ◌∙◌, min, true, false, inl, inr, List, [],
  ◌∷◌, ◌++◌, length, length-take, length-drop, take, drop, take-append-drop, ok, Returns, arith,
  leb, Bool-cases,
}
use psi.Prelude.Bytes.{is_nil, concat}
use psi.Prelude.Count.{All}
use psi.BatchProvider.{MemoryBatchProvider, slice, read_next_impl, read_next_batch, drain}

module _ {Item : Type 0} where
  drop-drop : (n m : ℕ) (xs : List Item) → drop m (drop n xs) ≡ drop (n + m) xs
  drop-drop zero m xs = let e : m ≡ zero + m = omega arith in ap (λ k. drop k xs) e
  drop-drop (suc n) m [] = nil-drop m ∙ sym (nil-drop (suc n + m))
    where
      nil-drop : (k : ℕ) → drop {A = Item} k [] ≡ []
      nil-drop zero = refl
      nil-drop (suc k) = refl
  drop-drop (suc n) m (x ∷ xs) =
      let e : suc (n + m) ≡ suc n + m = omega arith in
      drop-drop n m xs ∙ ap (λ k. drop k (x ∷ xs)) e

  -- The items not yet read.
  abbrev pub unread : MemoryBatchProvider Item → List Item
  unread p = drop p.cursor_index p.items

  read_next_impl_lem :
      (n : ℕ) (p : MemoryBatchProvider Item)
      → p.cursor_index ≤ length p.items
      → read_next_impl n p
        ≡ ok (
          take (min n (length p.items - p.cursor_index)) (unread p),
          record p { cursor_index = p.cursor_index + min n (length p.items - p.cursor_index) },
        )
  unfolding read_next_impl slice
  read_next_impl_lem n p h =
      let k : ℕ = min n (length p.items - p.cursor_index) in
      let inside : leb p.cursor_index (length p.items) ≡ true = ground arith in
      let fits : leb (p.cursor_index + k) (length p.items) ≡ true = ground arith in
      rw (inside, fits) refl

  nil_of_is_nil : (xs : List Item) → is_nil xs ≡ true → xs ≡ []
  nil_of_is_nil [] e = refl
  nil_of_is_nil (x ∷ xs) e = cc

  pos_of_not_is_nil : (xs : List Item) → is_nil xs ≡ false → 0 < length xs
  pos_of_not_is_nil [] e = cc
  pos_of_not_is_nil (x ∷ xs) e = omega arith

  nil_of_length : (xs : List Item) → length xs ≡ 0 → xs ≡ []
  nil_of_length [] e = refl
  nil_of_length (x ∷ xs) e = absurd (omega arith)

  -- With a batch size that is not 0, a cursor within the items and more reads allowed than there are
  -- unread items, a reader that asks for batches until an empty one ends, and its batches are the
  -- unread items in order, each non-empty and of at most `batch_size` items.
  pub drain-Returns :
      (fuel : ℕ) (p : MemoryBatchProvider Item)
      → 0 < p.batch_size
      → p.cursor_index ≤ length p.items
      → length p.items - p.cursor_index < fuel
      → Returns
          (drain fuel p)
          (λ bs. (concat bs ≡ unread p) × All (λ b. (0 < length b) × (length b ≤ p.batch_size)) bs)
  unfolding drain read_next_batch
  drain-Returns zero p pos h f = absurd (omega arith)
  drain-Returns (suc fuel) p pos h f =
      let k : ℕ = min p.batch_size (length p.items - p.cursor_index) in
      let batch : List Item = take k (unread p) in
      let size : length batch ≡ k =
        omega (arith, length-take k (unread p), length-drop p.cursor_index p.items) in
      let p' : MemoryBatchProvider Item = record p { cursor_index = p.cursor_index + k } in
      let read = read_next_impl_lem p.batch_size p h in
      elim (Bool-cases (is_nil batch)) [
        | inl last ↦
            let none_left : length (unread p) ≡ 0 =
              omega
                (arith, ap length (nil_of_is_nil batch last), length-drop p.cursor_index p.items) in
            ([], rw (read, last) refl, (sym (nil_of_length (unread p) none_left), tt))
        | inr more ↦
            let some : 0 < k = omega (arith, pos_of_not_is_nil batch more) in
            let (bs, e, (all, sizes)) = drain-Returns fuel p' pos (omega arith) (omega arith) in
            (
              batch ∷ bs,
              rw (read, more, e) refl,
              (
                ap (◌++◌ batch) (all ∙ sym (drop-drop p.cursor_index k p.items))
                    ∙ take-append-drop k (unread p),
                ((omega arith, omega arith), sizes),
              ),
            )
      ]

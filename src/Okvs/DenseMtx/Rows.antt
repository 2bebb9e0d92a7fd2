-- ===== src/Okvs/DenseMtx/Rows.antt =====
-- The row operations of `DenseMtx` (psi/algorithm/rr22/okvs/dense_mtx.cc), by what they leave in the
-- heap.
use psi.Prelude.{
  ℕ, zero, suc, ◌+◌, ◌<◌, ◌≡◌, refl, Bool, true, ◌&&◌, ◌||◌, ok, ltb, leb, ◌==◌, if◌then◌else◌,
  arith, ap, ◌∙◌, lt→ltb,
}
use mathlib.Core.Path.{fun_ext}
use mathlib.Core.Logic.{◌≢◌}
use psi.Okvs.Bits.{xor}
use psi.Okvs.DenseMtx.{Heap, DenseMtx, write, get, put, swap_from, swap, xor_into, add_row}

-- A square matrix of the given size.
pub record IsSquare (n : ℕ) (m : DenseMtx) : Type 0 where
  pub rows_are : m.bit_rows ≡ n
  pub cols_are : m.cols ≡ n

pub get-ok :
    (n : ℕ) (m : DenseMtx) (r c : ℕ) (h : Heap)
    → IsSquare n m
    → r < n
    → c < n
    → get m r c h ≡ ok (h.cells m.view r c)
unfolding get
get-ok n m r c h sq hr hc =
    let in_rows : ltb r m.bit_rows ≡ true = lt→ltb r m.bit_rows (omega (arith, sq.rows_are)) in
    let in_cols : ltb c m.cols ≡ true = lt→ltb c m.cols (omega (arith, sq.cols_are)) in
    rw (in_rows, in_cols) refl

pub put-ok :
    (n : ℕ) (m : DenseMtx) (r c : ℕ) (b : Bool) (h : Heap)
    → IsSquare n m
    → r < n
    → c < n
    → put m r c b h ≡ ok (record h { cells = write h.cells m.view r c b })
unfolding put
put-ok n m r c b h sq hr hc =
    let in_rows : ltb r m.bit_rows ≡ true = lt→ltb r m.bit_rows (omega (arith, sq.rows_are)) in
    let in_cols : ltb c m.cols ≡ true = lt→ltb c m.cols (omega (arith, sq.cols_are)) in
    rw (in_rows, in_cols) refl

-- A heap with other cells.
abbrev pub holding : Heap → (ℕ → ℕ → ℕ → Bool) → Heap
holding h cells = record h { cells = cells }

pub holding_congr :
    (h : Heap) (f g : ℕ → ℕ → ℕ → Bool)
    → ((a r c : ℕ) → f a r c ≡ g a r c)
    → holding h f ≡ holding h g
holding_congr h f g e = ap (holding h) (fun_ext λ a. fun_ext λ r. fun_ext λ c. e a r c)

-- The columns from `k` on are swapped.
abbrev pub swapped_from : ℕ → ℕ → ℕ → ℕ → ℕ → (ℕ → ℕ → ℕ → Bool) → ℕ → ℕ → ℕ → Bool
swapped_from n u k i j cells a r c =
    if (a == u) && (leb k c && ltb c n)
    then (if r == i then cells a j c else if r == j then cells a i c else cells a r c)
    else cells a r c

swap_from-eq :
    (n : ℕ) (m : DenseMtx) (remaining k i j : ℕ) (h : Heap)
    → IsSquare n m
    → k + remaining ≡ n
    → i < j
    → j < n
    → swap_from remaining k i j m h ≡ ok (holding h (swapped_from n m.view k i j h.cells))
unfolding swap_from
swap_from-eq n m zero k i j h sq e lt hj =
    ap ok (holding_congr h h.cells (swapped_from n m.view k i j h.cells) (λ a r c. ground arith))
swap_from-eq n m (suc remaining) k i j h sq e lt hj =
    let u = m.view in
    let h₁ : Heap = holding h (write h.cells u j k (h.cells u i k)) in
    let h₂ : Heap = holding h (write h₁.cells u i k (h.cells u j k)) in
    let kn : k < n = omega (arith, e) in
    let hi : i < n = omega arith in
    let rest = swap_from-eq n m remaining (k + 1) i j h₂ sq (omega (arith, e)) lt hj in
    rw
      (
        get-ok n m j k h sq hj kn,
        get-ok n m i k h sq hi kn,
        put-ok n m j k (h.cells u i k) h sq hj kn,
        put-ok n m i k (h.cells u j k) h₁ sq hi kn,
      )
      rest
    ∙ ap ok (
        holding_congr h (swapped_from n u (k + 1) i j h₂.cells) (swapped_from n u k i j h.cells)
          (λ a r c. ground arith))

-- The rows `i` and `j` are swapped.
abbrev pub swapped : ℕ → ℕ → ℕ → ℕ → (ℕ → ℕ → ℕ → Bool) → ℕ → ℕ → ℕ → Bool
swapped n u i j cells = swapped_from n u 0 i j cells

pub swap-eq :
    (n : ℕ) (m : DenseMtx) (i j : ℕ) (h : Heap)
    → IsSquare n m
    → i < j
    → j < n
    → swap i j m h ≡ ok (holding h (swapped n m.view i j h.cells))
unfolding swap
swap-eq n m i j h sq lt hj =
    ap (λ b. swap_from b 0 i j m h) sq.cols_are ∙ swap_from-eq n m n 0 i j h sq (omega arith) lt hj

xor_into-ok :
    (n : ℕ) (m : DenseMtx) (r c : ℕ) (b : Bool) (h : Heap)
    → IsSquare n m
    → r < n
    → c < n
    → xor_into m r c b h ≡ ok (holding h (write h.cells m.view r c (xor (h.cells m.view r c) b)))
unfolding xor_into
xor_into-ok n m r c b h sq hr hc =
    rw (get-ok n m r c h sq hr hc) (put-ok n m r c (xor (h.cells m.view r c) b) h sq hr hc)

-- Row `i` is added to row `j` from column `k` on, in the buffers `u` and `v`.
abbrev pub added_from : ℕ → ℕ → ℕ → ℕ → ℕ → ℕ → (ℕ → ℕ → ℕ → Bool) → ℕ → ℕ → ℕ → Bool
added_from n u v k i j cells a r c =
    if ((a == u) || (a == v)) && ((r == j) && (leb k c && ltb c n))
    then xor (cells a r c) (cells a i c)
    else cells a r c

pub add_row-eq :
    (n : ℕ) (mtx inv : DenseMtx) (remaining k i j : ℕ) (h : Heap)
    → IsSquare n mtx
    → IsSquare n inv
    → mtx.view ≢ inv.view
    → k + remaining ≡ n
    → i < n
    → j < n
    → i ≢ j
    → add_row remaining k i j mtx inv h
      ≡ ok (holding h (added_from n mtx.view inv.view k i j h.cells))
unfolding add_row
add_row-eq n mtx inv zero k i j h sq sq' apart e hi hj ne =
    ap ok (
      holding_congr h h.cells (added_from n mtx.view inv.view k i j h.cells)
        (λ a r c. ground arith))
add_row-eq n mtx inv (suc remaining) k i j h sq sq' apart e hi hj ne =
    let u = mtx.view in
    let v = inv.view in
    let h₁ : Heap = holding h (write h.cells u j k (xor (h.cells u j k) (h.cells u i k))) in
    let h₂ : Heap = holding h (write h₁.cells v j k (xor (h₁.cells v j k) (h₁.cells v i k))) in
    let kn : k < n = omega (arith, e) in
    let rest =
      add_row-eq n mtx inv remaining (k + 1) i j h₂ sq sq' apart (omega (arith, e)) hi hj ne in
    rw
      (
        get-ok n mtx i k h sq hi kn,
        xor_into-ok n mtx j k (h.cells u i k) h sq hj kn,
        get-ok n inv i k h₁ sq' hi kn,
        xor_into-ok n inv j k (h₁.cells v i k) h₁ sq' hj kn,
      )
      rest
    ∙ ap ok (
        holding_congr h (added_from n u v (k + 1) i j h₂.cells) (added_from n u v k i j h.cells)
          (λ a r c. ground arith))

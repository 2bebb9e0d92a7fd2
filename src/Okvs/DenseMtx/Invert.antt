-- ===== src/Okvs/DenseMtx/Invert.antt =====
-- `DenseMtx::Invert` (psi/algorithm/rr22/okvs/dense_mtx.cc).
use mathlib.Core.Logic.{◌≢◌}
use psi.Prelude.{
  ℕ, zero, suc, ◌+◌, ◌-◌, ◌<◌, ◌≤◌, ◌≡◌, refl, Bool, true, false, ◌&&◌, Option, none, some, ok,
  ◌>>=◌, Returns, ltb, leb, ◌==◌, if◌then◌else◌, Bool-cases, ◌⊎◌, inl, inr, arith, ap, sym, ◌∙◌,
  subst, lt→ltb,
}
use psi.Okvs.Bits.{dot, dot_congr, dot_single}
use psi.Okvs.DenseMtx.{
  Heap, DenseMtx, write, make, copy, no_matrix, get, set_diagonal, identity, swap_pivot,
  bring_pivot, clear_column, reduce, invert,
}
use psi.Okvs.DenseMtx.Rows.{IsSquare, get-ok, put-ok, holding, holding_congr, swapped, swap-eq}
use psi.Okvs.DenseMtx.Pivot.{FoundFrom, find_pivot-FoundFrom, cleared_from, clear_column-eq}
use psi.Okvs.DenseMtx.Reduced.{
  Bits, IsKernel, Reduced, Reduced-swap, Reduced-clear, null_vector, null_vector-IsKernel,
}

-- What `reduce` leaves: the identity, or a vector that shows that there is no inverse.
abbrev Outcome : ℕ → Bits → DenseMtx → DenseMtx → Bool × Heap → Type 0
Outcome n origin mtx inv (true, h) = Reduced n n origin (h.cells mtx.view) (h.cells inv.view)
Outcome n origin mtx inv (false, h) =
    (x : ℕ → Bool) × (i : ℕ) × (i < n) × (x i ≡ true) × IsKernel n origin x

module _ (n : ℕ) (origin : Bits) (mtx inv : DenseMtx) (sq : IsSquare n mtx) (sq' : IsSquare n inv)
    (apart : mtx.view ≢ inv.view) where
  -- What `bring_pivot` leaves: a pivot, or a column without one.
  abbrev Brought : ℕ → Bool × Heap → Type 0
  Brought i (found, h) =
      Reduced n i origin (h.cells mtx.view) (h.cells inv.view)
      × (if found
          then h.cells mtx.view i i ≡ true
          else ((r : ℕ) → i ≤ r → r < n → h.cells mtx.view r i ≡ false))

  bring_found :
      (i j : ℕ) (h : Heap)
      → i < j
      → j < n
      → h.cells mtx.view j i ≡ true
      → Reduced n i origin (h.cells mtx.view) (h.cells inv.view)
      → Returns
          (swap_pivot i (some j) mtx inv h >>= λ h'. get mtx i i h' >>= λ bit. ok (bit, h'))
          (Brought i)
  unfolding swap_pivot
  bring_found i j h lt hj bit red =
      let u = mtx.view in
      let v = inv.view in
      let h₁ : Heap = holding h (swapped n u i j h.cells) in
      let h₂ : Heap = holding h (swapped n v i j h₁.cells) in
      let hi : i < n = omega arith in
      let now : h₂.cells u i i ≡ true = ground (arith, bit, apart) in
      (
        (true, h₂),
        rw
            (
              swap-eq n mtx i j h sq lt hj,
              swap-eq n inv i j h₁ sq' lt hj,
              get-ok n mtx i i h₂ sq hi hi,
              now,
            )
            refl,
        (
          Reduced-swap n i j origin (h.cells u) (h.cells v) (h₂.cells u) (h₂.cells v) red lt hj
              (λ r c le. ground (arith, apart)) (λ r c le. ground (arith, apart)),
          now,
        ),
      )

  bring_searched :
      (i : ℕ) (h : Heap)
      → i < n
      → Reduced n i origin (h.cells mtx.view) (h.cells inv.view)
      → h.cells mtx.view i i ≡ false
      → (o : Option ℕ) → FoundFrom n (i + 1) i (h.cells mtx.view) o
      → Returns
          (swap_pivot i o mtx inv h >>= λ h'. get mtx i i h' >>= λ bit. ok (bit, h'))
          (Brought i)
  unfolding swap_pivot
  bring_searched i h hi red clear (some j) (le, lt, bit) =
      bring_found i j h (omega arith) lt bit red
  bring_searched i h hi red clear none all_clear = (
    (false, h),
    rw (get-ok n mtx i i h sq hi hi, clear) refl,
    (
      red,
      λ r le lt. elim (Bool-cases (r == i)) [
        | inl same ↦ ap (λ k. h.cells mtx.view k i) (let e : r ≡ i = ground arith in e) ∙ clear
        | inr other ↦ all_clear r (ground arith) lt
      ],
    ),
  )

  bring_pivot-Brought :
      (i : ℕ) (h : Heap)
      → i < n
      → Reduced n i origin (h.cells mtx.view) (h.cells inv.view)
      → Returns (bring_pivot n i mtx inv h) (Brought i)
  unfolding bring_pivot
  bring_pivot-Brought i h hi red =
      let bit = get-ok n mtx i i h sq hi hi in
      let (o, searched, found) =
        find_pivot-FoundFrom n mtx (n - (i + 1)) (i + 1) i h sq (omega arith) hi in
      elim (Bool-cases (h.cells mtx.view i i)) [
        | inl set_bit ↦ ((true, h), rw (bit, set_bit) refl, (red, set_bit))
        | inr clear ↦
            let (p, e, brought) = bring_searched i h hi red clear o found in
            (p, rw (bit, clear, searched) e, brought)
      ]

  clear_column-Reduced :
      (i : ℕ) (h : Heap)
      → i < n
      → Brought i (true, h)
      → Returns
          (clear_column n 0 n i mtx inv h)
          (λ h'. Reduced n (i + 1) origin (h'.cells mtx.view) (h'.cells inv.view))
  clear_column-Reduced i h hi (red, pivot) =
      let u = mtx.view in
      let v = inv.view in
      let h' : Heap = holding h (cleared_from n u v 0 i h.cells) in
      (
        h',
        clear_column-eq n mtx inv n 0 i h sq sq' apart (omega arith) hi,
        Reduced-clear n i origin (h.cells u) (h.cells v) (h'.cells u) (h'.cells v) red hi pivot
            (λ r c hr hc. ground (arith, apart)) (λ r c hr hc. ground (arith, apart)),
      )

  -- One round of the loop, when the rounds after it are known.
  reduce_round :
      (remaining i : ℕ) (h : Heap)
      → i < n
      → ((h₂ : Heap)
          → Reduced n (i + 1) origin (h₂.cells mtx.view) (h₂.cells inv.view)
          → Returns (reduce remaining (i + 1) n mtx inv h₂) (Outcome n origin mtx inv))
      → (p : Bool × Heap) → bring_pivot n i mtx inv h ≡ ok p
      → Brought i p
      → Returns (reduce (suc remaining) i n mtx inv h) (Outcome n origin mtx inv)
  unfolding reduce
  reduce_round remaining i h hi next (true, h₁) eq brought =
      let (h₂, cleared_eq, red') = clear_column-Reduced i h₁ hi brought in
      let (q, rest, done) = next h₂ red' in (q, rw (eq, cleared_eq) rest, done)
  reduce_round remaining i h hi next (false, h₁) eq (red', none_left) =
      let left = h₁.cells mtx.view in
      let right = h₁.cells inv.view in
      let x = null_vector i left in
      (
        (false, h₁),
        rw eq refl,
        (
          x,
          i,
          hi,
          (let own : null_vector i left i ≡ true = ground arith in own),
          red'.kernel x (null_vector-IsKernel n i origin left right red' hi none_left),
        ),
      )

  reduce-Outcome :
      (remaining i : ℕ) (h : Heap)
      → i + remaining ≡ n
      → Reduced n i origin (h.cells mtx.view) (h.cells inv.view)
      → Returns (reduce remaining i n mtx inv h) (Outcome n origin mtx inv)
  unfolding reduce
  reduce-Outcome zero i h e red =
      let all : i ≡ n = omega (arith, e) in
      (
        (true, h),
        refl,
        subst (λ k. Reduced n k origin (h.cells mtx.view) (h.cells inv.view)) all red,
      )
  reduce-Outcome (suc remaining) i h e red =
      let hi : i < n = omega (arith, e) in
      let (p, eq, brought) = bring_pivot-Brought i h hi red in
      reduce_round remaining i h hi
        (λ h₂ red'. reduce-Outcome remaining (i + 1) h₂ (omega (arith, e)) red') p eq brought

-- The diagonal of `m` from `k` on.
abbrev diagonal_from : ℕ → ℕ → ℕ → (ℕ → ℕ → ℕ → Bool) → ℕ → ℕ → ℕ → Bool
diagonal_from n v k cells a r c =
    if (a == v) && ((r == c) && (leb k r && ltb r n)) then true else cells a r c

set_diagonal-eq :
    (n : ℕ) (m : DenseMtx) (remaining k : ℕ) (h : Heap)
    → IsSquare n m
    → k + remaining ≡ n
    → set_diagonal remaining k m h ≡ ok (holding h (diagonal_from n m.view k h.cells))
unfolding set_diagonal
set_diagonal-eq n m zero k h sq e =
    ap ok (holding_congr h h.cells (diagonal_from n m.view k h.cells) (λ a r c. ground arith))
set_diagonal-eq n m (suc remaining) k h sq e =
    let h₁ : Heap = holding h (write h.cells m.view k k true) in
    let kn : k < n = omega (arith, e) in
    rw (put-ok n m k k true h sq kn kn)
      (set_diagonal-eq n m remaining (k + 1) h₁ sq (omega (arith, e)))
    ∙ ap ok (
        holding_congr h (diagonal_from n m.view (k + 1) h₁.cells) (diagonal_from n m.view k h.cells)
          (λ a r c. ground arith))

abbrev pub IsIdentity : ℕ → Bits → Type 0
IsIdentity n matrix = (r c : ℕ) → r < n → c < n → matrix r c ≡ (r == c)

abbrev pub IsLeftInverse : ℕ → Bits → Bits → Type 0
IsLeftInverse n left matrix =
    (r c : ℕ) → r < n → c < n → dot n (left r) (λ k. matrix k c) ≡ (r == c)

-- The two outcomes of `Invert` on a matrix with the bits `matrix`, whose view is `view`.
abbrev pub Inverted : ℕ → Bits → ℕ → DenseMtx × Heap → Type 0
Inverted n matrix view (result, h) =
    (IsSquare n result × IsLeftInverse n (h.cells result.view) matrix × IsIdentity n (h.cells view))
    ⊎ ((result ≡ no_matrix)
        × ((x : ℕ → Bool) × (i : ℕ) × (i < n) × (x i ≡ true) × IsKernel n matrix x))

-- The two matrices at the start.
Reduced-start :
    (n v : ℕ) (matrix left : Bits) (cells : ℕ → ℕ → ℕ → Bool)
    → ((r c : ℕ) → cells v r c ≡ false)
    → ((r c : ℕ) → left r c ≡ matrix r c)
    → Reduced n 0 matrix left (diagonal_from n v 0 cells v)
Reduced-start n v matrix left cells blank same = record {
  product = λ r c hr hc.
      dot_congr n (diagonal_from n v 0 cells v r) (λ k. k == r) (λ k. matrix k c) (λ k. matrix k c)
        (λ k le. ap (λ b. b && matrix k c) (ground (arith, blank r k)))
      ∙ dot_single n r (λ k. matrix k c)
      ∙ ap (λ b. if b then matrix r c else false) (lt→ltb r n hr)
      ∙ sym (same r c);
  kernel = λ x null r hr.
      dot_congr n (matrix r) (left r) x x (λ k le. ap (λ b. b && x k) (sym (same r k))) ∙ null r hr;
  columns = λ r c hr hc. absurd (omega arith);
}

invert_result :
    (n : ℕ) (matrix : Bits) (mtx inv : DenseMtx) (p : Bool × Heap)
    → IsSquare n inv
    → Outcome n matrix mtx inv p
    → Inverted n matrix mtx.view (if p.0 then inv else no_matrix, p.1)
invert_result n matrix mtx inv (true, h) sq' red = inl (
  sq',
  (λ r c hr hc. red.product r c hr hc ∙ red.columns r c hr hc),
  (λ r c hr hc. red.columns r c hr hc),
)
invert_result n matrix mtx inv (false, h) sq' found = inr (refl, found)

invert_own :
    (m : DenseMtx) (h : Heap)
    → m.cols ≡ m.bit_rows
    → m.view < h.next
    → Returns (invert m h) (Inverted m.bit_rows (h.cells m.view) m.view)
unfolding invert identity copy make
invert_own m h square fresh =
    let n = m.bit_rows in
    let (mtx, h₁) = copy m h in
    let (inv, h₂) = make n n h₁ in
    let sq : IsSquare n mtx = record { rows_are = refl; cols_are = square } in
    let sq' : IsSquare n inv = record { rows_are = refl; cols_are = ground arith } in
    let h₃ : Heap = holding h₂ (diagonal_from n inv.view 0 h₂.cells) in
    let is_square : (m.bit_rows == m.cols) ≡ true = ground (arith, square) in
    let diagonal = set_diagonal-eq n inv n 0 h₂ sq' (omega arith) in
    let start : Reduced n 0 (h.cells m.view) (h₃.cells mtx.view) (h₃.cells inv.view) =
      Reduced-start n inv.view (h.cells m.view) (h₃.cells mtx.view) h₂.cells (λ r c. ground arith)
        (λ r c. ground arith) in
    let (p, e, done) =
      reduce-Outcome n (h.cells m.view) mtx inv sq sq' (λ same. absurd (omega (arith, same))) n 0 h₃
        (omega arith) start in
    (
      (if p.0 then inv else no_matrix, p.1),
      rw (is_square, diagonal, e) refl,
      invert_result n (h.cells m.view) mtx inv p sq' done,
    )

-- For a square matrix whose view stands in the heap, `Invert` returns. Either the result is a square
-- matrix of the same size that is a left inverse of the entries that the matrix had, and the entries
-- that the matrix itself shows afterwards are those of the identity; or the result has no rows, and some
-- vector that is not zero is orthogonal to every row that the matrix had.
pub invert-Inverted :
    (n : ℕ) (m : DenseMtx) (h : Heap)
    → IsSquare n m
    → m.view < h.next
    → Returns (invert m h) (Inverted n (h.cells m.view) m.view)
invert-Inverted n m h sq fresh =
    subst (λ k. Returns (invert m h) (Inverted k (h.cells m.view) m.view)) sq.rows_are
      (invert_own m h (omega (arith, sq.rows_are, sq.cols_are)) fresh)

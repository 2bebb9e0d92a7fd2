-- ===== src/Okvs/Tests.antt =====
-- Concrete runs of the operations on matrices of bits.
use psi.Prelude.{
  ℕ, ◌<◌, ◌≤◌, ◌≡◌, refl, Bool, true, false, ◌&&◌, not, Result, ok, Returns, List, [], ◌∷◌, ◌>>=◌,
  ltb, ◌==◌, if◌then◌else◌, ◌↔◌, arith,
}
use psi.Okvs.Bits.{xor, dot}
use psi.Okvs.DenseMtx.{
  Heap, DenseMtx, invert, no_matrix, identity, set_diagonal, make, copy, reduce, bring_pivot,
  find_pivot, swap_pivot, swap, swap_from, clear_column, add_row, xor_into, get, put,
}
use psi.Okvs.DenseMtx.Invert.{Inverted, invert-Inverted}
use psi.Okvs.DenseMtx.Arithmetic.{mult, add, is_zero, mult-entries, add_aliases, is_zero_iff}

-- Two matrices of two rows: at address 0 the rows 01 and 11, at address 1 the rows 11 and 11.
abbrev two_matrices : Heap
two_matrices = record { next = 2; cells = λ a r c. not ((a == 0) && ((r == 0) && (c == 0))) }

abbrev regular : DenseMtx
regular = record { own = 0; view = 0; bit_rows = 2; cols = 2 }

abbrev singular : DenseMtx
singular = record { own = 1; view = 1; bit_rows = 2; cols = 2 }

invert-Inverted_example :
    Returns (invert regular two_matrices) (Inverted 2 (two_matrices.cells 0) 0)
invert-Inverted_example =
    invert-Inverted 2 regular two_matrices (record { rows_are = refl; cols_are = refl })
      (omega arith)

mult-entries_example : Returns (mult regular singular two_matrices) (λ (ret, h').
    (ret.bit_rows ≡ 2)
    × (ret.cols ≡ 2)
    × ((address r c : ℕ)
        → h'.cells address r c ≡ (
            if address == ret.view
            then (if ltb r 2 && ltb c 2
                then dot 2 (two_matrices.cells 0 r) (λ s. two_matrices.cells 1 s c)
                else false)
            else two_matrices.cells address r c)))
mult-entries_example =
    mult-entries regular singular two_matrices (omega arith) refl (omega arith) (omega arith)

add_aliases_example : Returns (add regular singular two_matrices) (λ (ret, h').
    (ret.view ≡ 0)
    × (h'.cells 0 1 0 ≡ xor (two_matrices.cells 0 1 0) (two_matrices.cells 1 1 0))
    × (h'.cells ret.own 1 0 ≡ two_matrices.cells 0 1 0))
add_aliases_example =
    add_aliases regular singular two_matrices refl refl (omega arith) (omega arith) 1 0
      (omega arith) (omega arith)

is_zero_iff_test :
    Returns
      (is_zero 0 regular two_matrices)
      (λ b. (b ≡ true) ↔ ((k : ℕ) → 0 ≤ k → k < 2 → two_matrices.cells 0 0 k ≡ false))
is_zero_iff_test = is_zero_iff regular 0 two_matrices (omega arith)

abbrev entries : Result (DenseMtx × Heap) → Result (ℕ × List Bool)
entries r = r >>= λ (m, h). ok (
  m.bit_rows,
  h.cells m.view 0 0 ∷ h.cells m.view 0 1 ∷ h.cells m.view 1 0 ∷ h.cells m.view 1 1 ∷ [],
)

-- The inverse has the rows 11 and 10.
invert-regular : entries (invert regular two_matrices) ≡ ok (2, true ∷ true ∷ true ∷ false ∷ [])
unfolding invert identity set_diagonal make copy reduce bring_pivot find_pivot swap_pivot swap
    swap_from clear_column add_row xor_into get put
invert-regular = refl

invert-singular : (invert singular two_matrices >>= λ (m, h). ok m) ≡ ok no_matrix
unfolding invert identity set_diagonal make copy reduce bring_pivot find_pivot swap_pivot swap
    swap_from clear_column add_row xor_into get put
invert-singular = refl

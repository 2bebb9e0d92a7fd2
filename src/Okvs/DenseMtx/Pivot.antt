-- ===== src/Okvs/DenseMtx/Pivot.antt =====
-- The search for a pivot and the clearing of its column in `DenseMtx::Invert`
-- (psi/algorithm/rr22/okvs/dense_mtx.cc), by what they leave in the heap.
use mathlib.Core.Logic.{◌≢◌}
use psi.Prelude.{
  ℕ, zero, suc, ◌+◌, ◌<◌, ◌≤◌, ◌≡◌, refl, Bool, true, false, ◌&&◌, ◌||◌, not, Option, none, some,
  ok, Returns, ltb, leb, ◌==◌, if◌then◌else◌, Bool-cases, inl, inr, arith, ap, ◌∙◌,
}
use psi.Okvs.Bits.{xor}
use psi.Okvs.DenseMtx.{Heap, DenseMtx, find_pivot, clear_column}
use psi.Okvs.DenseMtx.Rows.{IsSquare, get-ok, holding, holding_congr, added_from, add_row-eq}

-- What a search from row `j` on has found in column `i`.
abbrev pub FoundFrom : ℕ → ℕ → ℕ → (ℕ → ℕ → Bool) → Option ℕ → Type 0
FoundFrom n j i cells none = (r : ℕ) → j ≤ r → r < n → cells r i ≡ false
FoundFrom n j i cells (some r) = (j ≤ r) × (r < n) × (cells r i ≡ true)

FoundFrom-step :
    (n j i : ℕ) (cells : ℕ → ℕ → Bool)
    → cells j i ≡ false
    → (o : Option ℕ) → FoundFrom n (j + 1) i cells o
    → FoundFrom n j i cells o
FoundFrom-step n j i cells clear none h = λ r le lt. elim (Bool-cases (r == j)) [
  | inl same ↦ ap (λ k. cells k i) (let e : r ≡ j = ground arith in e) ∙ clear
  | inr other ↦ h r (ground arith) lt
]
FoundFrom-step n j i cells clear (some r) (le, lt, bit) = (omega arith, lt, bit)

pub find_pivot-FoundFrom :
    (n : ℕ) (mtx : DenseMtx) (remaining j i : ℕ) (h : Heap)
    → IsSquare n mtx
    → j + remaining ≡ n
    → i < n
    → Returns (find_pivot remaining j i mtx h) (FoundFrom n j i (h.cells mtx.view))
unfolding find_pivot
find_pivot-FoundFrom n mtx zero j i h sq e hi = (none, refl, λ r le lt. absurd (omega (arith, e)))
find_pivot-FoundFrom n mtx (suc remaining) j i h sq e hi =
    let (o, eq, found) =
      find_pivot-FoundFrom n mtx remaining (j + 1) i h sq (omega (arith, e)) hi in
    let bit = get-ok n mtx j i h sq (omega (arith, e)) hi in
    elim (Bool-cases (h.cells mtx.view j i)) [
      | inl set_bit ↦ (some j, rw (bit, set_bit) refl, (omega arith, omega (arith, e), set_bit))
      | inr clear ↦ (o, rw (bit, clear) eq, FoundFrom-step n j i (h.cells mtx.view) clear o found)
    ]

-- Row `i` is added to each row from `j` on, but itself, whose bit in column `i` is set.
abbrev pub cleared_from : ℕ → ℕ → ℕ → ℕ → ℕ → (ℕ → ℕ → ℕ → Bool) → ℕ → ℕ → ℕ → Bool
cleared_from n u v j i cells a r c =
    if ((a == u) || (a == v))
      && ((leb j r && ltb r n) && (ltb c n && (not (r == i) && cells u r i)))
    then xor (cells a r c) (cells a i c)
    else cells a r c

pub clear_column-eq :
    (n : ℕ) (mtx inv : DenseMtx) (remaining j i : ℕ) (h : Heap)
    → IsSquare n mtx
    → IsSquare n inv
    → mtx.view ≢ inv.view
    → j + remaining ≡ n
    → i < n
    → clear_column remaining j n i mtx inv h
      ≡ ok (holding h (cleared_from n mtx.view inv.view j i h.cells))
unfolding clear_column
clear_column-eq n mtx inv zero j i h sq sq' apart e hi =
    ap ok (
      holding_congr h h.cells (cleared_from n mtx.view inv.view j i h.cells)
        (λ a r c. ground arith))
clear_column-eq n mtx inv (suc remaining) j i h sq sq' apart e hi =
    let u = mtx.view in
    let v = inv.view in
    let jn : j < n = omega (arith, e) in
    let bit = get-ok n mtx j i h sq jn hi in
    elim (Bool-cases (not (j == i) && h.cells u j i)) [
      | inl now ↦
          let h' : Heap = holding h (added_from n u v 0 i j h.cells) in
          let ne : i ≢ j = ground arith in
          let added = add_row-eq n mtx inv n 0 i j h sq sq' apart (omega arith) hi jn ne in
          rw (bit, now, added)
            (clear_column-eq n mtx inv remaining (j + 1) i h' sq sq' apart (omega (arith, e)) hi)
          ∙ ap ok (
              holding_congr h (cleared_from n u v (j + 1) i h'.cells)
                (cleared_from n u v j i h.cells) (λ a r c. ground arith))
      | inr skip ↦
          rw (bit, skip)
            (clear_column-eq n mtx inv remaining (j + 1) i h sq sq' apart (omega (arith, e)) hi)
          ∙ ap ok (
              holding_congr h (cleared_from n u v (j + 1) i h.cells)
                (cleared_from n u v j i h.cells) (λ a r c. ground arith))
    ]

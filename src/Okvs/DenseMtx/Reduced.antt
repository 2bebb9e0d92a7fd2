-- ===== src/Okvs/DenseMtx/Reduced.antt =====
-- The matrices in the middle of `DenseMtx::Invert` (psi/algorithm/rr22/okvs/dense_mtx.cc), as functions
-- from row and column to a bit.
use psi.Prelude.{
  ℕ, ◌+◌, ◌<◌, ◌≤◌, ◌≡◌, refl, Bool, true, false, ◌&&◌, not, ltb, ◌==◌, if◌then◌else◌, Bool-cases,
  inl, inr, arith, ap, ap₂, sym, ◌∙◌,
}
use psi.Okvs.Bits.{xor, xor_self, dot, dot_congr, dot-xor, dot_single, dot-false}

abbrev pub Bits : Type 0
Bits = ℕ → ℕ → Bool

-- The rows of `matrix` are all orthogonal to `x`.
abbrev pub IsKernel : ℕ → Bits → (ℕ → Bool) → Type 0
IsKernel n matrix x = (r : ℕ) → r < n → dot n (matrix r) x ≡ false

-- `left` has been brought from `origin` to the identity in its first `i` columns, by row operations
-- that `right` has gone through too.
pub record Reduced (n i : ℕ) (origin left right : Bits) : Type 0 where
  pub product : (r c : ℕ) → r < n → c < n → dot n (right r) (λ k. origin k c) ≡ left r c
  pub kernel : (x : ℕ → Bool) → IsKernel n left x → IsKernel n origin x
  pub columns : (r c : ℕ) → r < n → c < i → left r c ≡ (r == c)

rows_congr : (n : ℕ) (f f' g : ℕ → Bool) → ((k : ℕ) → k < n → f k ≡ f' k) → dot n f g ≡ dot n f' g
rows_congr n f f' g h = dot_congr n f f' g g (λ k le. ap (λ b. b && g k) (h k le))

abbrev pub other_row : ℕ → ℕ → ℕ → ℕ
other_row i j r = if r == i then j else if r == j then i else r

other_row_lt : (n i j r : ℕ) → i < n → j < n → r < n → other_row i j r < n
other_row_lt n i j r hi hj hr = ground arith

other_row-other_row : (i j r : ℕ) → other_row i j (other_row i j r) ≡ r
other_row-other_row i j r = ground arith

pub Reduced-swap :
    (n i j : ℕ) (origin left right left' right' : Bits)
    → Reduced n i origin left right
    → i < j
    → j < n
    → ((r c : ℕ) → c < n → left' r c ≡ left (other_row i j r) c)
    → ((r c : ℕ) → c < n → right' r c ≡ right (other_row i j r) c)
    → Reduced n i origin left' right'
Reduced-swap n i j origin left right left' right' red lt hj el er =
    let moved = other_row_lt n i j in
    record {
      product = λ r c hr hc.
          rows_congr n (right' r) (right (other_row i j r)) (λ k. origin k c) (λ k le. er r k le)
          ∙ red.product (other_row i j r) c (moved r (omega arith) hj hr) hc
          ∙ sym (el r c hc);
      kernel = λ x null. red.kernel x (λ r hr.
          rows_congr n (left r) (left' (other_row i j r)) x (λ k le.
            sym (el (other_row i j r) k le ∙ ap (λ s. left s k) (other_row-other_row i j r)))
          ∙ null (other_row i j r) (moved r (omega arith) hj hr));
      columns = λ r c hr hc.
          el r c (omega arith)
          ∙ red.columns (other_row i j r) c (moved r (omega arith) hj hr) hc
          ∙ (let other : (other_row i j r == c) ≡ (r == c) = ground arith in other);
    }

abbrev pub cleared : ℕ → Bits → Bits → Bits
cleared i left matrix r c =
    if not (r == i) && left r i then xor (matrix r c) (matrix i c) else matrix r c

-- A row of a cleared matrix times a column.
dot-cleared :
    (n i : ℕ) (left matrix matrix' : Bits) (x : ℕ → Bool) (r : ℕ)
    → ((c : ℕ) → c < n → matrix' r c ≡ cleared i left matrix r c)
    → dot n (matrix' r) x ≡ (
        if not (r == i) && left r i
        then xor (dot n (matrix r) x) (dot n (matrix i) x)
        else dot n (matrix r) x)
dot-cleared n i left matrix matrix' x r e = elim (Bool-cases (not (r == i) && left r i)) [
  | inl added ↦ rw added (
      rows_congr n (matrix' r) (λ k. xor (matrix r k) (matrix i k)) x
        (λ k le. e k le ∙ (rw added refl))
      ∙ dot-xor n (matrix r) (matrix i) x)
  | inr kept ↦ rw kept (rows_congr n (matrix' r) (matrix r) x (λ k le. e k le ∙ (rw kept refl)))
]

cleared_columns :
    (n i : ℕ) (origin left right : Bits)
    → Reduced n i origin left right
    → i < n
    → left i i ≡ true
    → (r c : ℕ) → r < n
    → c < i + 1
    → cleared i left left r c ≡ (r == c)
cleared_columns n i origin left right red hi pivot r c hr hc = elim (Bool-cases (c == i)) [
  | inl same ↦
      let e : c ≡ i = ground arith in
      ap (cleared i left left r) e
      ∙ (let at_pivot : cleared i left left r i ≡ (r == i) = ground (arith, pivot) in at_pivot)
      ∙ ap (λ k. r == k) (sym e)
  | inr before ↦
      let lt : c < i = ground arith in ground (arith, red.columns r c hr lt, red.columns i c hi lt)
]

pub Reduced-clear :
    (n i : ℕ) (origin left right left' right' : Bits)
    → Reduced n i origin left right
    → i < n
    → left i i ≡ true
    → ((r c : ℕ) → r < n → c < n → left' r c ≡ cleared i left left r c)
    → ((r c : ℕ) → r < n → c < n → right' r c ≡ cleared i left right r c)
    → Reduced n (i + 1) origin left' right'
Reduced-clear n i origin left right left' right' red hi pivot el er = record {
  product = λ r c hr hc.
      dot-cleared n i left right right' (λ k. origin k c) r (λ k le. er r k hr le)
      ∙ rw (red.product r c hr hc, red.product i c hi hc, el r c hr hc) refl;
  kernel = λ x null. red.kernel x (λ r hr.
      let mine = dot-cleared n i left left left' x r (λ k le. el r k hr le) in
      let top = dot-cleared n i left left left' x i (λ k le. el i k hi le) in
      ground (arith, null r hr, null i hi, mine, top));
  columns = λ r c hr hc.
      el r c hr (omega arith) ∙ cleared_columns n i origin left right red hi pivot r c hr hc;
}

-- A vector that is orthogonal to every row when column `i` has no pivot.
abbrev pub null_vector : ℕ → Bits → ℕ → Bool
null_vector i left k = if ltb k i then left k i else k == i

module _ (n i : ℕ) (origin left right : Bits) (red : Reduced n i origin left right)
    (hi : i < n) where
  null_term :
      (r : ℕ)
      → ltb r i ≡ true
      → (k : ℕ) → r < n
      → k < n
      → (left r k && null_vector i left k) ≡ (xor (k == r) (k == i) && left r i)
  null_term r above k hr hk = elim (Bool-cases (ltb k i)) [
    | inl before ↦ elim (Bool-cases (k == r)) [
      | inl same ↦
          let e : k ≡ r = ground arith in
          ground
            (arith, ap (λ j. left r j) e, ap (λ j. left j i) e, red.columns r r hr (ground arith))
      | inr other ↦ ground (arith, red.columns r k hr (ground arith))
    ]
    | inr after ↦ elim (Bool-cases (k == i)) [
      | inl same ↦ let e : k ≡ i = ground arith in ground (arith, ap (left r) e)
      | inr other ↦ ground (arith)
    ]
  ]

  null_zero :
      (r : ℕ)
      → ltb r i ≡ false
      → left r i ≡ false
      → (k : ℕ) → r < n
      → k < n
      → (left r k && null_vector i left k) ≡ false
  null_zero r below zero_there k hr hk = elim (Bool-cases (ltb k i)) [
    | inl before ↦ ground (arith, red.columns r k hr (ground arith))
    | inr after ↦ elim (Bool-cases (k == i)) [
      | inl same ↦ let e : k ≡ i = ground arith in ground (arith, ap (left r) e)
      | inr other ↦ ground (arith)
    ]
  ]

pub null_vector-IsKernel :
    (n i : ℕ) (origin left right : Bits)
    → Reduced n i origin left right
    → i < n
    → ((r : ℕ) → i ≤ r → r < n → left r i ≡ false)
    → IsKernel n left (null_vector i left)
null_vector-IsKernel n i origin left right red hi none_left r hr = elim (Bool-cases (ltb r i)) [
  | inl above ↦
      let bit = left r i in
      let at_row : (s : ℕ) → s < n → dot n (λ k. k == s) (λ k. bit) ≡ bit = λ s hs.
        dot_single n s (λ k. bit)
        ∙ ap (λ b. if b then bit else false) (let e : ltb s n ≡ true = ground arith in e) in
      dot_congr n (left r) (λ k. xor (k == r) (k == i)) (null_vector i left) (λ k. bit)
        (λ k le. null_term n i origin left right red hi r above k hr le)
      ∙ dot-xor n (λ k. k == r) (λ k. k == i) (λ k. bit)
      ∙ ap₂ xor (at_row r hr) (at_row i hi)
      ∙ xor_self bit
  | inr below ↦ dot-false n (left r) (null_vector i left) (λ k le.
      null_zero n i origin left right red hi r below (none_left r (ground arith) hr) k hr le)
]

-- ===== src/Okvs/DenseMtx/Arithmetic.antt =====
-- `Mult`, `Add` and `Row::IsZero` of `DenseMtx` (psi/algorithm/rr22/okvs/dense_mtx.cc).
use mathlib.Core.Logic.{◌≢◌}
use psi.Prelude.{
  ℕ, zero, suc, ◌+◌, ◌*◌, ◌/◌, ◌<◌, ◌≤◌, ◌≡◌, refl, Bool, true, false, ◌&&◌, Result, ok, ◌>>=◌,
  ◌>>◌, Returns, enforce, ltb, leb, ◌==◌, if◌then◌else◌, Bool-cases, inl, inr, ◌↔◌, arith, ap, ap₂,
  ◌∙◌, lt→ltb,
}
use psi.Okvs.Bits.{xor, dot, dot_congr}
use psi.Okvs.DenseMtx.Reduced.{Bits}
use psi.Okvs.DenseMtx.{Heap, DenseMtx, write, make, copy, put, get}
use psi.Okvs.DenseMtx.Rows.{holding, holding_congr}

-- The innermost loop of `Mult`, from `k` on.
unfoldable pub product_from : ℕ → ℕ → Bool → ℕ → ℕ → DenseMtx → DenseMtx → Heap → Result Bool
product_from zero k v i j left right h = ok v
product_from (suc n) k v i j left right h = do
  a ← get left i k h
  b ← get right k j h
  product_from n (k + 1) (xor v (a && b)) i j left right h

unfoldable pub mult_row : ℕ → ℕ → ℕ → DenseMtx → DenseMtx → DenseMtx → Heap → Result Heap
mult_row zero j i left right ret h = ok h
mult_row (suc n) j i left right ret h = do
  v ← product_from left.cols 0 false i j left right h
  h' ← put ret i j v h
  mult_row n (j + 1) i left right ret h'

unfoldable pub mult_rows : ℕ → ℕ → DenseMtx → DenseMtx → DenseMtx → Heap → Result Heap
mult_rows zero i left right ret h = ok h
mult_rows (suc n) i left right ret h = do
  h' ← mult_row ret.cols 0 i left right ret h
  mult_rows n (i + 1) left right ret h'

unfoldable pub mult : DenseMtx → DenseMtx → Heap → Result (DenseMtx × Heap)
mult left right h = do
  enforce (left.cols == right.bit_rows)
  let (ret, h₁) = make left.bit_rows right.cols h
  h₂ ← mult_rows ret.bit_rows 0 left right ret h₁
  ok (ret, h₂)

-- `Add` goes over all words of the buffer, the rows that fill the last block up to 128 included.
unfoldable pub add : DenseMtx → DenseMtx → Heap → Result (DenseMtx × Heap)
add left right h = do
  enforce ((left.bit_rows == right.bit_rows) && (left.cols == right.cols))
  let (ret, h₁) = copy left h
  let padded = 128 * ((left.bit_rows + 127) / 128)
  ok (
    ret,
    record h₁ {
      cells = λ a r c.
          if (a == ret.view) && (ltb r padded && ltb c left.cols)
          then xor (h₁.cells ret.view r c) (h₁.cells right.view r c)
          else h₁.cells a r c;
    },
  )

-- The loop of `IsZero` from column `c` on.
unfoldable pub is_zero_from : ℕ → ℕ → ℕ → DenseMtx → Heap → Result Bool
is_zero_from zero c row m h = ok true
is_zero_from (suc n) c row m h = do
  bit ← get m row c h
  let rest = is_zero_from n (c + 1) row m h
  if bit then ok false else rest

unfoldable pub is_zero : ℕ → DenseMtx → Heap → Result Bool
is_zero row m h = is_zero_from m.cols 0 row m h

get_in :
    (m : DenseMtx) (r c : ℕ) (h : Heap)
    → r < m.bit_rows
    → c < m.cols
    → get m r c h ≡ ok (h.cells m.view r c)
unfolding get
get_in m r c h hr hc = rw (lt→ltb r m.bit_rows hr, lt→ltb c m.cols hc) refl

put_in :
    (m : DenseMtx) (r c : ℕ) (b : Bool) (h : Heap)
    → r < m.bit_rows
    → c < m.cols
    → put m r c b h ≡ ok (holding h (write h.cells m.view r c b))
unfolding put
put_in m r c b h hr hc = rw (lt→ltb r m.bit_rows hr, lt→ltb c m.cols hc) refl

-- The product so far is `dot` over the columns before `k`.
product_from-eq :
    (left right : DenseMtx) (remaining k i j : ℕ) (h : Heap)
    → k + remaining ≡ left.cols
    → left.cols ≡ right.bit_rows
    → i < left.bit_rows
    → j < right.cols
    → product_from remaining k
        (dot k (h.cells left.view i) (λ s. h.cells right.view s j))
        i
        j
        left
        right
        h
      ≡ ok (dot left.cols (h.cells left.view i) (λ s. h.cells right.view s j))
unfolding product_from dot
product_from-eq left right zero k i j h e square hi hj =
    let all : k ≡ left.cols = omega (arith, e) in
    ap (λ n. ok (dot n (h.cells left.view i) (λ s. h.cells right.view s j))) all
product_from-eq left right (suc remaining) k i j h e square hi hj =
    let next : suc k ≡ k + 1 = omega arith in
    let rest = product_from-eq left right remaining (k + 1) i j h (omega (arith, e)) square hi hj in
    rw (get_in left i k h hi (omega (arith, e)), get_in right k j h (omega (arith, e, square)) hj)
      (ap
          (λ n.
            product_from remaining (k + 1)
              (dot n (h.cells left.view i) (λ s. h.cells right.view s j)) i j left right h)
          next
        ∙ rest)

product-eq :
    (left right : DenseMtx) (i j : ℕ) (h : Heap)
    → left.cols ≡ right.bit_rows
    → i < left.bit_rows
    → j < right.cols
    → product_from left.cols 0 false i j left right h
      ≡ ok (dot left.cols (h.cells left.view i) (λ s. h.cells right.view s j))
unfolding dot
product-eq left right i j h square hi hj =
    product_from-eq left right left.cols 0 i j h (omega arith) square hi hj

-- The bits of two matrices stand in the heap at their views.
abbrev Has : DenseMtx → Bits → Heap → Type 0
Has m bits h = (r c : ℕ) → h.cells m.view r c ≡ bits r c

abbrev cell : ℕ → Bits → Bits → ℕ → ℕ → Bool
cell n a b i j = dot n (a i) (λ s. b s j)

abbrev row_filled : ℕ → ℕ → ℕ → ℕ → ℕ → Bits → Bits → (ℕ → Bits) → ℕ → Bits
row_filled v cols n i j a b cells address r c =
    if (address == v) && ((r == i) && (leb j c && ltb c cols))
    then cell n a b i c
    else cells address r c

abbrev rows_filled : ℕ → ℕ → ℕ → ℕ → ℕ → Bits → Bits → (ℕ → Bits) → ℕ → Bits
rows_filled v rows cols n i a b cells address r c =
    if (address == v) && ((leb i r && ltb r rows) && ltb c cols)
    then cell n a b r c
    else cells address r c

module _ (left right ret : DenseMtx) (a b : Bits) (square : left.cols ≡ right.bit_rows)
    (rows_are : ret.bit_rows ≡ left.bit_rows) (cols_are : ret.cols ≡ right.cols)
    (apart_left : left.view ≢ ret.view) (apart_right : right.view ≢ ret.view) where
  mult_row-eq :
      (remaining j i : ℕ) (h : Heap)
      → Has left a h
      → Has right b h
      → j + remaining ≡ ret.cols
      → i < left.bit_rows
      → mult_row remaining j i left right ret h
        ≡ ok (holding h (row_filled ret.view ret.cols left.cols i j a b h.cells))
  unfolding mult_row
  mult_row-eq zero j i h has_a has_b e hi = ap ok (
      holding_congr h h.cells (row_filled ret.view ret.cols left.cols i j a b h.cells)
        (λ x r c. ground arith))
  mult_row-eq (suc remaining) j i h has_a has_b e hi =
      let n = left.cols in
      let v = ret.view in
      let h₁ : Heap = holding h (write h.cells v i j (cell n a b i j)) in
      let value = product-eq left right i j h square hi (omega (arith, e, cols_are)) in
      let same : dot n (h.cells left.view i) (λ s. h.cells right.view s j) ≡ cell n a b i j =
        dot_congr n (h.cells left.view i) (a i) (λ s. h.cells right.view s j) (λ s. b s j)
          (λ k le. ap₂ (λ x y. x && y) (has_a i k) (has_b k j)) in
      rw
        (
          value,
          same,
          put_in ret i j (cell n a b i j) h (omega (arith, rows_are)) (omega (arith, e)),
        )
        (mult_row-eq remaining (j + 1) i h₁
          (λ r c.
            let kept : h₁.cells left.view r c ≡ h.cells left.view r c =
              ground (arith, apart_left) in
            kept ∙ has_a r c)
          (λ r c.
            let kept : h₁.cells right.view r c ≡ h.cells right.view r c =
              ground (arith, apart_right) in
            kept ∙ has_b r c)
          (omega (arith, e)) hi)
      ∙ ap ok (
          holding_congr h (row_filled v ret.cols n i (j + 1) a b h₁.cells)
            (row_filled v ret.cols n i j a b h.cells)
            (λ x r c. elim (Bool-cases (c == j)) [
              | inl at_j ↦ let here : c ≡ j = ground arith in ground (arith, ap (cell n a b i) here)
              | inr away ↦ ground arith
            ]))

  mult_rows-eq :
      (remaining i : ℕ) (h : Heap)
      → Has left a h
      → Has right b h
      → i + remaining ≡ ret.bit_rows
      → mult_rows remaining i left right ret h
        ≡ ok (holding h (rows_filled ret.view ret.bit_rows ret.cols left.cols i a b h.cells))
  unfolding mult_rows
  mult_rows-eq zero i h has_a has_b e = ap ok (
      holding_congr h h.cells (rows_filled ret.view ret.bit_rows ret.cols left.cols i a b h.cells)
        (λ x r c. ground arith))
  mult_rows-eq (suc remaining) i h has_a has_b e =
      let n = left.cols in
      let v = ret.view in
      let h₁ : Heap = holding h (row_filled v ret.cols n i 0 a b h.cells) in
      rw (mult_row-eq ret.cols 0 i h has_a has_b (omega arith) (omega (arith, e, rows_are))) (
        mult_rows-eq remaining (i + 1) h₁
          (λ r c.
            let kept : h₁.cells left.view r c ≡ h.cells left.view r c =
              ground (arith, apart_left) in
            kept ∙ has_a r c)
          (λ r c.
            let kept : h₁.cells right.view r c ≡ h.cells right.view r c =
              ground (arith, apart_right) in
            kept ∙ has_b r c)
          (omega (arith, e)))
      ∙ ap ok (
          holding_congr h (rows_filled v ret.bit_rows ret.cols n (i + 1) a b h₁.cells)
            (rows_filled v ret.bit_rows ret.cols n i a b h.cells)
            (λ x r c. elim (Bool-cases (r == i)) [
              | inl at_i ↦
                  let here : r ≡ i = ground arith in
                  ground (arith, e, ap (λ k. cell n a b k c) here)
              | inr away ↦ ground arith
            ]))

-- For a left operand with rows, whose columns are as many as the right one's rows, the product is a new
-- matrix, whose entries are those of the matrix product; no other buffer changes.
pub mult-entries :
    (left right : DenseMtx) (h : Heap)
    → 0 < left.bit_rows
    → left.cols ≡ right.bit_rows
    → left.view < h.next
    → right.view < h.next
    → Returns (mult left right h) (λ (ret, h').
      (ret.bit_rows ≡ left.bit_rows)
      × (ret.cols ≡ right.cols)
      × ((address r c : ℕ)
          → h'.cells address r c ≡ (
              if address == ret.view
              then (if ltb r left.bit_rows && ltb c right.cols
                  then dot left.cols (h.cells left.view r) (λ s. h.cells right.view s c)
                  else false)
              else h.cells address r c)))
unfolding mult make
mult-entries left right h some_rows square old_left old_right =
    let (ret, h₁) = make left.bit_rows right.cols h in
    let a = h.cells left.view in
    let b = h.cells right.view in
    let matches : (left.cols == right.bit_rows) ≡ true = ground (arith, square) in
    let wide : ret.cols ≡ right.cols = ground (arith, some_rows) in
    let all =
      mult_rows-eq left right ret a b square refl wide (omega arith) (omega arith) ret.bit_rows 0 h₁
        (λ r c. ground arith) (λ r c. ground arith) (omega arith) in
    (
      (ret, holding h₁ (rows_filled ret.view ret.bit_rows ret.cols left.cols 0 a b h₁.cells)),
      rw (matches, all) refl,
      (refl, wide, λ address r c. ground (arith, wide)),
    )

-- For two matrices of the same dimensions, `Add` leaves the sum in the entries that the left operand
-- itself reads, since the view of its result is the left operand's; the buffer that the result owns
-- keeps the entries that the buffer of the left operand had.
pub add_aliases :
    (left right : DenseMtx) (h : Heap)
    → left.bit_rows ≡ right.bit_rows
    → left.cols ≡ right.cols
    → left.view < h.next
    → right.view < h.next
    → (r c : ℕ) → r < left.bit_rows
    → c < left.cols
    → Returns (add left right h) (λ (ret, h').
      (ret.view ≡ left.view)
      × (h'.cells left.view r c ≡ xor (h.cells left.view r c) (h.cells right.view r c))
      × (h'.cells ret.own r c ≡ h.cells left.own r c))
unfolding add copy
add_aliases left right h rows_are cols_are old_left old_right r c hr hc =
    let padded = 128 * ((left.bit_rows + 127) / 128) in
    let same : ((left.bit_rows == right.bit_rows) && (left.cols == right.cols)) ≡ true =
      ground (arith, rows_are, cols_are) in
    let enough : ltb r padded ≡ true = lt→ltb r padded (omega arith) in
    let (ret, h₁) = copy left h in
    let sum : ℕ → Bits = λ a r' c'.
      if (a == ret.view) && (ltb r' padded && ltb c' left.cols)
      then xor (h₁.cells ret.view r' c') (h₁.cells right.view r' c')
      else h₁.cells a r' c' in
    ((ret, holding h₁ sum), rw same refl, (refl, ground (arith, enough), ground arith))

is_zero_from-all :
    (m : DenseMtx) (remaining c row : ℕ) (h : Heap)
    → c + remaining ≡ m.cols
    → row < m.bit_rows
    → Returns
        (is_zero_from remaining c row m h)
        (λ b. (b ≡ true) ↔ ((k : ℕ) → c ≤ k → k < m.cols → h.cells m.view row k ≡ false))
unfolding is_zero_from
is_zero_from-all m zero c row h e hr =
    (true, refl, (λ yes_all k le lt. absurd (omega (arith, e)), λ all. refl))
is_zero_from-all m (suc remaining) c row h e hr =
    let (b, eq, iff) = is_zero_from-all m remaining (c + 1) row h (omega (arith, e)) hr in
    let bit = get_in m row c h hr (omega (arith, e)) in
    elim (Bool-cases (h.cells m.view row c)) [
      | inl set_bit ↦ (
        false,
        rw (bit, set_bit) refl,
        (λ no_way. cc, λ all. cc (set_bit, all c (omega arith) (omega (arith, e)))),
      )
      | inr clear ↦ (
        b,
        rw (bit, clear) eq,
        (
          λ is k le lt. elim (Bool-cases (k == c)) [
            | inl same ↦ let here : k ≡ c = ground arith in ap (h.cells m.view row) here ∙ clear
            | inr other ↦ iff.0 is k (ground arith) lt
          ],
          λ all. iff.1 (λ k le lt. all k (omega arith) lt),
        ),
      )
    ]

-- The test of a row within the matrix ends in a Boolean, which is true exactly if every entry of the
-- row is zero.
pub is_zero_iff :
    (m : DenseMtx) (row : ℕ) (h : Heap)
    → row < m.bit_rows
    → Returns
        (is_zero row m h)
        (λ b. (b ≡ true) ↔ ((k : ℕ) → 0 ≤ k → k < m.cols → h.cells m.view row k ≡ false))
unfolding is_zero
is_zero_iff m row h hr = is_zero_from-all m m.cols 0 row h (omega arith) hr

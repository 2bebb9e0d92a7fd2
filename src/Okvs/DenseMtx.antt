-- ===== src/Okvs/DenseMtx.antt =====
-- psi/algorithm/rr22/okvs/dense_mtx.h and .cc: matrices of bits. The entries of a matrix stand in a
-- buffer of the heap: `data_` owns one, and `data_mtx_` is a view of one, through which every access
-- goes. The copy constructor copies the buffer of `data_` and the view as it is, so the view of a copy
-- is the original's. The packing of a column's bits into blocks of 128 is left out.
use psi.Prelude.{
  ℕ, zero, suc, ◌+◌, ◌-◌, ◌≤◌, ◌<◌, ◌≡◌, Bool, true, false, ◌&&◌, ◌||◌, not, Option, none, some,
  List, Result, ok, err, thrown, ◌>>=◌, ◌>>◌, enforce, ltb, leb, ◌==◌, if◌then◌else◌,
}
use psi.Okvs.Bits.{xor}
pub mod Rows
pub mod Pivot
pub mod Reduced
pub mod Invert
pub mod Arithmetic

-- `cells a r c` is the bit of row `r` and column `c` in the buffer at `a`; `next` is a fresh address.
pub record Heap : Type 0 where
  pub next : ℕ
  pub cells : ℕ → ℕ → ℕ → Bool

pub record DenseMtx : Type 0 where
  pub own : ℕ
  pub view : ℕ
  pub bit_rows : ℕ
  pub cols : ℕ

abbrev pub write : (ℕ → ℕ → ℕ → Bool) → ℕ → ℕ → ℕ → Bool → ℕ → ℕ → ℕ → Bool
write cells a r c b a' r' c' = if (a' == a) && ((r' == r) && (c' == c)) then b else cells a' r' c'

-- `operator()`, read and written.
unfoldable pub get : DenseMtx → ℕ → ℕ → Heap → Result Bool
get m row col h = do
  enforce (ltb row m.bit_rows)
  enforce (ltb col m.cols)
  ok (h.cells m.view row col)

unfoldable pub put : DenseMtx → ℕ → ℕ → Bool → Heap → Result Heap
put m row col b h = do
  enforce (ltb row m.bit_rows)
  enforce (ltb col m.cols)
  ok (record h { cells = write h.cells m.view row col b })

-- The constructor by dimensions: a new buffer of zeros. `cols()` is the number of rows of the view, which
-- is 0 where the view has no width.
unfoldable pub make : ℕ → ℕ → Heap → DenseMtx × Heap
make rows cols h = (
  record { own = h.next; view = h.next; bit_rows = rows; cols = if rows == 0 then 0 else cols },
  record { next = h.next + 1; cells = λ a r c. if a == h.next then false else h.cells a r c },
)

unfoldable pub copy : DenseMtx → Heap → DenseMtx × Heap
copy m h = (
  record m { own = h.next },
  record {
    next = h.next + 1;
    cells = λ a r c. if a == h.next then h.cells m.own r c else h.cells a r c;
  },
)

-- The matrix of the default constructor, which has no rows.
abbrev pub no_matrix : DenseMtx
no_matrix = record { own = 0; view = 0; bit_rows = 0; cols = 0 }

-- The loop of `Identity` from `i` on.
unfoldable pub set_diagonal : ℕ → ℕ → DenseMtx → Heap → Result Heap
set_diagonal zero i m h = ok h
set_diagonal (suc n) i m h = put m i i true h >>= set_diagonal n (i + 1) m

unfoldable pub identity : ℕ → Heap → Result (DenseMtx × Heap)
identity n h = let (m, h') = make n n h in set_diagonal n 0 m h' >>= λ h''. ok (m, h'')

-- The loop of `Row::swap` between rows `i` and `j` of one matrix, from column `c` on.
unfoldable pub swap_from : ℕ → ℕ → ℕ → ℕ → DenseMtx → Heap → Result Heap
swap_from zero c i j m h = ok h
swap_from (suc n) c i j m h = do
  bit ← get m j c h
  mine ← get m i c h
  h₁ ← put m j c mine h
  h₂ ← put m i c bit h₁
  swap_from n (c + 1) i j m h₂

unfoldable pub swap : ℕ → ℕ → DenseMtx → Heap → Result Heap
swap i j m h = swap_from m.cols 0 i j m h

-- `operator^=`
unfoldable pub xor_into : DenseMtx → ℕ → ℕ → Bool → Heap → Result Heap
xor_into m r c b h = get m r c h >>= λ old. put m r c (xor old b) h

-- The innermost loop of `Invert`: row `i` into row `j`, in both matrices.
unfoldable pub add_row : ℕ → ℕ → ℕ → ℕ → DenseMtx → DenseMtx → Heap → Result Heap
add_row zero k i j mtx inv h = ok h
add_row (suc n) k i j mtx inv h = do
  a ← get mtx i k h
  h₁ ← xor_into mtx j k a h
  b ← get inv i k h₁
  h₂ ← xor_into inv j k b h₁
  add_row n (k + 1) i j mtx inv h₂

-- The first row from `j` on whose bit in column `i` is set.
unfoldable pub find_pivot : ℕ → ℕ → ℕ → DenseMtx → Heap → Result (Option ℕ)
find_pivot zero j i mtx h = ok none
find_pivot (suc n) j i mtx h = do
  bit ← get mtx j i h
  let rest = find_pivot n (j + 1) i mtx h
  if bit then ok (some j) else rest

unfoldable pub swap_pivot : ℕ → Option ℕ → DenseMtx → DenseMtx → Heap → Result Heap
swap_pivot i none mtx inv h = ok h
swap_pivot i (some j) mtx inv h = swap i j mtx h >>= swap i j inv

-- `if (mtx(i, i) == 0)` up to its second test: whether there is a pivot now.
unfoldable pub bring_pivot : ℕ → ℕ → DenseMtx → DenseMtx → Heap → Result (Bool × Heap)
bring_pivot n i mtx inv h = do
  bit ← get mtx i i h
  let searched = find_pivot (n - (i + 1)) (i + 1) i mtx h >>= λ j.
      swap_pivot i j mtx inv h >>= λ h'. get mtx i i h' >>= λ bit'. ok (bit', h')
  if bit then ok (true, h) else searched

-- The loop over the rows `j`, from `j` on.
unfoldable pub clear_column : ℕ → ℕ → ℕ → ℕ → DenseMtx → DenseMtx → Heap → Result Heap
clear_column zero j n i mtx inv h = ok h
clear_column (suc remaining) j n i mtx inv h = do
  bit ← get mtx j i h
  h' ← (if not (j == i) && bit then add_row n 0 i j mtx inv h else ok h)
  clear_column remaining (j + 1) n i mtx inv h'

-- The loop over the columns `i`; `false` is the early return.
unfoldable pub reduce : ℕ → ℕ → ℕ → DenseMtx → DenseMtx → Heap → Result (Bool × Heap)
reduce zero i n mtx inv h = ok (true, h)
reduce (suc remaining) i n mtx inv h = do
  (found, h₁) ← bring_pivot n i mtx inv h
  let rest = clear_column n 0 n i mtx inv h₁ >>= reduce remaining (i + 1) n mtx inv
  if found then rest else ok (false, h₁)

unfoldable pub invert : DenseMtx → Heap → Result (DenseMtx × Heap)
invert m h = do
  enforce (m.bit_rows == m.cols)
  let (mtx, h₁) = copy m h
  (inv, h₂) ← identity m.bit_rows h₁
  (done, h₃) ← reduce m.bit_rows 0 m.bit_rows mtx inv h₂
  ok (if done then inv else no_matrix, h₃)

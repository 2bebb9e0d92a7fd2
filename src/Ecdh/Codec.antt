-- ===== src/Ecdh/Codec.antt =====
-- The batch codec of psi/algorithm/ecdh/ecdh_psi.cc: what one party packs and the other unpacks.
use mathlib.Core.Path.{ap₂}
use mathlib.Core.List.{append_assoc}
use psi.Prelude.{
  ◌≢◌, thrown, ℕ, suc, ◌+◌, ◌*◌, ◌/◌, ◌≡◌, refl, ap, sym, ◌∙◌, true, false, List, [], ◌∷◌, ◌++◌,
  length, length-append, take, drop, ok, err, arith, ltb, ◌==◌, if◌then◌else◌,
}
use psi.Prelude.Bytes.{Bytes, is_nil, concat, take-append-length, drop-append-length}
use psi.Prelude.Count.{All}
use psi.Ecdh.{PsiDataBatch, BatchType, DupCnt, batch_data, pieces, recv_batch}

-- All the texts have `size` bytes.
abbrev pub HaveSize : ℕ → List Bytes → Type 0
HaveSize size = All (λ b. length b ≡ size)

pub length-concat :
    (size : ℕ) (items : List Bytes)
    → HaveSize size items
    → length (concat items) ≡ length items * size
length-concat size [] h = omega arith
length-concat size (x ∷ items) h =
    ground (arith, length-append x (concat items), length-concat size items h.1, h.0)

pub take-of-size : (size : ℕ) (x ys : Bytes) → length x ≡ size → take size (x ++ ys) ≡ x
take-of-size size x ys e = rw (← e) (take-append-length x ys)

pub drop-of-size : (size : ℕ) (x ys : Bytes) → length x ≡ size → drop size (x ++ ys) ≡ ys
drop-of-size size x ys e = rw (← e) (drop-append-length x ys)

pub pieces-concat :
    (i size : ℕ) (before : Bytes) (items : List Bytes)
    → length before ≡ i * size
    → HaveSize size items
    → pieces (length items) i size (before ++ concat items) ≡ items
unfolding pieces
pieces-concat i size before [] e h = refl
pieces-concat i size before (x ∷ items) e h =
    let now : take size (drop (i * size) (before ++ concat (x ∷ items))) ≡ x =
      rw (drop-of-size (i * size) before (x ++ concat items) e)
        (take-of-size size x (concat items) h.0) in
    let next : length (before ++ x) ≡ (i + 1) * size =
      omega (arith, length-append before x, e, h.0) in
    let later = pieces-concat (i + 1) size (before ++ x) items next h.1 in
    ap₂ ◌∷◌ now
      (ap (pieces (length items) (i + 1) size) (sym (append_assoc before x (concat items))) ∙ later)

-- A received batch is the batch that was sent, where its texts have one size: the same items in
-- the same order, and the counts of extra copies (none come with an empty batch).
pub recv_batch-batch_data :
    (size : ℕ) (items : List Bytes) (dup : DupCnt) (type : BatchType) (index : ℕ)
    → HaveSize size items
    → recv_batch index (batch_data items dup type index)
      ≡ ok (items, if is_nil items then [] else dup)
unfolding recv_batch batch_data
recv_batch-batch_data size [] dup type index h =
    let same : index == index ≡ true = ground arith in rw same refl
recv_batch-batch_data size (x ∷ items) dup type index h =
    let same : index == index ≡ true = ground arith in
    let some : ltb 0 (suc (length items)) ≡ true = ground arith in
    let n : ℕ = suc (length items) in
    let total : length (concat (x ∷ items)) ≡ n * size = length-concat size (x ∷ items) h in
    let each : length (concat (x ∷ items)) / n ≡ size = rw total (grind arith) in
    rw (same, some, each)
      (ap (λ (l : List Bytes). ok (l, dup)) (pieces-concat 0 size [] (x ∷ items) (omega arith) h))

-- A batch with another index is refused.
pub recv_batch_other :
    (index : ℕ) (b : PsiDataBatch) → b.batch_index ≢ index → recv_batch index b ≡ err thrown
unfolding recv_batch
recv_batch_other index b h =
    let other : b.batch_index == index ≡ false = ground arith in rw other refl

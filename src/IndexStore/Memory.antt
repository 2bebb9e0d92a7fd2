-- ===== src/IndexStore/Memory.antt =====
-- MemoryIndexReader of psi/utils/index_store.h and .cc. `sort` is `std::sort` by the index.
use mathlib.Core.List.{Permᴰ, append_assoc}
use psi.Prelude.{
  ℕ, zero, suc, ◌+◌, ◌≡◌, ◌<◌, ◌≤◌, refl, sym, ◌∙◌, ap, ap₂, Bool, true, false, Option, none, some,
  List, [], ◌∷◌, ◌++◌, length, length-append, Result, ok, err, thrown, ◌>>=◌, ◌>>◌, Returns,
  enforce, at, ltb, ◌==◌, if◌then◌else◌, arith,
}
use psi.Prelude.Count.{length-perm}

-- `IndexItem`, an index and the peer's count.
abbrev pub IndexItem : Type 0
IndexItem = ℕ × ℕ

pub record MemoryIndexReader : Type 0 where
  pub items : List IndexItem
  pub read_cnt : ℕ

-- The loop that fills `items_`, of vectors of one length.
unfoldable pub index_items : List ℕ → List ℕ → List IndexItem
index_items [] cnts = []
index_items (i ∷ index) [] = []
index_items (i ∷ index) (c ∷ cnts) = (i, c) ∷ index_items index cnts

unfoldable pub has_next_item : MemoryIndexReader → Bool
has_next_item r = ltb r.read_cnt (length r.items)

unfoldable pub next_item_with_peer_cnt :
    MemoryIndexReader → Result (Option IndexItem × MemoryIndexReader)
next_item_with_peer_cnt r =
    let next =
      at r.items r.read_cnt >>= λ item. ok (some item, record r { read_cnt = r.read_cnt + 1 }) in
    if has_next_item r then next else ok (none, r)

unfoldable pub next_item : MemoryIndexReader → Result (Option ℕ × MemoryIndexReader)
next_item r =
    let next =
      at r.items r.read_cnt >>= λ item. ok (some item.0, record r { read_cnt = r.read_cnt + 1 }) in
    if has_next_item r then next else ok (none, r)

-- A client that reads until there is nothing left, `n` times at most.
unfoldable pub read_items : ℕ → MemoryIndexReader → Result (List IndexItem)
read_items zero r = err thrown
read_items (suc n) r = do
  (item, r') ← next_item_with_peer_cnt r
  let rest = read_items n r'
  elim item [ none ↦ ok [] | some v ↦ rest >>= λ vs. ok (v ∷ vs) ]

-- No index is above one that follows it.
abbrev pub IsSorted : List IndexItem → Type 0
IsSorted items =
    (i j : ℕ) (a b : IndexItem) → i < j → at items i ≡ ok a → at items j ≡ ok b → a.0 ≤ b.0

at-append_middle :
    (before : List IndexItem) (a : IndexItem) (after : List IndexItem)
    → at (before ++ a ∷ after) (length before) ≡ ok a
at-append_middle [] a after = refl
at-append_middle (x ∷ before) a after = at-append_middle before a after

read_items-append :
    (before after : List IndexItem) (n : ℕ)
    → length after < n
    → read_items n (record { items = before ++ after; read_cnt = length before }) ≡ ok after
unfolding read_items next_item_with_peer_cnt has_next_item
read_items-append before after zero h = absurd (omega (arith, h))
read_items-append before [] (suc n) h =
    let last : ltb (length before) (length (before ++ [])) ≡ false =
      ground (arith, length-append before []) in
    rw last refl
read_items-append before (a ∷ after) (suc n) h =
    let more : ltb (length before) (length (before ++ a ∷ after)) ≡ true =
      ground (arith, length-append before (a ∷ after)) in
    let item = at-append_middle before a after in
    let split = append_assoc before (a ∷ []) after in
    let count : length (before ++ a ∷ []) ≡ length before + 1 =
      omega (arith, length-append before (a ∷ [])) in
    let rest : read_items n (record { items = before ++ a ∷ after; read_cnt = length before + 1 })
        ≡ ok after =
      ap₂
        (λ (items : List IndexItem) (k : ℕ). read_items n (record { items = items; read_cnt = k }))
        (sym split) (sym count)
      ∙ read_items-append (before ++ a ∷ []) after n (omega (arith, h)) in
    rw (more, item, rest) refl

length-index_items :
    (index cnts : List ℕ)
    → length index ≡ length cnts
    → length (index_items index cnts) ≡ length index
unfolding index_items
length-index_items [] cnts h = refl
length-index_items (i ∷ index) [] h = absurd (omega (arith, h))
length-index_items (i ∷ index) (c ∷ cnts) h =
    ap suc (length-index_items index cnts (omega (arith, h)))

module _ (sort : List IndexItem → List IndexItem) where
  unfoldable pub new_memory_reader : List ℕ → List ℕ → Result MemoryIndexReader
  new_memory_reader index peer_dup_cnt = do
    enforce (length index == length peer_dup_cnt)
    ok (record { items = sort (index_items index peer_dup_cnt); read_cnt = 0 })

  -- With a sort that gives every list back in some order with its indexes not falling, a reader of two
  -- vectors of one length is read to its end, and gives each index with its count once, by the
  -- indexes.
  pub read_items-new_memory_reader :
      (index peer_dup_cnt : List ℕ)
      → ((l : List IndexItem) → Permᴰ (sort l) l × IsSorted (sort l))
      → length index ≡ length peer_dup_cnt
      → Returns
          (new_memory_reader index peer_dup_cnt >>= λ r. read_items (suc (length index)) r)
          (λ items. Permᴰ items (index_items index peer_dup_cnt) × IsSorted items)
  unfolding new_memory_reader index_items
  read_items-new_memory_reader index peer_dup_cnt sorts same =
      let items = index_items index peer_dup_cnt in
      let matched : length index == length peer_dup_cnt ≡ true = ground (arith, same) in
      let count : length (sort items) ≡ length index =
        length-perm (sorts items).0 ∙ length-index_items index peer_dup_cnt same in
      (
        sort items,
        rw matched (read_items-append [] (sort items) (suc (length index)) (omega (arith, count))),
        sorts items,
      )

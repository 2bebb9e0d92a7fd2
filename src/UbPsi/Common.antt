-- ===== src/UbPsi/Common.antt =====
-- The online stage of psi/algorithm/ecdh/ub_psi/server.cc and client.cc against the items that both
-- parties have.
use psi.Prelude.{
  ℕ, suc, ◌+◌, ◌^◌, ◌≡◌, ◌<◌, refl, sym, ◌∙◌, ap, subst, true, Option, none, some, List, [], ◌∷◌,
  ◌++◌, map, length, length-append, if◌then◌else◌, arith, Bool-cases, inl, inr,
}
use psi.Prelude.Bytes.{Bytes, bytes_eq, bytes_eq_iff}
use psi.Prelude.Count.{All}
use psi.Ecdh.{Provider, dup_at}
use psi.UbPsi.{uint32}
use psi.UbPsi.Store.{
  MemoryStore, CacheIndex, empty_memory_store, save_item, save_items, find, find_in,
}
use psi.UbPsi.Round.{IsFull, all_items}
use psi.UbPsi.Exchange.{save_batches}

-- The position of the last item that equals `b`, from position `n` on; `last` is the one before.
unfoldable pub position_from : ℕ → Option ℕ → List Bytes → Bytes → Option ℕ
position_from n last [] b = last
position_from n last (x ∷ xs) b = position_from (n + 1) (if bytes_eq x b then some n else last) xs b

-- The client's index of an item.
unfoldable pub index_of : List Bytes → Bytes → Option ℕ
index_of items b = position_from 0 none items b

position_from-append :
    (n : ℕ) (last : Option ℕ) (xs ys : List Bytes) (b : Bytes)
    → position_from n last (xs ++ ys) b
      ≡ position_from (n + length xs) (position_from n last xs b) ys b
unfolding position_from
position_from-append n last [] ys b =
    let e : n ≡ n + 0 = omega arith in ap (λ k. position_from k last ys b) e
position_from-append n last (x ∷ xs) ys b =
    let e : n + 1 + length xs ≡ n + suc (length xs) = omega arith in
    let last' = if bytes_eq x b then some n else last in
    position_from-append (n + 1) last' xs ys b
    ∙ ap (λ k. position_from k (position_from (n + 1) last' xs b) ys b) e

-- The store's entry for a position.
abbrev pub at_index : Option ℕ → Option CacheIndex
at_index none = none
at_index (some i) = some (record { index = i; duplicate_cnt = 0 })

-- Two items that the OPRF accepts have the same mask only if they are the same.
abbrev pub IsInjective : (Bytes → Type 0) → (Bytes → Bytes) → Type 0
IsInjective IsItem masked = (a b : Bytes) → IsItem a → IsItem b → masked a ≡ masked b → a ≡ b

bytes_eq-masked :
    (IsItem : Bytes → Type 0) (masked : Bytes → Bytes) (a b : Bytes)
    → IsInjective IsItem masked
    → IsItem a
    → IsItem b
    → bytes_eq (masked a) (masked b) ≡ bytes_eq a b
bytes_eq-masked IsItem masked a b injective ha hb = elim (Bool-cases (bytes_eq a b)) [
  | inl same ↦
      (bytes_eq_iff (masked a) (masked b)).1 (ap masked ((bytes_eq_iff a b).0 same)) ∙ sym same
  | inr other ↦ elim (Bool-cases (bytes_eq (masked a) (masked b))) [
    | inl masks ↦
        let same : bytes_eq a b ≡ true =
          (bytes_eq_iff a b).1
            (injective a b ha hb ((bytes_eq_iff (masked a) (masked b)).0 masks)) in
        absurd (cc)
    | inr differ ↦ differ ∙ sym other
  ]
]

module _ (IsItem : Bytes → Type 0) (masked : Bytes → Bytes) (injective : IsInjective IsItem masked)
    (b : Bytes) (accepted : IsItem b) where
  -- The store's count and its entry for the item's mask.
  record Sees (n : ℕ) (last : Option ℕ) (store : MemoryStore) : Type 0 where
    count : store.item_cnt ≡ n
    entry : find store (masked b) ≡ at_index last

  save_item-Sees :
      (n : ℕ) (last : Option ℕ) (store : MemoryStore) (x : Bytes)
      → n + 1 < 2 ^ 32
      → IsItem x
      → Sees n last store
      → Sees (n + 1) (if bytes_eq x b then some n else last) (save_item (masked x) 0 store)
  unfolding save_item find find_in uint32
  save_item-Sees n last store x h hx sees =
      let same = bytes_eq-masked IsItem masked x b injective hx accepted in
      elim (Bool-cases (bytes_eq x b)) [
        | inl found ↦ rw found (record {
          count = omega (arith, sees.count, h);
          entry =
              rw (same, found)
                (ap (λ i. some (record { index = i; duplicate_cnt = 0 })) sees.count);
        })
        | inr other ↦
            rw other
              (record { count = omega (arith, sees.count, h); entry = rw (same, other) sees.entry })
      ]

  save_items-Sees :
      (i n : ℕ) (last : Option ℕ) (items : List Bytes) (store : MemoryStore)
      → n + length items < 2 ^ 32
      → All IsItem items
      → Sees n last store
      → Sees
          (n + length items)
          (position_from n last items b)
          (save_items i (map masked items) [] store)
  unfolding save_items position_from dup_at
  save_items-Sees i n last [] store h accepted_all sees =
      let e : n ≡ n + 0 = omega arith in subst (λ k. Sees k last store) e sees
  save_items-Sees i n last (x ∷ items) store h accepted_all sees =
      let e : n + 1 + length items ≡ n + suc (length items) = omega arith in
      let last' = if bytes_eq x b then some n else last in
      subst
        (λ k.
          Sees k (position_from (n + 1) last' items b)
            (save_items (i + 1) (map masked items) [] (save_item (masked x) 0 store)))
        e
        (save_items-Sees (i + 1) (n + 1) last' items (save_item (masked x) 0 store)
          (omega (arith, h)) accepted_all.1
          (save_item-Sees n last store x (omega (arith, h)) accepted_all.0 sees))

  save_batches-Sees :
      (n : ℕ) (last : Option ℕ) (p : Provider) (store : MemoryStore)
      → n + length (all_items p) < 2 ^ 32
      → IsFull IsItem p
      → Sees n last store
      → Sees
          (n + length (all_items p))
          (position_from n last (all_items p) b)
          (save_batches masked p store)
  unfolding save_batches position_from
  save_batches-Sees n last [] store h full sees =
      let e : n ≡ n + 0 = omega arith in subst (λ k. Sees k last store) e sees
  save_batches-Sees n last ((items, dup_cnt) ∷ p) store h full sees =
      let total = length-append items (all_items p) in
      let e : n + length items + length (all_items p) ≡ n + length (items ++ all_items p) =
        omega (arith, total) in
      let last' = position_from n last items b in
      let store' = save_items 0 (map masked items) [] store in
      let next =
        save_batches-Sees (n + length items) last' p store' (omega (arith, h, total)) full.2
          (save_items-Sees 0 n last items store (omega (arith, h, total)) full.1 sees) in
      subst
        (λ k. Sees k (position_from n last (items ++ all_items p) b) (save_batches masked p store'))
        e
        (subst
          (λ o. Sees (n + length items + length (all_items p)) o (save_batches masked p store'))
          (sym (position_from-append n last items (all_items p) b)) next)

-- What the client's store has for a masked item is the position of the item among the client's.
pub find-save_batches :
    (IsItem : Bytes → Type 0) (masked : Bytes → Bytes) (p : Provider) (b : Bytes)
    → IsInjective IsItem masked
    → IsItem b
    → IsFull IsItem p
    → length (all_items p) < 2 ^ 32
    → find (save_batches masked p empty_memory_store) (masked b)
      ≡ at_index (index_of (all_items p) b)
unfolding index_of find find_in
find-save_batches IsItem masked p b injective accepted full h =
    (save_batches-Sees IsItem masked injective b accepted 0 none p empty_memory_store
      (omega (arith, h)) full (record { count = refl; entry = refl })).entry

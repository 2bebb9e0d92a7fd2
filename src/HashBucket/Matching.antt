-- ===== src/HashBucket/Matching.antt =====
-- `CreateCacheFromProvider` of psi/utils/hash_bucket_cache.cc.
use mathlib.Core.List.{append_assoc, append-nil}
use psi.Prelude.{
  ℕ, zero, suc, ◌+◌, ◌^◌, ◌<◌, ◌≡◌, refl, true, List, [], ◌∷◌, ◌++◌, length, length-append,
  length-replicate, replicate, ok, at, Returns, ltb, if◌then◌else◌, arith, lt→ltb, ap, sym, ◌∙◌,
  subst,
}
use psi.Prelude.Bytes.{Bytes, is_nil}
use psi.Prelude.Count.{All}
use psi.Ecdh.{Batch, DupCnt, dup_at}
use psi.HashBucket.{
  Text, BucketItem, HashBucketCache, new, write_batch, write_batches, create_cache_from_provider,
}
use psi.HashBucket.Cache.{IsText, Represents, item_at, write_item-Represents}

-- An item with its count of extra copies.
abbrev pub Entry : Type 0
Entry = Bytes × ℕ

abbrev pub batch_entries : ℕ → List Bytes → DupCnt → List Entry
batch_entries i [] dup = []
batch_entries i (bytes ∷ items) dup = (bytes, dup_at dup i) ∷ batch_entries (i + 1) items dup

-- What a loop that stops at an empty batch reads.
abbrev pub entries : List Batch → List Entry
entries [] = []
entries ((items, dup) ∷ batches) =
    if is_nil items then [] else batch_entries 0 items dup ++ entries batches

-- Counts that fit in 32 bits.
abbrev pub IsSmall : Entry → Type 0
IsSmall e = e.1 < 2 ^ 32

module _ (text : Text) (laws : IsText text) where
  abbrev pub numbered : ℕ → List Entry → List BucketItem
  numbered i [] = []
  numbered i ((bytes, dup) ∷ es) = item_at text laws i bytes dup ∷ numbered (i + 1) es

  length-numbered : (i : ℕ) (es : List Entry) → length (numbered i es) ≡ length es
  length-numbered i [] = refl
  length-numbered i (e ∷ es) = omega (arith, length-numbered (i + 1) es)

  numbered-append_one :
      (i : ℕ) (es : List Entry) (bytes : Bytes) (dup : ℕ)
      → numbered i (es ++ (bytes, dup) ∷ [])
        ≡ numbered i es ++ item_at text laws (i + length es) bytes dup ∷ []
  numbered-append_one i [] bytes dup =
      let e : i ≡ i + 0 = omega arith in ap (λ k. item_at text laws k bytes dup ∷ []) e
  numbered-append_one i ((b, d) ∷ es) bytes dup =
      let e : i + 1 + length es ≡ i + suc (length es) = omega arith in
      ap (λ l. item_at text laws i b d ∷ l)
        (numbered-append_one (i + 1) es bytes dup
          ∙ ap (λ k. numbered (i + 1) es ++ item_at text laws k bytes dup ∷ []) e)

module _ (text : Text) (laws : IsText text) (n : ℕ) (pos : 0 < n) where
  write_batch-Represents :
      (i : ℕ) (items : List Bytes) (dup : DupCnt) (c : HashBucketCache) (es : List Entry)
      → Represents text laws c n (numbered text laws 0 es)
      → length es + length items < 2 ^ 64
      → All IsSmall (batch_entries i items dup)
      → Returns
          (write_batch text i items dup c)
          (λ c'. Represents text laws c' n (numbered text laws 0 (es ++ batch_entries i items dup)))
  unfolding write_batch
  write_batch-Represents i [] dup c es r room small = (
    c,
    refl,
    subst (λ l. Represents text laws c n (numbered text laws 0 l)) (sym (append-nil es)) r,
  )
  write_batch-Represents i (bytes ∷ items) dup c es r room small =
      let many = length-numbered text laws 0 es in
      let d : ℕ = dup_at dup i in
      let (c₁, e₁, r₁) =
        write_item-Represents text laws c n (numbered text laws 0 es) bytes d r pos
          (omega (arith, room, many)) small.0 in
      let grown : numbered text laws 0 es
            ++ item_at text laws (length (numbered text laws 0 es)) bytes d ∷ []
          ≡ numbered text laws 0 (es ++ (bytes, d) ∷ []) =
        ap (λ k. numbered text laws 0 es ++ item_at text laws k bytes d ∷ []) (omega (arith, many))
        ∙ sym (numbered-append_one text laws 0 es bytes d) in
      let (c₂, e₂, r₂) =
        write_batch-Represents (i + 1) items dup c₁ (es ++ (bytes, d) ∷ [])
          (subst (Represents text laws c₁ n) grown r₁)
          (omega (arith, room, length-append es ((bytes, d) ∷ []))) small.1 in
      (
        c₂,
        rw (e₁) e₂,
        subst (λ l. Represents text laws c₂ n (numbered text laws 0 l))
            (append_assoc es ((bytes, d) ∷ []) (batch_entries (i + 1) items dup)) r₂,
      )

  length-batch_entries :
      (i : ℕ) (items : List Bytes) (dup : DupCnt)
      → length (batch_entries i items dup) ≡ length items
  length-batch_entries i [] dup = refl
  length-batch_entries i (x ∷ items) dup = ap suc (length-batch_entries (i + 1) items dup)

  All-append_parts :
      {A : Type 0} (P : A → Type 0) (xs ys : List A) → All P (xs ++ ys) → All P xs × All P ys
  All-append_parts P [] ys h = (tt, h)
  All-append_parts P (x ∷ xs) ys h = let (a, b) = All-append_parts P xs ys h.1 in ((h.0, a), b)

  write_batches-Represents :
      (batches : List Batch) (c : HashBucketCache) (es : List Entry)
      → Represents text laws c n (numbered text laws 0 es)
      → length es + length (entries batches) < 2 ^ 64
      → All IsSmall (entries batches)
      → Returns
          (write_batches text batches c)
          (λ c'. Represents text laws c' n (numbered text laws 0 (es ++ entries batches)))
  unfolding write_batches
  write_batches-Represents [] c es r room small = (
    c,
    refl,
    subst (λ l. Represents text laws c n (numbered text laws 0 l)) (sym (append-nil es)) r,
  )
  write_batches-Represents (([], dup) ∷ batches) c es r room small = (
    c,
    refl,
    subst (λ l. Represents text laws c n (numbered text laws 0 l)) (sym (append-nil es)) r,
  )
  write_batches-Represents (((bytes ∷ items), dup) ∷ batches) c es r room small =
      let now : List Entry = batch_entries 0 (bytes ∷ items) dup in
      let (small₁, small₂) = All-append_parts IsSmall now (entries batches) small in
      let size = length-batch_entries 0 (bytes ∷ items) dup in
      let both = length-append now (entries batches) in
      let (c₁, e₁, r₁) =
        write_batch-Represents 0 (bytes ∷ items) dup c es r (omega (arith, room, size, both))
          small₁ in
      let (c₂, e₂, r₂) =
        write_batches-Represents batches c₁ (es ++ now) r₁
          (omega (arith, room, both, length-append es now)) small₂ in
      (
        c₂,
        rw (e₁) e₂,
        subst (λ l. Represents text laws c₂ n (numbered text laws 0 l))
            (append_assoc es now (entries batches)) r₂,
      )

  at-replicate : {A : Type 0} (m b : ℕ) (a : A) → b < m → at (replicate m a) b ≡ ok a
  at-replicate zero b a h = absurd (omega arith)
  at-replicate (suc m) zero a h = refl
  at-replicate (suc m) (suc b) a h = at-replicate m b a (omega (arith, h))

  -- A provider's items are all in the store that is made from it, in order, each in the bucket of
  -- its text, where there are fewer than 2^64 of them and their counts fit in 32 bits.
  pub create_cache_from_provider-Represents :
      (provider : List Batch)
      → length (entries provider) < 2 ^ 64
      → All IsSmall (entries provider)
      → Returns
          (create_cache_from_provider text provider n)
          (λ c. Represents text laws c n (numbered text laws 0 (entries provider)))
  unfolding create_cache_from_provider new
  create_cache_from_provider-Represents provider room small =
      let test : ltb 0 n ≡ true = lt→ltb 0 n pos in
      let (c, e, r) =
        write_batches-Represents provider
          (record { bucket_os_vec = replicate n []; item_index = 0 }) []
          (record {
            width = length-replicate n [];
            buckets = λ b h. at-replicate n b [] h;
            counted = refl;
            stored = tt;
          })
          (omega (arith, room)) small in
      (c, rw (test) e, r)

-- ===== src/HashBucket/Bins.antt =====
-- Sums over the bins that `FinalizeAndComputeIndices` (psi/utils/ec_point_store.cc) goes through.
use psi.Prelude.{
  ℕ, zero, suc, ◌+◌, ◌%◌, ◌<◌, ◌≡◌, refl, true, false, List, [], ◌∷◌, leb, ◌==◌, if◌then◌else◌,
  Bool-cases, inl, inr, arith, ap, sym, ◌∙◌, subst, ==_iff,
}
use psi.Prelude.Bytes.{Bytes, bytes_eq, bytes_eq_iff}
use psi.Prelude.Count.{total, total-append}
use psi.HashBucket.{Text, BucketItem, find_item}
use psi.HashBucket.Cache.{IsText, in_bucket, bucket_of}
use psi.HashBucket.Finalize.{Row, row_for, matches, copies_of, bin_rows, bin_copies}

module _ (text : Text) (laws : IsText text) where
  module _ (n : ℕ) where
    -- The sum over the bins from `b` on.
    abbrev bins_total : (BucketItem → ℕ) → ℕ → ℕ → List BucketItem → ℕ
    bins_total f zero b items = 0
    bins_total f (suc remaining) b items =
        total f (in_bucket text laws n b items) + bins_total f remaining (b + 1) items

    bins_total-nil : (f : BucketItem → ℕ) (r b : ℕ) → bins_total f r b [] ≡ 0
    bins_total-nil f zero b = refl
    bins_total-nil f (suc r) b = omega (arith, bins_total-nil f r (b + 1))

    bins_total-cons :
        (f : BucketItem → ℕ) (r b : ℕ) (x : BucketItem) (items : List BucketItem)
        → bucket_of text laws n x < r + b
        → bins_total f r b (x ∷ items)
          ≡ (if leb b (bucket_of text laws n x) then f x else 0) + bins_total f r b items
    bins_total-cons f zero b x items h =
        let test : leb b (bucket_of text laws n x) ≡ false = ground arith in rw test refl
    bins_total-cons f (suc r) b x items h =
        let rest = bins_total-cons f r (b + 1) x items (omega (arith, h)) in
        elim (Bool-cases (bucket_of text laws n x == b)) [
          | inl e ↦
              let here : leb b (bucket_of text laws n x) ≡ true = ground arith in
              let gone : leb (b + 1) (bucket_of text laws n x) ≡ false = ground arith in
              rw (e, here)
                (omega (
                  arith,
                  subst
                      (λ t.
                        bins_total f r (b + 1) (x ∷ items)
                        ≡ (if t then f x else 0) + bins_total f r (b + 1) items)
                      gone rest,
                ))
          | inr e ↦
              let same : leb (b + 1) (bucket_of text laws n x) ≡ leb b (bucket_of text laws n x) =
                ground arith in
              rw e (
                omega (
                  arith,
                  subst
                      (λ t.
                        bins_total f r (b + 1) (x ∷ items)
                        ≡ (if t then f x else 0) + bins_total f r (b + 1) items)
                      same rest,
                ))
        ]

    pub bins_total_all :
        (f : BucketItem → ℕ) (items : List BucketItem)
        → 0 < n
        → bins_total f n 0 items ≡ total f items
    bins_total_all f [] pos = bins_total-nil f n 0
    bins_total_all f (x ∷ items) pos =
        let small : bucket_of text laws n x < n + 0 = omega (arith, pos) in
        let any : leb 0 (bucket_of text laws n x) ≡ true = ground arith in
        let split = bins_total-cons f n 0 x items small in
        let rest = bins_total_all f items pos in
        omega (
          arith,
          rest,
          subst
              (λ t. bins_total f n 0 (x ∷ items) ≡ (if t then f x else 0) + bins_total f n 0 items)
              any split,
        )

    find_item-in_bucket :
        (b : ℕ) (data_text : Bytes) (peers : List BucketItem)
        → text.hash data_text % n ≡ b
        → find_item data_text (in_bucket text laws n b peers) ≡ find_item data_text peers
    unfolding find_item
    find_item-in_bucket b wanted [] h = refl
    find_item-in_bucket b wanted (p ∷ peers) h =
        let rest = find_item-in_bucket b wanted peers h in
        elim (Bool-cases (bucket_of text laws n p == b)) [
          | inl e ↦ rw (e, rest) refl
          | inr e ↦ elim (Bool-cases (bytes_eq p.base64_data wanted)) [
            | inl f ↦
                let same = (bytes_eq_iff p.base64_data wanted).0 f in
                let there : bucket_of text laws n p ≡ b = ap (λ l. text.hash l % n) same ∙ h in
                absurd (ground arith)
            | inr f ↦ rw (e, f) rest
          ]
        ]

    module _ (f : Row → ℕ) (peers : List BucketItem) where
      -- What an item adds to the sum over the rows.
      abbrev weight : BucketItem → ℕ
      weight item = total f (row_for item (find_item item.base64_data peers))

      total-matches : (items : List BucketItem) → total f (matches items peers) ≡ total weight items
      total-matches [] = refl
      total-matches (x ∷ items) = omega (
        arith,
        total-append f (row_for x (find_item x.base64_data peers)) (matches items peers),
        total-matches items,
      )

      total-matches_bin :
          (b : ℕ) (items : List BucketItem)
          → total f (matches (in_bucket text laws n b items) (in_bucket text laws n b peers))
            ≡ total weight (in_bucket text laws n b items)
      total-matches_bin b [] = refl
      total-matches_bin b (x ∷ items) = elim (Bool-cases (bucket_of text laws n x == b)) [
        | inl e ↦
            let found = find_item-in_bucket b x.base64_data peers ((==_iff _ b).0 e) in
            let split =
              total-append f (row_for x (find_item x.base64_data peers))
                (matches (in_bucket text laws n b items) (in_bucket text laws n b peers)) in
            rw (e, found) (omega (arith, split, total-matches_bin b items))
        | inr e ↦ rw e (total-matches_bin b items)
      ]

      total-bin_rows :
          (r b : ℕ) (items : List BucketItem)
          → total f (bin_rows text laws n items peers r b) ≡ bins_total weight r b items
      total-bin_rows zero b items = refl
      total-bin_rows (suc r) b items = omega (
        arith,
        total-append f (matches (in_bucket text laws n b items) (in_bucket text laws n b peers))
            (bin_rows text laws n items peers r (b + 1)),
        total-matches_bin b items,
        total-bin_rows r (b + 1) items,
      )

      pub total-bin_rows_all :
          (items : List BucketItem)
          → 0 < n
          → total f (bin_rows text laws n items peers n 0) ≡ total f (matches items peers)
      total-bin_rows_all items pos =
          total-bin_rows n 0 items ∙ bins_total_all weight items pos ∙ sym (total-matches items)

    pub bin_copies-bins_total :
        (items peers : List BucketItem) (r b : ℕ)
        → bin_copies text laws n items peers r b ≡ bins_total copies_of r b peers
    bin_copies-bins_total items peers zero b = refl
    bin_copies-bins_total items peers (suc r) b =
        omega (arith, bin_copies-bins_total items peers r (b + 1))

-- ===== src/Bucket/Negotiation.antt =====
-- `NegotiateBucketNum` and `HashListEqualTest` of psi/utils/bucket.cc.
use psi.Prelude.{
  ℕ, ◌+◌, ◌-◌, ◌*◌, ◌/◌, ◌%◌, ◌^◌, ◌<◌, ◌≤◌, ◌≡◌, refl, min, max, true, false, List, [], ◌∷◌, ok,
  Returns, leb, ◌==◌, Bool-cases, ◌⊎◌, inl, inr, ◌↔◌, arith,
}
use psi.Prelude.Bytes.{Bytes, bytes_eq, bytes_eq_iff}
use psi.Prelude.Count.{All}
use psi.Bucket.{max_bucket_count, negotiate_bucket_num, all_equal, hash_list_equal_test}

div_up :
    (s size : ℕ)
    → 0 < size
    → (s ≤ size * ((s + size - 1) / size)) × (size * ((s + size - 1) / size) < s + size)
div_up s size h = (grind arith, grind arith)

-- What two parties with `a` and `b` items ask for of `n` buckets.
abbrev pub IsBucketNum : ℕ → ℕ → ℕ → ℕ → Type 0
IsBucketNum a b size n =
    ((min a b ≡ 0) × (n ≡ 0)) ⊎ ((0 < min a b) × (max a b ≤ size * n) × (size * n < max a b + size))

-- The larger of two quotients that are rounded up.
larger :
    (a b p q size : ℕ)
    → a ≤ size * p
    → size * p < a + size
    → b ≤ size * q
    → size * q < b + size
    → (max a b ≤ size * max p q) × (size * max p q < max a b + size)
larger a b p q size h₁ h₂ h₃ h₄ = elim (Bool-cases (leb p q)) [
  | inl e ↦
      let le : p ≤ q = ground arith in
      let mono : size * p ≤ size * q = grind arith in
      let is_q : max p q ≡ q = omega (arith, le) in rw is_q (omega arith, omega arith)
  | inr e ↦
      let le : q ≤ p = ground arith in
      let mono : size * q ≤ size * p = grind arith in
      let is_p : max p q ≡ p = omega (arith, le) in rw is_p (omega arith, omega arith)
]

bound :
    (a b size : ℕ)
    → 0 < size
    → max a b + size ≤ 2 ^ 64
    → (max a b ≤ size * max_bucket_count size (a ∷ b ∷ []))
      × (size * max_bucket_count size (a ∷ b ∷ []) < max a b + size)
unfolding max_bucket_count
bound a b size h fits =
    let a_fits : (a + size - 1) % 2 ^ 64 ≡ a + size - 1 = omega (arith, fits, h) in
    let b_fits : (b + size - 1) % 2 ^ 64 ≡ b + size - 1 = omega (arith, fits, h) in
    let (a_low, a_high) = div_up a size h in
    let (b_low, b_high) = div_up b size h in
    let last : max ((b + size - 1) / size) 0 ≡ (b + size - 1) / size = omega arith in
    rw (a_fits, b_fits, last)
      (larger a b ((a + size - 1) / size) ((b + size - 1) / size) size a_low a_high b_low b_high)

-- Two parties with the same bucket size, not 0, that makes no sum with their counts of items over 2^64,
-- get the same number of buckets: 0 where one of them has no items, and else the least number of buckets
-- of that size that hold the items of either.
pub negotiate_bucket_num-two :
    (a b size : ℕ)
    → 0 < size
    → max a b + size ≤ 2 ^ 64
    → Returns
        (negotiate_bucket_num (a ∷ b ∷ []) a size)
        (λ n. (negotiate_bucket_num (a ∷ b ∷ []) b size ≡ ok n) × IsBucketNum a b size n)
unfolding negotiate_bucket_num
negotiate_bucket_num-two a b size h fits =
    let valid : (size == 0) ≡ false = ground arith in
    let mine : min (min a a) b ≡ min a b = omega arith in
    let theirs : min (min b a) b ≡ min a b = omega arith in
    elim (Bool-cases (min a b == 0)) [
      | inl e ↦
          let empty : min a b ≡ 0 = ground arith in
          (0, rw (valid, mine, e) refl, (rw (valid, theirs, e) refl, inl (empty, refl)))
      | inr e ↦
          let both : 0 < min a b = ground arith in
          (
            max_bucket_count size (a ∷ b ∷ []),
            rw (valid, mine, e) refl,
            (
              rw (valid, theirs, e) refl,
              inr (both, (bound a b size h fits).0, (bound a b size h fits).1),
            ),
          )
    ]

all_equal_iff :
    (first : Bytes) (hashes : List Bytes)
    → (all_equal first hashes ≡ true) ↔ All (λ h. h ≡ first) hashes
unfolding all_equal
all_equal_iff first [] = (λ e. tt, λ h. refl)
all_equal_iff first (h ∷ hs) = elim (Bool-cases (bytes_eq h first)) [
  | inl e ↦
      let rest = all_equal_iff first hs in
      let same = (bytes_eq_iff h first).0 e in rw e (λ t. (same, rest.0 t), λ each. rest.1 each.1)
  | inr e ↦
      rw e (λ t. absurd (cc), λ each. absurd (let same = (bytes_eq_iff h first).1 each.0 in cc))
]

-- The test of a hash list that is not empty returns, and answers whether all hashes are equal to the
-- first.
pub hash_list_equal_test_iff :
    (first : Bytes) (hashes : List Bytes)
    → Returns
        (hash_list_equal_test (first ∷ hashes))
        (λ b. (b ≡ true) ↔ All (λ h. h ≡ first) hashes)
unfolding hash_list_equal_test
hash_list_equal_test_iff first hashes = (all_equal first hashes, refl, all_equal_iff first hashes)

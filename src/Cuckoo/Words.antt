-- ===== src/Cuckoo/Words.antt =====
-- The two fields of a `Bin` word, and which words a table may hold.
use Prim.Native.Nat.{bit_or}
use psi.Prelude.{
  ℕ, ◌+◌, ◌*◌, ◌/◌, ◌%◌, ◌^◌, ◌≤◌, ◌<◌, ◌≡◌, refl, ◌⊎◌, inl, inr, true, false, List, [], ◌∷◌, arith,
  leb, ◌==◌, Bool-cases, rem_pos, Returns, at_total, length,
}
use psi.Prelude.Bits.{bit_or-shifted, bit_and-mask}
use psi.Cuckoo.{
  Options, num_bins, k_empty, hash_idx, input_idx, is_empty, encode, get_hash, target_of, retry,
  next_candidate,
}

pub input_idx-mod : (w : ℕ) → input_idx w ≡ w % 2 ^ 56
unfolding input_idx
input_idx-mod w = bit_and-mask 56 w

-- `Encode` and the two readers are inverse: both fields come back as they were put in, for every
-- input index that fits 56 bits and hash index that fits 8.
pub encode_fields :
    (input hash : ℕ)
    → input < 2 ^ 56
    → hash < 2 ^ 8
    → (input_idx (encode input hash) ≡ input) × (hash_idx (encode input hash) ≡ hash)
unfolding encode hash_idx
encode_fields input hash hi hh =
    let fits : hash * 2 ^ 56 % 2 ^ 64 ≡ hash * 2 ^ 56 = omega arith in
    let word : bit_or input (hash * 2 ^ 56 % 2 ^ 64) ≡ input + hash * 2 ^ 56 =
      rw fits (bit_or-shifted 56 input hash hi) in
    rw word (omega (arith, input_idx-mod (input + hash * 2 ^ 56)), omega arith)

-- A word for an input of `n`, at one of the table's hash functions.
pub record IsEntry (o : Options) (n word : ℕ) : Type 0 where
  pub input : input_idx word < n
  pub hash : hash_idx word < o.num_hash

abbrev pub IsSlot : Options → ℕ → ℕ → Type 0
IsSlot o n word = is_empty word ≡ false → IsEntry o n word

-- What the constructor's `YACL_ENFORCE` is there for, and a table with room for a bin.
pub record IsUsable (o : Options) : Type 0 where
  pub some_hash : 0 < o.num_hash
  pub few_hashes : o.num_hash ≤ 5
  pub some_bin : 0 < num_bins o
  pub indexable : o.num_input ≤ 2 ^ 56

module _ (o : Options) (u : IsUsable o) where
  pub IsEntry-not-empty : (n w : ℕ) → IsEntry o n w → is_empty w ≡ false
  unfolding is_empty hash_idx
  IsEntry-not-empty n w e = elim (Bool-cases (w == k_empty)) [
    | inl same ↦
        let big : 255 < o.num_hash = ground (arith, e.hash) in absurd (omega (arith, u.few_hashes))
    | inr h ↦ h
  ]

  pub IsEntry-candidate : (n w : ℕ) → w < n → n ≤ 2 ^ 56 → IsEntry o n w
  unfolding hash_idx
  IsEntry-candidate n w h b = record {
    input = omega (arith, input_idx-mod w);
    hash = omega (arith, u.some_hash);
  }

  -- Some bin is found for each entry.
  pub target_of_total :
      (hashes : List ℕ) (w : ℕ)
      → IsEntry o (length hashes) w
      → Returns (target_of o hashes w) (λ t. t < num_bins o)
  unfolding target_of get_hash
  target_of_total hashes w e =
      let (code, q) = at_total hashes (input_idx w) e.input in
      let fits : leb (hash_idx w * 2 + 8) 16 ≡ true = ground (arith, e.hash, u.few_hashes) in
      let h : ℕ = code / 2 ^ (16 * hash_idx w) % 2 ^ 64 in
      (h % num_bins o, rw (q, fits) (rem_pos h (num_bins o) u.some_bin), omega (arith, u.some_bin))

  -- An evicted entry comes back as an entry for the same input, at the next hash function.
  next_candidate_total :
      (n w : ℕ)
      → n ≤ 2 ^ 56
      → IsEntry o n w
      → Returns (next_candidate o w) (λ c. IsEntry o n c × (input_idx c ≡ input_idx w))
  unfolding next_candidate
  next_candidate_total n w b e =
      let h : ℕ = (hash_idx w + 1) % o.num_hash in
      let small : h < o.num_hash = omega (arith, u.some_hash) in
      let fields =
        encode_fields (input_idx w) (h % 2 ^ 8) (omega (arith, e.input))
          (omega (arith, small, u.few_hashes)) in
      (
        encode (input_idx w) (h % 2 ^ 8),
        rw (rem_pos (hash_idx w + 1) o.num_hash u.some_hash) refl,
        (
          record {
            input = omega (arith, fields.0, e.input);
            hash = omega (arith, fields.1, small, u.few_hashes);
          },
          fields.0,
        ),
      )

  -- The candidates that an evicted word gives: none if the bin was empty.
  abbrev pub Retries : ℕ → ℕ → List ℕ → Type 0
  Retries n w again =
      ((is_empty w ≡ true) × (again ≡ []))
      ⊎ ((is_empty w ≡ false)
          × ((c : ℕ) × (again ≡ c ∷ []) × IsEntry o n c × (input_idx c ≡ input_idx w)))

  pub retry_total : (n w : ℕ) → n ≤ 2 ^ 56 → IsSlot o n w → Returns (retry o w) (Retries n w)
  unfolding retry
  retry_total n w b slot = elim (Bool-cases (is_empty w)) [
    | inl e ↦ ([], rw e refl, inl (e, refl))
    | inr e ↦
        let (c, q, p) = next_candidate_total n w b (slot e) in
        (c ∷ [], rw (e, q) refl, inr (e, (c, refl, p.0, p.1)))
  ]

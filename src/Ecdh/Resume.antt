-- ===== src/Ecdh/Resume.antt =====
-- `MaskSelf` (psi/algorithm/ecdh/ecdh_psi.cc) after a recovery: the items already processed are
-- skipped.
use psi.Prelude.{
  ℕ, zero, suc, ◌+◌, ◌-◌, ◌≤◌, ◌<◌, ◌≡◌, ◌≢◌, refl, ap, sym, ◌∙◌, true, false, none, some, List, [],
  ◌∷◌, ◌++◌, length, length-append, drop, err, thrown, arith, leb, Returns, Bool-cases, inl, inr,
}
use psi.Prelude.Bytes.{Bytes, is_nil}
use psi.Ecdh.{Batch, Provider, DupCnt, dup_at, shift_dup_cnt, skip_processed, put_back}
use psi.Ecdh.Flow.{NoneEmpty}

-- All the items of a provider, in order.
abbrev pub items_of : Provider → List Bytes
items_of [] = []
items_of ((items, dup) ∷ p) = items ++ items_of p

drop-append_more :
    (n : ℕ) (xs ys : List Bytes) → length xs ≤ n → drop n (xs ++ ys) ≡ drop (n - length xs) ys
drop-append_more n [] ys h = let e : n ≡ n - 0 = omega arith in ap (λ k. drop k ys) e
drop-append_more zero (x ∷ xs) ys h = absurd (omega arith)
drop-append_more (suc n) (x ∷ xs) ys h =
    let e : n - length xs ≡ suc n - suc (length xs) = omega arith in
    drop-append_more n xs ys (omega arith) ∙ ap (λ k. drop k ys) e

drop-append_less :
    (n : ℕ) (xs ys : List Bytes) → n < length xs → drop n (xs ++ ys) ≡ drop n xs ++ ys
drop-append_less n [] ys h = absurd (omega arith)
drop-append_less zero (x ∷ xs) ys h = refl
drop-append_less (suc n) (x ∷ xs) ys h = drop-append_less n xs ys (omega arith)

drop-not_nil : (n : ℕ) (xs : List Bytes) → n < length xs → is_nil (drop n xs) ≡ false
drop-not_nil n [] h = absurd (omega arith)
drop-not_nil zero (x ∷ xs) h = refl
drop-not_nil (suc n) (x ∷ xs) h = drop-not_nil n xs (omega arith)

-- Skipping the processed items of a provider with no empty batch leaves exactly the others, in
-- order and again with no empty batch, if there are that many items.
pub skip_processed-Returns :
    (n : ℕ) (p : Provider)
    → NoneEmpty p
    → n ≤ length (items_of p)
    → Returns
        (skip_processed n p)
        (λ r. (items_of (put_back r.0 r.1) ≡ drop n (items_of p)) × NoneEmpty (put_back r.0 r.1))
unfolding skip_processed
skip_processed-Returns zero p ne h = ((none, p), refl, (refl, ne))
skip_processed-Returns (suc n) [] ne h = absurd (omega arith)
skip_processed-Returns (suc n) ((items, dup) ∷ p) ne h =
    elim (Bool-cases (leb (length items) (suc n))) [
      | inl whole ↦
          let le : length items ≤ suc n = ground arith in
          let (r, e, (rest, ne')) =
            skip_processed-Returns (suc n - length items) p ne.1
              (omega (arith, length-append items (items_of p))) in
          (
            r,
            rw (ne.0, whole) e,
            (rest ∙ sym (drop-append_more (suc n) items (items_of p) le), ne'),
          )
      | inr within ↦
          let lt : suc n < length items = ground arith in
          (
            (some (drop (suc n) items, shift_dup_cnt 0 dup), p),
            rw (ne.0, within) refl,
            (
              sym (drop-append_less (suc n) items (items_of p) lt),
              (drop-not_nil (suc n) items lt, ne.1),
            ),
          )
    ]

-- Where the provider has fewer items than were processed, the call throws.
pub skip_processed_short :
    (n : ℕ) (p : Provider) → NoneEmpty p → length (items_of p) < n → skip_processed n p ≡ err thrown
unfolding skip_processed
skip_processed_short zero p ne h = absurd (omega arith)
skip_processed_short (suc n) [] ne h = refl
skip_processed_short (suc n) ((items, dup) ∷ p) ne h =
    let sum = length-append items (items_of p) in
    let whole : leb (length items) (suc n) ≡ true = ground (arith, sum) in
    rw (ne.0, whole) (skip_processed_short (suc n - length items) p ne.1 (omega (arith, sum)))

shift-zero : (dup : DupCnt) (i : ℕ) → dup_at (shift_dup_cnt 0 dup) i ≡ dup_at dup i
unfolding shift_dup_cnt dup_at
shift-zero [] i = refl
shift-zero ((j, c) ∷ dup) i = ground (arith, shift-zero dup i)

-- When the skipping stops within the first batch, the item at position `k + j` is sent at position
-- `j` with the count of the item at position `j`: wherever the two counts differ, the wrong one.
pub skip_processed_miscounts :
    (k j : ℕ) (items : List Bytes) (dup : DupCnt) (p : Provider)
    → 0 < k
    → k < length items
    → dup_at dup j ≢ dup_at dup (k + j)
    → Returns (skip_processed k ((items, dup) ∷ p)) (λ r.
      (b : Batch) × (r ≡ (some b, p)) × (b.0 ≡ drop k items) × (dup_at b.1 j ≢ dup_at dup (k + j)))
unfolding skip_processed
skip_processed_miscounts zero j items dup p pos h differ = absurd (omega arith)
skip_processed_miscounts (suc n) j [] dup p pos h differ = absurd (omega arith)
skip_processed_miscounts (suc n) j (x ∷ items) dup p pos h differ =
    let within : leb (suc (length items)) (suc n) ≡ false = ground arith in
    (
      (some (drop n items, shift_dup_cnt 0 dup), p),
      rw within refl,
      ((drop n items, shift_dup_cnt 0 dup), refl, refl, (λ e. differ (sym (shift-zero dup j) ∙ e))),
    )

-- ===== src/UbPsi/Indices.antt =====
-- The client's index of an item in psi/algorithm/ecdh/ub_psi/client.cc, before and after the server of
-- ecdh_oprf_psi.cc puts the items into another order.
use mathlib.Core.List.{Permᴰ}
use mathlib.Core.List.Permᴰ
use mathlib.Core.Option
use psi.Prelude.{
  ℕ, zero, suc, ◌+◌, ◌≡◌, ◌<◌, ◌≤◌, refl, sym, ◌∙◌, ap, ◌==◌, subst, Bool, true, false, Option,
  none, some, List, [], ◌∷◌, length, get_or, ok, at, if◌then◌else◌, arith, Bool-cases, Option-cases,
  inl, inr,
}
use psi.Prelude.Bytes.{Bytes, bytes_eq, bytes_eq_iff}
use psi.Prelude.Count.{All-at, All-perm}
use psi.BatchProvider.{iota}
use psi.Ecdh.{DupCnt, dup_at}
use psi.UbPsi.Server.{move_dups}
use psi.UbPsi.Common.{index_of, position_from}
use psi.UbPsi.Shuffling.{picked, Within}

-- Different positions hold different items.
abbrev pub IsDistinct : List Bytes → Type 0
IsDistinct items = (i j : ℕ) (b : Bytes) → at items i ≡ ok b → at items j ≡ ok b → i ≡ j

module _ {A : Type 0} where
  -- Some position of the list holds the value.
  abbrev HeldIn : List A → A → Type 0
  HeldIn xs a = (i : ℕ) × (at xs i ≡ ok a)

  held_later : (x : A) (xs : List A) {a : A} → HeldIn xs a → HeldIn (x ∷ xs) a
  held_later x xs (i, e) = (suc i, e)

  pub at-perm : {xs ys : List A} → Permᴰ xs ys → (i : ℕ) {a : A} → at xs i ≡ ok a → HeldIn ys a
  at-perm Permᴰ.nil i e = absurd (cc)
  at-perm (Permᴰ.cons {b = b} same d) zero e = (0, cc)
  at-perm (Permᴰ.cons {b = b} {l₂ = l} same d) (suc i) e = held_later b l (at-perm d i e)
  at-perm (Permᴰ.swap e₁ e₂) zero e = (1, cc)
  at-perm (Permᴰ.swap e₁ e₂) (suc zero) e = (0, cc)
  at-perm (Permᴰ.swap e₁ e₂) (suc (suc i)) e = (suc (suc i), e)
  at-perm (Permᴰ.trans d₁ d₂) i e = let (j, e') = at-perm d₁ i e in at-perm d₂ j e'

at-iota : (start n i : ℕ) → i < n → at (iota start n) i ≡ ok (start + i)
unfolding iota
at-iota start zero i h = absurd (omega arith)
at-iota start (suc n) zero h = let e : start ≡ start + 0 = omega arith in ap ok e
at-iota start (suc n) (suc i) h =
    let e : start + 1 + i ≡ start + suc i = omega arith in
    at-iota (start + 1) n i (omega (arith, h)) ∙ ap ok e

pub iota-Within : (bound start n : ℕ) → start + n ≤ bound → Within bound (iota start n)
unfolding iota
iota-Within bound start zero h = tt
iota-Within bound start (suc n) h =
    (omega (arith, h), iota-Within bound (start + 1) n (omega (arith, h)))

at-in_range : (xs : List Bytes) (i : ℕ) {b : Bytes} → at xs i ≡ ok b → i < length xs
at-in_range [] i e = absurd (cc)
at-in_range (x ∷ xs) zero e = omega arith
at-in_range (x ∷ xs) (suc i) e = omega (arith, at-in_range xs i e)

position_from-found :
    (P : ℕ → Type 0) (n : ℕ) (last : Option ℕ) (xs : List Bytes) (b : Bytes) (k : ℕ)
    → ((i : ℕ) → at xs i ≡ ok b → P (n + i))
    → ((i : ℕ) → last ≡ some i → P i)
    → position_from n last xs b ≡ some k
    → P k
unfolding position_from
position_from-found P n last [] b k here before e = before k e
position_from-found P n last (x ∷ xs) b k here before e =
    let later : (i : ℕ) → at xs i ≡ ok b → P (n + 1 + i) =
      λ i e'. let shift : n + suc i ≡ n + 1 + i = omega arith in subst P shift (here (suc i) e') in
    let test : Bool → Option ℕ = λ t. if t then some n else last in
    elim (Bool-cases (bytes_eq x b)) [
      | inl same ↦
          let here_n : n + 0 ≡ n = omega arith in
          let first : P n = subst P here_n (here 0 (ap ok ((bytes_eq_iff x b).0 same))) in
          position_from-found P (n + 1) (some n) xs b k later (λ i e'. subst P (cc) first)
            (ap (λ t. position_from (n + 1) (test t) xs b) (sym same) ∙ e)
      | inr other ↦
          position_from-found P (n + 1) last xs b k later before
            (ap (λ t. position_from (n + 1) (test t) xs b) (sym other) ∙ e)
    ]

not_held :
    (x : Bytes) (xs : List Bytes) (b : Bytes)
    → bytes_eq x b ≡ false
    → ((i : ℕ) → ¬ (at xs i ≡ ok b))
    → (i : ℕ) → ¬ (at (x ∷ xs) i ≡ ok b)
not_held x xs b other rest zero e =
    let first : x ≡ b = cc in
    let same : bytes_eq x b ≡ true = (bytes_eq_iff x b).1 first in absurd (cc)
not_held x xs b other rest (suc i) e = rest i e

position_from-none :
    (n : ℕ) (last : Option ℕ) (xs : List Bytes) (b : Bytes)
    → position_from n last xs b ≡ none
    → (last ≡ none) × ((i : ℕ) → ¬ (at xs i ≡ ok b))
unfolding position_from
position_from-none n last [] b e = (e, λ i e'. cc)
position_from-none n last (x ∷ xs) b e =
    let (before, rest) =
      position_from-none (n + 1) (if bytes_eq x b then some n else last) xs b e in
    elim (Bool-cases (bytes_eq x b)) [
      | inl same ↦
          let hit : some n ≡ none = ap (λ t. if t then some n else last) (sym same) ∙ before in
          absurd (cc)
      | inr other ↦
          (ap (λ t. if t then some n else last) (sym other) ∙ before, not_held x xs b other rest)
    ]

dup_at-move_dups :
    (old : DupCnt) (j : ℕ) (ids : List ℕ) (k : ℕ) {s : ℕ}
    → at ids k ≡ ok s
    → dup_at (move_dups old j ids) (j + k) ≡ dup_at old s
unfolding move_dups dup_at
dup_at-move_dups old j [] k e = absurd (cc)
dup_at-move_dups old j (i ∷ ids) zero e =
    let here : j == j + 0 ≡ true = ground arith in rw here (ap (dup_at old) (cc))
dup_at-move_dups old j (i ∷ ids) (suc k) e =
    let other : j == j + suc k ≡ false = ground arith in
    let shift : j + suc k ≡ j + 1 + k = omega arith in
    rw (other, shift) (dup_at-move_dups old (j + 1) ids k e)

-- The index that is found is one of the item's.
pub index_of-found :
    (items : List Bytes) (b : Bytes) (k : ℕ) → index_of items b ≡ some k → at items k ≡ ok b
unfolding index_of
index_of-found items b k e =
    let from_0 : (i : ℕ) → at items i ≡ ok b → at items (0 + i) ≡ ok b =
      λ i e'. let shift : i ≡ 0 + i = omega arith in subst (λ j. at items j ≡ ok b) shift e' in
    position_from-found (λ i. at items i ≡ ok b) 0 none items b k from_0 (λ i e'. absurd (cc)) e

pub index_of-distinct :
    (items : List Bytes) (b : Bytes) (i : ℕ)
    → IsDistinct items
    → at items i ≡ ok b
    → index_of items b ≡ some i
unfolding index_of
index_of-distinct items b i distinct e = elim (Option-cases (index_of items b)) [
  | inl missing ↦ absurd ((position_from-none 0 none items b missing).1 i e)
  | inr (k, found) ↦ found ∙ ap some (distinct k i b (index_of-found items b k found) e)
]

index_of-absent :
    (items : List Bytes) (b : Bytes) (i : ℕ) → index_of items b ≡ none → ¬ (at items i ≡ ok b)
unfolding index_of
index_of-absent items b i missing = (position_from-none 0 none items b missing).1 i

pub index_of-missing :
    (items : List Bytes) (b : Bytes) → ((i : ℕ) → ¬ (at items i ≡ ok b)) → index_of items b ≡ none
index_of-missing items b absent = elim (Option-cases (index_of items b)) [
  | inl missing ↦ missing
  | inr (k, found) ↦ absurd (absent k (index_of-found items b k found))
]

pub at-get_or :
    (items : List Bytes) (i : ℕ) → i < length items → at items i ≡ ok (get_or items i [])
at-get_or [] i h = absurd (omega arith)
at-get_or (x ∷ items) zero h = refl
at-get_or (x ∷ items) (suc i) h = at-get_or items i (omega (arith, h))

at-picked :
    (items : List Bytes) (ids : List ℕ) (k : ℕ) {s : ℕ}
    → at ids k ≡ ok s
    → at (picked items ids) k ≡ ok (get_or items s [])
at-picked items [] k e = absurd (cc)
at-picked items (i ∷ ids) zero e = cc
at-picked items (i ∷ ids) (suc k) e = at-picked items ids k e

at-picked_inv :
    (items : List Bytes) (ids : List ℕ) (k : ℕ) {b : Bytes}
    → at (picked items ids) k ≡ ok b
    → (s : ℕ) × (at ids k ≡ ok s) × (get_or items s [] ≡ b)
at-picked_inv items [] k e = absurd (cc)
at-picked_inv items (i ∷ ids) zero e = (i, refl, cc)
at-picked_inv items (i ∷ ids) (suc k) e = at-picked_inv items ids k e

-- The positions of the items in another order.
module _ (items : List Bytes) (ids : List ℕ) (perm : Permᴰ ids (iota 0 (length items)))
    (distinct : IsDistinct items) where
  pub perm-Within : Within (length items) ids
  perm-Within =
      All-perm (λ i. i < length items) perm
        (iota-Within (length items) 0 (length items) (omega arith))

  pub index_of-picked :
      (old : DupCnt) (cnt : ℕ → ℕ) (b : Bytes)
      → ((i : ℕ) → dup_at old i ≡ cnt i)
      → Option.map (dup_at (move_dups old 0 ids)) (index_of (picked items ids) b)
        ≡ Option.map cnt (index_of items b)
  index_of-picked old cnt b counts = elim (Option-cases (index_of (picked items ids) b)) [
    | inl missing ↦
        let absent : (i : ℕ) → ¬ (at items i ≡ ok b) = λ i e.
          let range = at-in_range items i e in
          let there = at-iota 0 (length items) i range in
          let (k, moved) = at-perm (Permᴰ.symm perm) i there in
          let zero_start : 0 + i ≡ i = omega arith in
          let got = at-get_or items i range in
          let got_b : get_or items i [] ≡ b = cc in
          let value : get_or items (0 + i) [] ≡ b =
            ap (λ j. get_or items j []) zero_start ∙ got_b in
          index_of-absent (picked items ids) b k missing
            (at-picked items ids k moved ∙ ap ok value) in
        rw (missing, index_of-missing items b absent) refl
    | inr (k, found) ↦
        let (s, moved, same) =
          at-picked_inv items ids k (index_of-found (picked items ids) b k found) in
        let range : s < length items = All-at (λ i. i < length items) ids k s perm-Within moved in
        let held : at items s ≡ ok b = at-get_or items s range ∙ ap ok same in
        let count : dup_at (move_dups old 0 ids) (0 + k) ≡ dup_at old s =
          dup_at-move_dups old 0 ids k moved in
        let zero_start : k ≡ 0 + k = omega arith in
        rw (found, index_of-distinct items b s distinct held)
          (ap some (ap (dup_at (move_dups old 0 ids)) zero_start ∙ count ∙ counts s))
  ]

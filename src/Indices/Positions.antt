-- ===== src/Indices/Positions.antt =====
-- `GetIndicesByItems` of psi/utils/ec_point_store.cc against the positions of the wanted items.
use psi.Prelude.{
  ℕ, zero, suc, ◌+◌, ◌<◌, ◌≤◌, ◌≡◌, ◌↔◌, refl, true, false, List, [], ◌∷◌, ok, at, subst, ap, sym,
  ◌∙◌, Bool-cases, inl, inr, arith,
}
use psi.Prelude.Bytes.{Bytes, contains, bytes_eq, bytes_eq_iff, concat, is_nil}
use psi.Prelude.Count.{All}
use psi.Indices.{compare_proc, get_indices_by_items}
use psi.Indices.Pieces.{get_indices_by_items-concat}

-- Growing positions, from `p` on.
abbrev pub Grows : ℕ → List ℕ → Type 0
Grows p [] = Unit
Grows p (k ∷ ks) = (p ≤ k) × Grows (k + 1) ks

-- The positions are those at which `xs` has an item of `wanted`, each once and in order.
pub record ArePositions (wanted xs : List Bytes) (found : List ℕ) : Type 0 where
  pub grow : Grows 0 found
  pub exact :
      (k : ℕ)
      → ((n : ℕ) × (at found n ≡ ok k))
        ↔ ((b : Bytes) × (j : ℕ) × (at xs k ≡ ok b) × (at wanted j ≡ ok b))

contains-at :
    (wanted : List Bytes) (b : Bytes) → contains wanted b ≡ true → (j : ℕ) × (at wanted j ≡ ok b)
unfolding contains
contains-at [] b h = absurd (cc)
contains-at (x ∷ wanted) b h = elim (Bool-cases (bytes_eq x b)) [
  | inl same ↦ (0, ap ok ((bytes_eq_iff x b).0 same))
  | inr other ↦ let (j, e) = contains-at wanted b (rw other at h) in (suc j, e)
]

at-contains :
    (wanted : List Bytes) (b : Bytes) (j : ℕ) → at wanted j ≡ ok b → contains wanted b ≡ true
unfolding contains
at-contains [] b j e = cc
at-contains (x ∷ wanted) b zero e =
    let same : bytes_eq x b ≡ true = (bytes_eq_iff x b).1 (cc) in rw same refl
at-contains (x ∷ wanted) b (suc j) e = elim (Bool-cases (bytes_eq x b)) [
  | inl same ↦ rw same refl
  | inr other ↦ rw other (at-contains wanted b j e)
]

Grows-weaken : (p q : ℕ) (ks : List ℕ) → q ≤ p → Grows p ks → Grows q ks
Grows-weaken p q [] h g = tt
Grows-weaken p q (k ∷ ks) h g = (omega (arith, g.0, h), g.1)

module _ (wanted : List Bytes) where
  compare_proc-Grows : (p : ℕ) (xs : List Bytes) → Grows p (compare_proc wanted p xs)
  unfolding compare_proc
  compare_proc-Grows p [] = tt
  compare_proc-Grows p (x ∷ xs) = elim (Bool-cases (contains wanted x)) [
    | inl f ↦ rw f (omega arith, compare_proc-Grows (p + 1) xs)
    | inr f ↦ rw f (
        Grows-weaken (p + 1) p (compare_proc wanted (p + 1) xs) (omega arith)
          (compare_proc-Grows (p + 1) xs))
  ]

  -- `k` is the position of a wanted item.
  abbrev IsPosition : ℕ → List Bytes → ℕ → Type 0
  IsPosition p xs k =
      (i : ℕ) × (b : Bytes) × (j : ℕ) × (k ≡ p + i) × (at xs i ≡ ok b) × (at wanted j ≡ ok b)

  shift :
      (p : ℕ) (x : Bytes) (xs : List Bytes) (k : ℕ)
      → IsPosition (p + 1) xs k
      → IsPosition p (x ∷ xs) k
  shift p x xs k (i, b, j, place, here, there) = (suc i, b, j, omega (arith, place), here, there)

  first-IsPosition :
      (p : ℕ) (x : Bytes) (xs : List Bytes) (k : ℕ)
      → contains wanted x ≡ true
      → p ≡ k
      → IsPosition p (x ∷ xs) k
  first-IsPosition p x xs k f e =
      let (j, there) = contains-at wanted x f in (0, x, j, omega (arith, e), refl, there)

  compare_proc_sound :
      (p : ℕ) (xs : List Bytes) (n k : ℕ)
      → at (compare_proc wanted p xs) n ≡ ok k
      → IsPosition p xs k
  unfolding compare_proc
  compare_proc_sound p [] n k e = absurd (cc)
  compare_proc_sound p (x ∷ xs) zero k e = elim (Bool-cases (contains wanted x)) [
    | inl f ↦ let e' : ok p ≡ ok k = rw f at e in first-IsPosition p x xs k f (cc)
    | inr f ↦ shift p x xs k (compare_proc_sound (p + 1) xs zero k (rw f at e))
  ]
  compare_proc_sound p (x ∷ xs) (suc n) k e = elim (Bool-cases (contains wanted x)) [
    | inl f ↦ shift p x xs k (compare_proc_sound (p + 1) xs n k (rw f at e))
    | inr f ↦ shift p x xs k (compare_proc_sound (p + 1) xs (suc n) k (rw f at e))
  ]

  -- The position of a wanted item is found.
  compare_proc_complete :
      (p : ℕ) (xs : List Bytes) (i j : ℕ) (b : Bytes)
      → at xs i ≡ ok b
      → at wanted j ≡ ok b
      → (n : ℕ) × (at (compare_proc wanted p xs) n ≡ ok (p + i))
  unfolding compare_proc
  compare_proc_complete p [] i j b here there = absurd (cc)
  compare_proc_complete p (x ∷ xs) zero j b here there =
      let same : x ≡ b = cc in
      let f : contains wanted x ≡ true = ap (contains wanted) same ∙ at-contains wanted b j there in
      let start : p ≡ p + 0 = omega arith in (0, rw f (ap ok start))
  compare_proc_complete p (x ∷ xs) (suc i) j b here there =
      let (n, e) = compare_proc_complete (p + 1) xs i j b here there in
      let step : p + 1 + i ≡ p + suc i = omega arith in
      elim (Bool-cases (contains wanted x)) [
        | inl f ↦ (suc n, rw f (e ∙ ap ok step))
        | inr f ↦ (n, rw f (e ∙ ap ok step))
      ]

  compare_proc-ArePositions : (xs : List Bytes) → ArePositions wanted xs (compare_proc wanted 0 xs)
  compare_proc-ArePositions xs = record {
    grow = compare_proc-Grows 0 xs;
    exact = λ k. (
      λ found.
          let (i, b, j, place, here, there) = compare_proc_sound 0 xs found.0 k found.1 in
          let same : i ≡ k = omega (arith, place) in
          (b, j, subst (λ m. at xs m ≡ ok b) same here, there),
      λ held.
          let (n, e) = compare_proc_complete 0 xs k held.1 held.0 held.2 held.3 in
          let start : 0 + k ≡ k = omega arith in (n, e ∙ ap ok start),
    );
  }

-- For any number of threads but 0 and any batches but empty ones, the indices grow, and they are exactly
-- the positions in the whole input at which it has one of the items.
pub get_indices_by_items-ArePositions :
    (compare_thread_num : ℕ) (provider : List (List Bytes)) (items : List Bytes)
    → 0 < compare_thread_num
    → All (λ batch. is_nil batch ≡ false) provider
    → ArePositions items (concat provider) (get_indices_by_items compare_thread_num provider items)
get_indices_by_items-ArePositions threads provider items h full =
    subst (ArePositions items (concat provider))
      (sym (get_indices_by_items-concat threads provider items h full))
      (compare_proc-ArePositions items (concat provider))

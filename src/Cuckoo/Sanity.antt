-- ===== src/Cuckoo/Sanity.antt =====
-- `CuckooIndex::SanityCheck` (psi/utils/cuckoo_index.cc) against its meaning.
use psi.Prelude.{
  ℕ, ◌+◌, ◌≤◌, ◌<◌, ◌≡◌, refl, sym, ◌∙◌, ap, subst, inl, inr, ◌↔◌, true, ◌&&◌, none, some,
  Option-cases, List, [], ◌∷◌, arith, leb, ltb, ◌==◌, Bool-cases, ok, err, thrown, ◌>>=◌, enforce,
  enforce-eq-ok, >>=-eq-ok, ThrowsOr, length, if◌then◌else◌, ==_iff,
}
use psi.Prelude.Count.{total}
use psi.Cuckoo.{
  Options, new, insert, CuckooIndex, input_idx, is_empty, insert_new, collect, check_indices,
  sanity_check,
}
use psi.Cuckoo.Counts.{occurrences}
use psi.Cuckoo.Words.{IsUsable}
use psi.Cuckoo.Insert.{stored, IsValid, empty_table, empty_table-IsValid, new-ok, insert-ThrowsOr}
use psi.Cuckoo.Placed.{IsPlaced, empty_table-IsPlaced, insert-IsPlaced}

-- A `std::set`: strictly rising, from `lo` on.
abbrev pub Above : ℕ → List ℕ → Type 0
Above lo [] = Unit {0}
Above lo (x ∷ xs) = (lo ≤ x) × Above (x + 1) xs

abbrev pub count : ℕ → List ℕ → ℕ
count a = total (λ x. if x == a then 1 else 0)

Above-count : (lo a : ℕ) (xs : List ℕ) → Above lo xs → a < lo → count a xs ≡ 0
Above-count lo a [] h small = refl
Above-count lo a (x ∷ xs) h small = ground (arith, Above-count (x + 1) a xs h.1)

-- The set that holds `a` and what it held.
abbrev Adds : ℕ → ℕ → List ℕ → List ℕ → Type 0
Adds lo a xs ys = Above lo ys × ((i : ℕ) → count i ys ≡ count i xs + (if a == i then 1 else 0))

insert_new-some :
    (lo a : ℕ) (xs : List ℕ) {ys : List ℕ}
    → Above lo xs
    → lo ≤ a
    → insert_new a xs ≡ some ys
    → Adds lo a xs ys
unfolding insert_new
insert_new-some lo a [] {ys} h low e =
    let q : ys ≡ a ∷ [] = cc in rw q ((low, tt), λ i. omega arith)
insert_new-some lo a (x ∷ xs) {ys} h low e = elim (Bool-cases (a == x)) [
  | inl same ↦ let bad : none ≡ some ys = rw same at e in cc
  | inr apart ↦ elim (Bool-cases (ltb a x)) [
    | inl less ↦
        let q : some (a ∷ x ∷ xs) ≡ some ys = rw (apart, less) at e in
        let q' : ys ≡ a ∷ x ∷ xs = cc in rw q' ((low, (ground arith, h.1)), λ i. omega arith)
    | inr more ↦ elim (Option-cases (insert_new a xs)) [
      | inl none_left ↦ let bad : none ≡ some ys = rw (apart, more, none_left) at e in cc
      | inr (zs, found) ↦
          let q : some (x ∷ zs) ≡ some ys = rw (apart, more, found) at e in
          let q' : ys ≡ x ∷ zs = cc in
          let (above, counts) = insert_new-some (x + 1) a xs h.1 (ground arith) found in
          rw q' ((h.0, above), λ i. omega (arith, counts i))
    ]
  ]
]

insert_new_total :
    (lo a : ℕ) (xs : List ℕ)
    → Above lo xs
    → lo ≤ a
    → count a xs ≡ 0
    → (ys : List ℕ) × (insert_new a xs ≡ some ys)
unfolding insert_new
insert_new_total lo a [] h low free = (a ∷ [], refl)
insert_new_total lo a (x ∷ xs) h low free = elim (Bool-cases (a == x)) [
  | inl same ↦ absurd (ground arith)
  | inr apart ↦ elim (Bool-cases (ltb a x)) [
    | inl less ↦ (a ∷ x ∷ xs, rw (apart, less) refl)
    | inr more ↦
        let (ys, e) = insert_new_total (x + 1) a xs h.1 (ground arith) (omega arith) in
        (x ∷ ys, rw (apart, more, e) refl)
  ]
]

-- The set holds what it held and the inputs of the words.
abbrev Collects : List ℕ → List ℕ → List ℕ → Type 0
Collects ws seen set = Above 0 set × ((i : ℕ) → count i set ≡ count i seen + occurrences i ws)

collect-Collects :
    (ws seen : List ℕ) {set : List ℕ}
    → Above 0 seen
    → collect ws seen ≡ ok set
    → Collects ws seen set
unfolding collect
collect-Collects [] seen {set} h e = let q : set ≡ seen = cc in rw q (h, λ i. omega arith)
collect-Collects (w ∷ ws) seen {set} h e = elim (Bool-cases (is_empty w)) [
  | inl free ↦
      let e' : collect ws seen ≡ ok set = rw (free, collect) at e in
      let (above, counts) = collect-Collects ws seen h e' in
      (above, λ i. rw free (omega (arith, counts i)))
  | inr full ↦ elim (Option-cases (insert_new (input_idx w) seen)) [
    | inl twice ↦ let bad : err thrown ≡ ok set = rw (full, twice, collect) at e in cc
    | inr (seen', added) ↦
        let e' : collect ws seen' ≡ ok set = rw (full, added, collect) at e in
        let (above, counts) = insert_new-some 0 (input_idx w) seen h (omega arith) added in
        let (above', counts') = collect-Collects ws seen' above e' in
        (above', λ i. rw full (omega (arith, counts i, counts' i)))
  ]
]

collect_total :
    (ws seen : List ℕ)
    → Above 0 seen
    → ((i : ℕ) → count i seen + occurrences i ws ≤ 1)
    → (set : List ℕ) × (collect ws seen ≡ ok set)
unfolding collect
collect_total [] seen h few = (seen, refl)
collect_total (w ∷ ws) seen h few = elim (Bool-cases (is_empty w)) [
  | inl free ↦
      let (set, e) = collect_total ws seen h (λ i. ground (arith, few i)) in
      (set, rw (free, collect) e)
  | inr full ↦
      let new : count (input_idx w) seen ≡ 0 = ground (arith, few (input_idx w)) in
      let (seen', added) = insert_new_total 0 (input_idx w) seen h (omega arith) new in
      let (above, counts) = insert_new-some 0 (input_idx w) seen h (omega arith) added in
      let (set, e) = collect_total ws seen' above (λ i. ground (arith, few i, counts i)) in
      (set, rw (full, added, collect) e)
]

-- A rising list passes the index check from `lo` on exactly if it is `lo, lo + 1, …`.
check_indices-count :
    (lo : ℕ) (xs : List ℕ)
    → check_indices lo xs ≡ ok tt
    → (i : ℕ) → count i xs ≡ (if leb lo i && ltb i (lo + length xs) then 1 else 0)
unfolding check_indices
check_indices-count lo [] e i = ground arith
check_indices-count lo (x ∷ xs) e i =
    let (_, test, e') = >>=-eq-ok (enforce (lo == x)) _ e in
    let q : lo ≡ x = (==_iff lo x).0 (enforce-eq-ok (lo == x) test) in
    ground (arith, check_indices-count (lo + 1) xs e' i)

count-check_indices :
    (lo n : ℕ) (xs : List ℕ)
    → Above lo xs
    → lo ≤ n
    → ((i : ℕ) → count i xs ≡ (if leb lo i && ltb i n then 1 else 0))
    → (check_indices lo xs ≡ ok tt) × (lo + length xs ≡ n)
unfolding check_indices
count-check_indices lo n [] h le counts = (refl, ground (arith, counts lo))
count-check_indices lo n (x ∷ xs) h le counts =
    let small : x < n = ground (arith, counts x) in
    let first : x ≡ lo = ground (arith, counts lo, Above-count (x + 1) lo xs h.1) in
    let test : lo == x ≡ true = ground arith in
    let above : Above (lo + 1) xs = subst (λ y. Above (y + 1) xs) first h.1 in
    let (e, e') =
      count-check_indices (lo + 1) n xs above (omega arith)
        (λ i. ground (arith, counts i, Above-count (lo + 1) i xs above)) in
    (rw test e, omega (arith, e'))

-- `SanityCheck` passes exactly when each input below `num_input` is stored once and nothing else is.
pub sanity_check_iff :
    (t : CuckooIndex)
    → (sanity_check t ≡ ok tt) ↔ ((i : ℕ) → stored i t ≡ (if ltb i t.num_input then 1 else 0))
unfolding sanity_check
sanity_check_iff t = (sound, complete)
  where
    sound : sanity_check t ≡ ok tt → (i : ℕ) → stored i t ≡ (if ltb i t.num_input then 1 else 0)
    sound e i =
        let (in_bins, q, e') = >>=-eq-ok (collect t.bins []) _ e in
        let (all, q', e'') = >>=-eq-ok (collect t.stash in_bins) _ e' in
        let (_, size, passes) = >>=-eq-ok (enforce (length all == t.num_input)) _ e'' in
        let (above, counts) = collect-Collects t.bins [] tt q in
        let (_, counts') = collect-Collects t.stash in_bins above q' in
        let full = (==_iff _ _).0 (enforce-eq-ok (length all == t.num_input) size) in
        ground (arith, full, counts i, counts' i, check_indices-count 0 all passes i)

    complete :
        ((i : ℕ) → stored i t ≡ (if ltb i t.num_input then 1 else 0)) → sanity_check t ≡ ok tt
    complete once =
        let (in_bins, q) = collect_total t.bins [] tt (λ i. ground (arith, once i)) in
        let (above, counts) = collect-Collects t.bins [] tt q in
        let (all, q') =
          collect_total t.stash in_bins above (λ i. ground (arith, once i, counts i)) in
        let (above', counts') = collect-Collects t.stash in_bins above q' in
        let (passes, size) =
          count-check_indices 0 t.num_input all above' (omega arith)
            (λ i. ground (arith, once i, counts i, counts' i)) in
        let test : length all == t.num_input ≡ true = ground arith in rw (q, q', test) passes

-- A valid table that was given all its inputs passes its own check.
pub IsValid-sanity_check :
    (t : CuckooIndex) → IsValid t → length t.hashes ≡ t.num_input → sanity_check t ≡ ok tt
IsValid-sanity_check t v full = (sanity_check_iff t).1 (λ i. rw (← full) (v.once i))

-- For usable options and as many codes as `num_input`, building a table from the codes either throws
-- or gives a table that passes its own check, with every word in the bin that its hash points to; no
-- access is out of bounds.
pub new-insert-sanity_check :
    (o : Options) (codes : List ℕ)
    → IsUsable o
    → length codes ≡ o.num_input
    → ThrowsOr
        (new o >>= λ t. insert t codes)
        (λ t. (sanity_check t ≡ ok tt) × IsPlaced t.options t.hashes t.bins)
new-insert-sanity_check o codes u full =
    let v = empty_table-IsValid o u in
    rw (new-ok o u) (elim (insert-ThrowsOr (empty_table o) codes v) [
      | inl e ↦ inl e
      | inr (t, e, (valid, same, codes')) ↦
          let size : length t.hashes ≡ t.num_input =
            ap length codes' ∙ full ∙ ap (λ (p : Options). p.num_input) (sym same) in
          inr (
            t,
            e,
            (
              IsValid-sanity_check t valid size,
              insert-IsPlaced (empty_table o) codes (empty_table-IsPlaced o) e,
            ),
          )
    ])

-- ===== src/Cuckoo/Insert.antt =====
-- `CuckooIndex::Insert` (psi/utils/cuckoo_index.cc): which inputs a table stores, and how often.
use psi.Prelude.{
  ℕ, zero, suc, ◌+◌, ◌^◌, ◌-◌, ◌*◌, ◌%◌, ◌≤◌, ◌≡◌, refl, sym, subst, ◌∙◌, inl, inr, ◌&&◌, true,
  List, [], ◌∷◌, ◌++◌, arith, leb, ltb, leb→le, Bool-cases, ok, err, thrown, ThrowsOr, length,
  length-append, length-replicate, replicate, if◌then◌else◌,
}
use psi.Prelude.Count.{All, All-imp}
use psi.Cuckoo.{
  CuckooIndex, Options, num_bins, k_empty, input_idx, is_empty, put_to_stash, put_all_to_stash,
  candidates, insert, new,
}
use psi.Cuckoo.Words.{
  IsEntry, IsSlot, IsUsable, IsEntry-not-empty, IsEntry-candidate, input_idx-mod,
}
use psi.Cuckoo.Counts.{stores, occurrences, IsTable, rounds_total}

-- How many words of the bins and the stash store the input.
abbrev pub stored : ℕ → CuckooIndex → ℕ
stored i t = occurrences i t.bins + occurrences i t.stash

-- Each input that was handed in is stored exactly once, and nothing else is.
pub record IsValid (t : CuckooIndex) : Type 0 where
  pub usable : IsUsable t.options
  pub known : length t.hashes ≤ t.num_input
  pub table : IsTable t.options (length t.hashes) t.bins
  pub stash : All (IsSlot t.options (length t.hashes)) t.stash
  pub once : (i : ℕ) → stored i t ≡ (if ltb i (length t.hashes) then 1 else 0)

input_idx_idem : (w : ℕ) → input_idx (input_idx w) ≡ input_idx w
input_idx_idem w = omega (arith, input_idx-mod w, input_idx-mod (input_idx w))

module _ (o : Options) (u : IsUsable o) (n : ℕ) (few : n ≤ 2 ^ 56) where
  -- The input goes to the first free place of the stash, or the call throws.
  put_to_stash-ThrowsOr :
      (stash : List ℕ) (w : ℕ)
      → All (IsSlot o n) stash
      → IsEntry o n w
      → ThrowsOr (put_to_stash stash (input_idx w)) (λ stash'.
        All (IsSlot o n) stash'
        × ((i : ℕ) → occurrences i stash' ≡ occurrences i stash + stores i w))
  unfolding put_to_stash
  put_to_stash-ThrowsOr [] w ss e = inl refl
  put_to_stash-ThrowsOr (s ∷ stash) w ss e = elim (Bool-cases (is_empty s)) [
    | inl free ↦
        let entry : IsEntry o n (input_idx w) = IsEntry-candidate o u n (input_idx w) e.input few in
        inr (
          input_idx w ∷ stash,
          rw (free, put_to_stash) refl,
          (
            ((λ _. entry), ss.1),
            (λ i.
                rw (free, IsEntry-not-empty o u n (input_idx w) entry, IsEntry-not-empty o u n w e)
                  (rw (input_idx_idem w) (omega arith))),
          ),
        )
    | inr taken ↦ elim (put_to_stash-ThrowsOr stash w ss.1 e) [
      | inl q ↦ inl (rw (taken, put_to_stash) (rw q refl))
      | inr (stash', q, (slots, kept)) ↦ inr (
        s ∷ stash',
        rw (taken, put_to_stash) (rw q refl),
        ((ss.0, slots), λ i. omega (arith, kept i)),
      )
    ]
  ]

  put_all_to_stash-ThrowsOr :
      (stash cs : List ℕ)
      → All (IsSlot o n) stash
      → All (IsEntry o n) cs
      → ThrowsOr (put_all_to_stash stash cs) (λ stash'.
        All (IsSlot o n) stash'
        × ((i : ℕ) → occurrences i stash' ≡ occurrences i stash + occurrences i cs))
  unfolding put_all_to_stash
  put_all_to_stash-ThrowsOr stash [] ss es = inr (stash, refl, (ss, λ i. omega arith))
  put_all_to_stash-ThrowsOr stash (c ∷ cs) ss es = elim (put_to_stash-ThrowsOr stash c ss es.0) [
    | inl q ↦ inl (rw q refl)
    | inr (stash', q, (slots, kept)) ↦ elim (put_all_to_stash-ThrowsOr stash' cs slots es.1) [
      | inl q' ↦ inl (rw (q, q') refl)
      | inr (stash'', q', (slots', kept')) ↦
          inr (stash'', rw (q, q') refl, (slots', λ i. omega (arith, kept i, kept' i)))
    ]
  ]

  -- The first candidates are the new inputs, each once.
  candidates_lem :
      (offset size : ℕ)
      → offset + size ≤ n
      → All (IsEntry o n) (candidates offset size)
        × ((i : ℕ)
            → occurrences i (candidates offset size)
              ≡ (if leb offset i && ltb i (offset + size) then 1 else 0))
  unfolding candidates
  candidates_lem offset zero h = (tt, λ i. ground arith)
  candidates_lem offset (suc size) h =
      let entry : IsEntry o n offset = IsEntry-candidate o u n offset (omega arith) few in
      let (entries, once) = candidates_lem (offset + 1) size (omega arith) in
      (
        (entry, entries),
        λ i.
            rw (IsEntry-not-empty o u n offset entry)
              (ground (arith, once i, input_idx-mod offset)),
      )

IsEntry-mono : (o : Options) (n m : ℕ) → n ≤ m → (w : ℕ) → IsSlot o n w → IsSlot o m w
IsEntry-mono o n m h w slot e = record {
  input = omega (arith, (slot e).input);
  hash = (slot e).hash;
}

-- The table after an insertion, where it does not throw.
abbrev pub Inserted : CuckooIndex → List ℕ → CuckooIndex → Type 0
Inserted t codes t' = IsValid t' × (t'.options ≡ t.options) × (t'.hashes ≡ t.hashes ++ codes)

insert_with_room :
    (t : CuckooIndex) (codes : List ℕ)
    → IsValid t
    → length (t.hashes ++ codes) ≤ t.num_input
    → leb (length (t.hashes ++ codes)) t.num_input ≡ true
    → ThrowsOr (insert t codes) (Inserted t codes)
unfolding insert
insert_with_room t codes v room test =
    let o = t.options in
    let offset = length t.hashes in
    let hashes = t.hashes ++ codes in
    let sum = length-append t.hashes codes in
    let few : length hashes ≤ 2 ^ 56 = omega (arith, v.usable.indexable) in
    let grow = IsEntry-mono o offset (length hashes) (omega arith) in
    let table : IsTable o (length hashes) t.bins = record {
      size = v.table.size;
      slots = All-imp t.bins grow v.table.slots;
    } in
    let (new_entries, new_once) =
      candidates_lem o v.usable (length hashes) few offset (length codes) (omega arith) in
    let ((bins, left), q, (table', entries, kept)) =
      rounds_total o v.usable hashes few o.max_try_count t.bins (candidates offset (length codes))
        table new_entries in
    elim (put_all_to_stash-ThrowsOr o v.usable (length hashes) few t.stash left
      (All-imp t.stash grow v.stash) entries) [
        | inl q' ↦ inl (rw (test, q, q') refl)
        | inr (stash, q', (slots, kept')) ↦ inr (
          record t { bins = bins; stash = stash; hashes = hashes },
          rw (test, q, q') refl,
          (
            record {
              usable = v.usable;
              known = room;
              table = table';
              stash = slots;
              once = λ i. ground (arith, kept i, kept' i, new_once i, v.once i, sum);
            },
            refl,
            refl,
          ),
        )
      ]

-- Inserting into a valid table either throws, or gives a valid table that holds the old codes and
-- the new ones: every input is stored once, in a bin or in the stash. No access runs out of bounds.
pub insert-ThrowsOr :
    (t : CuckooIndex) (codes : List ℕ) → IsValid t → ThrowsOr (insert t codes) (Inserted t codes)
unfolding insert
insert-ThrowsOr t codes v = elim (Bool-cases (leb (length (t.hashes ++ codes)) t.num_input)) [
  | inl test ↦ insert_with_room t codes v (leb→le _ _ test) test
  | inr full ↦ inl (rw full refl)
]

empty_slots : (o : Options) (n k : ℕ) → All (IsSlot o n) (replicate k k_empty)
unfolding is_empty
empty_slots o n zero = tt
empty_slots o n (suc k) = ((λ e. cc), empty_slots o n k)

empty-occurrences : (i k : ℕ) → occurrences i (replicate k k_empty) ≡ 0
unfolding is_empty
empty-occurrences i zero = refl
empty-occurrences i (suc k) = omega (arith, empty-occurrences i k)

-- The table that the constructor makes.
abbrev pub empty_table : Options → CuckooIndex
empty_table o = record {
  options = o;
  bins = replicate (num_bins o) k_empty;
  stash = replicate o.num_stash k_empty;
  hashes = [];
}

pub empty_table-IsValid : (o : Options) → IsUsable o → IsValid (empty_table o)
empty_table-IsValid o u = record {
  usable = u;
  known = omega arith;
  table = record {
    size = length-replicate (num_bins o) k_empty;
    slots = empty_slots o 0 (num_bins o);
  };
  stash = empty_slots o 0 o.num_stash;
  once = λ i. ground (arith, empty-occurrences i (num_bins o), empty-occurrences i o.num_stash);
}

-- For usable options the constructor's check passes.
pub new-ok : (o : Options) → IsUsable o → new o ≡ ok (empty_table o)
unfolding new
new-ok o u =
    let test : leb (((o.num_hash + 2 ^ 64 - 1) % 2 ^ 64 * 2 + 8) % 2 ^ 64) 16 ≡ true =
      ground (arith, u.some_hash, u.few_hashes) in
    rw test refl

pub insert-IsValid :
    (t : CuckooIndex) (codes : List ℕ) {t' : CuckooIndex}
    → IsValid t
    → insert t codes ≡ ok t'
    → Inserted t codes t'
insert-IsValid t codes {t'} v e = elim (insert-ThrowsOr t codes v) [
  | inl q ↦ let bad : err thrown ≡ ok t' = sym q ∙ e in cc
  | inr (s, q, p) ↦ let same : s ≡ t' = cc in subst (Inserted t codes) same p
]

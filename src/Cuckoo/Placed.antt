-- ===== src/Cuckoo/Placed.antt =====
-- `CuckooIndex::Insert` and `MinCollidingHashIdx` (psi/utils/cuckoo_index.cc): in which bins the
-- words lie.
use psi.Prelude.{
  ℕ, zero, suc, ◌+◌, ◌*◌, ◌/◌, ◌%◌, ◌^◌, ◌≤◌, ◌<◌, ◌≡◌, sym, ◌∙◌, ap, subst, inl, inr, true, false,
  List, [], ◌∷◌, ◌++◌, arith, leb, ◌==◌, Bool-cases, Result, ok, ◌>>=◌, enforce, rem, at,
  at-lt-length, >>=-eq-ok, Returns, length, replicate, set, ◌≢◌, ==_iff, rem_pos,
}
use psi.Prelude.Count.{All-at, at-set_self, at-set_ne, at-append_left}
use psi.Cuckoo.{
  k_empty, CuckooIndex, Options, num_bins, input_idx, hash_idx, is_empty, get_hash, target_of,
  place, retry, pass, rounds, candidates, insert, put_all_to_stash, find_colliding,
  min_colliding_hash_idx,
}
use psi.Cuckoo.Words.{IsSlot, IsUsable}
use psi.Cuckoo.Insert.{IsValid, empty_table}

-- Each word of the bins lies at its target.
abbrev pub IsPlaced : Options → List ℕ → List ℕ → Type 0
IsPlaced o hashes bins =
    (b w : ℕ) → at bins b ≡ ok w → is_empty w ≡ false → target_of o hashes w ≡ ok b

module _ (o : Options) (hashes : List ℕ) where
  set-IsPlaced :
      (bins : List ℕ) (b w : ℕ)
      → IsPlaced o hashes bins
      → b < length bins
      → target_of o hashes w ≡ ok b
      → IsPlaced o hashes (set bins b w)
  set-IsPlaced bins b w p small target j v e full = elim (Bool-cases (b == j)) [
    | inl same ↦
        let q : b ≡ j = (==_iff b j).0 same in
        let now : at (set bins b w) j ≡ ok w =
          subst (λ k. at (set bins b w) k ≡ ok w) q (at-set_self bins b w small) in
        let v-w : w ≡ v = cc (sym now ∙ e) in
        subst (λ x. target_of o hashes x ≡ ok j) v-w (target ∙ ap ok q)
    | inr other ↦
        let apart : b ≢ j = ground arith in p j v (sym (at-set_ne bins b j w apart) ∙ e) full
  ]

  place-IsPlaced :
      (bins : List ℕ) (w : ℕ) {r : List ℕ × ℕ}
      → IsPlaced o hashes bins
      → place o hashes bins w ≡ ok r
      → IsPlaced o hashes r.0
  unfolding place
  place-IsPlaced bins w {r} p e =
      let (b, target, e') = >>=-eq-ok (target_of o hashes w) _ e in
      let (old, there, e'') = >>=-eq-ok (at bins b) _ e' in
      let q : r ≡ (set bins b w, old) = cc in
      rw q (set-IsPlaced bins b w p (at-lt-length bins b there) target)

  pass-IsPlaced :
      (bins cs : List ℕ) {r : List ℕ × List ℕ}
      → IsPlaced o hashes bins
      → pass o hashes bins cs ≡ ok r
      → IsPlaced o hashes r.0
  unfolding pass
  pass-IsPlaced bins [] {r} p e = let q : r ≡ (bins, []) = cc in rw q p
  pass-IsPlaced bins (c ∷ cs) {r} p e =
      let (s, placed, e') = >>=-eq-ok (place o hashes bins c) _ e in
      let (again, _, e'') = >>=-eq-ok (retry o s.1) _ e' in
      let (t, passed, e''') = >>=-eq-ok (pass o hashes s.0 cs) _ e'' in
      let q : r ≡ (t.0, again ++ t.1) = cc in
      rw q (pass-IsPlaced s.0 cs (place-IsPlaced bins c p placed) passed)

  rounds-IsPlaced :
      (n : ℕ) (bins cs : List ℕ) {r : List ℕ × List ℕ}
      → IsPlaced o hashes bins
      → rounds n o hashes bins cs ≡ ok r
      → IsPlaced o hashes r.0
  unfolding rounds
  rounds-IsPlaced zero bins cs {r} p e = let q : r ≡ (bins, cs) = cc in rw q p
  rounds-IsPlaced (suc n) bins [] {r} p e = let q : r ≡ (bins, []) = cc in rw q p
  rounds-IsPlaced (suc n) bins (c ∷ cs) p e =
      let (s, passed, e') = >>=-eq-ok (pass o hashes bins (c ∷ cs)) _ e in
      rounds-IsPlaced n s.0 s.1 (pass-IsPlaced bins (c ∷ cs) p passed) e'

target_of-append :
    (o : Options) (hashes codes : List ℕ) (w : ℕ) {b : ℕ}
    → target_of o hashes w ≡ ok b
    → target_of o (hashes ++ codes) w ≡ ok b
unfolding target_of
target_of-append o hashes codes w e =
    let (code, there, e') = >>=-eq-ok (at hashes (input_idx w)) _ e in
    rw (at-append_left hashes codes (input_idx w) there) e'

-- An insertion that succeeds on a table whose words are all in the bins that their hashes point to
-- gives such a table again.
pub insert-IsPlaced :
    (t : CuckooIndex) (codes : List ℕ) {t' : CuckooIndex}
    → IsPlaced t.options t.hashes t.bins
    → insert t codes ≡ ok t'
    → IsPlaced t'.options t'.hashes t'.bins
unfolding insert
insert-IsPlaced t codes {t'} p e =
    let hashes = t.hashes ++ codes in
    let (_, _, e') = >>=-eq-ok (enforce (leb (length hashes) t.num_input)) _ e in
    let (r, moved, e'') =
      >>=-eq-ok
        (rounds t.options.max_try_count t.options hashes t.bins
          (candidates (length t.hashes) (length codes)))
        _ e' in
    let (stash, _, e''') = >>=-eq-ok (put_all_to_stash t.stash r.1) _ e'' in
    let q : t' ≡ record t { bins = r.0; stash = stash; hashes = hashes } = cc in
    let old : IsPlaced t.options hashes t.bins =
      λ b w there full. target_of-append t.options t.hashes codes w (p b w there full) in
    rw q (rounds-IsPlaced t.options hashes t.options.max_try_count t.bins _ old moved)

at-replicate : (k b : ℕ) {w : ℕ} → at (replicate k k_empty) b ≡ ok w → w ≡ k_empty
at-replicate zero b e = cc
at-replicate (suc k) zero e = cc
at-replicate (suc k) (suc b) e = at-replicate k b e

pub empty_table-IsPlaced : (o : Options) → IsPlaced o (empty_table o).hashes (empty_table o).bins
unfolding is_empty
empty_table-IsPlaced o b w there full =
    let q = at-replicate (num_bins o) b there in
    let bad : is_empty k_empty ≡ false = rw q at full in cc

-- The bin that hash function `j` gives for a code.
abbrev pub hash_target : Options → ℕ → ℕ → Result ℕ
hash_target o code j = get_hash code j >>= λ h. rem h (num_bins o)

find_colliding_lem :
    (n i k : ℕ) (o : Options) (code bin_index : ℕ)
    → i + n ≤ 2 ^ 8
    → i ≤ k
    → k < i + n
    → ((j : ℕ) → j ≤ k → (b : ℕ) × (hash_target o code j ≡ ok b))
    → hash_target o code k ≡ ok bin_index
    → Returns (find_colliding n i o code bin_index) (λ r.
      (r ≤ k)
      × (hash_target o code r ≡ ok bin_index)
      × ((j : ℕ) → i ≤ j → j < r → hash_target o code j ≢ ok bin_index))
unfolding find_colliding
find_colliding_lem zero i k o code b fits lo hi all hit = absurd (omega arith)
find_colliding_lem (suc n) i k o code b fits lo hi all hit =
    let (c, e) = all i lo in
    let (h, read, e') = >>=-eq-ok (get_hash code i) _ e in
    elim (Bool-cases (c == b)) [
      | inl here ↦
          let q : c ≡ b = (==_iff c b).0 here in
          let small : i % 2 ^ 8 ≡ i = omega arith in
          (i, rw (read, e', here) (ap ok small), (lo, e ∙ ap ok q, λ j p p'. absurd (omega arith)))
      | inr further ↦
          let miss : c ≢ b = ground arith in
          let k-i : k ≢ i = λ s. miss (ok-inj (sym e ∙ ap (hash_target o code) (sym s) ∙ hit)) in
          let (r, q, (least, found, none_before)) =
            find_colliding_lem n (i + 1) k o code b (omega arith) (omega arith) (omega arith) all
              hit in
          (
            r,
            rw (read, e', further) q,
            (
              least,
              found,
              λ j p p'. elim (Bool-cases (i == j)) [
                | inl s ↦
                    λ t. miss (ok-inj (sym e ∙ ap (hash_target o code) ((==_iff i j).0 s) ∙ t))
                | inr s ↦ none_before j (ground arith) p'
              ],
            ),
          )
    ]
  where
    ok-inj : {a c : ℕ} → ok a ≡ ok c → a ≡ c
    ok-inj e = cc

hash_target_total :
    (o : Options)
    → IsUsable o
    → (code j : ℕ) → j < o.num_hash
    → (b : ℕ) × (hash_target o code j ≡ ok b)
unfolding get_hash
hash_target_total o u code j h =
    let fits : leb (j * 2 + 8) 16 ≡ true = ground (arith, u.few_hashes) in
    let v : ℕ = code / 2 ^ (16 * j) % 2 ^ 64 in
    (v % num_bins o, rw fits (rem_pos v (num_bins o) u.some_bin))

-- The smallest hash function that leads an input to its bin.
abbrev pub IsMinColliding : CuckooIndex → ℕ → ℕ → ℕ → Type 0
IsMinColliding t b w r =
    (code : ℕ) × (at t.hashes (input_idx w) ≡ ok code)
    × (r ≤ hash_idx w)
    × (hash_target t.options code r ≡ ok b)
    × ((j : ℕ) → j < r → hash_target t.options code j ≢ ok b)

-- On a filled bin of a valid, placed table `MinCollidingHashIdx` finds the smallest hash function
-- that leads the bin's input there, and it is no larger than the one the table used.
pub min_colliding_hash_idx-Returns :
    (t : CuckooIndex) (b w : ℕ)
    → IsValid t
    → IsPlaced t.options t.hashes t.bins
    → at t.bins b ≡ ok w
    → is_empty w ≡ false
    → Returns (min_colliding_hash_idx t b) (IsMinColliding t b w)
unfolding min_colliding_hash_idx target_of
min_colliding_hash_idx-Returns t b w v p there full =
    let o = t.options in
    let u = v.usable in
    let entry = All-at (IsSlot o (length t.hashes)) t.bins b w v.table.slots there full in
    let (code, read, hit) = >>=-eq-ok (at t.hashes (input_idx w)) _ (p b w there full) in
    let some : o.num_hash == 0 ≡ false = ground (arith, u.some_hash) in
    let all : (j : ℕ) → j ≤ hash_idx w → (c : ℕ) × (hash_target o code j ≡ ok c) =
      λ j h. hash_target_total o u code j (omega (arith, entry.hash)) in
    let (r, q, (least, found, none_before)) =
      find_colliding_lem o.num_hash 0 (hash_idx w) o code b (omega (arith, u.few_hashes))
        (omega arith) (omega (arith, entry.hash)) all hit in
    (r, rw (there, some, read) q, (code, read, least, found, λ j h. none_before j (omega arith) h))

-- ===== src/HashBucket/Common.antt =====
-- `FinalizeAndComputeIndices` (psi/utils/ec_point_store.cc) for the stores of two providers.
use mathlib.Core.List.{append-nil}
use psi.Prelude.{
  ℕ, ◌+◌, ◌%◌, ◌^◌, ◌<◌, ◌≡◌, refl, true, Option, none, some, List, [], ◌∷◌, ◌++◌, length, map,
  Result, ◌>>=◌, Returns, ◌==◌, if◌then◌else◌, Bool-cases, inl, inr, arith, ap, sym, ◌∙◌, ==_iff,
}
use psi.Prelude.Bytes.{Bytes, bytes_eq, bytes_eq_iff}
use psi.Prelude.Count.{All, total}
use psi.Ecdh.{Batch}
use psi.IndexStore.{new}
use psi.IndexStore.Writing.{columns, pair-eq}
use psi.HashBucket.{
  Text, find_item, Tallies, finalize_and_compute_indices, create_cache_from_provider,
}
use psi.HashBucket.Cache.{IsText, item_at}
use psi.HashBucket.Matching.{
  Entry, entries, IsSmall, numbered, create_cache_from_provider-Represents,
}
use psi.HashBucket.Bins.{total-bin_rows_all, bin_copies-bins_total, bins_total_all}
use psi.HashBucket.Finalize.{
  Row, index_of, count_of, row_for, matches, copies, copies_of, bin_rows, bin_copies,
  compute_bins-Keeps,
}

-- The count of extra copies of the first entry with that text.
abbrev pub lookup : Bytes → List Entry → Option ℕ
lookup bytes [] = none
lookup bytes ((b, dup) ∷ es) = if bytes_eq b bytes then some dup else lookup bytes es

abbrev pub row_at : ℕ → Option ℕ → List Row
row_at i none = []
row_at i (some dup) = (i, dup) ∷ []

-- A row for each item that the peer has too: its position, and the peer's count of extra copies.
abbrev pub common : ℕ → List Entry → List Entry → List Row
common i [] ys = []
common i ((bytes, dup) ∷ xs) ys = row_at i (lookup bytes ys) ++ common (i + 1) xs ys

abbrev pub entry_copies : Entry → ℕ
entry_copies e = e.1 + 1

module _ (text : Text) (laws : IsText text) where
  bytes_eq-escape :
      (x y : Bytes) → bytes_eq (text.base64_escape x) (text.base64_escape y) ≡ bytes_eq x y
  bytes_eq-escape x y = elim (Bool-cases (bytes_eq x y)) [
    | inl e ↦
        (bytes_eq_iff (text.base64_escape x) (text.base64_escape y)).1
          (ap (text.base64_escape) ((bytes_eq_iff x y).0 e))
        ∙ sym e
    | inr e ↦ elim (Bool-cases (bytes_eq (text.base64_escape x) (text.base64_escape y))) [
      | inl f ↦ let same = (bytes_eq_iff x y).1 (laws.escape_inj x y ((bytes_eq_iff _ _).0 f)) in cc
      | inr f ↦ f ∙ sym e
    ]
  ]

  found_row :
      (i k dup : ℕ) (bytes : Bytes) (ys : List Entry)
      → row_for
          (item_at text laws i bytes dup)
          (find_item (text.base64_escape bytes) (numbered text laws k ys))
        ≡ row_at i (lookup bytes ys)
  unfolding find_item
  found_row i k dup bytes [] = refl
  found_row i k dup bytes ((b, d) ∷ ys) = elim (Bool-cases (bytes_eq b bytes)) [
    | inl e ↦ rw (bytes_eq-escape b bytes, e) refl
    | inr e ↦ rw (bytes_eq-escape b bytes, e) (found_row i (k + 1) dup bytes ys)
  ]

  matches-numbered :
      (i : ℕ) (xs ys : List Entry)
      → matches (numbered text laws i xs) (numbered text laws 0 ys) ≡ common i xs ys
  matches-numbered i [] ys = refl
  matches-numbered i ((bytes, dup) ∷ xs) ys =
      rw (found_row i 0 dup bytes ys, matches-numbered (i + 1) xs ys) refl

  copies-numbered :
      (i : ℕ) (ys : List Entry) → total copies_of (numbered text laws i ys) ≡ total entry_copies ys
  copies-numbered i [] = refl
  copies-numbered i (y ∷ ys) = omega (arith, copies-numbered (i + 1) ys)

-- Each row stands in the one list as often as in the other.
abbrev pub IsReordering : List Row → List Row → Type 0
IsReordering xs ys = (f : Row → ℕ) → total f xs ≡ total f ys

abbrev pub finalize_providers : Text → ℕ → List Batch → List Batch → Result Tallies
finalize_providers text n mine theirs = do
  self ← create_cache_from_provider text mine n
  peer ← create_cache_from_provider text theirs n
  finalize_and_compute_indices text self peer new

-- For text functions that satisfy the laws, two stores of as many buckets, at least one, made from two
-- providers with fewer than 2^64 items and 32-bit counts: the rows written are, in some order, one
-- for each item of the first that the second has too, with its position and the second's count of
-- extra copies. The counts returned are those of the second's copies, and of its common copies,
-- modulo 2^32.
pub finalize_and_compute_indices-common :
    (text : Text) (laws : IsText text) (n : ℕ) (mine theirs : List Batch)
    → 0 < n
    → length (entries mine) < 2 ^ 64
    → length (entries theirs) < 2 ^ 64
    → All IsSmall (entries mine)
    → All IsSmall (entries theirs)
    → Returns (finalize_providers text n mine theirs) (λ t.
      (rows : List Row) × (columns t.writer.outfile ≡ (map index_of rows, map count_of rows))
      × IsReordering rows (common 0 (entries mine) (entries theirs))
      × (t.peer_total_cnt ≡ total entry_copies (entries theirs) % 2 ^ 32)
      × (t.peer_inter_cnt ≡ total copies (common 0 (entries mine) (entries theirs)) % 2 ^ 32))
unfolding finalize_and_compute_indices new
finalize_and_compute_indices-common text laws n mine theirs pos room room' small small' =
    let (self, es, rs) = create_cache_from_provider-Represents text laws n pos mine room small in
    let (peer, ep, rp) =
      create_cache_from_provider-Represents text laws n pos theirs room' small' in
    let items = numbered text laws 0 (entries mine) in
    let peers = numbered text laws 0 (entries theirs) in
    let start : Tallies = record { writer = new; peer_total_cnt = 0; peer_inter_cnt = 0 } in
    let (t, e, (k, index, count)) =
      compute_bins-Keeps text laws n items peers self peer n 0 start [] [] 0 0 rs rp (omega arith)
        (record {
          kept = record {
            indexes_kept = refl;
            counts_kept = refl;
            filled = tt;
            paired = refl;
            cached = refl;
            counted = refl;
            is_open = refl;
          };
          total_kept = refl;
          inter_kept = refl;
        })
        (refl, refl) in
    let rows : List Row = bin_rows text laws n items peers n 0 in
    let same : IsReordering rows (common 0 (entries mine) (entries theirs)) = λ f.
      total-bin_rows_all text laws n f peers items pos
      ∙ ap (total f) (matches-numbered text laws 0 (entries mine) (entries theirs)) in
    let indexes : (columns t.writer.outfile).0 ≡ map index_of rows =
      sym (append-nil _)
      ∙ ap (λ l. (columns t.writer.outfile).0 ++ l) (sym index)
      ∙ k.kept.indexes_kept in
    let counts : (columns t.writer.outfile).1 ≡ map count_of rows =
      sym (append-nil _)
      ∙ ap (λ l. (columns t.writer.outfile).1 ++ l) (sym count)
      ∙ k.kept.counts_kept in
    let all_peers : bin_copies text laws n items peers n 0 ≡ total entry_copies (entries theirs) =
      bin_copies-bins_total text laws n items peers n 0
      ∙ bins_total_all text laws n copies_of peers pos
      ∙ copies-numbered text laws 0 (entries theirs) in
    let widths : (length self.bucket_os_vec == length peer.bucket_os_vec) ≡ true =
      (==_iff _ _).1 (rs.width ∙ sym rp.width) in
    (
      t,
      rw (es, ep, widths, rs.width) e,
      (
        rows,
        pair-eq indexes counts,
        same,
        omega (arith, k.total_kept, all_peers),
        omega (arith, k.inter_kept, same copies),
      ),
    )

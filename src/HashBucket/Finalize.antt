-- ===== src/HashBucket/Finalize.antt =====
-- The loops of `FinalizeAndComputeIndices` (psi/utils/ec_point_store.cc) and their variables.
use mathlib.Core.List.{append_assoc, append-nil}
use psi.Prelude.{
  ℕ, zero, suc, ◌+◌, ◌%◌, ◌^◌, ◌<◌, ◌≡◌, refl, Option, none, some, List, [], ◌∷◌, ◌++◌, map,
  Returns, arith, ap, sym,
}
use psi.Prelude.Count.{total, total-append}
use psi.IndexStore.Writing.{Holds, write_cache-Holds, commit-Holds}
use psi.HashBucket.{
  Text, BucketItem, HashBucketCache, find_item, Tallies, add_all, write_match, write_matches,
  compute_bin, compute_bins,
}
use psi.HashBucket.Cache.{IsText, Represents, in_bucket, load_bucket_items-eq}

abbrev pub Row : Type 0
Row = ℕ × ℕ

abbrev pub index_of : Row → ℕ
index_of r = r.0

abbrev pub count_of : Row → ℕ
count_of r = r.1

abbrev pub row_for : BucketItem → Option BucketItem → List Row
row_for item none = []
row_for item (some peer) = (item.index, peer.extra_dup_cnt) ∷ []

abbrev pub matches : List BucketItem → List BucketItem → List Row
matches [] peers = []
matches (item ∷ items) peers =
    row_for item (find_item item.base64_data peers) ++ matches items peers

abbrev pub copies : Row → ℕ
copies r = r.1 + 1

abbrev pub copies_of : BucketItem → ℕ
copies_of item = item.extra_dup_cnt + 1

add_all_lem :
    (items : List BucketItem) (sum s : ℕ)
    → sum ≡ s % 2 ^ 32
    → add_all items sum ≡ (s + total copies_of items) % 2 ^ 32
unfolding add_all
add_all_lem [] sum s e = omega (arith, e)
add_all_lem (item ∷ items) sum s e =
    let step : (sum + item.extra_dup_cnt + 1) % 2 ^ 32 ≡ (s + copies_of item) % 2 ^ 32 =
      omega (arith, e) in
    let rest =
      add_all_lem items ((sum + item.extra_dup_cnt + 1) % 2 ^ 32) (s + copies_of item) step in
    omega (arith, rest)

-- What the loops keep: the rows written, and the counts of copies modulo 2^32.
pub record Keeps (t : Tallies) (is cs : List ℕ) (total_copies inter_copies : ℕ) : Type 0 where
  pub kept : Holds t.writer is cs
  pub total_kept : t.peer_total_cnt ≡ total_copies % 2 ^ 32
  pub inter_kept : t.peer_inter_cnt ≡ inter_copies % 2 ^ 32

write_match-Keeps :
    (item : BucketItem) (found : Option BucketItem) (t : Tallies) (is cs : List ℕ) (a b : ℕ)
    → Keeps t is cs a b
    → Returns (write_match item found t) (λ t'.
      Keeps t'
        (is ++ map index_of (row_for item found))
        (cs ++ map count_of (row_for item found))
        a
        (b + total copies (row_for item found)))
unfolding write_match
write_match-Keeps item none t is cs a b k = (
  t,
  refl,
  record {
    kept = rw (append-nil is, append-nil cs) k.kept;
    total_kept = k.total_kept;
    inter_kept = omega (arith, k.inter_kept);
  },
)
write_match-Keeps item (some peer) t is cs a b k =
    let (w, e, h) = write_cache-Holds item.index peer.extra_dup_cnt t.writer is cs k.kept in
    (
      record t {
        writer = w;
        peer_inter_cnt = (t.peer_inter_cnt + peer.extra_dup_cnt + 1) % 2 ^ 32;
      },
      rw e refl,
      record { kept = h; total_kept = k.total_kept; inter_kept = omega (arith, k.inter_kept) },
    )

pub map-append : (f : Row → ℕ) (xs ys : List Row) → map f (xs ++ ys) ≡ map f xs ++ map f ys
map-append f [] ys = refl
map-append f (x ∷ xs) ys = ap (λ l. f x ∷ l) (map-append f xs ys)

-- Two lots of rows written one after the other.
Keeps-append :
    (t : Tallies) (is cs : List ℕ) (m₁ m₂ : List Row) (a b : ℕ)
    → Keeps t
        ((is ++ map index_of m₁) ++ map index_of m₂)
        ((cs ++ map count_of m₁) ++ map count_of m₂)
        a
        ((b + total copies m₁) + total copies m₂)
    → Keeps t
        (is ++ map index_of (m₁ ++ m₂))
        (cs ++ map count_of (m₁ ++ m₂))
        a
        (b + total copies (m₁ ++ m₂))
Keeps-append t is cs m₁ m₂ a b k = record {
  kept =
      rw
        (
          map-append index_of m₁ m₂,
          map-append count_of m₁ m₂,
          sym (append_assoc is (map index_of m₁) (map index_of m₂)),
          sym (append_assoc cs (map count_of m₁) (map count_of m₂)),
        )
        k.kept;
  total_kept = k.total_kept;
  inter_kept = omega (arith, k.inter_kept, total-append copies m₁ m₂);
}

write_matches-Keeps :
    (items peers : List BucketItem) (t : Tallies) (is cs : List ℕ) (a b : ℕ)
    → Keeps t is cs a b
    → Returns (write_matches items peers t) (λ t'.
      Keeps t'
        (is ++ map index_of (matches items peers))
        (cs ++ map count_of (matches items peers))
        a
        (b + total copies (matches items peers)))
unfolding write_matches
write_matches-Keeps [] peers t is cs a b k = (
  t,
  refl,
  record {
    kept = rw (append-nil is, append-nil cs) k.kept;
    total_kept = k.total_kept;
    inter_kept = omega (arith, k.inter_kept);
  },
)
write_matches-Keeps (item ∷ items) peers t is cs a b k =
    let found : Option BucketItem = find_item item.base64_data peers in
    let (t₁, e₁, k₁) = write_match-Keeps item found t is cs a b k in
    let (t₂, e₂, k₂) = write_matches-Keeps items peers t₁ _ _ a _ k₁ in
    (t₂, rw (e₁) e₂, Keeps-append t₂ is cs (row_for item found) (matches items peers) a b k₂)

module _ (text : Text) (laws : IsText text) (n : ℕ) (items peers : List BucketItem) where
  abbrev pub bin : ℕ → List BucketItem → List BucketItem
  bin = in_bucket text laws n

  abbrev pub bin_rows : ℕ → ℕ → List Row
  bin_rows zero b = []
  bin_rows (suc remaining) b = matches (bin b items) (bin b peers) ++ bin_rows remaining (b + 1)

  abbrev pub bin_copies : ℕ → ℕ → ℕ
  bin_copies zero b = 0
  bin_copies (suc remaining) b = total copies_of (bin b peers) + bin_copies remaining (b + 1)

  compute_bin-Keeps :
      (self peer : HashBucketCache) (b : ℕ) (t : Tallies) (is cs : List ℕ) (p q : ℕ)
      → Represents text laws self n items
      → Represents text laws peer n peers
      → b < n
      → Keeps t is cs p q
      → Returns (compute_bin text self peer b t) (λ t'.
        Keeps t'
          (is ++ map index_of (matches (bin b items) (bin b peers)))
          (cs ++ map count_of (matches (bin b items) (bin b peers)))
          (p + total copies_of (bin b peers))
          (q + total copies (matches (bin b items) (bin b peers)))
        × (t'.writer.index_builder ≡ [])
        × (t'.writer.cnt_builder ≡ []))
  unfolding compute_bin
  compute_bin-Keeps self peer b t is cs p q rs rp h k =
      let mine = load_bucket_items-eq text laws self n b items rs h in
      let theirs = load_bucket_items-eq text laws peer n b peers rp h in
      let t₀ : Tallies = record t { peer_total_cnt = add_all (bin b peers) t.peer_total_cnt } in
      let (t₁, e₁, k₁) =
        write_matches-Keeps (bin b items) (bin b peers) t₀ is cs (p + total copies_of (bin b peers))
          q
          (record {
            kept = k.kept;
            total_kept = add_all_lem (bin b peers) t.peer_total_cnt p k.total_kept;
            inter_kept = k.inter_kept;
          }) in
      let (w, ew, (hw, no_index, no_count)) = commit-Holds t₁.writer _ _ k₁.kept in
      (
        record t₁ { writer = w },
        rw (mine, theirs, e₁, ew) refl,
        (
          record { kept = hw; total_kept = k₁.total_kept; inter_kept = k₁.inter_kept },
          no_index,
          no_count,
        ),
      )

  pub compute_bins-Keeps :
      (self peer : HashBucketCache) (remaining b : ℕ) (t : Tallies) (is cs : List ℕ) (p q : ℕ)
      → Represents text laws self n items
      → Represents text laws peer n peers
      → remaining + b ≡ n
      → Keeps t is cs p q
      → (t.writer.index_builder ≡ []) × (t.writer.cnt_builder ≡ [])
      → Returns (compute_bins text self peer remaining b t) (λ t'.
        Keeps t'
          (is ++ map index_of (bin_rows remaining b))
          (cs ++ map count_of (bin_rows remaining b))
          (p + bin_copies remaining b)
          (q + total copies (bin_rows remaining b))
        × (t'.writer.index_builder ≡ [])
        × (t'.writer.cnt_builder ≡ []))
  unfolding compute_bins
  compute_bins-Keeps self peer zero b t is cs p q rs rp e k empty = (
    t,
    refl,
    (
      record {
        kept = rw (append-nil is, append-nil cs) k.kept;
        total_kept = omega (arith, k.total_kept);
        inter_kept = omega (arith, k.inter_kept);
      },
      empty.0,
      empty.1,
    ),
  )
  compute_bins-Keeps self peer (suc remaining) b t is cs p q rs rp e k empty =
      let (t₁, e₁, (k₁, index₁, count₁)) =
        compute_bin-Keeps self peer b t is cs p q rs rp (omega (arith, e)) k in
      let (t₂, e₂, (k₂, index₂, count₂)) =
        compute_bins-Keeps self peer remaining (b + 1) t₁ _ _ _ _ rs rp (omega (arith, e)) k₁
          (index₁, count₁) in
      let joined =
        Keeps-append t₂ is cs (matches (bin b items) (bin b peers)) (bin_rows remaining (b + 1)) _ q
          k₂ in
      (
        t₂,
        rw (e₁) e₂,
        (
          record {
            kept = joined.kept;
            total_kept = omega (arith, joined.total_kept);
            inter_kept = joined.inter_kept;
          },
          index₂,
          count₂,
        ),
      )

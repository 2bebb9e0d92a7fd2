-- ===== src/UbPsi/Threads.antt =====
-- The threads of `ComputeIndicesWithDupCnt` (psi/utils/ec_point_store.cc), each with its own vectors.
use mathlib.Core.List.{Permᴰ, append_assoc}
use mathlib.Core.List.Permᴰ
use psi.Prelude.{
  ℕ, suc, ◌+◌, ◌≡◌, refl, ◌∙◌, ap, Option, none, some, List, [], ◌∷◌, ◌++◌, length, arith,
}
use psi.Prelude.Bytes.{Bytes, concat}
use psi.Ecdh.{DupCnt, dup_at}
use psi.Indices.{piece}
use psi.Indices.Pieces.{scan_pieces}
use psi.UbPsi.Store.{MemoryStore, CacheIndex, Match, push_match, find, compare_items, compare_batch}

pub push_match-append :
    (o : Option CacheIndex) (j c : ℕ) (xs ys : List Match)
    → push_match o j c (xs ++ ys) ≡ push_match o j c xs ++ ys
push_match-append none j c xs ys = refl
push_match-append (some entry) j c xs ys = refl

swap_middle : (a b c d : List Match) → Permᴰ (a ++ b ++ (c ++ d)) (a ++ c ++ (b ++ d))
swap_middle a b c d =
    rw
      (
        append_assoc a b (c ++ d),
        append_assoc a c (b ++ d),
        ← append_assoc b c d,
        ← append_assoc c b d,
      )
      (Permᴰ.append_left a (Permᴰ.append_right d (Permᴰ.append_comm b c)))

module _ (self : MemoryStore) (peer_cnt : DupCnt) (processed_cnt : ℕ) where
  unfoldable pub scan : ℕ → List Bytes → List Match
  scan p items = compare_items self peer_cnt processed_cnt p items

  pub scan-nil : (p : ℕ) → scan p [] ≡ []
  unfolding scan compare_items
  scan-nil p = refl

  pub scan-append :
      (p : ℕ) (xs ys : List Bytes) → scan p (xs ++ ys) ≡ scan p xs ++ scan (p + length xs) ys
  unfolding scan compare_items
  scan-append p [] ys =
      let e : p ≡ p + 0 = omega arith in ap (λ k. compare_items self peer_cnt processed_cnt k ys) e
  scan-append p (x ∷ xs) ys =
      let e : p + 1 + length xs ≡ p + suc (length xs) = omega arith in
      let rest =
        scan-append (p + 1) xs ys
        ∙ ap (λ k. scan (p + 1) xs ++ compare_items self peer_cnt processed_cnt k ys) e in
      ap (push_match (find self x) (processed_cnt + p) (dup_at peer_cnt p)) rest
      ∙ push_match-append (find self x) (processed_cnt + p) (dup_at peer_cnt p) (scan (p + 1) xs)
          (scan (p + suc (length xs)) ys)

  -- The threads' vectors hold what they held and the pieces.
  pub compare_batch-perm :
      (size : ℕ) (items : List Bytes) (idx : ℕ) (threads : List (List Match))
      → Permᴰ
          (concat (compare_batch self peer_cnt processed_cnt size items idx threads))
          (concat threads ++ scan_pieces scan scan-nil scan-append size items (length threads) idx)
  unfolding compare_batch scan
  compare_batch-perm size items idx [] = Permᴰ.nil
  compare_batch-perm size items idx (found ∷ threads) =
      let here : List Match = scan (piece size items idx).0 (piece size items idx).1 in
      let others : List Match = concat threads in
      let later : List Match =
        scan_pieces scan scan-nil scan-append size items (length threads) (idx + 1) in
      let rest = compare_batch-perm size items (idx + 1) threads in
      Permᴰ.trans (Permᴰ.append_left (found ++ here) rest) (swap_middle found here others later)

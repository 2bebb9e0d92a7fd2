-- ===== src/UbPsi/Chunks.antt =====
-- The batches of the client's file, as its provider of psi/utils/ec_point_store.cc gives them.
use psi.Prelude.{
  ℕ, zero, suc, ◌≡◌, ◌<◌, min, refl, ◌∙◌, ap, false, List, [], ◌∷◌, ◌++◌, map, length, length-drop,
  take, drop, take-append-drop, ok, arith,
}
use psi.Prelude.Bytes.{Bytes, is_nil, concat}
use psi.Prelude.Count.{All}
use psi.Ecdh.{DupCnt}
use psi.UbPsi.Store.{texts, file_dups, read_batch_with_dup_cnt, read_file}
use psi.UbPsi.Reading.{is_nil-take}

-- A batch of the file.
abbrev pub chunk_batch : List (Bytes × ℕ) → List Bytes × DupCnt
chunk_batch chunk = (texts chunk, file_dups 0 chunk)

-- No chunk is empty.
abbrev pub FullChunks : List (List (Bytes × ℕ)) → Type 0
FullChunks chunks = All (λ c. is_nil c ≡ false) chunks

pub is_nil-texts : (chunk : List (Bytes × ℕ)) → is_nil (texts chunk) ≡ is_nil chunk
is_nil-texts [] = refl
is_nil-texts ((item, c) ∷ chunk) = refl

pub length-texts : (chunk : List (Bytes × ℕ)) → length (texts chunk) ≡ length chunk
length-texts [] = refl
length-texts ((item, c) ∷ chunk) = ap suc (length-texts chunk)

-- The reader's batches.
pub read_file-Returns :
    (fuel batch_size : ℕ) (items : List (Bytes × ℕ))
    → length items < fuel
    → 0 < batch_size
    → (chunks : List (List (Bytes × ℕ))) × (read_file fuel batch_size items
        ≡ ok (map chunk_batch chunks))
      × (concat chunks ≡ items)
      × FullChunks chunks
unfolding read_file read_batch_with_dup_cnt
read_file-Returns zero batch_size items h pos = absurd (omega arith)
read_file-Returns (suc fuel) batch_size [] h pos =
    let none_left : min batch_size 0 ≡ 0 = omega arith in ([], rw none_left refl, refl, tt)
read_file-Returns (suc fuel) batch_size (i ∷ items) h pos =
    let all : List (Bytes × ℕ) = i ∷ items in
    let n : ℕ = min batch_size (length all) in
    let (chunks, reads, whole, full) =
      read_file-Returns fuel batch_size (drop n all) (omega (arith, h, pos, length-drop n all))
        pos in
    let more : is_nil (take n all) ≡ false = is_nil-take n i items (omega (arith, pos)) in
    let more_items : is_nil (texts (take n all)) ≡ false = is_nil-texts (take n all) ∙ more in
    (
      take n all ∷ chunks,
      rw (more_items, reads) refl,
      ap (λ l. take n all ++ l) whole ∙ take-append-drop n all,
      (more, full),
    )

-- ===== src/HashBucket/Tests.antt =====
-- Concrete stores. A number is written here as so many 1s, so the texts split as the laws say.
use mathlib.Core.List.{append_assoc, append-nil}
use psi.Prelude.{
  ℕ, zero, suc, ◌+◌, ◌%◌, ◌^◌, ◌<◌, ◌≡◌, refl, none, some, List, [], ◌∷◌, ◌++◌, map, Returns, arith,
  ap, ltb, if◌then◌else◌, ◌==◌, lt→ltb, ◌∙◌, replicate, ap₂, false, sym,
}
use psi.Prelude.Bytes.{Bytes, bytes_eq}
use psi.Prelude.Count.{All, total}
use psi.Ecdh.{Batch, dup_at}
use psi.IndexStore.Writing.{columns}
use psi.HashBucket.{Text}
use psi.HashBucket.Cache.{IsText}
use psi.HashBucket.Matching.{entries, IsSmall}
use psi.HashBucket.Finalize.{Row, index_of, count_of, copies}
use psi.HashBucket.Common.{
  common, entry_copies, IsReordering, finalize_providers, finalize_and_compute_indices-common,
}

abbrev count_ones : Bytes → ℕ
count_ones [] = 0
count_ones (b ∷ bs) = suc (count_ones bs)

-- The escape moves every byte above the comma.
abbrev above : Bytes → Bytes
above [] = []
above (b ∷ bs) = (b + 45) ∷ above bs

-- The fields of a line whose current field has been read up to here.
abbrev split_from : Bytes → Bytes → List Bytes
split_from field [] = field ∷ []
split_from field (b ∷ bs) =
    let ended = field ∷ split_from [] bs in
    let more = split_from (field ++ b ∷ []) bs in if b == 44 then ended else more

abbrev ones_text : Text
ones_text = record {
  format = λ n. replicate n 49;
  simple_atoi =
      λ bits token. if ltb (count_ones token) (2 ^ bits) then some (count_ones token) else none;
  str_split = split_from [];
  base64_escape = above;
  hash = count_ones;
}

count_ones-replicate : (n : ℕ) → count_ones (replicate n 49) ≡ n
count_ones-replicate zero = refl
count_ones-replicate (suc n) = ap suc (count_ones-replicate n)

ones_read_back :
    (bits n : ℕ) → n < 2 ^ bits → ones_text.simple_atoi bits (ones_text.format n) ≡ some n
ones_read_back bits n h = rw (count_ones-replicate n, lt→ltb n (2 ^ bits) h) refl

split_ones :
    (n : ℕ) (field rest : Bytes)
    → split_from field (replicate n 49 ++ (44 ∷ rest))
      ≡ (field ++ replicate n 49) ∷ split_from [] rest
split_ones zero field rest = ap (λ l. l ∷ split_from [] rest) (sym (append-nil field))
split_ones (suc n) field rest =
    split_ones n (field ++ 49 ∷ []) rest
    ∙ ap (λ l. l ∷ split_from [] rest) (append_assoc field (49 ∷ []) (replicate n 49))

split_above : (bytes field : Bytes) → split_from field (above bytes) ≡ (field ++ above bytes) ∷ []
split_above [] field = ap (λ l. l ∷ []) (sym (append-nil field))
split_above (b ∷ bs) field =
    let other : (b + 45 == 44) ≡ false = ground arith in
    rw other (
      split_above bs (field ++ (b + 45) ∷ [])
      ∙ ap (λ l. l ∷ []) (append_assoc field ((b + 45) ∷ []) (above bs)))

above_inj : (x y : Bytes) → above x ≡ above y → x ≡ y
above_inj [] [] e = refl
above_inj [] (b ∷ y) e = cc
above_inj (a ∷ x) [] e = cc
above_inj (a ∷ x) (b ∷ y) e =
    let head : a + 45 ≡ b + 45 = cc in
    let tail : above x ≡ above y = cc in
    let same : a ≡ b = omega arith in ap₂ ◌∷◌ same (above_inj x y tail)

ones_laws : IsText ones_text
ones_laws = record {
  reads_back = ones_read_back;
  splits = λ a b bytes.
      split_ones a [] (replicate b 49 ++ (44 ∷ above bytes))
      ∙ ap (λ l. replicate a 49 ∷ l)
          (split_ones b [] (above bytes) ∙ ap (λ l. replicate b 49 ∷ l) (split_above bytes []));
  escape_inj = above_inj;
}

-- Items 1, 2, 2 2 and 3 against 2 2 (with an extra copy), 7 and 1.
abbrev mine : List Batch
mine = ((1 ∷ []) ∷ (2 ∷ []) ∷ [], []) ∷ ((2 ∷ 2 ∷ []) ∷ (3 ∷ []) ∷ [], (1, 4) ∷ []) ∷ []

abbrev theirs : List Batch
theirs = ((2 ∷ 2 ∷ []) ∷ (7 ∷ []) ∷ (1 ∷ []) ∷ [], (0, 1) ∷ []) ∷ []

common_two : common 0 (entries mine) (entries theirs) ≡ (0, 0) ∷ (2, 1) ∷ []
unfolding dup_at bytes_eq
common_two = refl

mine-IsSmall : All IsSmall (entries mine)
unfolding dup_at
mine-IsSmall = (omega arith, (omega arith, (omega arith, (omega arith, tt))))

theirs-IsSmall : All IsSmall (entries theirs)
unfolding dup_at
theirs-IsSmall = (omega arith, (omega arith, (omega arith, tt)))

finalize_and_compute_indices-common_example :
    Returns (finalize_providers ones_text 2 mine theirs) (λ t.
      (rows : List Row) × (columns t.writer.outfile ≡ (map index_of rows, map count_of rows))
      × IsReordering rows (common 0 (entries mine) (entries theirs))
      × (t.peer_total_cnt ≡ total entry_copies (entries theirs) % 2 ^ 32)
      × (t.peer_inter_cnt ≡ total copies (common 0 (entries mine) (entries theirs)) % 2 ^ 32))
finalize_and_compute_indices-common_example =
    finalize_and_compute_indices-common ones_text ones_laws 2 mine theirs (omega arith)
      (omega arith) (omega arith) mine-IsSmall theirs-IsSmall

-- ===== src/Bucket/Receiving.antt =====
-- `HandleBucketResultByReceiver` of psi/utils/bucket.cc.
use mathlib.Core.List.{append_assoc, append-nil}
use psi.Prelude.{ℕ, ◌≡◌, refl, List, [], ◌∷◌, ◌++◌, map, length, Returns, arith, sym}
use psi.IndexStore.{IndexWriter}
use psi.IndexStore.Writing.{Holds, write_cache-Holds, commit-Holds}
use psi.HashBucket.{BucketItem}
use psi.Bucket.{write_receiver, handle_bucket_result_by_receiver}

abbrev pub indexes_of_items : List BucketItem → List ℕ
indexes_of_items = map (λ item. item.index)

write_receiver-Holds :
    (items : List BucketItem) (cnts : List ℕ) (w : IndexWriter) (is cs : List ℕ)
    → length items ≡ length cnts
    → Holds w is cs
    → Returns
        (write_receiver items cnts w)
        (λ w'. Holds w' (is ++ indexes_of_items items) (cs ++ cnts))
unfolding write_receiver
write_receiver-Holds [] [] w is cs e h = (w, refl, rw (append-nil is, append-nil cs) h)
write_receiver-Holds [] (c ∷ cnts) w is cs e h = absurd (omega arith)
write_receiver-Holds (item ∷ items) [] w is cs e h = absurd (omega arith)
write_receiver-Holds (item ∷ items) (c ∷ cnts) w is cs e h =
    let (w₁, e₁, h₁) = write_cache-Holds item.index c w is cs h in
    let (w₂, e₂, h₂) =
      write_receiver-Holds items cnts w₁ (is ++ item.index ∷ []) (cs ++ c ∷ []) (omega (arith, e))
        h₁ in
    (
      w₂,
      rw (e₁) e₂,
      rw
          (
            sym (append_assoc is (item.index ∷ []) (indexes_of_items items)),
            sym (append_assoc cs (c ∷ []) cnts),
          )
          h₂,
    )

-- With a count for each item of its result, the receiver writes every item's index with the peer's
-- count, after the rows that its writer holds, and commits them all.
pub handle_bucket_result_by_receiver-rows :
    (result_list : List BucketItem) (peer_extra_dup_cnt : List ℕ) (w : IndexWriter) (is cs : List ℕ)
    → length result_list ≡ length peer_extra_dup_cnt
    → Holds w is cs
    → Returns (handle_bucket_result_by_receiver result_list peer_extra_dup_cnt w) (λ w'.
      Holds w' (is ++ indexes_of_items result_list) (cs ++ peer_extra_dup_cnt)
      × (w'.index_builder ≡ [])
      × (w'.cnt_builder ≡ []))
unfolding handle_bucket_result_by_receiver
handle_bucket_result_by_receiver-rows result_list cnts w is cs e h =
    let (w₁, e₁, h₁) = write_receiver-Holds result_list cnts w is cs e h in
    let (w₂, e₂, kept) = commit-Holds w₁ _ _ h₁ in (w₂, rw (e₁) e₂, kept)

-- ===== src/Bucket/Sharing.antt =====
-- `BroadcastResult` of psi/utils/sync.cc and `HandleBucketResultBySender` of psi/utils/bucket.cc.
use mathlib.Core.List.{append_assoc, append-nil}
use psi.Prelude.{
  ℕ, suc, ◌+◌, ◌<◌, ◌≤◌, ◌≡◌, refl, Bool, true, false, Option, none, some, List, [], ◌∷◌, ◌++◌, map,
  length, length-map, ◌⊎◌, ok, Returns, ltb, ◌==◌, Bool-cases, inl, inr, arith, ap, sym, ◌∙◌, max,
}
use psi.Prelude.Bytes.{Bytes, bytes_eq, bytes_eq_iff}
use psi.Prelude.Count.{All}
use psi.Ecdh.{DupCnt, dup_at}
use psi.IndexStore.{IndexWriter}
use psi.IndexStore.Writing.{Holds, write_cache-Holds, commit-Holds}
use psi.HashBucket.{BucketItem, find_item}
use psi.HashBucket.Finalize.{Row, index_of, count_of, row_for, matches, map-append}
use psi.Bucket.{
  Shared, find_broadcast_rank, take_shared, broadcast_result, peer_result, find_result, write_found,
  write_results, handle_bucket_result_by_sender, extra_dup_cnts, shared_by_receiver,
}

abbrev pub no_result : Shared
no_result = record { res = []; res_dup_cnt = [] }

abbrev pub result_of : Bytes → List Bytes → DupCnt → Shared
result_of x xs dup = record { res = x ∷ xs; res_dup_cnt = dup }

-- Two parties of which one has a result that is not empty: both end with it, whichever comes first
-- by rank. Where neither has one, nothing changes.
pub broadcast_result-two :
    (x : Bytes) (xs : List Bytes) (dup : DupCnt)
    → (broadcast_result (result_of x xs dup ∷ no_result ∷ [])
        ≡ ok (result_of x xs dup ∷ result_of x xs dup ∷ []))
      × (broadcast_result (no_result ∷ result_of x xs dup ∷ [])
          ≡ ok (result_of x xs dup ∷ result_of x xs dup ∷ []))
      × (broadcast_result (no_result ∷ no_result ∷ []) ≡ ok (no_result ∷ no_result ∷ []))
unfolding broadcast_result find_broadcast_rank take_shared
broadcast_result-two x xs dup =
    let some_size : ltb 0 (suc (length xs)) ≡ true = ground arith in
    let left : (max (suc (length xs)) (max 0 0) == 0) ≡ false = ground arith in
    let right : (max 0 (max (suc (length xs)) 0) == 0) ≡ false = ground arith in
    (rw (some_size, left) refl, rw (some_size, right) refl, refl)

-- Where the parties of ranks 0 and 1 both have results that are not empty, the check that only one
-- party has them does not fail, and each keeps its own.
pub broadcast_result-two_results :
    (x y : Bytes) (xs ys : List Bytes) (dup dup' : DupCnt)
    → broadcast_result (result_of x xs dup ∷ result_of y ys dup' ∷ [])
      ≡ ok (result_of x xs dup ∷ result_of y ys dup' ∷ [])
unfolding broadcast_result find_broadcast_rank take_shared
broadcast_result-two_results x y xs ys dup dup' =
    let one : ltb 0 (suc (length xs)) ≡ true = ground arith in
    let two : ltb 0 (suc (length ys)) ≡ true = ground arith in
    let any : (max (suc (length xs)) (max (suc (length ys)) 0) == 0) ≡ false = ground arith in
    rw (one, two, any) refl

-- Items whose texts are all different.
abbrev pub AreDistinct : List BucketItem → Type 0
AreDistinct [] = Unit {0}
AreDistinct (item ∷ items) = (find_item item.base64_data items ≡ none) × AreDistinct items

abbrev pub texts : List BucketItem → List Bytes
texts = map (λ item. item.base64_data)

abbrev dup_of : Option BucketItem → Option ℕ → Option ℕ
dup_of none other = other
dup_of (some item) other = some item.extra_dup_cnt

dup_at-below : (k i : ℕ) (items : List BucketItem) → k < i → dup_at (extra_dup_cnts i items) k ≡ 0
unfolding dup_at extra_dup_cnts
dup_at-below k i [] h = refl
dup_at-below k i (item ∷ items) h =
    let rest = dup_at-below k (i + 1) items (omega (arith, h)) in
    let other : (i == k) ≡ false = ground arith in
    elim (Bool-cases (ltb 0 item.extra_dup_cnt)) [ inl e ↦ rw (e, other) rest | inr e ↦ rw e rest ]

-- Two maps of counts with the same values from `i` on.
abbrev AgreeFrom : ℕ → DupCnt → DupCnt → Type 0
AgreeFrom i d d' = (k : ℕ) → i ≤ k → dup_at d k ≡ dup_at d' k

dup_at-first :
    (i : ℕ) (item : BucketItem) (items : List BucketItem)
    → dup_at (extra_dup_cnts i (item ∷ items)) i ≡ item.extra_dup_cnt
unfolding dup_at extra_dup_cnts
dup_at-first i item items =
    let rest = dup_at-below i (i + 1) items (omega arith) in
    let same : (i == i) ≡ true = ground arith in
    elim (Bool-cases (ltb 0 item.extra_dup_cnt)) [
      | inl e ↦ rw (e, same) refl
      | inr e ↦ let none_more : item.extra_dup_cnt ≡ 0 = ground arith in rw e (rest ∙ sym none_more)
    ]

dup_at-later :
    (i k : ℕ) (item : BucketItem) (items : List BucketItem)
    → i + 1 ≤ k
    → dup_at (extra_dup_cnts i (item ∷ items)) k ≡ dup_at (extra_dup_cnts (i + 1) items) k
unfolding dup_at extra_dup_cnts
dup_at-later i k item items h =
    let other : (i == k) ≡ false = ground arith in
    elim (Bool-cases (ltb 0 item.extra_dup_cnt)) [ inl e ↦ rw (e, other) refl | inr e ↦ rw e refl ]

find_result-peer_result :
    (x : Bytes) (i : ℕ) (items : List BucketItem) (d : DupCnt) (acc : List (Bytes × ℕ))
    → AreDistinct items
    → AgreeFrom i d (extra_dup_cnts i items)
    → find_result x (peer_result i (texts items) d acc)
      ≡ dup_of (find_item x items) (find_result x acc)
unfolding find_result peer_result find_item
find_result-peer_result x i [] d acc h agree = refl
find_result-peer_result x i (item ∷ items) d acc h agree =
    let here : dup_at d i ≡ item.extra_dup_cnt =
      agree i (omega arith) ∙ dup_at-first i item items in
    let later : AgreeFrom (i + 1) d (extra_dup_cnts (i + 1) items) =
      λ k le. agree k (omega arith) ∙ dup_at-later i k item items le in
    let rest =
      find_result-peer_result x (i + 1) items d ((item.base64_data, dup_at d i) ∷ acc) h.1 later in
    elim (Bool-cases (bytes_eq item.base64_data x)) [
      | inl e ↦
          let only : find_item x items ≡ none =
            ap (λ l. find_item l items) (sym ((bytes_eq_iff item.base64_data x).0 e)) ∙ h.0 in
          rw e (rest ∙ rw (only, e) (ap some here))
      | inr e ↦ rw e (rest ∙ rw e refl)
    ]

abbrev row_of_dup : BucketItem → Option ℕ → List Row
row_of_dup item none = []
row_of_dup item (some cnt) = (item.index, cnt) ∷ []

write_found-Holds :
    (all : Bool) (item : BucketItem) (found : Option BucketItem) (w : IndexWriter) (is cs : List ℕ)
    → (all ≡ false) ⊎ ¬ (found ≡ none)
    → Holds w is cs
    → Returns (write_found all item.index (dup_of found none) w) (λ w'.
      Holds w' (is ++ map index_of (row_for item found)) (cs ++ map count_of (row_for item found)))
unfolding write_found
write_found-Holds true item none w is cs (inl e) h = absurd (cc)
write_found-Holds true item none w is cs (inr e) h = absurd (e refl)
write_found-Holds false item none w is cs e h = (w, refl, rw (append-nil is, append-nil cs) h)
write_found-Holds true item (some peer) w is cs e h =
    write_cache-Holds item.index peer.extra_dup_cnt w is cs h
write_found-Holds false item (some peer) w is cs e h =
    write_cache-Holds item.index peer.extra_dup_cnt w is cs h

-- Every one of the items is among the results.
abbrev pub AreFound : List BucketItem → List BucketItem → Type 0
AreFound result_list items = All (λ item. ¬ (find_item item.base64_data result_list ≡ none)) items

write_results-Holds :
    (all : Bool) (result_list items : List BucketItem) (w : IndexWriter) (is cs : List ℕ)
    → AreDistinct result_list
    → (all ≡ false) ⊎ AreFound result_list items
    → Holds w is cs
    → Returns
        (write_results all
          (peer_result 0 (texts result_list) (extra_dup_cnts 0 result_list) [])
          items
          w)
        (λ w'.
          Holds w'
            (is ++ map index_of (matches items result_list))
            (cs ++ map count_of (matches items result_list)))
unfolding write_results find_result
write_results-Holds all rl [] w is cs d found h = (w, refl, rw (append-nil is, append-nil cs) h)
write_results-Holds all rl (item ∷ items) w is cs d found h =
    let x = item.base64_data in
    let looked : find_result x (peer_result 0 (texts rl) (extra_dup_cnts 0 rl) [])
        ≡ dup_of (find_item x rl) none =
      find_result-peer_result x 0 rl (extra_dup_cnts 0 rl) [] d (λ k le. refl) in
    let (now, later) : ((all ≡ false) ⊎ ¬ (find_item x rl ≡ none))
        × ((all ≡ false) ⊎ AreFound rl items) =
      elim found [ inl e ↦ (inl e, inl e) | inr f ↦ (inr f.0, inr f.1) ] in
    let (w₁, e₁, h₁) = write_found-Holds all item (find_item x rl) w is cs now h in
    let (w₂, e₂, h₂) = write_results-Holds all rl items w₁ _ _ d later h₁ in
    let m₁ = row_for item (find_item x rl) in
    let m₂ = matches items rl in
    (
      w₂,
      rw (looked, e₁) e₂,
      rw
          (
            map-append index_of m₁ m₂,
            map-append count_of m₁ m₂,
            sym (append_assoc is (map index_of m₁) (map index_of m₂)),
            sym (append_assoc cs (map count_of m₁) (map count_of m₂)),
          )
          h₂,
    )

-- Where the texts of the receiver's result are all different, and those of the sender's items are all
-- among them if there are as many, a sender that gets the result's texts and counts writes a row for
-- each of its items that is in the result, with its index and the result's count of extra copies, and
-- commits them.
pub handle_bucket_result_by_sender-rows :
    (first : BucketItem) (others items : List BucketItem) (w : IndexWriter) (is cs : List ℕ)
    → AreDistinct (first ∷ others)
    → (length (first ∷ others) == length items ≡ false) ⊎ AreFound (first ∷ others) items
    → Holds w is cs
    → Returns
        (handle_bucket_result_by_sender true (shared_by_receiver (first ∷ others)) items w)
        (λ w'.
          Holds w'
            (is ++ map index_of (matches items (first ∷ others)))
            (cs ++ map count_of (matches items (first ∷ others)))
          × (w'.index_builder ≡ [])
          × (w'.cnt_builder ≡ []))
unfolding handle_bucket_result_by_sender shared_by_receiver
handle_bucket_result_by_sender-rows first others items w is cs d found h =
    let same_size : length (texts (first ∷ others)) ≡ length (first ∷ others) =
      length-map (first ∷ others) (λ item. item.base64_data) in
    let (w₁, e₁, h₁) =
      write_results-Holds (length (first ∷ others) == length items) (first ∷ others) items w is cs d
        found h in
    let (w₂, e₂, kept) = commit-Holds w₁ _ _ h₁ in (w₂, rw (same_size, e₁) e₂, kept)

-- ===== src/HashBucket/Cache.antt =====
-- `WriteItem` and `LoadBucketItems` of psi/utils/hash_bucket_cache.cc, by the items that the buckets
-- hold.
use mathlib.Core.List.{append-nil}
use psi.Prelude.{
  ℕ, zero, suc, ◌+◌, ◌%◌, ◌^◌, ◌<◌, ◌≡◌, refl, some, List, [], ◌∷◌, ◌++◌, map, length,
  length-append, length-set, set, get_elem?, ok, ◌>>=◌, at, rem, rem_pos, of_option, Returns, ◌==◌,
  if◌then◌else◌, Bool-cases, inl, inr, arith, ap, sym, ◌∙◌, ==_iff,
}
use psi.Prelude.Bytes.{Bytes}
use psi.Prelude.Count.{All, All-append, at-set_self, at-set_ne}
use psi.HashBucket.{
  Text, BucketItem, HashBucketCache, comma, serialize, to_number, from_tokens, deserialize,
  write_item, load_lines, load_bucket_items,
}

-- Numbers are read back, a line splits at its two commas, and the escape keeps texts apart.
pub record IsText (text : Text) : Type 0 where
  pub reads_back : (bits n : ℕ) → n < 2 ^ bits → text.simple_atoi bits (text.format n) ≡ some n
  pub splits :
      (a b : ℕ) (bytes : Bytes)
      → text.str_split
          (text.format a ++ (comma ∷ (text.format b ++ (comma ∷ text.base64_escape bytes))))
        ≡ text.format a ∷ text.format b ∷ text.base64_escape bytes ∷ []
  pub escape_inj : (x y : Bytes) → text.base64_escape x ≡ text.base64_escape y → x ≡ y

module _ (text : Text) (laws : IsText text) where
  -- Loading gives what was written of these.
  abbrev pub IsStored : BucketItem → Type 0
  IsStored item =
      (item.index < 2 ^ 64)
      × (item.extra_dup_cnt < 2 ^ 32)
      × ((bytes : Bytes) × (item.base64_data ≡ text.base64_escape bytes))

  deserialize-serialize :
      (item : BucketItem) → IsStored item → deserialize text (serialize text item) ≡ ok item
  unfolding deserialize serialize from_tokens to_number
  deserialize-serialize item (small, few, (bytes, e)) =
      ap
        (λ d. from_tokens text (
          text.str_split
            (text.format item.index ++ (comma ∷ (text.format item.extra_dup_cnt ++ (comma ∷ d))))))
        e
      ∙ ap (from_tokens text) (laws.splits item.index item.extra_dup_cnt bytes)
      ∙ rw (laws.reads_back 64 item.index small, laws.reads_back 32 item.extra_dup_cnt few) refl
      ∙ ap
          (λ d.
            ok (record { index = item.index; extra_dup_cnt = item.extra_dup_cnt; base64_data = d }))
          (sym e)

  pub load_lines-map :
      (items : List BucketItem)
      → All IsStored items
      → load_lines text (map (serialize text) items) ≡ ok items
  unfolding load_lines
  load_lines-map [] h = refl
  load_lines-map (item ∷ items) h =
      rw (deserialize-serialize item h.0, load_lines-map items h.1) refl

  abbrev pub bucket_of : ℕ → BucketItem → ℕ
  bucket_of n item = text.hash item.base64_data % n

  abbrev pub in_bucket : ℕ → ℕ → List BucketItem → List BucketItem
  in_bucket n b [] = []
  in_bucket n b (item ∷ items) =
      if bucket_of n item == b then item ∷ in_bucket n b items else in_bucket n b items

  in_bucket-append_one :
      (n b : ℕ) (items : List BucketItem) (item : BucketItem)
      → in_bucket n b (items ++ item ∷ [])
        ≡ in_bucket n b items ++ (if bucket_of n item == b then item ∷ [] else [])
  in_bucket-append_one n b [] item = refl
  in_bucket-append_one n b (x ∷ items) item = elim (Bool-cases (bucket_of n x == b)) [
    | inl e ↦ rw e (ap (λ l. x ∷ l) (in_bucket-append_one n b items item))
    | inr e ↦ rw e (in_bucket-append_one n b items item)
  ]

  pub in_bucket-stored :
      (n b : ℕ) (items : List BucketItem) → All IsStored items → All IsStored (in_bucket n b items)
  in_bucket-stored n b [] h = tt
  in_bucket-stored n b (x ∷ items) h = elim (Bool-cases (bucket_of n x == b)) [
    | inl e ↦ rw e (h.0, in_bucket-stored n b items h.1)
    | inr e ↦ rw e (in_bucket-stored n b items h.1)
  ]

  -- A store of `n` buckets to which these items were written.
  pub record Represents (c : HashBucketCache) (n : ℕ) (items : List BucketItem) : Type 0 where
    pub width : length c.bucket_os_vec ≡ n
    pub buckets :
        (b : ℕ) → b < n → at c.bucket_os_vec b ≡ ok (map (serialize text) (in_bucket n b items))
    pub counted : c.item_index ≡ length items
    pub stored : All IsStored items

  get_elem?-at : {A : Type 0} (l : List A) (i : ℕ) {a : A} → at l i ≡ ok a → get_elem? l i ≡ some a
  get_elem?-at [] i e = cc
  get_elem?-at (x ∷ l) zero e = cc
  get_elem?-at (x ∷ l) (suc i) e = get_elem?-at l i e

  pub load_bucket_items-eq :
      (c : HashBucketCache) (n b : ℕ) (items : List BucketItem)
      → Represents c n items
      → b < n
      → load_bucket_items text b c ≡ ok (in_bucket n b items)
  unfolding load_bucket_items
  load_bucket_items-eq c n b items r h =
      ap (λ o. of_option o >>= load_lines text) (get_elem?-at c.bucket_os_vec b (r.buckets b h))
      ∙ load_lines-map (in_bucket n b items) (in_bucket-stored n b items r.stored)

  abbrev pub item_at : ℕ → Bytes → ℕ → BucketItem
  item_at i bytes dup = record {
    index = i;
    extra_dup_cnt = dup;
    base64_data = text.base64_escape bytes;
  }

  map-append_one :
      {A B : Type 0} (f : A → B) (l : List A) (a : A) → map f (l ++ a ∷ []) ≡ map f l ++ f a ∷ []
  map-append_one f [] a = refl
  map-append_one f (x ∷ l) a = ap (λ m. f x ∷ m) (map-append_one f l a)

  written_bucket :
      (vec : List (List Bytes)) (n : ℕ) (items : List BucketItem) (item : BucketItem)
      → length vec ≡ n
      → ((b : ℕ) → b < n → at vec b ≡ ok (map (serialize text) (in_bucket n b items)))
      → bucket_of n item < n
      → (b' : ℕ) → b' < n
      → at
          (set vec (bucket_of n item) (
            map (serialize text) (in_bucket n (bucket_of n item) items)
            ++ serialize text item ∷ []))
          b'
        ≡ ok (map (serialize text) (in_bucket n b' (items ++ item ∷ [])))
  written_bucket vec n items item width buckets lt b' h' =
      let b : ℕ = bucket_of n item in
      let line = serialize text item ∷ [] in
      elim (Bool-cases (b == b')) [
        | inl e ↦
            let same : b ≡ b' = (==_iff b b').0 e in
            rw
              (
                in_bucket-append_one n b' items item,
                e,
                map-append_one (serialize text) (in_bucket n b' items) item,
              )
              (rw (same) (
                at-set_self vec b' (map (serialize text) (in_bucket n b' items) ++ line)
                  (omega (arith, width, h'))))
        | inr e ↦
            let differ : ¬ (b ≡ b') = λ same. absurd (ground arith) in
            rw (in_bucket-append_one n b' items item, e, append-nil (in_bucket n b' items))
              (at-set_ne vec b b' (map (serialize text) (in_bucket n b items) ++ line) differ
                ∙ buckets b' h')
      ]

  pub write_item-Represents :
      (c : HashBucketCache) (n : ℕ) (items : List BucketItem) (bytes : Bytes) (dup : ℕ)
      → Represents c n items
      → 0 < n
      → length items + 1 < 2 ^ 64
      → dup < 2 ^ 32
      → Returns
          (write_item text bytes dup c)
          (λ c'. Represents c' n (items ++ item_at (length items) bytes dup ∷ []))
  unfolding write_item
  write_item-Represents c n items bytes dup r pos room few =
      let item = item_at (length items) bytes dup in
      let b : ℕ = bucket_of n item in
      let b_lt : b < n = omega (arith, pos) in
      let old = in_bucket n b items in
      let lines = map (serialize text) old in
      let division : rem (text.hash (text.base64_escape bytes)) (length c.bucket_os_vec) ≡ ok b =
        ap (rem (text.hash (text.base64_escape bytes))) r.width ∙ rem_pos _ n pos in
      let bucket_after : (b' : ℕ)
          → b' < n
          → at (set c.bucket_os_vec b (lines ++ serialize text item ∷ [])) b'
            ≡ ok (map (serialize text) (in_bucket n b' (items ++ item ∷ []))) =
        written_bucket c.bucket_os_vec n items item r.width r.buckets b_lt in
      (
        record {
          bucket_os_vec = set c.bucket_os_vec b (lines ++ serialize text item ∷ []);
          item_index = (length items + 1) % 2 ^ 64;
        },
        rw (division, r.buckets b b_lt, r.counted) refl,
        record {
          width = length-set c.bucket_os_vec b (lines ++ serialize text item ∷ []) ∙ r.width;
          buckets = bucket_after;
          counted = omega (arith, length-append items (item ∷ []), room);
          stored =
              All-append IsStored items (item ∷ []) r.stored
                ((omega (arith, room), few, (bytes, refl)), tt);
        },
      )

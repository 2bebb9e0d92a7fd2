-- ===== src/Ecdh.antt =====
-- psi/algorithm/ecdh/ecdh_psi.h and .cc: the two-party protocol, with the batch codec of
-- psi/utils/communication.h and the memory store of psi/utils/ec_point_store.h.
-- A link delivers in order: what one party sends on it is the list that the other receives. The
-- source runs the three tasks of a party at once; each reads only its own input list, so they run
-- one after the other here. Logging, hooks and the batch counters' wrap at 2^31 are left out.
use psi.Prelude.{
  ℕ, zero, suc, ◌+◌, ◌-◌, ◌*◌, ◌/◌, ◌%◌, ◌^◌, min, Bool, true, false, ◌&&◌, ◌||◌, Option, none,
  some, List, [], ◌∷◌, ◌++◌, map, length, take, drop, Result, ok, err, thrown, undefined, ◌>>=◌,
  ◌>>◌, enforce, ltb, leb, ◌==◌, if◌then◌else◌,
}
use psi.Prelude.Bytes.{Bytes, is_nil, concat, contains}
use psi.BatchProvider.{new, drain}
pub mod Codec
pub mod Resume
pub mod Flow
pub mod Intersection
mod Tests

-- `std::unordered_map<uint32_t, uint32_t>` from positions to counts of extra copies.
abbrev pub DupCnt : Type 0
DupCnt = List (ℕ × ℕ)

-- `map[i]`: 0 where the key is not there.
unfoldable pub dup_at : DupCnt → ℕ → ℕ
dup_at [] i = 0
dup_at ((j, c) ∷ m) i = if j == i then c else dup_at m i

-- What psi/cryptor/ecc_cryptor.h leaves to the curve library behind `ec_group_`.
pub record Curve : Type 1 where
  pub Point : Type 0
  pub hash_to_curve : Bytes → Point
  pub mul : Point → ℕ → Point
  pub serialize_ec_point : Point → Bytes
  pub deserialize_ec_point : Bytes → Point

pub data BatchType : Type 0 where
  enc dual_enc : BatchType

pub record PsiDataBatch : Type 0 where
  pub item_num : ℕ
  pub flatten_bytes : Bytes
  pub batch_index : ℕ
  pub is_last_batch : Bool
  pub type : BatchType
  pub duplicate_item_cnt : DupCnt

unfoldable pub batch_data : List Bytes → DupCnt → BatchType → ℕ → PsiDataBatch
batch_data items dup type index = record {
  item_num = length items;
  flatten_bytes = concat items;
  batch_index = index;
  is_last_batch = is_nil items;
  type = type;
  duplicate_item_cnt = if is_nil items then [] else dup;
}

-- `flatten_bytes.substr(i * item_size, item_size)` for the `n` positions from `i` on.
unfoldable pub pieces : ℕ → ℕ → ℕ → Bytes → List Bytes
pieces zero i item_size bytes = []
pieces (suc n) i item_size bytes =
    take item_size (drop (i * item_size) bytes) ∷ pieces n (i + 1) item_size bytes

-- `RecvBatchImpl`: the items and the counts.
unfoldable pub recv_batch : ℕ → PsiDataBatch → Result (List Bytes × DupCnt)
recv_batch index batch = do
  enforce (batch.batch_index == index)
  ok (
      if ltb 0 batch.item_num
      then (
        pieces batch.item_num 0 (length batch.flatten_bytes / batch.item_num) batch.flatten_bytes,
        batch.duplicate_item_cnt,
      )
      else ([], []))

abbrev pub k_all_rank : ℕ
k_all_rank = 2 ^ 64 - 1

-- The world has two ranks. `recovery` says whether a RecoveryManager is there, with the counts
-- that it knows of: `ecdh_dual_masked_cnt_from_peer` and the checkpoint's own count.
pub record Options : Type 0 where
  pub rank : ℕ
  pub target_rank : ℕ
  pub curve_type : ℕ
  pub private_key : ℕ
  pub dual_mask_size : ℕ
  pub recovery : Option (ℕ × ℕ)

unfoldable pub self_can_touch_results : Options → Bool
self_can_touch_results o = o.target_rank == k_all_rank || o.target_rank == o.rank

unfoldable pub peer_can_touch_results : Options → Bool
peer_can_touch_results o = o.target_rank == k_all_rank || o.target_rank == (o.rank + 1) % 2

-- Both parties' configuration texts must be the same.
unfoldable pub check_config : Options → Options → Result (Unit {0})
check_config mine peer =
    enforce (mine.target_rank == peer.target_rank && mine.curve_type == peer.curve_type)

-- A batch provider by the batches that it has left.
abbrev pub Batch : Type 0
Batch = List Bytes × DupCnt

abbrev pub Provider : Type 0
Provider = List Batch

-- The loop over `item_cnt`, where `processed_item_cnt` is the variable's value at that point.
unfoldable pub shift_dup_cnt : ℕ → DupCnt → DupCnt
shift_dup_cnt processed [] = []
shift_dup_cnt processed ((index, cnt) ∷ m) =
    let rest = shift_dup_cnt processed m in
    if leb processed index then (index - processed, cnt) ∷ rest else rest

-- `while (processed_item_cnt > 0)`: the batch that is left over, if the loop stopped within one,
-- and the provider. The source sets `processed_item_cnt = 0` before it shifts the counts.
unfoldable pub skip_processed : ℕ → Provider → Result (Option Batch × Provider)
skip_processed zero p = ok (none, p)
skip_processed (suc n) [] = err thrown
skip_processed (suc n) ((items, item_cnt) ∷ p) =
    let more = skip_processed (suc n - length items) p in
    if is_nil items
    then err thrown
    else if leb (length items) (suc n)
    then more
    else ok (some (drop (suc n) items, shift_dup_cnt 0 item_cnt), p)

pub record MemoryEcPointStore : Type 0 where
  pub store : List Bytes
  pub item_extra_dup_cnt_map : DupCnt
  pub item_cnt : ℕ

unfoldable pub save : MemoryEcPointStore → Bytes → ℕ → MemoryEcPointStore
save s ciphertext duplicate_cnt = record {
  store = s.store ++ ciphertext ∷ [];
  item_extra_dup_cnt_map =
      if ltb 0 duplicate_cnt
      then (length s.store, duplicate_cnt) ∷ s.item_extra_dup_cnt_map
      else s.item_extra_dup_cnt_map;
  item_cnt = s.item_cnt + 1;
}

-- `Save(masked_items)`
unfoldable pub save_all : MemoryEcPointStore → List Bytes → MemoryEcPointStore
save_all s [] = s
save_all s (c ∷ cs) = save_all (save s c 0) cs

-- The calls `Save(cipher, duplicate_item_cnt[i])` from position `i` on.
unfoldable pub save_with_dup : MemoryEcPointStore → ℕ → List Bytes → DupCnt → MemoryEcPointStore
save_with_dup s i [] dup = s
save_with_dup s i (c ∷ cs) dup = save_with_dup (save s c (dup_at dup i)) (i + 1) cs dup

pub record PeerTask : Type 0 where
  pub peer_store : MemoryEcPointStore
  pub sent : List PsiDataBatch
  pub recorded : List ℕ
  pub item_count : ℕ

pub record SelfTask : Type 0 where
  pub self_store : MemoryEcPointStore
  pub recorded : List ℕ

pub record Session : Type 0 where
  pub self_a : SelfTask
  pub peer_a : PeerTask
  pub self_b : SelfTask
  pub peer_b : PeerTask

abbrev pub empty_store : MemoryEcPointStore
empty_store = record { store = []; item_extra_dup_cnt_map = []; item_cnt = 0 }

abbrev pub peer_start : PeerTask
peer_start = record { peer_store = empty_store; sent = []; recorded = []; item_count = 0 }

abbrev pub self_start : SelfTask
self_start = record { self_store = empty_store; recorded = [] }

abbrev pub put_back : Option Batch → Provider → Provider
put_back none p = p
put_back (some b) p = b ∷ p

abbrev pub record_count : Options → MemoryEcPointStore → List ℕ → List ℕ
record_count o s recorded = elim o.recovery [
  | none ↦ recorded
  | some r ↦ recorded ++ s.item_cnt ∷ []
]

-- The last `dual_mask_size` bytes of the point masked again; a shorter text is undefined.
unfoldable pub final_bytes : ℕ → Bytes → Result Bytes
final_bytes size masked =
    if leb size (length masked) then ok (drop (length masked - size) masked) else err undefined

-- How many items `RunEcdhPsi` takes for processed.
unfoldable pub processed_item_cnt : Options → ℕ
processed_item_cnt o = elim o.recovery [
  | none ↦ 0
  | some (from_peer, self_count) ↦
      if self_can_touch_results o && peer_can_touch_results o
      then min from_peer self_count
      else if self_can_touch_results o
      then self_count
      else from_peer
]

module _ (curve : Curve) where
  open curve use {Point, hash_to_curve, mul, serialize_ec_point, deserialize_ec_point}

  -- `HashInputs`, `EccMask` and `SerializeEcPoints` of one batch.
  unfoldable pub mask_items : ℕ → List Bytes → List Bytes
  mask_items key items = map serialize_ec_point (map (λ p. mul p key) (map hash_to_curve items))

  unfoldable pub mask_batch : Options → ℕ → Batch → PsiDataBatch
  mask_batch o index (items, dup) =
      batch_data (mask_items o.private_key items) (if peer_can_touch_results o then dup else []) enc
        index

  -- `while (true)` of `MaskSelf`: a batch for each of the provider's, and an empty one at its end.
  -- The number of items goes with them.
  unfoldable pub mask_batches : Options → ℕ → ℕ → Provider → List PsiDataBatch × ℕ
  mask_batches o index item_count [] = (mask_batch o index ([], []) ∷ [], item_count)
  mask_batches o index item_count ((items, dup) ∷ p) =
      let (rest, n) = mask_batches o (index + 1) (item_count + length items) p in
      if is_nil items
      then (mask_batch o index (items, dup) ∷ [], item_count)
      else (mask_batch o index (items, dup) ∷ rest, n)

  unfoldable pub mask_self : Options → Provider → ℕ → Result (List PsiDataBatch × ℕ)
  mask_self o provider processed_item_cnt = do
    (left, p) ← skip_processed processed_item_cnt provider
    ok (mask_batches o 0 processed_item_cnt (put_back left p))

  unfoldable pub dual_mask_items : Options → List Bytes → Result (List Bytes)
  dual_mask_items o [] = ok []
  dual_mask_items o (item ∷ items) = do
    let masked = serialize_ec_point (mul (deserialize_ec_point item) o.private_key)
    cipher ← final_bytes o.dual_mask_size masked
    ciphers ← dual_mask_items o items
    ok (cipher ∷ ciphers)

  -- One round of `MaskPeer` once its batch is read and masked.
  unfoldable pub mask_peer_batch : Options → ℕ → List Bytes → DupCnt → PeerTask → PeerTask
  mask_peer_batch o index dual_masked_peers dup t =
      let store =
        if self_can_touch_results o
        then save_with_dup t.peer_store 0 dual_masked_peers dup
        else t.peer_store in
      record {
        peer_store = store;
        sent =
            if peer_can_touch_results o
            then t.sent ++ batch_data dual_masked_peers [] dual_enc index ∷ []
            else t.sent;
        recorded =
            if self_can_touch_results o && (if is_nil dual_masked_peers then false else true)
            then record_count o store t.recorded
            else t.recorded;
        item_count = t.item_count + length dual_masked_peers;
      }

  -- `MaskPeer` over the batches received; a receive past the last one fails.
  unfoldable pub mask_peer : Options → ℕ → List PsiDataBatch → PeerTask → Result PeerTask
  mask_peer o index [] t = err thrown
  mask_peer o index (b ∷ bs) t = do
    (peer_items, dup) ← recv_batch index b
    dual_masked_peers ← dual_mask_items o peer_items
    let t' = mask_peer_batch o index dual_masked_peers dup t
    let rest = mask_peer o (index + 1) bs t'
    if is_nil peer_items then ok t' else rest

  -- The loop of `RecvDualMaskedSelf`.
  unfoldable pub recv_dual_batches : Options → ℕ → List PsiDataBatch → SelfTask → Result SelfTask
  recv_dual_batches o index [] t = err thrown
  recv_dual_batches o index (b ∷ bs) t = do
    (masked_items, _) ← recv_batch index b
    let store = save_all t.self_store masked_items
    let t' = record t { self_store = store; recorded = record_count o store t.recorded }
    let rest = recv_dual_batches o (index + 1) bs t'
    if is_nil masked_items then ok (record t { self_store = store }) else rest

  unfoldable pub recv_dual_masked_self : Options → List PsiDataBatch → SelfTask → Result SelfTask
  recv_dual_masked_self o bs t =
      if self_can_touch_results o then recv_dual_batches o 0 bs t else ok t

  -- `RunEcdhPsi` of both parties on new stores.
  unfoldable pub run_ecdh_psi : Options → Options → Provider → Provider → Result Session
  run_ecdh_psi a b provider_a provider_b = do
    check_config a b
    check_config b a
    (from_a, _) ← mask_self a provider_a (processed_item_cnt a)
    (from_b, _) ← mask_self b provider_b (processed_item_cnt b)
    peer_a ← mask_peer a 0 from_b peer_start
    peer_b ← mask_peer b 0 from_a peer_start
    self_a ← recv_dual_masked_self a peer_b.sent self_start
    self_b ← recv_dual_masked_self b peer_a.sent self_start
    ok (record { self_a = self_a; peer_a = peer_a; self_b = self_b; peer_b = peer_b })

-- The loop over `self_results`: the items whose cipher is among the peer's.
unfoldable pub matching_items : List Bytes → List Bytes → List Bytes → Result (List Bytes)
matching_items items [] peer_results = ok []
matching_items [] (c ∷ cs) peer_results = do
  enforce (if contains peer_results c then false else true)
  matching_items [] cs peer_results
matching_items (x ∷ items) (c ∷ cs) peer_results = do
  rest ← matching_items items cs peer_results
  ok (if contains peer_results c then x ∷ rest else rest)

-- `RunEcdhPsi` over items in memory, as seen by the first of the two parties. The batches are
-- those that a MemoryBatchProvider gives, which counts no extra copies.
unfoldable pub run_ecdh_psi_in_memory :
    Curve → Options → Options → ℕ → List Bytes → List Bytes → Result (List Bytes)
run_ecdh_psi_in_memory curve a b batch_size items_a items_b = do
  batches_a ← drain (length items_a + 1) (new (λ l. l) items_a batch_size [] false)
  batches_b ← drain (length items_b + 1) (new (λ l. l) items_b batch_size [] false)
  s ←
      run_ecdh_psi curve a b (map (λ items. (items, [])) batches_a)
        (map (λ items. (items, [])) batches_b)
  matching_items items_a s.self_a.self_store.store s.peer_a.peer_store.store

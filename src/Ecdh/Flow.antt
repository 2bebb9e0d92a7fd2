-- ===== src/Ecdh/Flow.antt =====
-- The three tasks of a party over the batches of a whole session: what is sent and what is stored.
use mathlib.Core.List.{append_assoc, append-nil}
use psi.Prelude.{
  ℕ, ◌+◌, ◌-◌, ◌≤◌, ◌≡◌, refl, ap, sym, ◌∙◌, Bool, true, false, List, [], ◌∷◌, ◌++◌, map, length,
  drop, length-drop, ok, arith, leb, Returns, Bool-cases, inl, inr, if◌then◌else◌,
}
use psi.Prelude.Bytes.{Bytes, is_nil}
use psi.Prelude.Count.{All}
use psi.Ecdh.{
  Curve, Options, Provider, PsiDataBatch, DupCnt, enc, dual_enc, batch_data, recv_batch,
  self_can_touch_results, peer_can_touch_results, MemoryEcPointStore, save, save_all, save_with_dup,
  PeerTask, SelfTask, mask_items, mask_batch, mask_batches, final_bytes, dual_mask_items,
  mask_peer_batch, mask_peer, recv_dual_batches, record_count, dup_at,
}
use psi.Ecdh.Codec.{HaveSize, recv_batch-batch_data}

store-save_all : (s : MemoryEcPointStore) (cs : List Bytes) → (save_all s cs).store ≡ s.store ++ cs
unfolding save_all save
store-save_all s [] = sym (append-nil s.store)
store-save_all s (c ∷ cs) = store-save_all (save s c 0) cs ∙ append_assoc s.store (c ∷ []) cs

store-save_with_dup :
    (s : MemoryEcPointStore) (i : ℕ) (cs : List Bytes) (dup : DupCnt)
    → (save_with_dup s i cs dup).store ≡ s.store ++ cs
unfolding save_with_dup save
store-save_with_dup s i [] dup = sym (append-nil s.store)
store-save_with_dup s i (c ∷ cs) dup =
    store-save_with_dup (save s c (dup_at dup i)) (i + 1) cs dup ∙ append_assoc s.store (c ∷ []) cs

grow_if {ℓ} :
    {A : Type ℓ} (b : Bool) (xs ys zs : List A)
    → (if b then (if b then xs ++ ys else xs) ++ zs else (if b then xs ++ ys else xs))
      ≡ (if b then xs ++ (ys ++ zs) else xs)
grow_if true xs ys zs = append_assoc xs ys zs
grow_if false xs ys zs = refl

-- Texts of points have one length, a text reads back as its point, and masks commute.
pub record Laws (curve : Curve) (width : ℕ) : Type 0 where
  pub length-serialize : (p : curve.Point) → length (curve.serialize_ec_point p) ≡ width
  pub deserialize-serialize :
      (p : curve.Point) → curve.deserialize_ec_point (curve.serialize_ec_point p) ≡ p
  pub mul_comm :
      (p : curve.Point) (a b : ℕ) → curve.mul (curve.mul p a) b ≡ curve.mul (curve.mul p b) a

-- No batch is empty: an empty one ends the stream.
abbrev pub NoneEmpty : Provider → Type 0
NoneEmpty = All (λ b. is_nil b.0 ≡ false)

module _ (curve : Curve) (width : ℕ) (laws : Laws curve width) where
  -- What both parties compare for an item masked with the two keys.
  abbrev pub cipher : ℕ → ℕ → ℕ → Bytes → Bytes
  cipher size first second item =
      drop (width - size)
        (curve.serialize_ec_point (curve.mul (curve.mul (curve.hash_to_curve item) first) second))

  abbrev pub ciphers : ℕ → ℕ → ℕ → Provider → List Bytes
  ciphers size first second [] = []
  ciphers size first second ((items, dup) ∷ p) =
      map (cipher size first second) items ++ ciphers size first second p

  mask_items-HaveSize : (key : ℕ) (items : List Bytes) → HaveSize width (mask_items curve key items)
  unfolding mask_items
  mask_items-HaveSize key [] = tt
  mask_items-HaveSize key (x ∷ items) = (laws.length-serialize _, mask_items-HaveSize key items)

  cipher-HaveSize :
      (size first second : ℕ) (items : List Bytes)
      → size ≤ width
      → HaveSize size (map (cipher size first second) items)
  cipher-HaveSize size first second [] h = tt
  cipher-HaveSize size first second (x ∷ items) h = (
    omega (
      arith,
      length-drop (width - size)
          (curve.serialize_ec_point (curve.mul (curve.mul (curve.hash_to_curve x) first) second)),
      laws.length-serialize (curve.mul (curve.mul (curve.hash_to_curve x) first) second),
    ),
    cipher-HaveSize size first second items h,
  )

  dual_mask_items_lem :
      (o : Options) (first : ℕ) (items : List Bytes)
      → o.dual_mask_size ≤ width
      → dual_mask_items curve o (mask_items curve first items)
        ≡ ok (map (cipher o.dual_mask_size first o.private_key) items)
  unfolding dual_mask_items final_bytes mask_items
  dual_mask_items_lem o first [] h = refl
  dual_mask_items_lem o first (x ∷ items) h =
      let p = curve.mul (curve.hash_to_curve x) first in
      let size = laws.length-serialize (curve.mul p o.private_key) in
      let fits : leb o.dual_mask_size width ≡ true = ground arith in
      rw (laws.deserialize-serialize p, size, fits, dual_mask_items_lem o first items h) refl

  is_nil-map :
      (size first second : ℕ) (items : List Bytes)
      → is_nil (map (cipher size first second) items) ≡ is_nil items
  is_nil-map size first second [] = refl
  is_nil-map size first second (x ∷ items) = refl

  is_nil-mask_items :
      (key : ℕ) (items : List Bytes) → is_nil (mask_items curve key items) ≡ is_nil items
  unfolding mask_items
  is_nil-mask_items key [] = refl
  is_nil-mask_items key (x ∷ items) = refl

  -- The batches of ciphers that go back.
  abbrev pub dual_batches : ℕ → ℕ → ℕ → ℕ → Provider → List PsiDataBatch
  dual_batches size first second index [] = batch_data [] [] dual_enc index ∷ []
  dual_batches size first second index ((items, dup) ∷ p) =
      batch_data (map (cipher size first second) items) [] dual_enc index
      ∷ dual_batches size first second (index + 1) p

  -- What one of the peer's batches is read as.
  dup_received : Options → List Bytes → DupCnt → DupCnt
  dup_received peer masked dup =
      if is_nil masked then [] else if peer_can_touch_results peer then dup else []

  mask_batch_received :
      (peer : Options) (index : ℕ) (items : List Bytes) (dup : DupCnt)
      → recv_batch index (mask_batch curve peer index (items, dup))
        ≡ ok (
          mask_items curve peer.private_key items,
          dup_received peer (mask_items curve peer.private_key items) dup,
        )
  unfolding mask_batch dup_received
  mask_batch_received peer index items dup =
      recv_batch-batch_data width (mask_items curve peer.private_key items)
        (if peer_can_touch_results peer then dup else []) enc index
        (mask_items-HaveSize peer.private_key items)

  -- The effect of one round.
  mask_peer_batch-stores :
      (o : Options) (index : ℕ) (cs : List Bytes) (dup : DupCnt) (t : PeerTask)
      → (mask_peer_batch curve o index cs dup t).peer_store.store
        ≡ (if self_can_touch_results o then t.peer_store.store ++ cs else t.peer_store.store)
  unfolding mask_peer_batch
  mask_peer_batch-stores o index cs dup t = elim (Bool-cases (self_can_touch_results o)) [
    | inl e ↦ rw e (store-save_with_dup t.peer_store 0 cs dup)
    | inr e ↦ rw e refl
  ]

  mask_peer_batch-sends :
      (o : Options) (index : ℕ) (cs : List Bytes) (dup : DupCnt) (t : PeerTask)
      → (mask_peer_batch curve o index cs dup t).sent ≡ (
          if peer_can_touch_results o
          then t.sent ++ batch_data cs [] dual_enc index ∷ []
          else t.sent)
  unfolding mask_peer_batch
  mask_peer_batch-sends o index cs dup t = refl

  -- `MaskPeer` fed by the peer's `MaskSelf` stores the cipher of each of the peer's items, in order,
  -- where it may touch results, and sends the same ciphers back, where the peer may.
  pub mask_peer-mask_batches :
      (o peer : Options) (index n : ℕ) (p : Provider) (t : PeerTask)
      → NoneEmpty p
      → o.dual_mask_size ≤ width
      → Returns (mask_peer curve o index (mask_batches curve peer index n p).0 t) (λ t'.
        (t'.peer_store.store ≡ (
          if self_can_touch_results o
          then t.peer_store.store ++ ciphers o.dual_mask_size peer.private_key o.private_key p
          else t.peer_store.store))
        × (t'.sent ≡ (
            if peer_can_touch_results o
            then t.sent ++ dual_batches o.dual_mask_size peer.private_key o.private_key index p
            else t.sent)))
  unfolding mask_peer mask_batches
  mask_peer-mask_batches o peer index n [] t ne h =
      let got = mask_batch_received peer index [] [] in
      let dup = dup_received peer (mask_items curve peer.private_key []) [] in
      let last = is_nil-mask_items peer.private_key [] in
      (
        mask_peer_batch curve o index [] dup t,
        rw (got, dual_mask_items_lem o peer.private_key [] h, last) refl,
        (mask_peer_batch-stores o index [] dup t, mask_peer_batch-sends o index [] dup t),
      )
  mask_peer-mask_batches o peer index n ((items, dup) ∷ p) t ne h =
      let got = mask_batch_received peer index items dup in
      let dup' = dup_received peer (mask_items curve peer.private_key items) dup in
      let cs = map (cipher o.dual_mask_size peer.private_key o.private_key) items in
      let more = is_nil-mask_items peer.private_key items ∙ ne.0 in
      let t₁ = mask_peer_batch curve o index cs dup' t in
      let (t', e, (stores, sends)) =
        mask_peer-mask_batches o peer (index + 1) (n + length items) p t₁ ne.1 h in
      (
        t',
        rw (ne.0, got, dual_mask_items_lem o peer.private_key items h, more) e,
        (
          stores
              ∙ rw (mask_peer_batch-stores o index cs dup' t)
                  (grow_if (self_can_touch_results o) t.peer_store.store cs _),
          sends
              ∙ rw (mask_peer_batch-sends o index cs dup' t) (
                  grow_if (peer_can_touch_results o) t.sent (batch_data cs [] dual_enc index ∷ [])
                    _),
        ),
      )

  -- A party that may touch results stores the ciphers that come back, in order.
  pub recv_dual_batches-dual_batches :
      (o : Options) (size first second index : ℕ) (p : Provider) (t : SelfTask)
      → NoneEmpty p
      → size ≤ width
      → Returns
          (recv_dual_batches curve o index (dual_batches size first second index p) t)
          (λ t'. t'.self_store.store ≡ t.self_store.store ++ ciphers size first second p)
  unfolding recv_dual_batches
  recv_dual_batches-dual_batches o size first second index [] t ne h = (
    record t { self_store = save_all t.self_store [] },
    rw (recv_batch-batch_data size [] [] dual_enc index tt) refl,
    store-save_all t.self_store [],
  )
  recv_dual_batches-dual_batches o size first second index ((items, dup) ∷ p) t ne h =
      let cs = map (cipher size first second) items in
      let store = save_all t.self_store cs in
      let t₁ : SelfTask = record t {
        self_store = store;
        recorded = record_count o store t.recorded;
      } in
      let got =
        recv_batch-batch_data size cs [] dual_enc index
          (cipher-HaveSize size first second items h) in
      let more = is_nil-map size first second items ∙ ne.0 in
      let (t', e, stored) =
        recv_dual_batches-dual_batches o size first second (index + 1) p t₁ ne.1 h in
      (
        t',
        rw (got, more) e,
        stored
            ∙ ap (λ l. l ++ ciphers size first second p) (store-save_all t.self_store cs)
            ∙ append_assoc t.self_store.store cs (ciphers size first second p),
      )

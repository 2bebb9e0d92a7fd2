-- ===== src/Ecdh/Intersection.antt =====
-- `RunEcdhPsi` of psi/algorithm/ecdh/ecdh_psi.cc between two parties.
use mathlib.Core.List.{map-append}
use mathlib.Core.Path.{fun_ext}
use psi.Prelude.{
  ℕ, ◌+◌, ◌-◌, ◌%◌, ◌≤◌, ◌<◌, ◌≡◌, refl, ap, sym, ◌∙◌, true, false, ◌&&◌, none, List, [], ◌∷◌, ◌++◌,
  map, length, drop, ok, arith, ◌==◌, Returns, Bool-cases, inl, inr, if◌then◌else◌,
}
use psi.Prelude.Bytes.{Bytes, concat, contains, bytes_eq, bytes_eq_iff}
use psi.Prelude.Count.{All}
use psi.BatchProvider.{new}
use psi.BatchProvider.Reading.{drain-Returns}
use psi.Ecdh.{
  PsiDataBatch, Curve, Options, Provider, check_config, processed_item_cnt, self_can_touch_results,
  peer_can_touch_results, mask_self, mask_batches, skip_processed, recv_dual_masked_self,
  run_ecdh_psi, matching_items, run_ecdh_psi_in_memory, peer_start, self_start,
}
use psi.Ecdh.Flow.{
  Laws, NoneEmpty, cipher, ciphers, dual_batches, mask_peer-mask_batches,
  recv_dual_batches-dual_batches,
}

-- The items of the first list that are in the second.
abbrev pub common : List Bytes → List Bytes → List Bytes
common [] ys = []
common (x ∷ xs) ys = if contains ys x then x ∷ common xs ys else common xs ys

-- Two parties of one session: the other's rank is the next one, and they agree on the rest.
pub record ArePaired (a b : Options) : Type 0 where
  pub next : (b.rank + 1) % 2 ≡ a.rank
  pub back : (a.rank + 1) % 2 ≡ b.rank
  pub target : a.target_rank ≡ b.target_rank
  pub curve : a.curve_type ≡ b.curve_type
  pub size : a.dual_mask_size ≡ b.dual_mask_size
  pub fresh_a : a.recovery ≡ none
  pub fresh_b : b.recovery ≡ none

fresh_count : (o : Options) → o.recovery ≡ none → processed_item_cnt o ≡ 0
unfolding processed_item_cnt
fresh_count o e = rw (e, processed_item_cnt) refl

module _ (curve : Curve) (width : ℕ) (laws : Laws curve width) (a b : Options) where
  abbrev pub final_cipher : Bytes → Bytes
  final_cipher = cipher curve width laws a.dual_mask_size a.private_key b.private_key

  -- Of the two parties' items, only equal ones have equal final ciphers.
  abbrev pub NoCollision : List Bytes → List Bytes → Type 0
  NoCollision xs ys = All (λ x. All (λ y. final_cipher x ≡ final_cipher y → x ≡ y) ys) xs

  cipher_swap :
      (y : Bytes)
      → cipher curve width laws a.dual_mask_size b.private_key a.private_key y ≡ final_cipher y
  cipher_swap y =
      ap (λ p. drop (width - a.dual_mask_size) (curve.serialize_ec_point p))
        (laws.mul_comm _ b.private_key a.private_key)

  contains-map :
      (x : Bytes) (ys : List Bytes)
      → All (λ y. final_cipher x ≡ final_cipher y → x ≡ y) ys
      → contains (map final_cipher ys) (final_cipher x) ≡ contains ys x
  unfolding contains
  contains-map x [] h = refl
  contains-map x (y ∷ ys) h =
      let ih = contains-map x ys h.1 in
      elim (Bool-cases (bytes_eq y x)) [
        | inl same ↦
            let q : y ≡ x = (bytes_eq_iff y x).0 same in
            let q' : bytes_eq (final_cipher y) (final_cipher x) ≡ true =
              (bytes_eq_iff _ _).1 (ap final_cipher q) in
            rw (same, q') refl
        | inr apart ↦ elim (Bool-cases (bytes_eq (final_cipher y) (final_cipher x))) [
          | inl hit ↦
              let q : y ≡ x = sym (h.0 (sym ((bytes_eq_iff _ _).0 hit))) in
              let bad : bytes_eq y x ≡ true = (bytes_eq_iff y x).1 q in cc
          | inr miss ↦ rw (apart, miss) ih
        ]
      ]

  matching_items-common :
      (xs ys : List Bytes)
      → NoCollision xs ys
      → matching_items xs (map final_cipher xs) (map final_cipher ys) ≡ ok (common xs ys)
  unfolding matching_items
  matching_items-common [] ys h = refl
  matching_items-common (x ∷ xs) ys h =
      rw (matching_items-common xs ys h.1, contains-map x ys h.0) refl

  ciphers-concat :
      (size first second : ℕ) (batches : List (List Bytes))
      → ciphers curve width laws size first second (map (λ items. (items, [])) batches)
        ≡ map (cipher curve width laws size first second) (concat batches)
  ciphers-concat size first second [] = refl
  ciphers-concat size first second (items ∷ batches) =
      ap (◌++◌ (map (cipher curve width laws size first second) items))
        (ciphers-concat size first second batches)
      ∙ sym (map-append (cipher curve width laws size first second) items (concat batches))

  -- The second party receives what it may see, or nothing at all.
  second_party_receives :
      (q : Provider) (sent : List PsiDataBatch)
      → ArePaired a b
      → a.dual_mask_size ≤ width
      → NoneEmpty q
      → sent ≡ (
          if peer_can_touch_results a
          then dual_batches curve width laws a.dual_mask_size b.private_key a.private_key 0 q
          else [])
      → Returns (recv_dual_masked_self curve b sent self_start) (λ t. Unit {0})
  unfolding recv_dual_masked_self self_can_touch_results peer_can_touch_results
  second_party_receives q sent paired fits ne e = elim (Bool-cases (self_can_touch_results b)) [
    | inl sees ↦
        let sends : peer_can_touch_results a ≡ true = ground (arith, paired.target, paired.back) in
        let (t, r, _) =
          recv_dual_batches-dual_batches curve width laws b a.dual_mask_size b.private_key
            a.private_key 0 q self_start ne fits in
        (t, rw (sees, e, sends) r, tt)
    | inr blind ↦ (self_start, rw blind refl, tt)
  ]

  second_party_sends :
      ArePaired a b → self_can_touch_results a ≡ true → peer_can_touch_results b ≡ true
  unfolding self_can_touch_results peer_can_touch_results
  second_party_sends paired mine = ground (arith, mine, paired.target, paired.next)

  mask_self_fresh :
      (o : Options) (p : Provider) → mask_self curve o p 0 ≡ ok (mask_batches curve o 0 0 p)
  unfolding mask_self skip_processed
  mask_self_fresh o p = refl

  -- What the session leaves in the stores of a party that may touch the results: its own items'
  -- final ciphers and the peer's, each in the order of the items.
  pub run_ecdh_psi-stores :
      (p q : Provider)
      → ArePaired a b
      → a.dual_mask_size ≤ width
      → self_can_touch_results a ≡ true
      → NoneEmpty p
      → NoneEmpty q
      → Returns (run_ecdh_psi curve a b p q) (λ s.
        (s.self_a.self_store.store
          ≡ ciphers curve width laws a.dual_mask_size a.private_key b.private_key p)
        × (s.peer_a.peer_store.store
            ≡ ciphers curve width laws a.dual_mask_size b.private_key a.private_key q))
  unfolding run_ecdh_psi check_config recv_dual_masked_self
  run_ecdh_psi-stores p q paired fits mine ne ne' =
      let same : a.target_rank == b.target_rank && a.curve_type == b.curve_type ≡ true =
        ground (arith, paired.target, paired.curve) in
      let same' : b.target_rank == a.target_rank && b.curve_type == a.curve_type ≡ true =
        ground (arith, paired.target, paired.curve) in
      let fits' : b.dual_mask_size ≤ width = omega (arith, paired.size) in
      let theirs = second_party_sends paired mine in
      let (peer_a, got_a, (stores_a, sends_a)) =
        mask_peer-mask_batches curve width laws a b 0 0 q peer_start ne' fits in
      let (peer_b, got_b, (_, sends_b)) =
        mask_peer-mask_batches curve width laws b a 0 0 p peer_start ne fits' in
      let sent_b : peer_b.sent
          ≡ dual_batches curve width laws b.dual_mask_size a.private_key b.private_key 0 p =
        rw theirs at sends_b in
      let (self_a, recv_a, stored) =
        recv_dual_batches-dual_batches curve width laws a b.dual_mask_size a.private_key
          b.private_key 0 p self_start ne fits' in
      let (self_b, recv_b, _) = second_party_receives q peer_a.sent paired fits ne' sends_a in
      (
        record { self_a = self_a; peer_a = peer_a; self_b = self_b; peer_b = peer_b },
        rw
            (
              same,
              same',
              fresh_count a paired.fresh_a,
              fresh_count b paired.fresh_b,
              mask_self_fresh a p,
              mask_self_fresh b q,
              got_a,
              got_b,
              sent_b,
              mine,
              recv_a,
              recv_b,
            )
            refl,
        (
          stored
              ∙ ap (λ k. ciphers curve width laws k a.private_key b.private_key p)
                  (sym paired.size),
          (rw mine at stores_a),
        ),
      )

NoneEmpty-of-sizes :
    (n : ℕ) (batches : List (List Bytes))
    → All (λ b. (0 < length b) × (length b ≤ n)) batches
    → NoneEmpty (map (λ items. (items, [])) batches)
NoneEmpty-of-sizes n [] h = tt
NoneEmpty-of-sizes n ([] ∷ batches) h = absurd (omega (arith, h.0.0))
NoneEmpty-of-sizes n ((x ∷ items) ∷ batches) h = (refl, NoneEmpty-of-sizes n batches h.1)

-- Between two paired parties, the one that may touch the results gets exactly the items that the
-- other has too, in its own order: for curves that satisfy the laws, no two different items of the
-- parties with one final cipher, and a positive batch size.
pub run_ecdh_psi_in_memory-common :
    (curve : Curve) (width : ℕ) (laws : Laws curve width) (a b : Options) (batch_size : ℕ)
    (xs ys : List Bytes)
    → ArePaired a b
    → a.dual_mask_size ≤ width
    → self_can_touch_results a ≡ true
    → 0 < batch_size
    → NoCollision curve width laws a b xs ys
    → run_ecdh_psi_in_memory curve a b batch_size xs ys ≡ ok (common xs ys)
unfolding run_ecdh_psi_in_memory new
run_ecdh_psi_in_memory-common curve width laws a b batch_size xs ys paired fits mine pos apart =
    let (batches_a, read_a, (all_a, sizes_a)) =
      drain-Returns (length xs + 1) (new (λ l. l) xs batch_size [] false) pos (omega arith)
        (omega arith) in
    let (batches_b, read_b, (all_b, sizes_b)) =
      drain-Returns (length ys + 1) (new (λ l. l) ys batch_size [] false) pos (omega arith)
        (omega arith) in
    let (s, ran, (own, theirs)) =
      run_ecdh_psi-stores curve width laws a b (map (λ items. (items, [])) batches_a)
        (map (λ items. (items, [])) batches_b) paired fits mine
        (NoneEmpty-of-sizes batch_size batches_a sizes_a)
        (NoneEmpty-of-sizes batch_size batches_b sizes_b) in
    let own' : s.self_a.self_store.store ≡ map (final_cipher curve width laws a b) xs =
      own
      ∙ ciphers-concat curve width laws a b a.dual_mask_size a.private_key b.private_key batches_a
      ∙ ap (map (final_cipher curve width laws a b)) all_a in
    let theirs' : s.peer_a.peer_store.store ≡ map (final_cipher curve width laws a b) ys =
      theirs
      ∙ ciphers-concat curve width laws a b a.dual_mask_size b.private_key a.private_key batches_b
      ∙ ap (map (cipher curve width laws a.dual_mask_size b.private_key a.private_key)) all_b
      ∙ ap (λ f. map f ys) (fun_ext (cipher_swap curve width laws a b)) in
    rw (read_a, read_b, ran, own', theirs') (matching_items-common curve width laws a b xs ys apart)

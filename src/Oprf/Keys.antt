-- ===== src/Oprf/Keys.antt =====
-- Points under keys, as psi/algorithm/ecdh/ub_psi/basic_ecdh_oprf.cc multiplies them.
use psi.Prelude.{
  ℕ, zero, suc, ◌+◌, ◌*◌, ◌%◌, ◌<◌, ◌≡◌, refl, true, not, some, [], ◌∷◌, length, take, Error, ok,
  err, ◌>>◌, enforce, ltb, ◌==◌, inl, inr, arith, ap, sym, ◌∙◌, Option-cases, >>=-eq-ok,
}
use psi.Prelude.Bytes.{Bytes}
use psi.Oprf.{
  Crypto, from_bytes, to_bytes, try_from, hash_to_curve, ec_point_mul, item_mul,
  ecc_private_key_inv,
}

-- A group of prime order, and conversions that are inverse to each other. The point at infinity has
-- another encoding, of one byte.
pub record IsGroup (crypto : Crypto) (IsFinite : crypto.Point → Type 0) : Type 0 where
  pub order_pos : 0 < crypto.order
  pub coordinates-IsFinite :
      (x : ℕ) {p : crypto.Point} → crypto.set_compressed_coordinates x ≡ some p → IsFinite p
  pub mul-IsFinite :
      (k : ℕ) (p : crypto.Point) → 0 < k → k < crypto.order → IsFinite p → IsFinite (crypto.mul k p)
  pub mul_assoc :
      (a b : ℕ) (p : crypto.Point)
      → crypto.mul a (crypto.mul b p) ≡ crypto.mul ((a * b) % crypto.order) p
  pub mul_one : (p : crypto.Point) → crypto.mul 1 p ≡ p
  pub length-point2oct : (p : crypto.Point) → IsFinite p → length (crypto.point2oct p) ≡ 33
  pub oct2point-point2oct : (p : crypto.Point) → crypto.oct2point (crypto.point2oct p) ≡ p
  pub length-bn2binpad : (k : ℕ) → k < crypto.order → length (crypto.bn2binpad k) ≡ 32
  pub bin2bn-bn2binpad : (k : ℕ) → k < crypto.order → crypto.bin2bn (crypto.bn2binpad k) ≡ k
  pub mod_inverse_lt : (k : ℕ) → crypto.mod_inverse k crypto.order < crypto.order
  pub mod_inverse_mul :
      (k : ℕ)
      → 0 < k
      → k < crypto.order
      → (crypto.mod_inverse k crypto.order * k) % crypto.order ≡ 1

take_all : (n : ℕ) (xs : Bytes) → length xs ≡ n → take n xs ≡ xs
take_all zero [] e = refl
take_all zero (x ∷ xs) e = absurd (omega (arith, e))
take_all (suc n) [] e = refl
take_all (suc n) (x ∷ xs) e = ap (λ l. x ∷ l) (take_all n xs (omega (arith, e)))

factor_pos : (a k n : ℕ) → 0 < n → (a * k) % n ≡ 1 → 0 < a
factor_pos zero k n h e = absurd (grind arith)
factor_pos (suc a) k n h e = omega arith

abbrev pub scalar : Crypto → Bytes → ℕ
scalar crypto key = crypto.bin2bn key % crypto.order

-- A party's key: 32 bytes whose number is not a multiple of the order.
abbrev pub IsKey : Crypto → Bytes → Type 0
IsKey crypto key = (length key ≡ 32) × (0 < scalar crypto key)

module _ (crypto : Crypto) (IsFinite : crypto.Point → Type 0)
    (group : IsGroup crypto IsFinite) where
  pub from_bytes-order :
      (bytes : Bytes)
      → from_bytes crypto bytes crypto.order ≡ ok (crypto.bin2bn bytes % crypto.order)
  unfolding from_bytes
  from_bytes-order bytes =
      let nonzero : not (crypto.order == 0) ≡ true = ground (arith, group.order_pos) in
      rw nonzero refl

  pub to_bytes-finite :
      (p : crypto.Point) → IsFinite p → to_bytes crypto p ≡ ok (crypto.point2oct p)
  unfolding to_bytes
  to_bytes-finite p finite = rw (group.length-point2oct p finite) refl

  pub try_from-IsFinite :
      (fuel counter x : ℕ) {p : crypto.Point} → try_from crypto fuel counter x ≡ ok p → IsFinite p
  unfolding try_from
  try_from-IsFinite zero counter x e = cc
  try_from-IsFinite (suc fuel) counter x {p} e =
      elim (Option-cases (crypto.set_compressed_coordinates x)) [
        | inl none_there ↦
            let (x', first, after) =
              >>=-eq-ok (from_bytes crypto (crypto.sha256 (crypto.bn2binpad x)) crypto.field_prime)
                (λ x'. enforce (ltb (counter + 1) 100) >> try_from crypto fuel (counter + 1) x')
                {end = p} (rw (none_there, try_from) at e) in
            let (u, guard, rest) =
              >>=-eq-ok (enforce (ltb (counter + 1) 100))
                (λ passed. try_from crypto fuel (counter + 1) x') after in
            try_from-IsFinite fuel (counter + 1) x' rest
        | inr (q, there) ↦
            let found : ok q ≡ ok p = rw (there, try_from) at e in
            let same : q ≡ p = cc in group.coordinates-IsFinite x (there ∙ ap some same)
      ]

  pub hash_to_curve-IsFinite :
      (item : Bytes) {p : crypto.Point} → hash_to_curve crypto item ≡ ok p → IsFinite p
  unfolding hash_to_curve
  hash_to_curve-IsFinite item {p} e =
      let (x, first, rest) =
        >>=-eq-ok (from_bytes crypto (crypto.sha256 item) crypto.field_prime)
          (try_from crypto 100 0) e in
      try_from-IsFinite 100 0 x rest

  pub mul_left_comm :
      (a b : ℕ) (p : crypto.Point) → crypto.mul a (crypto.mul b p) ≡ crypto.mul b (crypto.mul a p)
  mul_left_comm a b p =
      let swapped : (a * b) % crypto.order ≡ (b * a) % crypto.order =
        ap (λ t. t % crypto.order) (let e : a * b ≡ b * a = grind arith in e) in
      group.mul_assoc a b p ∙ ap (λ k. crypto.mul k p) swapped ∙ sym (group.mul_assoc b a p)

  pub ec_point_mul-point2oct :
      (key : Bytes) (p : crypto.Point)
      → IsKey crypto key
      → IsFinite p
      → ec_point_mul crypto key (crypto.point2oct p)
        ≡ ok (crypto.point2oct (crypto.mul (scalar crypto key) p))
  unfolding ec_point_mul
  ec_point_mul-point2oct key p (len, pos) finite =
      let k = crypto.bin2bn key % crypto.order in
      let lt : k < crypto.order = omega (arith, group.order_pos) in
      let bytes = to_bytes-finite (crypto.mul k p) (group.mul-IsFinite k p pos lt finite) in
      rw (len, from_bytes-order key, group.oct2point-point2oct p) bytes

  pub item_mul-point2oct :
      (key item : Bytes) (p : crypto.Point)
      → IsKey crypto key
      → hash_to_curve crypto item ≡ ok p
      → item_mul crypto key item ≡ ok (crypto.point2oct (crypto.mul (scalar crypto key) p))
  unfolding item_mul
  item_mul-point2oct key item p (len, pos) hashed =
      let k = crypto.bin2bn key % crypto.order in
      let lt : k < crypto.order = omega (arith, group.order_pos) in
      let finite = hash_to_curve-IsFinite item hashed in
      let bytes = to_bytes-finite (crypto.mul k p) (group.mul-IsFinite k p pos lt finite) in
      rw (len, from_bytes-order key, hashed) bytes

  pub item_mul-failed :
      (key item : Bytes) {failure : Error}
      → IsKey crypto key
      → hash_to_curve crypto item ≡ err failure
      → item_mul crypto key item ≡ err failure
  unfolding item_mul
  item_mul-failed key item (len, pos) threw = rw (len, from_bytes-order key, threw) refl

  pub key_inverse :
      (key : Bytes)
      → IsKey crypto key
      → ecc_private_key_inv crypto key
        ≡ ok (crypto.bn2binpad (crypto.mod_inverse (scalar crypto key) crypto.order))
  unfolding ecc_private_key_inv
  key_inverse key (len, pos) =
      let inv = crypto.mod_inverse (crypto.bin2bn key % crypto.order) crypto.order in
      let inv_length =
        group.length-bn2binpad inv (group.mod_inverse_lt (crypto.bin2bn key % crypto.order)) in
      let whole : take 32 key ≡ key = take_all 32 key len in
      rw (whole, from_bytes-order key, inv_length) refl

  pub inverse-IsKey :
      (key : Bytes)
      → IsKey crypto key
      → IsKey crypto (crypto.bn2binpad (crypto.mod_inverse (scalar crypto key) crypto.order))
        × (scalar crypto (crypto.bn2binpad (crypto.mod_inverse (scalar crypto key) crypto.order))
            ≡ crypto.mod_inverse (scalar crypto key) crypto.order)
  inverse-IsKey key (len, pos) =
      let k = crypto.bin2bn key % crypto.order in
      let inv = crypto.mod_inverse k crypto.order in
      let lt : inv < crypto.order = group.mod_inverse_lt k in
      let back = group.bin2bn-bn2binpad inv lt in
      let unit = group.mod_inverse_mul k pos (omega (arith, group.order_pos)) in
      let small : inv % crypto.order ≡ inv = grind arith in
      let inv_pos : 0 < inv = factor_pos inv k crypto.order group.order_pos unit in
      rw back ((group.length-bn2binpad inv lt, omega (arith, inv_pos, small)), small)

  -- The inverse of a scalar takes it off again.
  pub mul_inverse :
      (k r : ℕ) (p : crypto.Point)
      → 0 < r
      → r < crypto.order
      → crypto.mul (crypto.mod_inverse r crypto.order) (crypto.mul k (crypto.mul r p))
        ≡ crypto.mul k p
  mul_inverse k r p pos lt =
      let inv = crypto.mod_inverse r crypto.order in
      mul_left_comm inv k (crypto.mul r p)
      ∙ ap (crypto.mul k) (
          group.mul_assoc inv r p
          ∙ ap (λ u. crypto.mul u p) (group.mod_inverse_mul r pos lt)
          ∙ group.mul_one p)

-- ===== src/Oprf/HashToCurve.antt =====
-- `EcPointSt::CreateEcPointByHashToCurve` (psi/cryptor/ecc_utils.h).
use psi.Prelude.{
  ℕ, zero, suc, ◌+◌, ◌%◌, ◌<◌, ◌≡◌, refl, true, false, not, none, some, Result, ok, err, thrown,
  ltb, ◌==◌, ◌⊎◌, inl, inr, arith, Option-cases,
}
use psi.Prelude.Bytes.{Bytes}
use psi.Oprf.{Crypto, from_bytes, try_from, hash_to_curve}

module _ (crypto : Crypto) where
  -- The coordinate after `x`, and the one after `k` failures.
  abbrev pub next : ℕ → ℕ
  next x = crypto.bin2bn (crypto.sha256 (crypto.bn2binpad x)) % crypto.field_prime

  abbrev pub candidate : ℕ → ℕ → ℕ
  candidate zero x = x
  candidate (suc k) x = candidate k (next x)

  abbrev pub Tried : ℕ → ℕ → Result crypto.Point → Type 0
  Tried n x r =
      ((k : ℕ) × (p : crypto.Point) × (k < n)
        × (crypto.set_compressed_coordinates (candidate k x) ≡ some p)
        × ((j : ℕ) → j < k → crypto.set_compressed_coordinates (candidate j x) ≡ none)
        × (r ≡ ok p))
      ⊎ (((j : ℕ) → j < n → crypto.set_compressed_coordinates (candidate j x) ≡ none)
          × (r ≡ err thrown))

module _ (crypto : Crypto) (field_pos : 0 < crypto.field_prime) where
  reduced :
      (bytes : Bytes)
      → from_bytes crypto bytes crypto.field_prime ≡ ok (crypto.bin2bn bytes % crypto.field_prime)
  unfolding from_bytes
  reduced bytes =
      let nonzero : not (crypto.field_prime == 0) ≡ true = ground (arith, field_pos) in
      rw nonzero refl

  -- A failure at `x` before what is tried from the next coordinate on.
  Tried-step :
      (n x : ℕ) (r : Result crypto.Point)
      → crypto.set_compressed_coordinates x ≡ none
      → Tried crypto n (next crypto x) r
      → Tried crypto (suc n) x r
  Tried-step n x r failed (inl (k, p, lt, found, before, e)) =
      inl (suc k, p, omega arith, found, earlier, e)
    where
      earlier :
          (j : ℕ) → j < suc k → crypto.set_compressed_coordinates (candidate crypto j x) ≡ none
      earlier zero h = failed
      earlier (suc j) h = before j (omega arith)
  Tried-step n x r failed (inr (all, e)) = inr (none_tried, e)
    where
      none_tried :
          (j : ℕ) → j < suc n → crypto.set_compressed_coordinates (candidate crypto j x) ≡ none
      none_tried zero h = failed
      none_tried (suc j) h = all j (omega arith)

  try_from-Tried :
      (fuel counter x : ℕ)
      → counter + fuel ≡ 100
      → Tried crypto fuel x (try_from crypto fuel counter x)
  unfolding try_from
  try_from-Tried zero counter x e = inr ((λ j h. absurd (omega arith)), refl)
  try_from-Tried (suc zero) counter x e =
      elim (Option-cases (crypto.set_compressed_coordinates x)) [
        | inl failed ↦
            let last : ltb (counter + 1) 100 ≡ false = ground (arith, e) in
            Tried-step 0 x (try_from crypto 1 counter x) failed (
              inr (
                (λ j h. absurd (omega arith)),
                (rw (failed, try_from, reduced (crypto.sha256 (crypto.bn2binpad x)), last) refl),
              ))
        | inr (p, found) ↦
            inl
              (0, p, omega arith, found, (λ j h. absurd (omega arith)), (rw (found, try_from) refl))
      ]
  try_from-Tried (suc (suc fuel)) counter x e =
      elim (Option-cases (crypto.set_compressed_coordinates x)) [
        | inl failed ↦
            let more : ltb (counter + 1) 100 ≡ true = ground (arith, e) in
            Tried-step (suc fuel) x (try_from crypto (suc (suc fuel)) counter x) failed (
              rw (failed, try_from, reduced (crypto.sha256 (crypto.bn2binpad x)), more)
                (try_from-Tried (suc fuel) (counter + 1) (next crypto x) (omega (arith, e))))
        | inr (p, found) ↦
            inl
              (0, p, omega arith, found, (λ j h. absurd (omega arith)), (rw (found, try_from) refl))
      ]

  -- For a field whose modulus is not zero, hashing to the curve ends in the point of the first of the
  -- hundred coordinates, each the hash of the one before, that has one; if none of them has, it throws.
  pub hash_to_curve-Tried :
      (m : Bytes)
      → Tried crypto 100
          (crypto.bin2bn (crypto.sha256 m) % crypto.field_prime)
          (hash_to_curve crypto m)
  unfolding hash_to_curve
  hash_to_curve-Tried m =
      rw (reduced (crypto.sha256 m))
        (try_from-Tried 100 0 (crypto.bin2bn (crypto.sha256 m) % crypto.field_prime) (omega arith))

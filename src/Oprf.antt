-- ===== src/Oprf.antt =====
-- psi/algorithm/ecdh/ub_psi/basic_ecdh_oprf.h and .cc, with the hashing to a curve of
-- psi/cryptor/ecc_utils.h: the two-hash Diffie-Hellman OPRF over a curve of OpenSSL.
use psi.Prelude.{
  ℕ, zero, suc, ◌+◌, ◌*◌, ◌%◌, ◌<◌, ◌≤◌, ◌≡◌, Bool, true, false, not, Option, none, some, List, [],
  ◌∷◌, ◌++◌, length, take, Result, ok, err, thrown, ◌>>=◌, ◌>>◌, enforce, ltb, leb, ◌==◌,
  if◌then◌else◌,
}
use psi.Prelude.Bytes.{Bytes}
pub mod HashToCurve
pub mod Keys
pub mod Unblinding
mod Tests

-- What the code takes from OpenSSL and from the hash functions of yacl: the curve of an `EcGroupSt`
-- with its field `bn_p` and its order `bn_n`, the conversions of numbers and points, and the hash that
-- `hash_type_` selects. `oct2point` is the point that `EC_POINT_oct2point` leaves in place.
pub record Crypto : Type 1 where
  pub Point : Type 0
  pub field_prime : ℕ
  pub order : ℕ
  pub set_compressed_coordinates : ℕ → Option Point
  pub mul : ℕ → Point → Point
  pub point2oct : Point → Bytes
  pub oct2point : Bytes → Point
  pub bin2bn : Bytes → ℕ
  pub bn2binpad : ℕ → Bytes
  pub mod_inverse : ℕ → ℕ → ℕ
  pub sha256 : Bytes → Bytes
  pub digest : Bytes → Bytes

abbrev pub k_ecc_key_size : ℕ
k_ecc_key_size = 32

abbrev pub k_ec_point_compress_length : ℕ
k_ec_point_compress_length = 33

abbrev pub k_ec256_compare_length : ℕ
k_ec256_compare_length = 12

abbrev pub k_hash_to_curve_counter_guard : ℕ
k_hash_to_curve_counter_guard = 100

-- The server or the client: its key, the inverse of the key (a client's only), and the length set by
-- `SetCompareLength`, 0 where it was not called.
pub record Party : Type 0 where
  pub private_key : Bytes
  pub sk_inv : Bytes
  pub compare_length : ℕ

unfoldable pub get_compare_length : Party → ℕ
get_compare_length p =
    if not (p.compare_length == 0) then p.compare_length else k_ec256_compare_length

unfoldable pub set_compare_length : ℕ → Party → Result Party
set_compare_length n p = enforce (leb n k_ecc_key_size) >> ok (record p { compare_length = n })

module _ (crypto : Crypto) where
  -- `BigNumSt::FromBytes(bytes, p)`; `BN_nnmod` fails on a zero modulus.
  unfoldable pub from_bytes : Bytes → ℕ → Result ℕ
  from_bytes bytes p = do enforce (not (p == 0)); ok (crypto.bin2bn bytes % p)

  unfoldable pub hash_item : Bytes → Bytes → ℕ → Result Bytes
  hash_item item masked_item hash_len = do
    let hash = crypto.digest (item ++ masked_item)
    enforce (leb hash_len (length hash))
    ok (take hash_len hash)

  unfoldable pub to_bytes : crypto.Point → Result Bytes
  to_bytes point = do
    enforce (length (crypto.point2oct point) == k_ec_point_compress_length)
    ok (crypto.point2oct point)

  -- The loop of `CreateEcPointByHashToCurve`, on fuel.
  unfoldable pub try_from : ℕ → ℕ → ℕ → Result crypto.Point
  try_from zero counter x = err thrown
  try_from (suc fuel) counter x =
      let again = from_bytes (crypto.sha256 (crypto.bn2binpad x)) crypto.field_prime >>= λ x'.
      enforce (ltb (counter + 1) k_hash_to_curve_counter_guard) >> try_from fuel (counter + 1) x' in
      elim (crypto.set_compressed_coordinates x) [ some point ↦ ok point | none ↦ again ]

  unfoldable pub hash_to_curve : Bytes → Result crypto.Point
  hash_to_curve m =
      from_bytes (crypto.sha256 m) crypto.field_prime >>= try_from k_hash_to_curve_counter_guard 0

  unfoldable pub ec_point_mul : Bytes → Bytes → Result Bytes
  ec_point_mul sk_bytes point_bytes = do
    enforce (length sk_bytes == k_ecc_key_size)
    bn_sk ← from_bytes sk_bytes crypto.order
    to_bytes (crypto.mul bn_sk (crypto.oct2point point_bytes))

  unfoldable pub item_mul : Bytes → Bytes → Result Bytes
  item_mul sk_bytes item_bytes = do
    enforce (length sk_bytes == k_ecc_key_size)
    bn_sk ← from_bytes sk_bytes crypto.order
    ec_point ← hash_to_curve item_bytes
    to_bytes (crypto.mul bn_sk ec_point)

  unfoldable pub ecc_private_key_inv : Bytes → Result Bytes
  ecc_private_key_inv private_key = do
    bn_sk ← from_bytes (take k_ecc_key_size private_key) crypto.order
    let sk_inv = crypto.bn2binpad (crypto.mod_inverse bn_sk crypto.order)
    enforce (k_ecc_key_size == length sk_inv)
    ok sk_inv

  -- The server's constructor with a key.
  unfoldable pub new_server : Bytes → Result Party
  new_server private_key = do
    enforce (length private_key == k_ecc_key_size)
    ok (record { private_key = private_key; sk_inv = []; compare_length = 0 })

  -- The client's constructor with a key.
  unfoldable pub new_client : Bytes → Result Party
  new_client private_key = do
    enforce (length private_key == k_ecc_key_size)
    sk_inv ← ecc_private_key_inv private_key
    ok (record { private_key = private_key; sk_inv = sk_inv; compare_length = 0 })

  unfoldable pub evaluate : Party → Bytes → Result Bytes
  evaluate server blinded_element = ec_point_mul server.private_key blinded_element

  unfoldable pub full_evaluate : Party → Bytes → Result Bytes
  full_evaluate server input = do
    point_bytes ← item_mul server.private_key input
    hash_item input point_bytes (get_compare_length server)

  unfoldable pub simple_evaluate : Party → Bytes → Result Bytes
  simple_evaluate server input = do
    point_bytes ← item_mul server.private_key input
    hash_item [] point_bytes (get_compare_length server)

  unfoldable pub blind : Party → Bytes → Result Bytes
  blind client input = item_mul client.private_key input

  unfoldable pub unblind : Party → Bytes → Result Bytes
  unblind client input = ec_point_mul client.sk_inv input

  unfoldable pub finalize : Party → Bytes → Bytes → Result Bytes
  finalize client item evaluated_element = do
    unblinded_element ← unblind client evaluated_element
    hash_item item unblinded_element (get_compare_length client)

  -- `Finalize(evaluated_element)`
  unfoldable pub finalize_simple : Party → Bytes → Result Bytes
  finalize_simple client evaluated_element = finalize client [] evaluated_element

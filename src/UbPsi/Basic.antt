-- ===== src/UbPsi/Basic.antt =====
-- The OPRF of psi/algorithm/ecdh/ub_psi/basic_ecdh_oprf.cc as the protocol uses it.
use psi.Prelude.{
  ℕ, ◌%◌, ◌<◌, ◌≤◌, ◌≡◌, refl, sym, ◌∙◌, ap, subst, true, [], length, length-take, take, Result, ok,
  err, leb, arith,
}
use psi.Prelude.Bytes.{Bytes}
use psi.Oprf.{
  Crypto, Party, get_compare_length, hash_item, hash_to_curve, evaluate, simple_evaluate, blind,
  unblind, finalize, finalize_simple, k_ec_point_compress_length,
}
use psi.Oprf.Keys
use psi.Oprf.Keys.{IsGroup, IsKey, scalar}
use psi.UbPsi.{OprfServer, OprfClient}
use psi.UbPsi.Round.{IsOprf}

abbrev value_of : Result Bytes → Bytes
value_of (err failure) = []
value_of (ok b) = b

value_of-ok : (r : Result Bytes) {b : Bytes} → r ≡ ok b → r ≡ ok (value_of r)
value_of-ok r e = e ∙ ap (λ (l : Bytes). ok l) (sym (ap value_of e))

module _ (crypto : Crypto) where
  abbrev pub basic_server : Party → OprfServer
  basic_server party = record {
    evaluate = evaluate crypto party;
    simple_evaluate = simple_evaluate crypto party;
    get_compare_length = get_compare_length party;
    get_ec_point_length = k_ec_point_compress_length;
  }

  abbrev pub basic_client : Party → OprfClient
  basic_client party = record {
    blind = blind crypto party;
    finalize = finalize_simple crypto party;
  }

  -- The parties that the constructors make of a key.
  abbrev pub server_party : Bytes → Party
  server_party key = record { private_key = key; sk_inv = []; compare_length = 0 }

  abbrev pub client_party : Bytes → Party
  client_party key = record {
    private_key = key;
    sk_inv = crypto.bn2binpad (crypto.mod_inverse (scalar crypto key) crypto.order);
    compare_length = 0;
  }

  -- A client with a key, and an item that the hashing to the curve finds a point for.
  abbrev pub IsBasicClient : OprfClient → Type 0
  IsBasicClient client =
      (key : Bytes) × IsKey crypto key × (client ≡ basic_client (client_party key))

  abbrev pub Hashes : Bytes → Type 0
  Hashes item = (p : crypto.Point) × (hash_to_curve crypto item ≡ ok p)

  module _ (IsFinite : crypto.Point → Type 0) (group : IsGroup crypto IsFinite)
      (digest_length : (b : Bytes) → 12 ≤ length (crypto.digest b)) (server_key : Bytes)
      (is_key : IsKey crypto server_key) where
    k : ℕ
    k = crypto.bin2bn server_key % crypto.order

    masked_of : crypto.Point → Bytes
    masked_of p = take 12 (crypto.digest (crypto.point2oct (crypto.mul k p)))

    hash_item-ok : (b : Bytes) → hash_item crypto [] b 12 ≡ ok (take 12 (crypto.digest b))
    unfolding hash_item
    hash_item-ok b =
        let fits : leb 12 (length (crypto.digest b)) ≡ true = ground (arith, digest_length b) in
        rw fits refl

    simple_evaluate-ok :
        (item : Bytes) (p : crypto.Point)
        → hash_to_curve crypto item ≡ ok p
        → simple_evaluate crypto (server_party server_key) item ≡ ok (masked_of p)
    unfolding simple_evaluate get_compare_length masked_of k
    simple_evaluate-ok item p hashed =
        rw (Keys.item_mul-point2oct crypto IsFinite group server_key item p is_key hashed)
          (hash_item-ok (crypto.point2oct (crypto.mul k p)))

    module _ (key : Bytes) (is_client_key : IsKey crypto key) (item : Bytes) (p : crypto.Point)
        (hashed : hash_to_curve crypto item ≡ ok p) where
      r : ℕ
      r = crypto.bin2bn key % crypto.order

      blinded-IsFinite : IsFinite (crypto.mul r p)
      unfolding r
      blinded-IsFinite =
          group.mul-IsFinite r p is_client_key.1 (omega (arith, group.order_pos))
            (Keys.hash_to_curve-IsFinite crypto IsFinite group item hashed)

      evaluated-IsFinite : IsFinite (crypto.mul k (crypto.mul r p))
      unfolding k
      evaluated-IsFinite =
          group.mul-IsFinite k (crypto.mul r p) is_key.1 (omega (arith, group.order_pos))
            blinded-IsFinite

      blind-ok : blind crypto (client_party key) item ≡ ok (crypto.point2oct (crypto.mul r p))
      unfolding blind r
      blind-ok = Keys.item_mul-point2oct crypto IsFinite group key item p is_client_key hashed

      evaluate-ok :
          evaluate crypto (server_party server_key) (crypto.point2oct (crypto.mul r p))
          ≡ ok (crypto.point2oct (crypto.mul k (crypto.mul r p)))
      unfolding evaluate k
      evaluate-ok =
          Keys.ec_point_mul-point2oct crypto IsFinite group server_key (crypto.mul r p) is_key
            blinded-IsFinite

      finalize-ok :
          finalize_simple crypto
            (client_party key)
            (crypto.point2oct (crypto.mul k (crypto.mul r p)))
          ≡ ok (masked_of p)
      unfolding finalize_simple finalize unblind get_compare_length masked_of r
      finalize-ok =
          let inv = crypto.mod_inverse r crypto.order in
          let r_lt : r < crypto.order = omega (arith, group.order_pos) in
          let (inv_key, inv_scalar) = Keys.inverse-IsKey crypto IsFinite group key is_client_key in
          let stripped : crypto.mul inv (crypto.mul k (crypto.mul r p)) ≡ crypto.mul k p =
            Keys.mul_inverse crypto IsFinite group k r p is_client_key.1 r_lt in
          rw
            (
              Keys.ec_point_mul-point2oct crypto IsFinite group (crypto.bn2binpad inv)
                  (crypto.mul k (crypto.mul r p)) inv_key evaluated-IsFinite,
              inv_scalar,
              stripped,
            )
            (hash_item-ok (crypto.point2oct (crypto.mul k p)))

    own_server : OprfServer
    own_server = basic_server (server_party server_key)

    blinded : OprfClient → Bytes → Bytes
    blinded own_client item = value_of (own_client.blind item)

    evaluated : OprfClient → Bytes → Bytes
    evaluated own_client item = value_of (own_server.evaluate (blinded own_client item))

    module _ (key : Bytes) (is_client_key : IsKey crypto key) (item : Bytes)
        (hashes : Hashes item) where
      abbrev own_client : OprfClient
      own_client = basic_client (client_party key)

      blinded_lem :
          blinded own_client item
          ≡ crypto.point2oct (crypto.mul (r key is_client_key item hashes.0 hashes.1) hashes.0)
      unfolding blinded
      blinded_lem = ap value_of (blind-ok key is_client_key item hashes.0 hashes.1)

      evaluate-blinded_lem :
          own_server.evaluate (blinded own_client item) ≡ ok (evaluated own_client item)
      unfolding own_server evaluated
      evaluate-blinded_lem = value_of-ok (own_server.evaluate (blinded own_client item)) (
          ap (λ b. own_server.evaluate b) blinded_lem
          ∙ evaluate-ok key is_client_key item hashes.0 hashes.1)

      evaluated_lem :
          evaluated own_client item
          ≡ crypto.point2oct
              (crypto.mul k (crypto.mul (r key is_client_key item hashes.0 hashes.1) hashes.0))
      unfolding evaluated own_server
      evaluated_lem =
          ap (λ b. value_of (own_server.evaluate b)) blinded_lem
          ∙ ap value_of (evaluate-ok key is_client_key item hashes.0 hashes.1)

      finalize-evaluated_lem :
          own_client.finalize (evaluated own_client item)
          ≡ ok (value_of (own_server.simple_evaluate item))
      unfolding own_server
      finalize-evaluated_lem =
          ap (λ b. own_client.finalize b) evaluated_lem
          ∙ finalize-ok key is_client_key item hashes.0 hashes.1
          ∙ ap (λ (l : Bytes). ok l) (sym (ap value_of (simple_evaluate-ok item hashes.0 hashes.1)))

      length-blinded_lem : length (blinded own_client item) ≡ 33
      length-blinded_lem =
          ap length blinded_lem
          ∙ group.length-point2oct
              (crypto.mul (r key is_client_key item hashes.0 hashes.1) hashes.0)
              (blinded-IsFinite key is_client_key item hashes.0 hashes.1)

      length-evaluated_lem : length (evaluated own_client item) ≡ 33
      length-evaluated_lem =
          ap length evaluated_lem
          ∙ group.length-point2oct
              (crypto.mul k (crypto.mul (r key is_client_key item hashes.0 hashes.1) hashes.0))
              (evaluated-IsFinite key is_client_key item hashes.0 hashes.1)

    length-masked_lem :
        (item : Bytes) → Hashes item → length (value_of (own_server.simple_evaluate item)) ≡ 12
    unfolding own_server masked_of
    length-masked_lem item hashes =
        let digest : Bytes = crypto.digest (crypto.point2oct (crypto.mul k hashes.0)) in
        ap (λ m. length (value_of m)) (simple_evaluate-ok item hashes.0 hashes.1)
        ∙ omega
            (arith, length-take 12 digest, digest_length (crypto.point2oct (crypto.mul k hashes.0)))

    -- The elliptic-curve OPRF of a server with a key, and of clients with keys, is an OPRF as the
    -- protocol needs it, for the items that hash to the curve: the curve is a group of prime order whose
    -- conversions are inverse to each other, the hash function gives at least 12 bytes, and the keys have
    -- 32 bytes whose numbers are not multiples of the order.
    pub basic_server-IsOprf : IsOprf (basic_server (server_party server_key)) IsBasicClient Hashes
    unfolding own_server blinded evaluated get_compare_length
    basic_server-IsOprf = record {
      masked = λ item. value_of (own_server.simple_evaluate item);
      blinded = blinded;
      evaluated = evaluated;
      compare_length_pos = omega arith;
      ec_point_length_pos = omega arith;
      simple_evaluate-masked =
          λ item h. value_of-ok (own_server.simple_evaluate item) (simple_evaluate-ok item h.0 h.1);
      length-masked = length-masked_lem;
      blind-blinded = λ c item is_client h.
          let (key, is_client_key, e) = is_client in
          subst (λ c. c.blind item ≡ ok (blinded c item)) (sym e)
            (value_of-ok (blind crypto (client_party key) item)
              (blind-ok key is_client_key item h.0 h.1));
      length-blinded = λ c item is_client h.
          let (key, is_client_key, e) = is_client in
          subst (λ c. length (blinded c item) ≡ 33) (sym e)
            (length-blinded_lem key is_client_key item h);
      evaluate-blinded = λ c item is_client h.
          let (key, is_client_key, e) = is_client in
          subst (λ c. own_server.evaluate (blinded c item) ≡ ok (evaluated c item)) (sym e)
            (evaluate-blinded_lem key is_client_key item h);
      length-evaluated = λ c item is_client h.
          let (key, is_client_key, e) = is_client in
          subst (λ c. length (evaluated c item) ≡ 33) (sym e)
            (length-evaluated_lem key is_client_key item h);
      finalize-evaluated = λ c item is_client h.
          let (key, is_client_key, e) = is_client in
          subst
            (λ c. c.finalize (evaluated c item) ≡ ok (value_of (own_server.simple_evaluate item)))
            (sym e) (finalize-evaluated_lem key is_client_key item h);
    }

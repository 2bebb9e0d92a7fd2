-- ===== src/Oprf/Unblinding.antt =====
-- The round of the OPRF between a client and a server (psi/algorithm/ecdh/ub_psi/basic_ecdh_oprf.cc).
use psi.Prelude.{
  ℕ, ◌%◌, ◌<◌, ◌≡◌, refl, not, [], Result, ◌>>=◌, leb, ◌==◌, if◌then◌else◌, Bool-cases, inl, inr,
  arith, ap, sym, ◌∙◌, Result-cases, >>=-assoc,
}
use psi.Prelude.Bytes.{Bytes}
use psi.Oprf.{
  Crypto, get_compare_length, hash_item, hash_to_curve, ec_point_mul, item_mul, new_server,
  new_client, evaluate, full_evaluate, simple_evaluate, set_compare_length, blind, unblind,
  finalize, finalize_simple,
}
use psi.Oprf.Keys
use psi.Oprf.Keys.{IsGroup, IsKey, scalar}

module _ (crypto : Crypto) (IsFinite : crypto.Point → Type 0)
    (group : IsGroup crypto IsFinite) where
  -- What the client unblinds is the item under the server's key alone.
  round_trip :
      (server_key client_key item : Bytes)
      → IsKey crypto server_key
      → IsKey crypto client_key
      → (item_mul crypto client_key item
          >>= ec_point_mul crypto server_key
          >>= ec_point_mul crypto
              (crypto.bn2binpad (crypto.mod_inverse (scalar crypto client_key) crypto.order)))
        ≡ item_mul crypto server_key item
  round_trip server_key client_key item is_server_key is_client_key =
      elim (Result-cases (hash_to_curve crypto item)) [
        | inl (failure, threw) ↦
            rw
              (
                Keys.item_mul-failed crypto IsFinite group client_key item is_client_key threw,
                Keys.item_mul-failed crypto IsFinite group server_key item is_server_key threw,
              )
              refl
        | inr (p, hashed) ↦
            let k = crypto.bin2bn server_key % crypto.order in
            let r = crypto.bin2bn client_key % crypto.order in
            let inv = crypto.mod_inverse r crypto.order in
            let k_lt : k < crypto.order = grind (arith, group.order_pos) in
            let r_lt : r < crypto.order = grind (arith, group.order_pos) in
            let finite = Keys.hash_to_curve-IsFinite crypto IsFinite group item hashed in
            let blinded = group.mul-IsFinite r p is_client_key.1 r_lt finite in
            let evaluated = group.mul-IsFinite k (crypto.mul r p) is_server_key.1 k_lt blinded in
            let (inv_key, inv_scalar) =
              Keys.inverse-IsKey crypto IsFinite group client_key is_client_key in
            let stripped : crypto.mul inv (crypto.mul k (crypto.mul r p)) ≡ crypto.mul k p =
              Keys.mul_inverse crypto IsFinite group k r p is_client_key.1 r_lt in
            rw
              (
                Keys.item_mul-point2oct crypto IsFinite group client_key item p is_client_key
                    hashed,
                Keys.ec_point_mul-point2oct crypto IsFinite group server_key (crypto.mul r p)
                    is_server_key blinded,
                Keys.ec_point_mul-point2oct crypto IsFinite group (crypto.bn2binpad inv)
                    (crypto.mul k (crypto.mul r p)) inv_key evaluated,
                inv_scalar,
                stripped,
                Keys.item_mul-point2oct crypto IsFinite group server_key item p is_server_key
                    hashed,
              )
              refl
      ]

  -- The client's end of a round, after it has been made: what it blinds goes to the server.
  client_server :
      (server_key client_key : Bytes) (n : ℕ) (item hashed : Bytes)
      → IsKey crypto server_key
      → IsKey crypto client_key
      → (new_server crypto server_key >>= set_compare_length n >>= λ server.
          new_client crypto client_key >>= set_compare_length n >>= λ client.
          blind crypto client item >>= evaluate crypto server >>= finalize crypto client hashed)
        ≡ (new_server crypto server_key >>= set_compare_length n >>= λ server.
            item_mul crypto server.private_key item >>= λ point_bytes.
            hash_item crypto hashed point_bytes (get_compare_length server))
  unfolding new_server new_client set_compare_length blind evaluate finalize unblind
      get_compare_length
  client_server server_key client_key n item hashed is_server_key is_client_key =
      let made = Keys.key_inverse crypto IsFinite group client_key is_client_key in
      let trip = round_trip server_key client_key item is_server_key is_client_key in
      let inv_bytes =
        crypto.bn2binpad (crypto.mod_inverse (scalar crypto client_key) crypto.order) in
      let compare_length : ℕ = if not (n == 0) then n else 12 in
      let final : Bytes → Result Bytes =
        λ point_bytes. hash_item crypto hashed point_bytes compare_length in
      elim (Bool-cases (leb n 32)) [
        | inl fits ↦
            rw (is_server_key.0, is_client_key.0, made, fits)
              (sym (
                  >>=-assoc (item_mul crypto client_key item >>= ec_point_mul crypto server_key)
                    (ec_point_mul crypto inv_bytes) final)
                ∙ ap (λ m. m >>= final) trip)
        | inr long ↦ rw (is_server_key.0, is_client_key.0, made, long) refl
      ]

  -- A server and a client that are made with keys of 32 bytes, whose numbers are not multiples of the
  -- order, and with the same compare length: what the client finalizes from the server's evaluation of
  -- its blinded item is what the server computes of the item alone, an exception included. The curve is a
  -- group of prime order whose conversions are inverse to each other.
  pub finalize-evaluate-blind :
      (server_key client_key : Bytes) (n : ℕ) (item : Bytes)
      → IsKey crypto server_key
      → IsKey crypto client_key
      → (new_server crypto server_key >>= set_compare_length n >>= λ server.
          new_client crypto client_key >>= set_compare_length n >>= λ client.
          blind crypto client item >>= evaluate crypto server >>= finalize crypto client item)
        ≡ (new_server crypto server_key >>= set_compare_length n >>= λ server.
            full_evaluate crypto server item)
  unfolding full_evaluate
  finalize-evaluate-blind server_key client_key n item is_server_key is_client_key =
      client_server server_key client_key n item item is_server_key is_client_key

  -- With keys of 32 bytes whose numbers are not multiples of the order, the same compare length on both
  -- sides, and a curve that is a group of prime order with conversions inverse to each other: in the
  -- variant that does not hash the item itself, too, what the client finalizes of its blinded item is what
  -- the server computes of the item alone, an exception included.
  pub finalize_simple-evaluate-blind :
      (server_key client_key : Bytes) (n : ℕ) (item : Bytes)
      → IsKey crypto server_key
      → IsKey crypto client_key
      → (new_server crypto server_key >>= set_compare_length n >>= λ server.
          new_client crypto client_key >>= set_compare_length n >>= λ client.
          blind crypto client item >>= evaluate crypto server >>= finalize_simple crypto client)
        ≡ (new_server crypto server_key >>= set_compare_length n >>= λ server.
            simple_evaluate crypto server item)
  unfolding simple_evaluate finalize_simple
  finalize_simple-evaluate-blind server_key client_key n item is_server_key is_client_key =
      client_server server_key client_key n item [] is_server_key is_client_key

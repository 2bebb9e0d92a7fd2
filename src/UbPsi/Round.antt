-- ===== src/UbPsi/Round.antt =====
-- The blinded items of the client, through the server and back
-- (psi/algorithm/ecdh/ub_psi/ecdh_oprf_psi.cc).
use psi.Prelude.{
  ℕ, suc, ◌+◌, ◌*◌, ◌/◌, ◌%◌, ◌<◌, ◌≡◌, refl, ap, false, Option, none, some, List, [], ◌∷◌, ◌++◌,
  map, length, replicate, ok, rem_pos, arith,
}
use psi.Prelude.Bytes.{Bytes, is_nil, concat}
use psi.Prelude.Count.{All}
use psi.Ecdh.{Provider}
use psi.Ecdh.Codec.{HaveSize, length-concat, pieces-concat}
use psi.UbPsi.{OprfServer, OprfClient, split_items, for_each}
use psi.UbPsi.Client.{blind_items, finalize_items, new_clients, oprf_clients}

-- An OPRF as the protocol uses it: for the items that it accepts, what a client blinds, the server
-- evaluates and the client finalizes is what the server evaluates alone, and the texts have the
-- lengths that both sides cut by.
pub record IsOprf (server : OprfServer) (IsClient : OprfClient → Type 0) (IsItem : Bytes → Type 0)
    : Type 0 where
  pub masked : Bytes → Bytes
  pub blinded : OprfClient → Bytes → Bytes
  pub evaluated : OprfClient → Bytes → Bytes
  pub compare_length_pos : 0 < server.get_compare_length
  pub ec_point_length_pos : 0 < server.get_ec_point_length
  pub simple_evaluate-masked :
      (item : Bytes) → IsItem item → server.simple_evaluate item ≡ ok (masked item)
  pub length-masked :
      (item : Bytes) → IsItem item → length (masked item) ≡ server.get_compare_length
  pub blind-blinded :
      (client : OprfClient) (item : Bytes)
      → IsClient client
      → IsItem item
      → client.blind item ≡ ok (blinded client item)
  pub length-blinded :
      (client : OprfClient) (item : Bytes)
      → IsClient client
      → IsItem item
      → length (blinded client item) ≡ server.get_ec_point_length
  pub evaluate-blinded :
      (client : OprfClient) (item : Bytes)
      → IsClient client
      → IsItem item
      → server.evaluate (blinded client item) ≡ ok (evaluated client item)
  pub length-evaluated :
      (client : OprfClient) (item : Bytes)
      → IsClient client
      → IsItem item
      → length (evaluated client item) ≡ server.get_ec_point_length
  pub finalize-evaluated :
      (client : OprfClient) (item : Bytes)
      → IsClient client
      → IsItem item
      → client.finalize (evaluated client item) ≡ ok (masked item)

multiple_mod : (k n : ℕ) → 0 < n → ((k * n) % n ≡ 0) × ((k * n) / n ≡ k)
multiple_mod k n h = (grind arith, grind arith)

-- The receiver's cut gives back the texts that were put together, where they have the length.
pub split_items-concat :
    (n : ℕ) (items : List Bytes)
    → 0 < n
    → HaveSize n items
    → split_items n (concat items) ≡ ok items
unfolding split_items
split_items-concat n items h sizes =
    let total = length-concat n items sizes in
    let (none_left, count) = multiple_mod (length items) n h in
    rw (rem_pos (length (concat items)) n h, total, none_left, count)
      (ap (λ (l : List Bytes). ok l) (pieces-concat 0 n [] items (omega arith) sizes))

-- The clients at the items of a batch.
abbrev pub each : (OprfClient → Bytes → Bytes) → List OprfClient → List Bytes → List Bytes
each f clients [] = []
each f [] (item ∷ items) = []
each f (client ∷ clients) (item ∷ items) = f client item ∷ each f clients items

-- As many clients as items.
abbrev pub Paired : (OprfClient → Type 0) → List OprfClient → List Bytes → Type 0
Paired IsClient clients items = All IsClient clients × (length clients ≡ length items)

pub length-each :
    (f : OprfClient → Bytes → Bytes) (clients : List OprfClient) (items : List Bytes)
    → length clients ≡ length items
    → length (each f clients items) ≡ length items
length-each f clients [] e = refl
length-each f [] (item ∷ items) e = absurd (omega (arith, e))
length-each f (client ∷ clients) (item ∷ items) e =
    ap suc (length-each f clients items (omega (arith, e)))

-- The items of a provider, batch after batch.
abbrev pub all_items : Provider → List Bytes
all_items [] = []
all_items ((items, dup_cnt) ∷ p) = items ++ all_items p

-- No batch is the one that the loop ends at, and the OPRF accepts the items.
abbrev pub IsFull : (Bytes → Type 0) → Provider → Type 0
IsFull IsItem [] = Unit
IsFull IsItem ((items, dup_cnt) ∷ p) = (is_nil items ≡ false) × All IsItem items × IsFull IsItem p

module _ (IsClient : OprfClient → Type 0) (fresh : ℕ → ℕ → OprfClient) where
  -- The client of the whole run, or all those that it makes for single items.
  abbrev pub AreClients : Option OprfClient → Type 0
  AreClients (some client) = IsClient client
  AreClients none = (batch_count idx : ℕ) → IsClient (fresh batch_count idx)

  replicate-Paired :
      (client : OprfClient) (items : List Bytes)
      → IsClient client
      → Paired IsClient (replicate (length items) client) items
  replicate-Paired client [] h = (tt, refl)
  replicate-Paired client (item ∷ items) h =
      let (clients, same) = replicate-Paired client items h in ((h, clients), ap suc same)

  new_clients-Paired :
      (batch_count idx : ℕ) (items : List Bytes)
      → ((idx : ℕ) → IsClient (fresh batch_count idx))
      → Paired IsClient (new_clients (fresh batch_count) idx (length items)) items
  unfolding new_clients
  new_clients-Paired batch_count idx [] h = (tt, refl)
  new_clients-Paired batch_count idx (item ∷ items) h =
      let (clients, same) = new_clients-Paired batch_count (idx + 1) items h in
      ((h idx, clients), ap suc same)

  pub oprf_clients-Paired :
      (oprf_client : Option OprfClient) (batch_count : ℕ) (items : List Bytes)
      → AreClients oprf_client
      → Paired IsClient (oprf_clients oprf_client fresh batch_count (length items)) items
  unfolding oprf_clients
  oprf_clients-Paired (some client) batch_count items h = replicate-Paired client items h
  oprf_clients-Paired none batch_count items h =
      new_clients-Paired batch_count 0 items (h batch_count)

module _ (server : OprfServer) (IsClient : OprfClient → Type 0) (IsItem : Bytes → Type 0)
    (oprf : IsOprf server IsClient IsItem) where
  pub blind_items-each :
      (clients : List OprfClient) (items : List Bytes)
      → Paired IsClient clients items
      → All IsItem items
      → blind_items clients items ≡ ok (each oprf.blinded clients items)
  unfolding blind_items
  blind_items-each clients [] h ok_items = refl
  blind_items-each [] (item ∷ items) h ok_items = absurd (omega (arith, h.1))
  blind_items-each (client ∷ clients) (item ∷ items) h ok_items =
      rw
        (
          oprf.blind-blinded client item h.0.0 ok_items.0,
          blind_items-each clients items (h.0.1, omega (arith, h.1)) ok_items.1,
        )
        refl

  pub for_each-evaluate :
      (clients : List OprfClient) (items : List Bytes)
      → Paired IsClient clients items
      → All IsItem items
      → for_each server.evaluate (each oprf.blinded clients items)
        ≡ ok (each oprf.evaluated clients items)
  unfolding for_each
  for_each-evaluate clients [] h ok_items = refl
  for_each-evaluate [] (item ∷ items) h ok_items = absurd (omega (arith, h.1))
  for_each-evaluate (client ∷ clients) (item ∷ items) h ok_items =
      rw
        (
          oprf.evaluate-blinded client item h.0.0 ok_items.0,
          for_each-evaluate clients items (h.0.1, omega (arith, h.1)) ok_items.1,
        )
        refl

  pub finalize_items-each :
      (clients : List OprfClient) (items : List Bytes)
      → Paired IsClient clients items
      → All IsItem items
      → finalize_items clients (each oprf.evaluated clients items) ≡ ok (map oprf.masked items)
  unfolding finalize_items
  finalize_items-each clients [] h ok_items = refl
  finalize_items-each [] (item ∷ items) h ok_items = absurd (omega (arith, h.1))
  finalize_items-each (client ∷ clients) (item ∷ items) h ok_items =
      rw
        (
          oprf.finalize-evaluated client item h.0.0 ok_items.0,
          finalize_items-each clients items (h.0.1, omega (arith, h.1)) ok_items.1,
        )
        refl

  pub for_each-masked :
      (items : List Bytes)
      → All IsItem items
      → for_each server.simple_evaluate items ≡ ok (map oprf.masked items)
  unfolding for_each
  for_each-masked [] h = refl
  for_each-masked (item ∷ items) h =
      rw (oprf.simple_evaluate-masked item h.0, for_each-masked items h.1) refl

  pub masked-HaveSize :
      (items : List Bytes)
      → All IsItem items
      → HaveSize server.get_compare_length (map oprf.masked items)
  masked-HaveSize [] h = tt
  masked-HaveSize (item ∷ items) h = (oprf.length-masked item h.0, masked-HaveSize items h.1)

  pub each-HaveSize :
      (f : OprfClient → Bytes → Bytes) (clients : List OprfClient) (items : List Bytes)
      → ((client : OprfClient) (item : Bytes)
          → IsClient client
          → IsItem item
          → length (f client item) ≡ server.get_ec_point_length)
      → Paired IsClient clients items
      → All IsItem items
      → HaveSize server.get_ec_point_length (each f clients items)
  each-HaveSize f clients [] law h ok_items = tt
  each-HaveSize f [] (item ∷ items) law h ok_items = absurd (omega (arith, h.1))
  each-HaveSize f (client ∷ clients) (item ∷ items) law h ok_items = (
    law client item h.0.0 ok_items.0,
    each-HaveSize f clients items law (h.0.1, omega (arith, h.1)) ok_items.1,
  )

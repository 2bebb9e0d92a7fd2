-- ===== src/UbPsi/Shuffling.antt =====
-- `RecvBlindAndShuffleSendEvaluate` of psi/algorithm/ecdh/ub_psi/ecdh_oprf_psi.cc: what the client
-- receives of the server that shuffles the evaluated items.
use mathlib.Core.List.{map-append}
use psi.Prelude.{
  ℕ, zero, suc, ◌+◌, ◌≡◌, ◌<◌, ◌≤◌, refl, sym, ◌∙◌, ap, Bool, some, List, [], ◌∷◌, ◌++◌, map,
  length, length-drop, take, drop, take-append-drop, get_or, replicate, Result, ok, at,
  if◌then◌else◌, arith,
}
use psi.Prelude.Bytes.{Bytes, concat}
use psi.Prelude.Count.{All, All-take, All-drop}
use psi.Ecdh.{Provider}
use psi.UbPsi.{OprfServer, OprfClient, DataBatch, data_batch, last_batch}
use psi.UbPsi.Server.{
  PeerCntInfo, count_dups, count_items, recv_blind_and_evaluate, pick, send_shuffled,
}
use psi.UbPsi.Client.{oprf_clients}
use psi.UbPsi.Round.{
  IsOprf, IsFull, all_items, each, length-each, split_items-concat, for_each-evaluate,
  each-HaveSize,
}
use psi.UbPsi.Exchange.{blinded_batches, evaluated_batches, queue_of, counts_of, paired}
use psi.UbPsi.Reading.{is_nil-take, is_nil-map}

-- The items at the positions.
abbrev pub picked : List Bytes → List ℕ → List Bytes
picked items ids = map (λ i. get_or items i []) ids

-- The positions are those of items.
abbrev pub Within : ℕ → List ℕ → Type 0
Within n ids = All (λ i. i < n) ids

at-map_bytes :
    (f : Bytes → Bytes) (items : List Bytes) (i : ℕ)
    → i < length items
    → at (map f items) i ≡ ok (f (get_or items i []))
at-map_bytes f [] i h = absurd (omega arith)
at-map_bytes f (x ∷ items) zero h = refl
at-map_bytes f (x ∷ items) (suc i) h = at-map_bytes f items i (omega (arith, h))

pick-picked :
    (f : Bytes → Bytes) (items : List Bytes) (ids : List ℕ)
    → Within (length items) ids
    → pick (map f items) ids ≡ ok (map f (picked items ids))
unfolding pick
pick-picked f items [] h = refl
pick-picked f items (i ∷ ids) h = rw (at-map_bytes f items i h.0, pick-picked f items ids h.1) refl

each-replicate :
    (f : OprfClient → Bytes → Bytes) (client : OprfClient) (items : List Bytes)
    → each f (replicate (length items) client) items ≡ map (f client) items
each-replicate f client [] = refl
each-replicate f client (x ∷ items) = ap (λ l. f client x ∷ l) (each-replicate f client items)

-- Chunks of items as batches without counts.
abbrev pub bare : List (List Bytes) → Provider
bare chunks = map (λ c. (c, [])) chunks

pub all_items-bare : (chunks : List (List Bytes)) → all_items (bare chunks) ≡ concat chunks
all_items-bare [] = refl
all_items-bare (c ∷ chunks) = ap (λ l. c ++ l) (all_items-bare chunks)

pub All-get_or :
    (P : Bytes → Type 0) (items : List Bytes) (i : ℕ)
    → i < length items
    → All P items
    → P (get_or items i [])
All-get_or P [] i h hs = absurd (omega arith)
All-get_or P (x ∷ items) zero h hs = hs.0
All-get_or P (x ∷ items) (suc i) h hs = All-get_or P items i (omega (arith, h)) hs.1

All-picked :
    (P : Bytes → Type 0) (items : List Bytes) (ids : List ℕ)
    → Within (length items) ids
    → All P items
    → All P (picked items ids)
All-picked P items [] h hs = tt
All-picked P items (i ∷ ids) h hs = (All-get_or P items i h.0 hs, All-picked P items ids h.1 hs)

module _ (server : OprfServer) (IsClient : OprfClient → Type 0) (IsItem : Bytes → Type 0)
    (oprf : IsOprf server IsClient IsItem) (fresh : ℕ → ℕ → OprfClient) (client : OprfClient)
    (is_client : IsClient client) (flag : Bool) where
  -- The batches of evaluated items, for chunks of the items.
  pub shuffled_batches : List (List Bytes) → List DataBatch
  shuffled_batches [] = last_batch ∷ []
  shuffled_batches (c ∷ chunks) =
      data_batch (map (oprf.evaluated client) c) [] ∷ shuffled_batches chunks

  pub shuffled_batches-evaluated_batches :
      (k : ℕ) (chunks : List (List Bytes))
      → shuffled_batches chunks
        ≡ evaluated_batches server IsClient IsItem oprf fresh
            (some client)
            is_client
            flag
            k
            (bare chunks)
  unfolding shuffled_batches evaluated_batches oprf_clients
  shuffled_batches-evaluated_batches k [] = refl
  shuffled_batches-evaluated_batches k (c ∷ chunks) =
      rw (each-replicate oprf.evaluated client c, shuffled_batches-evaluated_batches (k + 1) chunks)
        refl

  pub queue_of-nil :
      (k : ℕ) (p : Provider)
      → queue_of server IsClient IsItem oprf fresh (some client) is_client flag k p ≡ []
  unfolding queue_of
  queue_of-nil k [] = refl
  queue_of-nil k ((items, dup_cnt) ∷ p) = queue_of-nil (k + 1) p

  pub recv_blind_and_evaluate_lem :
      (k : ℕ) (p : Provider) (info : PeerCntInfo)
      → IsFull IsItem p
      → recv_blind_and_evaluate server
          (blinded_batches server IsClient IsItem oprf fresh (some client) is_client flag k p)
          info
        ≡ ok (map (oprf.evaluated client) (all_items p), counts_of flag p info)
  unfolding recv_blind_and_evaluate blinded_batches counts_of oprf_clients
  recv_blind_and_evaluate_lem k [] info h = refl
  recv_blind_and_evaluate_lem k ((items, dup_cnt) ∷ p) info h =
      let clients = replicate (length items) client in
      let pairs = paired server IsClient IsItem oprf fresh (some client) is_client flag k items in
      let sizes =
        each-HaveSize server IsClient IsItem oprf oprf.blinded clients items oprf.length-blinded
          pairs h.1 in
      let same : length (each oprf.blinded clients items) ≡ length items =
        length-each oprf.blinded clients items pairs.1 in
      let info' = count_items (length items) (count_dups (if flag then dup_cnt else []) info) in
      rw
        (
          split_items-concat server.get_ec_point_length (each oprf.blinded clients items)
              oprf.ec_point_length_pos sizes,
          for_each-evaluate server IsClient IsItem oprf clients items pairs h.1,
          same,
          recv_blind_and_evaluate_lem (k + 1) p info' h.2,
          each-replicate oprf.evaluated client items,
        )
        (ap (λ l. ok (l, counts_of flag p info'))
          (sym (map-append (oprf.evaluated client) items (all_items p))))

  -- Sending ends, and the batches hold the items at the positions in order.
  abbrev pub Sends : List Bytes → List ℕ → Result (List DataBatch) → Type 0
  Sends items ids r =
      (chunks : List (List Bytes)) × (r ≡ ok (shuffled_batches chunks))
      × (concat chunks ≡ picked items ids)
      × IsFull IsItem (bare chunks)

  pub send_shuffled-Sends :
      (fuel batch_size : ℕ) (items : List Bytes) (ids : List ℕ)
      → 0 < batch_size
      → length ids ≤ fuel
      → Within (length items) ids
      → All IsItem items
      → Sends items ids (send_shuffled fuel batch_size (map (oprf.evaluated client) items) ids)
  unfolding send_shuffled shuffled_batches
  send_shuffled-Sends zero batch_size items [] pos h within accepted = ([], refl, refl, tt)
  send_shuffled-Sends zero batch_size items (i ∷ ids) pos h within accepted =
      absurd (omega (arith, h))
  send_shuffled-Sends (suc fuel) batch_size items [] pos h within accepted = ([], refl, refl, tt)
  send_shuffled-Sends (suc fuel) batch_size items (i ∷ ids) pos h within accepted =
      let n = length items in
      let all : List ℕ = i ∷ ids in
      let now = take batch_size all in
      let rest = drop batch_size all in
      let now_within = All-take (λ i. i < n) batch_size all within in
      let (chunks, sent, whole, full) =
        send_shuffled-Sends fuel batch_size items rest pos
          (omega (arith, h, pos, length-drop batch_size all))
          (All-drop (λ i. i < n) batch_size all within) accepted in
      let first = picked items now in
      (
        first ∷ chunks,
        rw (pick-picked (oprf.evaluated client) items now now_within, sent) refl,
        ap (λ l. first ++ l) whole
            ∙ sym (map-append (λ i. get_or items i []) now rest)
            ∙ ap (picked items) (take-append-drop batch_size all),
        (
          is_nil-map (λ i. get_or items i []) now ∙ is_nil-take batch_size i ids pos,
          All-picked IsItem items now now_within accepted,
          full,
        ),
      )

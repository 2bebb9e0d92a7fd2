-- ===== src/Ecdh/Tests.antt =====
-- A toy curve, two parties, and the theorems at them.
use psi.Prelude.{ℕ, ◌*◌, ◌≡◌, ◌≢◌, refl, none, some, List, [], ◌∷◌, arith, ok, err, thrown, Returns}
use psi.Prelude.Bytes.{Bytes, bytes_eq, contains}
use psi.BatchProvider.{iota, new, slice, read_next_impl, read_next_batch, drain}
use psi.Ecdh.{
  Curve, Options, Batch, Provider, enc, dup_at, batch_data, pieces, recv_batch,
  self_can_touch_results, peer_can_touch_results, check_config, shift_dup_cnt, skip_processed,
  put_back, save, save_all, save_with_dup, final_bytes, processed_item_cnt, mask_items, mask_batch,
  mask_batches, mask_self, dual_mask_items, mask_peer_batch, mask_peer, recv_dual_batches,
  recv_dual_masked_self, run_ecdh_psi, matching_items, run_ecdh_psi_in_memory,
}
use psi.Ecdh.Codec.{recv_batch-batch_data}
use psi.Ecdh.Flow.{Laws, NoneEmpty}
use psi.Ecdh.Resume.{
  items_of, skip_processed-Returns, skip_processed_short, skip_processed_miscounts,
}
use psi.Ecdh.Intersection.{ArePaired, common, run_ecdh_psi_in_memory-common}

program : Unit {0}
unfolding bytes_eq contains iota new slice read_next_impl read_next_batch drain dup_at batch_data
    pieces recv_batch self_can_touch_results peer_can_touch_results check_config shift_dup_cnt
    skip_processed save save_all save_with_dup final_bytes processed_item_cnt mask_items mask_batch
    mask_batches mask_self dual_mask_items mask_peer_batch mask_peer recv_dual_batches
    recv_dual_masked_self run_ecdh_psi matching_items run_ecdh_psi_in_memory
program = tt

abbrev first_byte : Bytes → ℕ
first_byte [] = 0
first_byte (x ∷ xs) = x

-- Points are numbers, a mask multiplies, and a text is one byte.
abbrev toy : Curve
toy = record {
  Point = ℕ;
  hash_to_curve = first_byte;
  mul = λ p k. p * k;
  serialize_ec_point = λ p. p ∷ [];
  deserialize_ec_point = first_byte;
}

toy-Laws : Laws toy 1
toy-Laws = record {
  length-serialize = λ p. refl;
  deserialize-serialize = λ p. refl;
  mul_comm = λ p a b. omega arith;
}

abbrev alice : Options
alice = record {
  rank = 0;
  target_rank = 0;
  curve_type = 1;
  private_key = 3;
  dual_mask_size = 1;
  recovery = none;
}

abbrev bob : Options
bob = record alice { rank = 1; private_key = 5 }

abbrev items_a : List Bytes
items_a = (1 ∷ []) ∷ (2 ∷ []) ∷ (3 ∷ []) ∷ []

abbrev items_b : List Bytes
items_b = (3 ∷ []) ∷ (4 ∷ []) ∷ (1 ∷ []) ∷ []

paired : ArePaired alice bob
paired = record {
  next = refl;
  back = refl;
  target = refl;
  curve = refl;
  size = refl;
  fresh_a = refl;
  fresh_b = refl;
}

session_runs :
    run_ecdh_psi_in_memory toy alice bob 2 items_a items_b ≡ ok ((1 ∷ []) ∷ (3 ∷ []) ∷ [])
unfolding program
session_runs = refl

run_ecdh_psi_in_memory-common_example :
    run_ecdh_psi_in_memory toy alice bob 2 items_a items_b ≡ ok (common items_a items_b)
unfolding self_can_touch_results
run_ecdh_psi_in_memory-common_example =
    run_ecdh_psi_in_memory-common toy 1 toy-Laws alice bob 2 items_a items_b paired (omega arith)
      refl (omega arith)
      (
        ((λ e. ground arith), ((λ e. ground arith), ((λ e. refl), tt))),
        (
          ((λ e. ground arith), ((λ e. ground arith), ((λ e. ground arith), tt))),
          (((λ e. refl), ((λ e. ground arith), ((λ e. ground arith), tt))), tt),
        ),
      )

-- Texts of different sizes are not told apart by the receiver.
uneven :
    recv_batch 0 (batch_data ((1 ∷ []) ∷ (2 ∷ 3 ∷ []) ∷ []) [] enc 0)
    ≡ ok ((1 ∷ []) ∷ (2 ∷ []) ∷ [], [])
unfolding program
uneven = refl

recv_batch-batch_data_example :
    recv_batch 4 (batch_data items_a ((1, 7) ∷ []) enc 4) ≡ ok (items_a, (1, 7) ∷ [])
recv_batch-batch_data_example =
    recv_batch-batch_data 1 items_a ((1, 7) ∷ []) enc 4 (refl, (refl, (refl, tt)))

abbrev two_batches : Provider
two_batches = (items_a, (0, 7) ∷ []) ∷ (items_b, []) ∷ []

skip_processed-Returns_example :
    Returns
      (skip_processed 4 two_batches)
      (λ r. (items_of (put_back r.0 r.1) ≡ (4 ∷ []) ∷ (1 ∷ []) ∷ []) × NoneEmpty (put_back r.0 r.1))
skip_processed-Returns_example =
    skip_processed-Returns 4 two_batches (refl, (refl, tt)) (omega arith)

skip_processed_short_test : skip_processed 7 two_batches ≡ err thrown
skip_processed_short_test = skip_processed_short 7 two_batches (refl, (refl, tt)) (omega arith)

skip_processed_miscounts_example : Returns (skip_processed 1 two_batches) (λ r.
    (b : Batch) × (r ≡ (some b, (items_b, []) ∷ []))
    × (b.0 ≡ (2 ∷ []) ∷ (3 ∷ []) ∷ [])
    × (dup_at b.1 0 ≢ dup_at ((0, 7) ∷ []) 1))
unfolding dup_at
skip_processed_miscounts_example =
    skip_processed_miscounts 1 0 items_a ((0, 7) ∷ []) ((items_b, []) ∷ []) (omega arith)
      (omega arith) (λ e. omega arith)

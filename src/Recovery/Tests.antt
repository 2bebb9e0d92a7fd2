-- ===== src/Recovery/Tests.antt =====
-- A run with one crash, and the theorems at it. Configurations are numbers here.
use psi.Prelude.{
  ℕ, ◌≡◌, ◌≢◌, ◌⊎◌, refl, Bool, true, false, none, some, List, [], ◌∷◌, replicate, ok, err, thrown,
  arith, ◌==◌,
}
use psi.Prelude.Bytes.{Bytes, bytes_eq}
use psi.Recovery.{
  online_start, post_process_end, order, RecoveryCheckpoint, RecoveryManager, internal_record,
  no_checkpoint, new, save_checkpoint_file, mark_init_end, mark_pre_process_end, exchange,
  raise_stage, mark_online_start, update_ecdh_dual_masked_item_self_count,
  update_ecdh_dual_masked_item_peer_count, update_parsed_bucket_count, mark_online_end,
  mark_post_process_end, Call, inits, pre_processes, starts_online, counts_self, counts_buckets,
  ends_online, ends_post_process, step, run,
}
use psi.Recovery.Reload.{IsSynced, run-IsSynced, mark_pre_process_end-run, mark_init_end-run}
use psi.Recovery.Exchange.{mark_online_start_agree, run-furthest}

program : Unit {0}
unfolding bytes_eq new save_checkpoint_file mark_init_end mark_pre_process_end exchange raise_stage
    mark_online_start update_ecdh_dual_masked_item_self_count
    update_ecdh_dual_masked_item_peer_count update_parsed_bucket_count mark_online_end
    mark_post_process_end step run
program = tt

abbrev same_number : ℕ → ℕ → Bool
same_number a b = a == b

abbrev fresh : RecoveryManager ℕ
fresh = record {
  checkpoint = no_checkpoint 0;
  ecdh_dual_masked_cnt_from_peer = 0;
  parsed_bucket_count_from_peer = 0;
  disk = record { checkpoint_file = none; private_key_file = none };
}

abbrev first_key : Bytes
first_key = replicate 32 1

abbrev history : List (Call ℕ)
history = starts_online none ∷ counts_self 7 ∷ ends_online ∷ counts_buckets 2 ∷ []

abbrev checkpoint_after : RecoveryCheckpoint ℕ
checkpoint_after = record {
  stage = online_start;
  config = 0;
  input_hash_digest = [];
  ecdh_dual_masked_item_self_count = 7;
  ecdh_dual_masked_item_peer_count = 0;
  parsed_bucket_count = 2;
}

-- A count that is updated after the online stage ended sets the stage back to its start.
abbrev after : RecoveryManager ℕ
after = record {
  checkpoint = checkpoint_after;
  ecdh_dual_masked_cnt_from_peer = 0;
  parsed_bucket_count_from_peer = 0;
  disk = record { checkpoint_file = some checkpoint_after; private_key_file = some first_key };
}

history_runs : run same_number fresh (pre_processes (some first_key) ∷ history) ≡ ok after
unfolding program
history_runs = refl

mark_pre_process_end-run_example :
    mark_pre_process_end (some (9 ∷ [])) (new 0 after.disk) ≡ ok (new 0 after.disk, some first_key)
unfolding program
mark_pre_process_end-run_example =
    mark_pre_process_end-run 0 same_number first_key (9 ∷ []) fresh history refl refl (omega arith)
      history_runs

-- Without the key file the next call throws.
key_file_lost :
    mark_pre_process_end
      (some first_key)
      (record after { disk = record after.disk { private_key_file = none } })
    ≡ err thrown
unfolding program
key_file_lost = refl

run-IsSynced_example : IsSynced 0 same_number after
unfolding program
run-IsSynced_example =
    run-IsSynced 0 same_number fresh (pre_processes (some first_key) ∷ history) refl history_runs

mark_online_start_agree_example :
    (mark_online_start (some (0, internal_record after)) fresh).0.ecdh_dual_masked_cnt_from_peer ≡ 0
unfolding program
mark_online_start_agree_example = (mark_online_start_agree fresh after).0

abbrev digest : Bytes
digest = 3 ∷ []

abbrev started : RecoveryManager ℕ
started = record after {
  checkpoint = record checkpoint_after { config = 4; input_hash_digest = digest };
  disk = record {
    checkpoint_file = some (record checkpoint_after { config = 4; input_hash_digest = digest });
    private_key_file = none;
  };
}

started_runs : run same_number fresh (inits 4 digest ∷ history) ≡ ok started
unfolding program
started_runs = refl

mark_init_end-run_example :
    let again = new 0 started.disk in
    ((same_number 4 4 ≡ true)
      × (digest ≡ digest)
      × (mark_init_end same_number 4 digest again ≡ ok again))
    ⊎ (((same_number 4 4 ≡ false) ⊎ (digest ≢ digest))
        × (mark_init_end same_number 4 digest again ≡ err thrown))
unfolding program
mark_init_end-run_example =
    mark_init_end-run 0 same_number 4 4 digest digest fresh history refl refl started_runs

abbrev marking : List (Call ℕ)
marking = ends_post_process ∷ inits 0 [] ∷ starts_online none ∷ []

abbrev at_end : RecoveryManager ℕ
at_end =
    let c = record checkpoint_after { stage = post_process_end } in
    record after { checkpoint = c; disk = record after.disk { checkpoint_file = some c } }

marking_runs : run same_number after marking ≡ ok at_end
unfolding program
marking_runs = refl

run-furthest_example : order at_end.checkpoint.stage ≡ 5
unfolding program
run-furthest_example =
    run-furthest same_number after marking ((_, refl), ((_, refl), ((_, refl), tt))) marking_runs

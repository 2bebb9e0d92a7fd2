-- ===== src/Recovery/Reload.antt =====
-- The files of psi/checkpoint/recovery.cc after a crash: what a new manager reads from the disk.
use psi.Prelude.{
  ◌≤◌, ◌<◌, ◌≡◌, ◌≢◌, ◌⊎◌, refl, sym, ap, subst, ◌∙◌, Bool, true, false, none, some, List, [], ◌∷◌,
  length, take, take-all, ok, err, thrown, ◌>>=◌, >>=-eq-ok, arith, ltb,
}
use psi.Prelude.Bytes.{Bytes, bytes_eq_iff}
use psi.Recovery.{
  unspecified, init_end, pre_process_end, order, RecoveryCheckpoint, RecoveryManager,
  k_ecc_key_size, new, save_checkpoint_file, mark_init_end, mark_pre_process_end, exchange,
  raise_stage, mark_online_start, update_ecdh_dual_masked_item_self_count,
  update_ecdh_dual_masked_item_peer_count, update_parsed_bucket_count, mark_online_end,
  mark_post_process_end, Call, inits, pre_processes, step, run,
}

module _ {Config : Type 0} (empty_config : Config) (equals : Config → Config → Bool) where
  -- The checkpoint in memory is the one that a new manager would load.
  abbrev pub IsSynced : RecoveryManager Config → Type 0
  IsSynced m = (new empty_config m.disk).checkpoint ≡ m.checkpoint

  step-IsSynced :
      (m : RecoveryManager Config) (c : Call Config) {m' : RecoveryManager Config}
      → IsSynced m
      → step equals m c ≡ ok m'
      → IsSynced m'
  unfolding step new mark_init_end mark_pre_process_end mark_online_start exchange raise_stage
      save_checkpoint_file mark_online_end mark_post_process_end update_parsed_bucket_count
      update_ecdh_dual_masked_item_self_count update_ecdh_dual_masked_item_peer_count
  step-IsSynced m (inits config digest) s e = ground arith
  step-IsSynced m c s e = ground arith

  -- Calls on a manager whose checkpoint is the one that the disk would give, of which none throws,
  -- leave it so: a manager made from the disk after them has the same checkpoint.
  pub run-IsSynced :
      (m : RecoveryManager Config) (cs : List (Call Config)) {m' : RecoveryManager Config}
      → IsSynced m
      → run equals m cs ≡ ok m'
      → IsSynced m'
  unfolding run
  run-IsSynced m [] {m'} s e = let q : m ≡ m' = cc in subst IsSynced q s
  run-IsSynced m (c ∷ cs) s e =
      let (m₁, stepped, e') = >>=-eq-ok (step equals m c) _ e in
      run-IsSynced m₁ cs (step-IsSynced m c s stepped) e'

  -- The private key is on the disk, and the stage says so.
  pub record HoldsKey (key : Bytes) (m : RecoveryManager Config) : Type 0 where
    pub kept : m.disk.private_key_file ≡ some key
    pub late : order pre_process_end ≤ order m.checkpoint.stage

  step-HoldsKey :
      (key : Bytes) (m : RecoveryManager Config) (c : Call Config) {m' : RecoveryManager Config}
      → HoldsKey key m
      → step equals m c ≡ ok m'
      → HoldsKey key m'
  unfolding step mark_init_end mark_pre_process_end mark_online_start exchange raise_stage
      save_checkpoint_file mark_online_end mark_post_process_end update_parsed_bucket_count
      update_ecdh_dual_masked_item_self_count update_ecdh_dual_masked_item_peer_count
  step-HoldsKey key m (inits config digest) h e = ground arith
  step-HoldsKey key m (pre_processes none) h e = ground arith
  step-HoldsKey key m (pre_processes (some k)) h e = ground arith
  step-HoldsKey key m c h e = ground arith

  run-HoldsKey :
      (key : Bytes) (m : RecoveryManager Config) (cs : List (Call Config))
      {m' : RecoveryManager Config}
      → HoldsKey key m
      → run equals m cs ≡ ok m'
      → HoldsKey key m'
  unfolding run
  run-HoldsKey key m [] {m'} h e = let q : m ≡ m' = cc in subst (HoldsKey key) q h
  run-HoldsKey key m (c ∷ cs) h e =
      let (m₁, stepped, e') = >>=-eq-ok (step equals m c) _ e in
      run-HoldsKey key m₁ cs (step-HoldsKey key m c h stepped) e'

  first_pre_process :
      (key : Bytes) (m : RecoveryManager Config)
      → length key ≡ k_ecc_key_size
      → order m.checkpoint.stage < order pre_process_end
      → (m₁ : RecoveryManager Config) × (mark_pre_process_end (some key) m ≡ ok (m₁, some key))
        × HoldsKey key m₁
        × (IsSynced m → IsSynced m₁)
  unfolding mark_pre_process_end save_checkpoint_file new
  first_pre_process key m size early =
      let test : ltb (order m.checkpoint.stage) 2 ≡ true = ground arith in
      let whole : take k_ecc_key_size key ≡ key = take-all k_ecc_key_size key size in
      let m₁ : RecoveryManager Config =
        save_checkpoint_file
          (record m { disk = record m.disk { private_key_file = some (take k_ecc_key_size key) } })
          (record m.checkpoint { stage = pre_process_end }) in
      (m₁, rw test refl, record { kept = ap some whole; late = omega arith }, λ s. refl)

  later_pre_process :
      (key fresh : Bytes) (m : RecoveryManager Config)
      → length key ≡ k_ecc_key_size
      → HoldsKey key m
      → mark_pre_process_end (some fresh) m ≡ ok (m, some key)
  unfolding mark_pre_process_end
  later_pre_process key fresh m size h = ground arith

  -- On a manager that is in step with its disk and before the end of the pre-process stage,
  -- `MarkPreProcessEnd` with a cryptor whose key has 32 bytes fixes the key: after any further calls, of
  -- which none throws, and a restart, the next one returns, leaves the manager as it is and gives the
  -- cryptor the first key back, whatever key it came with.
  pub mark_pre_process_end-run :
      (key fresh : Bytes) (m : RecoveryManager Config) (cs : List (Call Config))
      {m' : RecoveryManager Config}
      → length key ≡ k_ecc_key_size
      → IsSynced m
      → order m.checkpoint.stage < order pre_process_end
      → run equals m (pre_processes (some key) ∷ cs) ≡ ok m'
      → mark_pre_process_end (some fresh) (new empty_config m'.disk)
        ≡ ok (new empty_config m'.disk, some key)
  unfolding new run step
  mark_pre_process_end-run key fresh m cs {m'} size s early e =
      let (m₁, marked, holds, synced) = first_pre_process key m size early in
      let e' : run equals m₁ cs ≡ ok m' =
        sym (ap (λ r. (r >>= λ done. ok done.0) >>= λ m''. run equals m'' cs) marked) ∙ e in
      let held = run-HoldsKey key m₁ cs holds e' in
      let same = run-IsSynced m₁ cs (synced s) e' in
      later_pre_process key fresh (new empty_config m'.disk) size (record {
        kept = held.kept;
        late =
            subst (λ (c : RecoveryCheckpoint Config). order pre_process_end ≤ order c.stage)
              (sym same) held.late;
      })

  -- The checkpoint has a configuration and a digest.
  record HoldsConfig (config : Config) (digest : Bytes) (c : RecoveryCheckpoint Config)
      : Type 0 where
    started : order init_end ≤ order c.stage
    config_is : c.config ≡ config
    digest_is : c.input_hash_digest ≡ digest

  step-HoldsConfig :
      (config : Config) (digest : Bytes) (m : RecoveryManager Config) (c : Call Config)
      {m' : RecoveryManager Config}
      → HoldsConfig config digest m.checkpoint
      → step equals m c ≡ ok m'
      → HoldsConfig config digest m'.checkpoint
  unfolding step mark_init_end mark_pre_process_end mark_online_start exchange raise_stage
      save_checkpoint_file mark_online_end mark_post_process_end update_parsed_bucket_count
      update_ecdh_dual_masked_item_self_count update_ecdh_dual_masked_item_peer_count
  step-HoldsConfig config digest m (inits _ _) h e = ground arith
  step-HoldsConfig config digest m c h e = ground arith

  run-HoldsConfig :
      (config : Config) (digest : Bytes) (m : RecoveryManager Config) (cs : List (Call Config))
      {m' : RecoveryManager Config}
      → HoldsConfig config digest m.checkpoint
      → run equals m cs ≡ ok m'
      → HoldsConfig config digest m'.checkpoint
  unfolding run
  run-HoldsConfig config digest m [] {m'} h e =
      let q : m ≡ m' = cc in
      subst (λ (r : RecoveryManager Config). HoldsConfig config digest r.checkpoint) q h
  run-HoldsConfig config digest m (c ∷ cs) h e =
      let (m₁, stepped, e') = >>=-eq-ok (step equals m c) _ e in
      run-HoldsConfig config digest m₁ cs (step-HoldsConfig config digest m c h stepped) e'

  later_init :
      (config config' : Config) (digest digest' : Bytes) (m : RecoveryManager Config)
      → HoldsConfig config digest m.checkpoint
      → ((equals config' config ≡ true)
          × (digest' ≡ digest)
          × (mark_init_end equals config' digest' m ≡ ok m))
        ⊎ (((equals config' config ≡ false) ⊎ (digest' ≢ digest))
            × (mark_init_end equals config' digest' m ≡ err thrown))
  unfolding mark_init_end
  later_init config config' digest digest' m h =
      ground (arith, bytes_eq_iff digest' m.checkpoint.input_hash_digest)

  -- On a manager that is in step with its disk and before its start, `MarkInitEnd` fixes the
  -- configuration and the digest: after any further calls, of which none throws, and a restart, the
  -- next one returns and leaves the manager as it is where it comes with an equal configuration and the
  -- same digest, and otherwise throws.
  pub mark_init_end-run :
      (config config' : Config) (digest digest' : Bytes) (m : RecoveryManager Config)
      (cs : List (Call Config)) {m' : RecoveryManager Config}
      → IsSynced m
      → m.checkpoint.stage ≡ unspecified
      → run equals m (inits config digest ∷ cs) ≡ ok m'
      → let m'' = new empty_config m'.disk in
        ((equals config' config ≡ true)
          × (digest' ≡ digest)
          × (mark_init_end equals config' digest' m'' ≡ ok m''))
        ⊎ (((equals config' config ≡ false) ⊎ (digest' ≢ digest))
            × (mark_init_end equals config' digest' m'' ≡ err thrown))
  unfolding new run step mark_init_end save_checkpoint_file
  mark_init_end-run config config' digest digest' m cs {m'} s start e =
      let first : RecoveryManager Config =
        save_checkpoint_file m
          (record m.checkpoint { stage = init_end; config = config; input_hash_digest = digest }) in
      let marked : mark_init_end equals config digest m ≡ ok first = rw start refl in
      let e' : run equals first cs ≡ ok m' =
        sym (ap (λ r. r >>= λ m''. run equals m'' cs) marked) ∙ e in
      let held =
        run-HoldsConfig config digest first cs
          (record { started = omega arith; config_is = refl; digest_is = refl }) e' in
      let same = run-IsSynced m (inits config digest ∷ cs) s e in
      later_init config config' digest digest' (new empty_config m'.disk)
        (subst (HoldsConfig config digest) (sym same) held)

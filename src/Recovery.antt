-- ===== src/Recovery.antt =====
-- psi/checkpoint/recovery.h and .cc: the checkpoint of a run and its file. The two files that the
-- manager reads back are its `Disk`; protobuf's JSON text gives a message back as it was, so the
-- checkpoint file holds the message. `equals` is protobuf's MessageDifferencer::Equals. Directories,
-- the lock and the log are left out.
use psi.Prelude.{
  ℕ, ◌≤◌, ◌<◌, Bool, true, false, ◌&&◌, Option, none, some, List, [], ◌∷◌, take, length, Result, ok,
  err, thrown, ◌>>=◌, ◌>>◌, enforce, ltb, leb, ◌==◌, if◌then◌else◌,
}
use psi.Prelude.Bytes.{Bytes, bytes_eq}
pub mod Reload
pub mod Exchange
mod Tests

pub data Stage : Type 0 where
  unspecified init_end pre_process_end online_start online_end post_process_end : Stage

-- The enum's numbers.
abbrev pub order : Stage → ℕ
order unspecified = 0
order init_end = 1
order pre_process_end = 2
order online_start = 3
order online_end = 4
order post_process_end = 5

pub record RecoveryCheckpoint (Config : Type 0) : Type 0 where
  pub stage : Stage
  pub config : Config
  pub input_hash_digest : Bytes
  pub ecdh_dual_masked_item_self_count : ℕ
  pub ecdh_dual_masked_item_peer_count : ℕ
  pub parsed_bucket_count : ℕ

pub record InternalRecoveryRecord : Type 0 where
  pub stage : Stage
  pub ecdh_dual_masked_item_peer_count : ℕ
  pub parsed_bucket_count : ℕ

pub record Disk (Config : Type 0) : Type 0 where
  pub checkpoint_file : Option (RecoveryCheckpoint Config)
  pub private_key_file : Option Bytes

pub record RecoveryManager (Config : Type 0) : Type 0 where
  pub checkpoint : RecoveryCheckpoint Config
  pub ecdh_dual_masked_cnt_from_peer : ℕ
  pub parsed_bucket_count_from_peer : ℕ
  pub disk : Disk Config

abbrev pub k_ecc_key_size : ℕ
k_ecc_key_size = 32

module _ {Config : Type 0} where
  -- A message with no field set.
  abbrev pub no_checkpoint : Config → RecoveryCheckpoint Config
  no_checkpoint empty_config = record {
    stage = unspecified;
    config = empty_config;
    input_hash_digest = [];
    ecdh_dual_masked_item_self_count = 0;
    ecdh_dual_masked_item_peer_count = 0;
    parsed_bucket_count = 0;
  }

  -- The constructor: the checkpoint of the file, if there is one.
  unfoldable pub new : Config → Disk Config → RecoveryManager Config
  new empty_config disk = record {
    checkpoint = elim disk.checkpoint_file [ none ↦ no_checkpoint empty_config | some c ↦ c ];
    ecdh_dual_masked_cnt_from_peer = 0;
    parsed_bucket_count_from_peer = 0;
    disk = disk;
  }

  -- `SaveCheckpointFile` of a changed checkpoint.
  unfoldable pub save_checkpoint_file :
      RecoveryManager Config → RecoveryCheckpoint Config → RecoveryManager Config
  save_checkpoint_file m c = record m {
    checkpoint = c;
    disk = record m.disk { checkpoint_file = some c };
  }

  unfoldable pub mark_init_end :
      (Config → Config → Bool)
      → Config
      → Bytes
      → RecoveryManager Config
      → Result (RecoveryManager Config)
  mark_init_end equals config digest m = elim m.checkpoint.stage [
    | unspecified ↦ ok (
        save_checkpoint_file m
          (record m.checkpoint { stage = init_end; config = config; input_hash_digest = digest }))
    | _ ↦ do
      enforce (equals config m.checkpoint.config)
      enforce (bytes_eq digest m.checkpoint.input_hash_digest)
      ok m
  ]

  -- The bytes of the key file; a stream on a file that is not there gives none.
  abbrev pub loaded_key : Disk Config → Bytes
  loaded_key disk = elim disk.private_key_file [ none ↦ [] | some loaded ↦ loaded ]

  -- The manager and the key that the cryptor, if there is one, holds afterwards. A cryptor's key is an
  -- array of `kEccKeySize` bytes; `SetPrivateKey` throws on any other number of them.
  unfoldable pub mark_pre_process_end :
      Option Bytes → RecoveryManager Config → Result (RecoveryManager Config × Option Bytes)
  mark_pre_process_end none m = ok (m, none)
  mark_pre_process_end (some key) m =
      if ltb (order m.checkpoint.stage) (order pre_process_end)
      then ok (
        save_checkpoint_file
            (record m {
              disk = record m.disk { private_key_file = some (take k_ecc_key_size key) };
            })
            (record m.checkpoint { stage = pre_process_end }),
        some key,
      )
      else do
        enforce (length (loaded_key m.disk) == k_ecc_key_size)
        ok (m, some (loaded_key m.disk))

  abbrev pub internal_record : RecoveryManager Config → InternalRecoveryRecord
  internal_record m = record {
    stage = m.checkpoint.stage;
    ecdh_dual_masked_item_peer_count = m.checkpoint.ecdh_dual_masked_item_peer_count;
    parsed_bucket_count = m.checkpoint.parsed_bucket_count;
  }

  -- What the exchange tells: whether both parties are through, and the counts of rank 0 and rank 1.
  unfoldable pub exchange :
      ℕ
      → InternalRecoveryRecord
      → InternalRecoveryRecord
      → RecoveryManager Config
      → RecoveryManager Config × Bool
  exchange rank rank0 rank1 m =
      let finished =
        leb (order online_end) (order rank0.stage) && leb (order online_end) (order rank1.stage) in
      let from_peer = if rank == 0 then rank1 else rank0 in
      (
        record m {
          ecdh_dual_masked_cnt_from_peer = from_peer.ecdh_dual_masked_item_peer_count;
          parsed_bucket_count_from_peer = from_peer.parsed_bucket_count;
        },
        finished,
      )

  -- `if (checkpoint_.stage() < s) { set_stage(s); SaveCheckpointFile(); }`
  unfoldable pub raise_stage : Stage → RecoveryManager Config → RecoveryManager Config
  raise_stage s m =
      if ltb (order m.checkpoint.stage) (order s)
      then save_checkpoint_file m (record m.checkpoint { stage = s })
      else m

  -- With a link, the party's rank and the record that the other party sends.
  unfoldable pub mark_online_start :
      Option (ℕ × InternalRecoveryRecord) → RecoveryManager Config → RecoveryManager Config × Bool
  mark_online_start none m = (raise_stage online_start m, false)
  mark_online_start (some (rank, theirs)) m =
      let mine = internal_record m in
      let rank0 = if rank == 0 then mine else theirs in
      let rank1 = if rank == 0 then theirs else mine in
      let (m', finished) = exchange rank rank0 rank1 m in (raise_stage online_start m', finished)

  unfoldable pub update_ecdh_dual_masked_item_self_count :
      ℕ → RecoveryManager Config → RecoveryManager Config
  update_ecdh_dual_masked_item_self_count cnt m =
      save_checkpoint_file m
        (record m.checkpoint { stage = online_start; ecdh_dual_masked_item_self_count = cnt })

  unfoldable pub update_ecdh_dual_masked_item_peer_count :
      ℕ → RecoveryManager Config → RecoveryManager Config
  update_ecdh_dual_masked_item_peer_count cnt m =
      save_checkpoint_file m
        (record m.checkpoint { stage = online_start; ecdh_dual_masked_item_peer_count = cnt })

  unfoldable pub update_parsed_bucket_count : ℕ → RecoveryManager Config → RecoveryManager Config
  update_parsed_bucket_count cnt m =
      save_checkpoint_file m
        (record m.checkpoint { stage = online_start; parsed_bucket_count = cnt })

  unfoldable pub mark_online_end : RecoveryManager Config → RecoveryManager Config
  mark_online_end m = raise_stage online_end m

  unfoldable pub mark_post_process_end : RecoveryManager Config → RecoveryManager Config
  mark_post_process_end m = raise_stage post_process_end m

-- The calls of a run, for any order in which a protocol makes them.
pub data Call (Config : Type 0) : Type 0 where
  inits : Config → Bytes → Call Config
  pre_processes : Option Bytes → Call Config
  starts_online : Option (ℕ × InternalRecoveryRecord) → Call Config
  counts_self counts_peer counts_buckets : ℕ → Call Config
  ends_online ends_post_process : Call Config

module _ {Config : Type 0} (equals : Config → Config → Bool) where
  unfoldable pub step : RecoveryManager Config → Call Config → Result (RecoveryManager Config)
  step m (inits config digest) = mark_init_end equals config digest m
  step m (pre_processes key) = mark_pre_process_end key m >>= λ done. ok done.0
  step m (starts_online link) = ok (mark_online_start link m).0
  step m (counts_self n) = ok (update_ecdh_dual_masked_item_self_count n m)
  step m (counts_peer n) = ok (update_ecdh_dual_masked_item_peer_count n m)
  step m (counts_buckets n) = ok (update_parsed_bucket_count n m)
  step m ends_online = ok (mark_online_end m)
  step m ends_post_process = ok (mark_post_process_end m)

  -- An exception ends the run.
  unfoldable pub run : RecoveryManager Config → List (Call Config) → Result (RecoveryManager Config)
  run m [] = ok m
  run m (c ∷ cs) = step m c >>= λ m'. run m' cs

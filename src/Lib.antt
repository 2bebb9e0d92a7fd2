-- ===== src/Lib.antt =====
-- PSI: private set intersection. This library models parts of the program that do not depend on
-- a cipher's algebra, as functions, and states what they guarantee.
--
-- The program and how its parts interact. Items come from a batch provider. The two-party ECDH
-- protocol masks them, sends them in batches, masks the peer's again and keeps the final ciphers in
-- a store; a recovery manager keeps a checkpoint on disk so that a run that is stopped goes on where
-- it was. The unbalanced protocol asks an OPRF server instead, with blinded items. The protocols over
-- many items write items to a store in buckets by hash, agree on the number of buckets, compare bucket
-- by bucket and write the positions of the common items to an index file. A table's key info names
-- each key of the sorted table once; the indexes of the common keys split the table's rows, and the
-- join processor makes the two parties' outputs of the parts. The cuckoo index gives each input a bin
-- in the protocols that hash, RR22 inverts matrices of bits when it encodes, and progress reports run
-- beside all of them.
--
-- Files:
--   Prelude          what the modules share. `Result` is a C++ call's end: a value, an exception
--                    (`thrown`) or undefined behaviour (`undefined`).
--   Cuckoo           psi/utils/cuckoo_index.h and .cc: `new` is the constructor, `insert` Insert with
--                    its rounds (`rounds`, `pass`, `place`, `retry`), `put_to_stash` PutToStash,
--                    `sanity_check` SanityCheck, `min_colliding_hash_idx` MinCollidingHashIdx.
--   BatchProvider    psi/utils/batch_provider_impl.h and .cc: MemoryBatchProvider. `Shuffled` is
--                    SimpleShuffledBatchProvider with the batch that it reads ahead: `fill_batch` is
--                    the loop of ReadNextShuffledBatch, `read_and_shuffle` ReadAndShuffle.
--   Ecdh             psi/algorithm/ecdh/ecdh_psi.h and .cc: `mask_self` MaskSelf, `mask_peer` MaskPeer,
--                    `recv_dual_masked_self` RecvDualMaskedSelf, `run_ecdh_psi` RunEcdhPsi; with the
--                    memory store of psi/utils/ec_point_store.h and the batch of communication.h.
--   Recovery         psi/checkpoint/recovery.h and .cc: RecoveryManager, its disk a pair of files.
--   Progress         psi/utils/progress.h and .cc.
--   IndexStore       psi/utils/index_store.h and .cc: IndexWriter and FileIndexReader; `Memory` is
--                    MemoryIndexReader.
--   HashBucket       psi/utils/hash_bucket_cache.h and .cc, FinalizeAndComputeIndices of
--                    psi/utils/ec_point_store.cc.
--   Indices          GetIndicesByItems of psi/utils/ec_point_store.cc.
--   Bucket           psi/utils/bucket.cc and psi/utils/sync.cc.
--   Okvs             psi/algorithm/rr22/okvs/dense_mtx.h and .cc: matrices of bits. `DenseMtx.invert` is
--                    Invert, `Arithmetic` has Mult, Add and IsZero; the buffers stand in a heap, so
--                    that two matrices can share one.
--   Oprf             psi/algorithm/ecdh/ub_psi/basic_ecdh_oprf.h and .cc, ecdh_oprf.h, and the hashing
--                    to a curve of psi/cryptor/ecc_utils.h: BasicEcdhOprfServer, BasicEcdhOprfClient.
--   UbPsi            psi/algorithm/ecdh/ub_psi: the unbalanced protocol over an OPRF. `Server` and
--                    `Client` are EcdhOprfPsiServer and EcdhOprfPsiClient of ecdh_oprf_psi.cc, `Cache` is
--                    ub_psi_cache.cc, `Store` the client's stores and ComputeIndicesWithDupCnt of
--                    psi/utils/ec_point_store.cc, `Online` both stages of server.cc and client.cc;
--                    `Round.IsOprf` says what the protocol needs of the OPRF, and `Basic` that the one
--                    of `Oprf` has it.
--   Table            psi/utils/table_utils.h and .cc: `make` is KeyInfo::Make, `Split` has ResultDumper,
--                    InterIndexProcessor and ApplyPeerDupCnt.
--   Join             psi/utils/join_processor.h and .cc: the constructor and GenerateResult.
-- A `Tests` module of each part runs it on concrete inputs.
--
-- State is passed explicitly: an operation takes the record and returns the new one. A link delivers
-- in order, so what one party sends is the list that the other receives; a call that all parties make
-- together takes the list of what each brings. Tasks that run at once share no state but the link's
-- lists, and are composed one after the other.
--
-- Parameters: the curve (`Ecdh.Curve` with `Laws`), OpenSSL and the hashes (`Oprf.Crypto` with
-- `IsGroup`), the OPRF of the unbalanced protocol (`UbPsi.OprfServer` and `OprfClient` with
-- `IsOprf`), number formatting, base64 and the hash of a text (`HashBucket.Text` with `IsText`), the
-- shuffles, the sort of a memory index reader, the comparison of configurations, the texts of a
-- progress report.
--
-- Bounds: words of a cuckoo bin, the counts where they can wrap, the item count and batch size of
-- the server's cache, the positions that the unbalanced client gives, the counters of a split
-- table, the negotiated numbers of buckets and the weights of a progress are taken modulo 2^64 or
-- 2^32; other sizes, among them the 64-bit counts of dumped lines, are numbers that do not
-- overflow. A loop on fuel is `drain`, the reading of a provider, which one call more than there
-- are unread items ends, and `read_out`, the reading of an index file, which one call more than
-- there are rows ends. Most other loops recur on their data; the rounds of the cuckoo table on the
-- source's own `max_try_count`, the tries of hashing to a curve on its own guard of 100. The
-- readers of the server's cache (`read_all`) and of the client's file (`read_file`) take one call
-- more than there are items, and `send_shuffled` one round for each item at most. A shuffling
-- provider's `fill_batch` has two turns for each batch that is not read and four more, and
-- `read_out_shuffled` one read more than there are rows. `apply_batches` has two more than there
-- are batches of the key info, of which each round that goes on takes one.
--
-- Not modelled: the choice of a cuckoo table's parameters, which computes with doubles; the
-- protocols KKRT and RR22 with the encoders of its OKVS; the exchange of masked intersection items
-- of unbalanced ECDH, which only a test calls, the FourQ variants of its OPRF, and three-party
-- ECDH; the PIR protocols; the APSI wrapper; the lists of results of psi/utils/index_store.h, which
-- tests use; the reading and sorting of CSV files and disk streams; locks, logging and process
-- start.
pub mod Prelude
pub mod Cuckoo
pub mod BatchProvider
pub mod Ecdh
pub mod Recovery
pub mod Progress
pub mod IndexStore
pub mod HashBucket
pub mod Indices
pub mod Bucket
pub mod Okvs
pub mod Oprf
pub mod Table
pub mod Join
pub mod UbPsi

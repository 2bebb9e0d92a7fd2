-- ===== src/UbPsi.antt =====
-- psi/algorithm/ecdh/ub_psi/ecdh_oprf_psi.h and .cc: the unbalanced protocol over an OPRF, with the
-- batches of psi/utils/communication.h. The children model its two parties, the server's cache on the
-- disk, the client's stores, and the runs of psi/algorithm/ecdh/ub_psi/server.cc and client.cc.
-- A link delivers in order: what one party sends on it is the list that the other receives, and a
-- party that receives more than was sent throws. Tags and logging are left out.
use psi.Prelude.{
  ℕ, zero, suc, ◌+◌, ◌/◌, ◌%◌, ◌^◌, Bool, true, false, List, [], ◌∷◌, length, Result, ok, err,
  ◌>>=◌, ◌>>◌, enforce, rem, ◌==◌,
}
use psi.Prelude.Bytes.{Bytes, concat}
use psi.Ecdh.{DupCnt, pieces}
pub mod Server
pub mod Client
pub mod Cache
pub mod Store
pub mod Round
pub mod Exchange
pub mod Offline
pub mod Online
pub mod Caching
pub mod Reading
pub mod Transfer
pub mod Preparation
pub mod Threads
pub mod Chunks
pub mod Matching
pub mod Lookup
pub mod Rows
pub mod Common
pub mod Whole
pub mod Counting
pub mod Shuffling
pub mod Buffer
pub mod Provided
pub mod Reads
pub mod Filled
pub mod ReadOut
pub mod ServerSource
pub mod Indices
pub mod ShuffledExchange
pub mod ServerOnly
pub mod Stages
pub mod AnyOrder
pub mod FromSource
pub mod Basic
pub mod Found
mod Tests
mod SourceTests

-- What the server calls of its `IEcdhOprfServer`.
pub record OprfServer : Type 0 where
  pub evaluate : Bytes → Result Bytes
  pub simple_evaluate : Bytes → Result Bytes
  pub get_compare_length : ℕ
  pub get_ec_point_length : ℕ

-- What the client calls of an `IEcdhOprfClient`.
pub record OprfClient : Type 0 where
  pub blind : Bytes → Result Bytes
  pub finalize : Bytes → Result Bytes

-- The fields of `PsiDataBatch` that this protocol sets and reads; the others keep their defaults.
pub record DataBatch : Type 0 where
  pub is_last_batch : Bool
  pub flatten_bytes : Bytes
  pub duplicate_item_cnt : DupCnt

abbrev pub data_batch : List Bytes → DupCnt → DataBatch
data_batch items dup = record {
  is_last_batch = false;
  flatten_bytes = concat items;
  duplicate_item_cnt = dup;
}

abbrev pub last_batch : DataBatch
last_batch = record { is_last_batch = true; flatten_bytes = []; duplicate_item_cnt = [] }

-- The items of `item_length` bytes that the receivers cut a batch into.
unfoldable pub split_items : ℕ → Bytes → Result (List Bytes)
split_items item_length bytes = do
  left_over ← rem (length bytes) item_length
  enforce (left_over == 0)
  ok (pieces (length bytes / item_length) 0 item_length bytes)

-- A call for each item of a batch (`parallel_for`).
unfoldable pub for_each : (Bytes → Result Bytes) → List Bytes → Result (List Bytes)
for_each call [] = ok []
for_each call (item ∷ items) = do done ← call item; rest ← for_each call items; ok (done ∷ rest)

-- `uint32_t`
unfoldable pub uint32 : ℕ → ℕ
uint32 n = n % 2 ^ 32

-- ===== src/Cuckoo.antt =====
-- psi/utils/cuckoo_index.h and psi/utils/cuckoo_index.cc: the table that gives each input a bin.
-- A `Bin` is its 64-bit word. `scaled` stands for the product `num_input * scale_factor` of a
-- double, cut to a uint64_t. Exceptions leave the table unusable, so an error carries no state.
use Prim.Native.Nat.{bit_and, bit_or}
use psi.Prelude.{
  ℕ, zero, suc, ◌+◌, ◌-◌, ◌*◌, ◌/◌, ◌%◌, ◌^◌, Bool, true, false, ◌&&◌, Option, none, some, List, [],
  ◌∷◌, ◌++◌, map, length, replicate, Result, ok, err, thrown, undefined, ◌>>=◌, ◌>>◌, enforce, at,
  rem, set, ltb, leb, ◌==◌, if◌then◌else◌,
}
pub mod Words
pub mod Counts
pub mod Insert
pub mod Placed
pub mod Sanity
mod Tests

abbrev pub k_empty : ℕ
k_empty = 2 ^ 64 - 1

-- `HashIdx`, `InputIdx`, `IsEmpty` and `Encode`: 8 bits of hash index above 56 of input index.
unfoldable pub hash_idx : ℕ → ℕ
hash_idx encoded = encoded / 2 ^ 56 % 2 ^ 8

unfoldable pub input_idx : ℕ → ℕ
input_idx encoded = bit_and encoded ((2 ^ 64 - 1) / 2 ^ 8)

unfoldable pub is_empty : ℕ → Bool
is_empty encoded = encoded == k_empty

unfoldable pub encode : ℕ → ℕ → ℕ
encode input hash = bit_or input (hash * 2 ^ 56 % 2 ^ 64)

-- Eight bytes of the 16-byte code from byte `2 * idx` on, little-endian; past the end is undefined.
unfoldable pub get_hash : ℕ → ℕ → Result ℕ
get_hash code idx =
    if leb (idx * 2 + 8) 16 then ok (code / 2 ^ (16 * idx) % 2 ^ 64) else err undefined

pub record Options : Type 0 where
  pub num_input : ℕ
  pub num_stash : ℕ
  pub num_hash : ℕ
  pub scaled : ℕ
  pub max_try_count : ℕ

unfoldable pub num_bins : Options → ℕ
num_bins o = if o.num_stash == 0 && ltb o.num_input 256 then (o.scaled + 8) % 2 ^ 64 else o.scaled

pub record CuckooIndex : Type 0 where
  pub options : Options
  pub open options use {num_input, num_hash}
  pub bins : List ℕ
  pub stash : List ℕ
  pub hashes : List ℕ

-- The constructor. `num_hash - 1` is unsigned and wraps at 0.
unfoldable pub new : Options → Result CuckooIndex
new o = do
  enforce (leb (((o.num_hash + 2 ^ 64 - 1) % 2 ^ 64 * 2 + 8) % 2 ^ 64) 16)
  ok (record {
    options = o;
    bins = replicate (num_bins o) k_empty;
    stash = replicate o.num_stash k_empty;
    hashes = [];
  })

-- The bin that a word belongs to.
unfoldable pub target_of : Options → List ℕ → ℕ → Result ℕ
target_of o hashes word = do
  code ← at hashes (input_idx word)
  h ← get_hash code (hash_idx word)
  rem h (num_bins o)

-- `bins_[bin_idx].Swap(candid)`: the new bins and the word that was there.
unfoldable pub place : Options → List ℕ → List ℕ → ℕ → Result (List ℕ × ℕ)
place o hashes bins word = do
  bin_idx ← target_of o hashes word
  evicted ← at bins bin_idx
  ok (set bins bin_idx word, evicted)

-- An evicted word tries its next hash function in the round after.
unfoldable pub next_candidate : Options → ℕ → Result ℕ
next_candidate o evicted = do
  h ← rem (hash_idx evicted + 1) o.num_hash
  ok (encode (input_idx evicted) (h % 2 ^ 8))

unfoldable pub retry : Options → ℕ → Result (List ℕ)
retry o evicted =
    if is_empty evicted then ok [] else (next_candidate o evicted >>= λ c. ok (c ∷ []))

-- One round over the candidates. The source collects the next round's in the same vector, at a
-- `write_idx` that never passes the position read, so they are a list of their own here.
unfoldable pub pass : Options → List ℕ → List ℕ → List ℕ → Result (List ℕ × List ℕ)
pass o hashes bins [] = ok (bins, [])
pass o hashes bins (c ∷ cs) = do
  (bins', evicted) ← place o hashes bins c
  again ← retry o evicted
  (bins'', rest) ← pass o hashes bins' cs
  ok (bins'', again ++ rest)

-- `while (!candidates.empty() && try_count++ < max_try_count)`, by the rounds left.
unfoldable pub rounds : ℕ → Options → List ℕ → List ℕ → List ℕ → Result (List ℕ × List ℕ)
rounds zero o hashes bins cs = ok (bins, cs)
rounds (suc n) o hashes bins [] = ok (bins, [])
rounds (suc n) o hashes bins (c ∷ cs) = do
  (bins', cs') ← pass o hashes bins (c ∷ cs)
  rounds n o hashes bins' cs'

unfoldable pub put_to_stash : List ℕ → ℕ → Result (List ℕ)
put_to_stash [] input = err thrown
put_to_stash (s ∷ ss) input = elim (is_empty s) [
  | true ↦ ok (input ∷ ss)
  | false ↦ put_to_stash ss input >>= λ ss'. ok (s ∷ ss')
]

unfoldable pub put_all_to_stash : List ℕ → List ℕ → Result (List ℕ)
put_all_to_stash stash [] = ok stash
put_all_to_stash stash (c ∷ cs) = do
  stash' ← put_to_stash stash (input_idx c)
  put_all_to_stash stash' cs

-- `offset, offset + 1, …`: the first candidates, each at its first hash function.
unfoldable pub candidates : ℕ → ℕ → List ℕ
candidates offset zero = []
candidates offset (suc size) = offset ∷ candidates (offset + 1) size

unfoldable pub insert : CuckooIndex → List ℕ → Result CuckooIndex
insert t codes = do
  let offset = length t.hashes
  let hashes = t.hashes ++ codes
  enforce (leb (length hashes) t.num_input)
  (bins, left) ←
      rounds t.options.max_try_count t.options hashes t.bins (candidates offset (length codes))
  stash ← put_all_to_stash t.stash left
  ok (record t { bins = bins; stash = stash; hashes = hashes })

-- `std::set::insert`: `none` if the element is there already.
unfoldable pub insert_new : ℕ → List ℕ → Option (List ℕ)
insert_new a [] = some (a ∷ [])
insert_new a (x ∷ xs) =
    let rest = insert_new a xs in
    if a == x
    then none
    else if ltb a x
    then some (a ∷ x ∷ xs)
    else elim rest [ none ↦ none | some ys ↦ some (x ∷ ys) ]

unfoldable pub collect : List ℕ → List ℕ → Result (List ℕ)
collect [] seen = ok seen
collect (w ∷ ws) seen = elim (is_empty w) [
  | true ↦ collect ws seen
  | false ↦ elim (insert_new (input_idx w) seen) [
    | none ↦ err thrown
    | some seen' ↦ collect ws seen'
  ]
]

-- `for (i : set) YACL_ENFORCE(idx++ == i)`
unfoldable pub check_indices : ℕ → List ℕ → Result (Unit {0})
check_indices idx [] = ok tt
check_indices idx (i ∷ is) = enforce (idx == i) >> check_indices (idx + 1) is

unfoldable pub sanity_check : CuckooIndex → Result (Unit {0})
sanity_check t = do
  in_bins ← collect t.bins []
  all ← collect t.stash in_bins
  enforce (length all == t.num_input)
  check_indices 0 all

-- `for (i = 0; i < num_hash; i++)`, by the hash functions left.
unfoldable pub find_colliding : ℕ → ℕ → Options → ℕ → ℕ → Result ℕ
find_colliding zero i o code bin_index = err thrown
find_colliding (suc n) i o code bin_index = do
  h ← get_hash code i
  target ← rem h (num_bins o)
  let rest = find_colliding n (i + 1) o code bin_index
  if target == bin_index then ok (i % 2 ^ 8) else rest

-- With no hash functions the loop never reads the code.
unfoldable pub min_colliding_hash_idx : CuckooIndex → ℕ → Result ℕ
min_colliding_hash_idx t bin_index = do
  word ← at t.bins bin_index
  if t.num_hash == 0
      then err thrown
      else (at t.hashes (input_idx word) >>= λ code.
          find_colliding t.num_hash 0 t.options code bin_index)

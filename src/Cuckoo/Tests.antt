-- ===== src/Cuckoo/Tests.antt =====
-- A table of two inputs in four bins, and the theorems at it.
use psi.Prelude.{
  ℕ, ◌+◌, ◌*◌, ◌≡◌, refl, ◌↔◌, List, [], ◌∷◌, arith, ltb, ok, err, thrown, undefined, ◌>>=◌,
  ThrowsOr, Returns, if◌then◌else◌, ◌^◌,
}
use psi.Cuckoo.{
  CuckooIndex, Options, num_bins, k_empty, hash_idx, input_idx, is_empty, encode, get_hash, new,
  target_of, place, retry, next_candidate, pass, rounds, put_to_stash, put_all_to_stash, candidates,
  insert, insert_new, collect, check_indices, sanity_check, find_colliding, min_colliding_hash_idx,
}
use psi.Cuckoo.Words.{IsUsable, encode_fields}
use psi.Cuckoo.Insert.{
  IsValid, Inserted, stored, empty_table, empty_table-IsValid, insert-ThrowsOr, insert-IsValid,
}
use psi.Cuckoo.Placed.{
  IsPlaced, IsMinColliding, empty_table-IsPlaced, insert-IsPlaced, min_colliding_hash_idx-Returns,
}
use psi.Cuckoo.Sanity.{sanity_check_iff, new-insert-sanity_check}

program : Unit {0}
unfolding num_bins hash_idx input_idx is_empty encode get_hash new target_of place retry
    next_candidate pass rounds put_to_stash put_all_to_stash candidates insert insert_new collect
    check_indices sanity_check find_colliding min_colliding_hash_idx
program = tt

abbrev small : Options
small = record { num_input = 3; num_stash = 1; num_hash = 3; scaled = 4; max_try_count = 10 }

small-IsUsable : IsUsable small
unfolding num_bins
small-IsUsable = omega arith

-- Both first hashes point to bin 1; the second input evicts the first, which goes on to bin 2.
abbrev codes : List ℕ
codes = (1 + 2 * 2 ^ 16) ∷ (5 + 3 * 2 ^ 16) ∷ 4 ∷ []

abbrev filled : CuckooIndex
filled = record {
  options = small;
  bins = 2 ∷ 1 ∷ (2 ^ 56) ∷ k_empty ∷ [];
  stash = k_empty ∷ [];
  hashes = codes;
}

insert_runs : insert (empty_table small) codes ≡ ok filled
unfolding program
insert_runs = refl

sanity_runs : sanity_check filled ≡ ok tt
unfolding program
sanity_runs = refl

min_colliding_runs : min_colliding_hash_idx filled 2 ≡ ok 1
unfolding program
min_colliding_runs = refl

-- With no room in the stash and one round, the evicted input has nowhere to go.
crowded_throws :
    insert (empty_table (record small { num_stash = 0; num_input = 300; max_try_count = 1 })) codes
    ≡ err thrown
unfolding program
crowded_throws = refl

-- A table with no hash functions passes the constructor's check, since `num_hash - 1` wraps.
no_hash_accepted : (new (record small { num_hash = 0 }) >>= λ t. insert t codes) ≡ err undefined
unfolding program
no_hash_accepted = refl

encode_fields_test : (input_idx (encode 2 1) ≡ 2) × (hash_idx (encode 2 1) ≡ 1)
encode_fields_test = encode_fields 2 1 (omega arith) (omega arith)

insert-ThrowsOr_example :
    ThrowsOr (insert (empty_table small) codes) (Inserted (empty_table small) codes)
insert-ThrowsOr_example =
    insert-ThrowsOr (empty_table small) codes (empty_table-IsValid small small-IsUsable)

insert-IsPlaced_test : IsPlaced small codes filled.bins
insert-IsPlaced_test =
    insert-IsPlaced (empty_table small) codes {t' = filled} (empty_table-IsPlaced small) insert_runs

filled-IsValid : IsValid filled
filled-IsValid =
    (insert-IsValid (empty_table small) codes (empty_table-IsValid small small-IsUsable)
      insert_runs).0

filled-IsPlaced : IsPlaced small codes filled.bins
filled-IsPlaced = insert-IsPlaced (empty_table small) codes (empty_table-IsPlaced small) insert_runs

min_colliding_hash_idx-Returns_example :
    Returns (min_colliding_hash_idx filled 2) (IsMinColliding filled 2 (2 ^ 56))
unfolding is_empty
min_colliding_hash_idx-Returns_example =
    min_colliding_hash_idx-Returns filled 2 (2 ^ 56) filled-IsValid filled-IsPlaced refl refl

sanity_check_iff_example :
    (sanity_check filled ≡ ok tt) ↔ ((i : ℕ) → stored i filled ≡ (if ltb i 3 then 1 else 0))
sanity_check_iff_example = sanity_check_iff filled

new-insert-sanity_check_example :
    ThrowsOr
      (new small >>= λ t. insert t codes)
      (λ t. (sanity_check t ≡ ok tt) × IsPlaced t.options t.hashes t.bins)
new-insert-sanity_check_example = new-insert-sanity_check small codes small-IsUsable refl

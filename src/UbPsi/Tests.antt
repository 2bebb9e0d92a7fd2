-- ===== src/UbPsi/Tests.antt =====
-- An OPRF that leaves its items as they are, and the theorems at it.
use mathlib.Core.List.{Permᴰ, reverse}
use mathlib.Core.List.Permᴰ
use psi.Prelude.{
  ℕ, zero, suc, ◌-◌, ◌≡◌, refl, sym, ◌∙◌, ap, true, false, at, none, some, List, [], ◌∷◌, map,
  length, ok, ◌>>=◌, Returns, arith,
}
use psi.Prelude.Bytes.{Bytes, concat, bytes_eq}
use psi.Ecdh.{Provider, dup_at}
use psi.UbPsi.Common.{index_of, position_from}
use psi.UbPsi.{OprfServer, OprfClient}
use psi.UbPsi.Cache.{Folder}
use psi.UbPsi.Store.{FileStore, empty_memory_store, save_items, compute_indices_with_dup_cnt}
use psi.UbPsi.Round.{IsOprf, all_items}
use psi.UbPsi.Offline.{Row, columns}
use psi.UbPsi.Preparation.{Holds, offline_gen_cache-offline_transfer_cache}
use psi.UbPsi.Found.{common_matches, compute_indices_with_dup_cnt-common}
use psi.UbPsi.Counting.{extra_copies_of}
use psi.UbPsi.Whole.{common_of_client, common_of_server}
use psi.UbPsi.Indices.{IsDistinct}
use psi.UbPsi.Stages.{online-offline_gen_cache, online-offline_gen_cache_shuffled}
use psi.UbPsi.Online.{Config, offline_gen_cache, offline_transfer_cache, online}

abbrev pub plain_server : OprfServer
plain_server = record {
  evaluate = λ b. ok b;
  simple_evaluate = λ b. ok b;
  get_compare_length = 1;
  get_ec_point_length = 1;
}

abbrev pub plain_client : OprfClient
plain_client = record { blind = λ b. ok b; finalize = λ b. ok b }

abbrev pub IsPlain : OprfClient → Type 0
IsPlain client = client ≡ plain_client

abbrev pub IsByte : Bytes → Type 0
IsByte b = length b ≡ 1

unfoldable pub plain-IsOprf : IsOprf plain_server IsPlain IsByte
plain-IsOprf = record {
  masked = λ b. b;
  blinded = λ client b. b;
  evaluated = λ client b. b;
  compare_length_pos = omega arith;
  ec_point_length_pos = omega arith;
  simple_evaluate-masked = λ b h. refl;
  length-masked = λ b h. h;
  blind-blinded = λ client b e h. rw e refl;
  length-blinded = λ client b e h. h;
  evaluate-blinded = λ client b e h. refl;
  length-evaluated = λ client b e h. h;
  finalize-evaluated = λ client b e h. rw e refl;
}

abbrev pub byte : ℕ → Bytes
byte n = n ∷ []

abbrev pub row : ℕ → ℕ → ℕ → ℕ → Row
row n position row_index dup_cnt = record {
  item = byte n;
  position = position;
  row_index = row_index;
  dup_cnt = dup_cnt;
}

-- The server has the items 7, 5 and 9 of its rows 1, 0 and 2, the second three times.
abbrev server_batches : List (List Row)
server_batches = (row 7 0 1 0 ∷ row 5 1 0 2 ∷ []) ∷ (row 9 2 2 0 ∷ []) ∷ []

-- The client has the items 5, 6 and 7, the last twice.
abbrev pub client_items : Provider
client_items = (byte 5 ∷ byte 6 ∷ [], []) ∷ (byte 7 ∷ [], (0, 1) ∷ []) ∷ []

abbrev pub no_folder : Folder
no_folder = record { data_file = none; meta_file = none }

abbrev pub both : Config
both = record {
  client_get_result = true;
  server_get_result = true;
  batch_size = 2;
  compare_thread_num = 2;
}

abbrev pub fresh_plain : ℕ → ℕ → OprfClient
fresh_plain batch_count idx = plain_client

offline_gen_cache-offline_transfer_cache_example :
    Returns
      (offline_gen_cache plain_server (byte 3) [] (map columns server_batches) no_folder >>= λ made.
        offline_transfer_cache plain_server 2 made.0)
      (λ sent.
        Holds plain_server IsPlain IsByte plain-IsOprf (concat server_batches) sent.0
        × (sent.1 ≡ length (concat server_batches)))
offline_gen_cache-offline_transfer_cache_example =
    offline_gen_cache-offline_transfer_cache plain_server IsPlain IsByte plain-IsOprf (byte 3) []
      server_batches no_folder 2 (omega arith) (omega arith) (omega arith) (omega arith)
      (refl, (refl, tt)) ((refl, (refl, tt)), ((refl, tt), tt))

abbrev two_items : List Bytes
two_items = byte 5 ∷ byte 7 ∷ []

abbrev three_ciphers : FileStore
three_ciphers = record {
  items = (byte 7, 0) ∷ (byte 9, 0) ∷ (byte 5, 2) ∷ [];
  meta_file = none;
  cipher_len = 1;
  item_cnt = 3;
  peer_cnt = 5;
}

compute_indices_with_dup_cnt-common_example :
    Returns
      (compute_indices_with_dup_cnt 2
        (save_items 0 two_items ((1, 4) ∷ []) empty_memory_store)
        three_ciphers
        2)
      (λ found. Permᴰ found (common_matches two_items ((1, 4) ∷ []) 0 three_ciphers.items))
compute_indices_with_dup_cnt-common_example =
    compute_indices_with_dup_cnt-common two_items ((1, 4) ∷ []) 2 three_ciphers 2 (omega arith)
      (omega arith) (omega arith) (omega arith)

common_matches_test :
    common_matches two_items ((1, 4) ∷ []) 0 three_ciphers.items
    ≡ record { self_index = 1; peer_index = 0; self_dup_cnt = 4; peer_dup_cnt = 0 }
      ∷ record { self_index = 0; peer_index = 2; self_dup_cnt = 0; peer_dup_cnt = 2 }
      ∷ []
unfolding common_matches index_of position_from bytes_eq dup_at
common_matches_test = refl

online-offline_gen_cache_example :
    Returns
      (offline_gen_cache plain_server (byte 3) [] (map columns server_batches) no_folder >>= λ made.
        offline_transfer_cache plain_server 2 made.0 >>= λ sent.
        online both plain_server
          (λ l. l)
          (some plain_client)
          fresh_plain
          client_items
          sent.0
          made.0)
      (λ out.
        Permᴰ out.client_rows (common_of_client (all_items client_items) (concat server_batches))
        × (out.server_rows
            ≡ common_of_server
                (extra_copies_of client_items)
                (all_items client_items)
                (concat server_batches)))
unfolding plain-IsOprf dup_at
online-offline_gen_cache_example =
    online-offline_gen_cache plain_server IsPlain IsByte plain-IsOprf (λ a b ha hb e. e) fresh_plain
      (some plain_client) refl both (λ l. l) client_items (byte 3) [] server_batches no_folder refl
      (omega arith) (omega arith) (omega arith) (omega arith)
      (refl, (refl, (refl, tt)), (refl, (refl, tt), tt)) (tt, (((omega arith, refl), tt), tt))
      (omega arith) (refl, (refl, tt)) ((refl, (refl, tt)), ((refl, tt), tt))
      (omega arith, (omega arith, (omega arith, tt))) (omega arith) (refl, (refl, (refl, tt)))

-- The position of each of the client's items.
abbrev position_of : Bytes → ℕ
position_of [] = 0
position_of (n ∷ b) = n - 5

position_of-at : (i : ℕ) (b : Bytes) → at (all_items client_items) i ≡ ok b → position_of b ≡ i
position_of-at zero b e = let same : b ≡ byte 5 = cc in ap position_of same
position_of-at (suc zero) b e = let same : b ≡ byte 6 = cc in ap position_of same
position_of-at (suc (suc zero)) b e = let same : b ≡ byte 7 = cc in ap position_of same
position_of-at (suc (suc (suc i))) b e = absurd (cc)

client_items-IsDistinct : IsDistinct (all_items client_items)
client_items-IsDistinct i j b e e' = sym (position_of-at i b e) ∙ position_of-at j b e'

abbrev server_only : Config
server_only = record both { client_get_result = false }

online-offline_gen_cache_shuffled_example :
    Returns
      (offline_gen_cache plain_server (byte 3) [] (map columns server_batches) no_folder >>= λ made.
        offline_transfer_cache plain_server 2 made.0 >>= λ sent.
        online server_only plain_server reverse
          (some plain_client)
          fresh_plain
          client_items
          sent.0
          made.0)
      (λ out.
        (out.client_rows ≡ [])
        × (out.server_rows
            ≡ common_of_server
                (extra_copies_of client_items)
                (all_items client_items)
                (concat server_batches)))
unfolding plain-IsOprf dup_at
online-offline_gen_cache_shuffled_example =
    online-offline_gen_cache_shuffled plain_server IsPlain IsByte plain-IsOprf (λ a b ha hb e. e)
      fresh_plain plain_client refl reverse Permᴰ.reverse server_only client_items (byte 3) []
      server_batches no_folder refl (omega arith) (omega arith) (omega arith) (omega arith)
      (refl, (refl, (refl, tt)), (refl, (refl, tt), tt)) (tt, (((omega arith, refl), tt), tt))
      client_items-IsDistinct (omega arith) (refl, (refl, tt))
      ((refl, (refl, tt)), ((refl, tt), tt)) (omega arith, (omega arith, (omega arith, tt)))
      (omega arith) (refl, (refl, (refl, tt)))

-- The rows of the common items 7 and 5.
common_of_client_test :
    common_of_client (all_items client_items) (concat server_batches) ≡ (2, 0) ∷ (0, 2) ∷ []
unfolding common_of_client index_of position_from bytes_eq
common_of_client_test = refl

common_of_server_test :
    common_of_server (extra_copies_of client_items) (all_items client_items) (concat server_batches)
    ≡ (1, 1) ∷ (0, 0) ∷ []
unfolding common_of_server index_of position_from bytes_eq extra_copies_of dup_at
common_of_server_test = refl

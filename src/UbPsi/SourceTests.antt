-- ===== src/UbPsi/SourceTests.antt =====
-- The unbalanced protocol on a small source of the server, with the OPRF of `Tests`.
use mathlib.Core.List.{Permᴰ, reverse}
use mathlib.Core.List.Permᴰ
use psi.Prelude.{ℕ, suc, ◌≡◌, refl, some, List, [], ◌∷◌, map, length, ok, ◌>>=◌, Returns, arith}
use psi.Prelude.Bytes.{concat}
use psi.BatchProvider.{iota}
use psi.BatchProvider.Shuffled.{
  Source, new_shuffled, read_out_shuffled, read_next_shuffled, fill_batch, push_turn, read_turn,
  read_and_shuffle, start_read, read_proc, push_batch, join_batches, write_dups, next_batch,
}
use psi.Ecdh.{dup_at}
use psi.UbPsi.Round.{all_items}
use psi.UbPsi.Offline.{Row, columns}
use psi.UbPsi.Caching.{NonEmpty}
use psi.UbPsi.Rows.{InOrder}
use psi.UbPsi.Counting.{extra_copies_of}
use psi.UbPsi.Whole.{common_of_client, common_of_server}
use psi.UbPsi.Online.{offline_gen_cache, offline_transfer_cache, online}
use psi.UbPsi.ServerSource.{source_rows, row_data, new_shuffled-read_out_shuffled}
use psi.UbPsi.FromSource.{online-new_shuffled}
use psi.UbPsi.Tests.{
  plain_server, plain_client, IsPlain, IsByte, plain-IsOprf, byte, row, client_items, no_folder,
  both, fresh_plain,
}

-- The items 5, three times, and 7 in one batch, and 9 in the next.
abbrev server_source : Source
server_source = (byte 5 ∷ byte 7 ∷ [], (0, 2) ∷ []) ∷ (byte 9 ∷ [], []) ∷ []

abbrev mixed : ℕ → List ℕ → List ℕ
mixed k l = reverse l

mixed-perm : (k : ℕ) (l : List ℕ) → Permᴰ (mixed k l) l
mixed-perm k l = Permᴰ.reverse l

new_shuffled-read_out_shuffled_example :
    Returns
      (new_shuffled mixed server_source 2 >>= λ p.
        read_out_shuffled mixed (suc (length (source_rows server_source))) p)
      (λ batches.
        (chunks : List (List Row)) × (batches ≡ map columns chunks)
        × NonEmpty chunks
        × InOrder 0 (concat chunks)
        × Permᴰ (map row_data (concat chunks)) (map row_data (source_rows server_source)))
unfolding dup_at
new_shuffled-read_out_shuffled_example =
    new_shuffled-read_out_shuffled mixed mixed-perm server_source 2
      ((refl, ((omega arith, refl), tt)), ((refl, tt), tt)) (omega arith)

online-new_shuffled_example :
    Returns
      ((new_shuffled mixed server_source 2 >>= λ q.
          read_out_shuffled mixed (suc (length (source_rows server_source))) q)
        >>= λ batches. offline_gen_cache plain_server (byte 3) [] batches no_folder >>= λ made.
            offline_transfer_cache plain_server 2 made.0 >>= λ sent.
            online both plain_server
              (λ l. l)
              (some plain_client)
              fresh_plain
              client_items
              sent.0
              made.0)
      (λ out.
        Permᴰ out.client_rows
          (common_of_client (all_items client_items) (source_rows server_source))
        × Permᴰ out.server_rows (
            common_of_server
              (extra_copies_of client_items)
              (all_items client_items)
              (source_rows server_source)))
unfolding plain-IsOprf dup_at iota
online-new_shuffled_example =
    online-new_shuffled plain_server IsPlain IsByte plain-IsOprf (λ a b ha hb e. e) fresh_plain
      (some plain_client) refl mixed mixed-perm both (λ l. l) client_items (byte 3) [] server_source
      no_folder refl refl (omega arith) (omega arith) (omega arith) (omega arith)
      (refl, (refl, (refl, tt)), (refl, (refl, tt), tt)) (tt, (((omega arith, refl), tt), tt))
      (omega arith) ((refl, ((omega arith, refl), tt)), ((refl, tt), tt))
      ((refl, (refl, tt)), ((refl, tt), tt)) (omega arith)

-- The batches that the provider gives: the first of the source backwards, and the second.
read_out_shuffled_test :
    (new_shuffled mixed server_source 2 >>= λ q. read_out_shuffled mixed 4 q)
    ≡ ok (columns (row 7 0 1 0 ∷ row 5 1 0 2 ∷ []) ∷ columns (row 9 2 2 0 ∷ []) ∷ [])
unfolding new_shuffled read_out_shuffled read_next_shuffled fill_batch push_turn read_turn
    read_and_shuffle start_read read_proc push_batch join_batches write_dups next_batch iota
read_out_shuffled_test = refl

-- ===== src/UbPsi/Transfer.antt =====
-- `OfflineTransferCache` of psi/algorithm/ecdh/ub_psi/server.cc and client.cc: what the server reads
-- of its cache ends in the client's file.
use mathlib.Core.List.{append_assoc, append-nil}
use psi.Prelude.{
  ℕ, suc, ◌+◌, ◌%◌, ◌^◌, ◌≡◌, ◌<◌, refl, sym, ◌∙◌, ap, true, false, List, [], ◌∷◌, ◌++◌, map,
  length, length-map, length-append, ok, ◌==◌, arith,
}
use psi.Prelude.Bytes.{Bytes, is_nil, concat}
use psi.Prelude.Count.{All, total}
use psi.Ecdh.{DupCnt, dup_at}
use psi.Ecdh.Codec.{HaveSize}
use psi.UbPsi.{DataBatch, data_batch, last_batch, uint32}
use psi.UbPsi.Server.{send_final_evaluated_items}
use psi.UbPsi.Client.{recv_final_evaluated_items}
use psi.UbPsi.Cache.{non_zero}
use psi.UbPsi.Store.{FileStore, save_cipher, save_ciphers}
use psi.UbPsi.Round.{split_items-concat}
use psi.UbPsi.Offline.{Row}
use psi.UbPsi.Caching.{NonEmpty}
use psi.UbPsi.Reading.{with_dups, is_nil-map}

-- A position before all keys has no count.
non_zero_below : (k j : ℕ) (cnts : List ℕ) → j < k → dup_at (non_zero k cnts) j ≡ 0
unfolding dup_at non_zero
non_zero_below k j [] h = refl
non_zero_below k j (c ∷ cnts) h = ground (arith, non_zero_below (k + 1) j cnts (omega (arith, h)))

-- What a position is looked up as is its count.
pub dup_at-non_zero :
    {A : Type 0} (cnt : A → ℕ) (k : ℕ) (before : List A) (a : A) (after : List A)
    → dup_at (non_zero k (map cnt (before ++ a ∷ after))) (k + length before) ≡ cnt a
unfolding dup_at non_zero
dup_at-non_zero cnt k [] a after =
    ground (arith, non_zero_below (k + 1) (k + 0) (map cnt after) (omega arith))
dup_at-non_zero cnt k (b ∷ before) a after =
    let same : k + 1 + length before ≡ k + suc (length before) = omega arith in
    let later : DupCnt = non_zero (k + 1) (map cnt (before ++ a ∷ after)) in
    let rest : dup_at later (k + suc (length before)) ≡ cnt a =
      ap (dup_at later) (sym same) ∙ dup_at-non_zero cnt (k + 1) before a after in
    ground (arith, rest)

-- A row in the client's file.
abbrev pub in_file : Row → Bytes × ℕ
in_file r = (r.item, r.dup_cnt)

-- The copies that a row stands for.
abbrev pub copies : Row → ℕ
copies r = r.dup_cnt + 1

-- The store after one row more, and after the rows.
abbrev with_row : Row → FileStore → FileStore
with_row r s = record {
  items = s.items ++ in_file r ∷ [];
  meta_file = s.meta_file;
  cipher_len = s.cipher_len;
  item_cnt = uint32 (s.item_cnt + 1);
  peer_cnt = uint32 (s.peer_cnt + r.dup_cnt + 1);
}

abbrev pub filled : List Row → FileStore → FileStore
filled [] s = s
filled (r ∷ rows) s = filled rows (with_row r s)

filled-append :
    (rows more : List Row) (s : FileStore) → filled more (filled rows s) ≡ filled (rows ++ more) s
filled-append [] more s = refl
filled-append (r ∷ rows) more s = filled-append rows more (with_row r s)

pub cipher_len-filled :
    (rows : List Row) (s : FileStore) → (filled rows s).cipher_len ≡ s.cipher_len
cipher_len-filled [] s = refl
cipher_len-filled (r ∷ rows) s = cipher_len-filled rows (with_row r s)

pub items-filled :
    (rows : List Row) (s : FileStore) → (filled rows s).items ≡ s.items ++ map in_file rows
items-filled [] s = sym (append-nil s.items)
items-filled (r ∷ rows) s =
    items-filled rows (with_row r s) ∙ append_assoc s.items (in_file r ∷ []) (map in_file rows)

-- The peer's copies are counted modulo 2^32.
pub peer_cnt-filled :
    (rows : List Row) (s : FileStore)
    → s.peer_cnt < 2 ^ 32
    → (filled rows s).peer_cnt ≡ (s.peer_cnt + total copies rows) % 2 ^ 32
unfolding uint32
peer_cnt-filled [] s h = omega (arith, h)
peer_cnt-filled (r ∷ rows) s h = peer_cnt-filled rows (with_row r s) (omega arith) ∙ omega arith

-- So are the items.
pub item_cnt-filled :
    (rows : List Row) (s : FileStore)
    → s.item_cnt < 2 ^ 32
    → (filled rows s).item_cnt ≡ (s.item_cnt + length rows) % 2 ^ 32
unfolding uint32
item_cnt-filled [] s h = omega (arith, h)
item_cnt-filled (r ∷ rows) s h = item_cnt-filled rows (with_row r s) (omega arith) ∙ omega arith

-- The texts of the rows have the length that the receiver cuts by.
abbrev pub OfSize : ℕ → List Row → Type 0
OfSize size rows = All (λ r. length r.item ≡ size) rows

OfSize-HaveSize :
    (size : ℕ) (rows : List Row) → OfSize size rows → HaveSize size (map (λ r. r.item) rows)
OfSize-HaveSize size [] h = tt
OfSize-HaveSize size (r ∷ rows) h = (h.0, OfSize-HaveSize size rows h.1)

save_ciphers-filled :
    (size : ℕ) (before rows : List Row) (s : FileStore)
    → s.cipher_len ≡ size
    → OfSize size rows
    → save_ciphers
        (length before)
        (map (λ r. r.item) rows)
        (non_zero 0 (map (λ r. r.dup_cnt) (before ++ rows)))
        s
      ≡ ok (filled rows s)
unfolding save_ciphers save_cipher
save_ciphers-filled size before [] s same sizes = refl
save_ciphers-filled size before (r ∷ rows) s same sizes =
    let fits : length r.item == s.cipher_len ≡ true = ground (arith, same, sizes.0) in
    let dup : dup_at (non_zero 0 (map (λ r. r.dup_cnt) (before ++ r ∷ rows))) (length before)
        ≡ r.dup_cnt =
      let start : length before ≡ 0 + length before = omega arith in
      ap (dup_at (non_zero 0 (map (λ r. r.dup_cnt) (before ++ r ∷ rows)))) start
      ∙ dup_at-non_zero (λ r. r.dup_cnt) 0 before r rows in
    let next : length (before ++ r ∷ []) ≡ length before + 1 = length-append before (r ∷ []) in
    let items = map (λ r. r.item) rows in
    let cnts : List Row → List ℕ = map (λ r. r.dup_cnt) in
    let s' = with_row r s in
    rw (fits, dup)
      (ap (λ i. save_ciphers i items (non_zero 0 (cnts (before ++ r ∷ rows))) s') (sym next)
        ∙ ap (λ l. save_ciphers (length (before ++ r ∷ [])) items (non_zero 0 (cnts l)) s')
            (sym (append_assoc before (r ∷ []) rows))
        ∙ save_ciphers-filled size (before ++ r ∷ []) rows s' same sizes.1)

-- The loop's messages for batches that are not empty.
sent_of : List (List Row) → List DataBatch
sent_of [] = last_batch ∷ []
sent_of (rows ∷ chunks) = data_batch (with_dups rows).0 (with_dups rows).1 ∷ sent_of chunks

send_final_evaluated_items-sent_of :
    (chunks : List (List Row))
    → NonEmpty chunks
    → send_final_evaluated_items (map with_dups chunks) ≡ (sent_of chunks, length (concat chunks))
unfolding send_final_evaluated_items sent_of
send_final_evaluated_items-sent_of [] h = refl
send_final_evaluated_items-sent_of (rows ∷ chunks) h =
    let more : is_nil (map (λ r. r.item) rows) ≡ false = is_nil-map (λ r. r.item) rows ∙ h.0 in
    let count : length rows + length (concat chunks) ≡ length (rows ++ concat chunks) =
      sym (length-append rows (concat chunks)) in
    rw (more, send_final_evaluated_items-sent_of chunks h.1, length-map rows (λ r. r.item))
      (ap (λ (n : ℕ). (sent_of (rows ∷ chunks), n)) count)

recv_final_evaluated_items-filled :
    (size : ℕ) (chunks : List (List Row)) (s : FileStore)
    → 0 < size
    → s.cipher_len ≡ size
    → All (OfSize size) chunks
    → recv_final_evaluated_items size (sent_of chunks) s ≡ ok (filled (concat chunks) s)
unfolding recv_final_evaluated_items sent_of
recv_final_evaluated_items-filled size [] s pos same sizes = refl
recv_final_evaluated_items-filled size (rows ∷ chunks) s pos same sizes =
    let items : List Bytes = map (λ r. r.item) rows in
    rw
      (
        split_items-concat size items pos (OfSize-HaveSize size rows sizes.0),
        save_ciphers-filled size [] rows s same sizes.0,
        recv_final_evaluated_items-filled size chunks (filled rows s) pos
            (cipher_len-filled rows s ∙ same) sizes.1,
      )
      (ap (λ (t : FileStore). ok t) (filled-append rows (concat chunks) s))

-- The client's file after a transfer holds the rows that the server read of its cache, in order,
-- with their counts, whatever the batches.
pub transfer_lem :
    (size : ℕ) (chunks : List (List Row)) (s : FileStore)
    → 0 < size
    → s.cipher_len ≡ size
    → NonEmpty chunks
    → All (OfSize size) chunks
    → (recv_final_evaluated_items size (send_final_evaluated_items (map with_dups chunks)).0 s
        ≡ ok (filled (concat chunks) s))
      × ((send_final_evaluated_items (map with_dups chunks)).1 ≡ length (concat chunks))
transfer_lem size chunks s pos same full sizes =
    let sent = send_final_evaluated_items-sent_of chunks full in
    rw sent (recv_final_evaluated_items-filled size chunks s pos same sizes, refl)

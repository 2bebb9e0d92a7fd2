-- ===== src/UbPsi/Counting.antt =====
-- `RecvBlindAndSendEvaluate` of psi/algorithm/ecdh/ub_psi/ecdh_oprf_psi.cc: the counts of extra copies
-- that the server collects from the client's batches.
use psi.Prelude.{
  ℕ, ◌+◌, ◌-◌, ◌%◌, ◌^◌, ◌≡◌, ◌<◌, ◌≤◌, refl, sym, ◌∙◌, ap, Bool, true, false, ◌&&◌, ◌||◌, List, [],
  ◌∷◌, length, length-append, ltb, leb, ◌==◌, if◌then◌else◌, arith,
}
use psi.Prelude.Bytes.{Bytes}
use psi.Prelude.Count.{All}
use psi.Ecdh.{Provider, DupCnt, dup_at}
use psi.UbPsi.{uint32}
use psi.UbPsi.Server.{PeerCntInfo, no_peers, count_dups, count_items, add_unique}
use psi.UbPsi.Round.{all_items}
use psi.UbPsi.Exchange.{counts_of}
use psi.UbPsi.Lookup.{has_key}

-- The client's count for its item at a position of the whole input.
unfoldable pub extra_copies_of : Provider → ℕ → ℕ
extra_copies_of [] i = 0
extra_copies_of ((items, dup_cnt) ∷ p) i =
    if ltb i (length items) then dup_at dup_cnt i else extra_copies_of p (i - length items)

-- The counts are a map, and its keys are positions of the batch.
abbrev pub IsMap : List Bytes → DupCnt → DupCnt → Type 0
IsMap items dup_cnt entries = All (λ e. (e.0 < length items) × (dup_at dup_cnt e.0 ≡ e.1)) entries

abbrev pub AreMaps : Provider → Type 0
AreMaps [] = Unit
AreMaps ((items, dup_cnt) ∷ p) = IsMap items dup_cnt dup_cnt × AreMaps p

pub dup_at_absent : (dup_cnt : DupCnt) (k : ℕ) → has_key dup_cnt k ≡ false → dup_at dup_cnt k ≡ 0
unfolding dup_at has_key
dup_at_absent [] k h = refl
dup_at_absent ((j, c) ∷ dup_cnt) k h = ground (arith, h, dup_at_absent dup_cnt k)

has_key_past :
    (items : List Bytes) (dup_cnt entries : DupCnt) (k : ℕ)
    → IsMap items dup_cnt entries
    → length items ≤ k
    → has_key entries k ≡ false
unfolding has_key
has_key_past items dup_cnt [] k h le = refl
has_key_past items dup_cnt (e ∷ entries) k h le =
    let other : e.0 == k ≡ false = ground (arith, h.0.0, le) in
    rw other (has_key_past items dup_cnt entries k h.1 le)

unique-count_dups :
    (entries : DupCnt) (info : PeerCntInfo)
    → (count_dups entries info).peer_unique_cnt ≡ info.peer_unique_cnt
unfolding count_dups
unique-count_dups [] info = refl
unique-count_dups ((j, c) ∷ entries) info = unique-count_dups entries _

one_entry :
    (u k j c w here old : ℕ) (b : Bool)
    → w ≡ j + u
    → (j ≡ k - u → here ≡ c)
    → (if leb u k && b then here else if w == k then c else old)
      ≡ (if leb u k && (j == (k - u) || b) then here else old)
one_entry u k j c w here old true e h = ground arith
one_entry u k j c w here old false e h = ground arith

count_dups_lem :
    (items : List Bytes) (dup_cnt entries : DupCnt) (info : PeerCntInfo) (k : ℕ)
    → IsMap items dup_cnt entries
    → info.peer_unique_cnt + length items < 2 ^ 32
    → dup_at (count_dups entries info).peer_dup_cnt k ≡ (
        if leb info.peer_unique_cnt k && has_key entries (k - info.peer_unique_cnt)
        then dup_at dup_cnt (k - info.peer_unique_cnt)
        else dup_at info.peer_dup_cnt k)
unfolding count_dups has_key uint32 dup_at
count_dups_lem items dup_cnt [] info k h small = ground arith
count_dups_lem items dup_cnt ((j, c) ∷ entries) info k h small =
    let u = info.peer_unique_cnt in
    let info' : PeerCntInfo = record {
      peer_total_cnt = uint32 (info.peer_total_cnt + c);
      peer_unique_cnt = u;
      peer_dup_cnt = (uint32 (j + u), c) ∷ info.peer_dup_cnt;
    } in
    let same : (j + u) % 2 ^ 32 ≡ j + u = omega (arith, h.0.0, small) in
    let there : j ≡ k - u → dup_at dup_cnt (k - u) ≡ c = λ e. ap (dup_at dup_cnt) (sym e) ∙ h.0.1 in
    count_dups_lem items dup_cnt entries info' k h.1 small
    ∙ one_entry u k j c ((j + u) % 2 ^ 32) (dup_at dup_cnt (k - u)) (dup_at info.peer_dup_cnt k)
        (has_key entries (k - u)) same there

-- The positions that have been counted are below the count of the items.
abbrev Below : PeerCntInfo → Type 0
Below info = (k : ℕ) → info.peer_unique_cnt ≤ k → dup_at info.peer_dup_cnt k ≡ 0

one_batch :
    (u k len counted here old later later' : ℕ) (b : Bool)
    → counted ≡ (if leb u k && b then here else old)
    → (b ≡ false → here ≡ 0)
    → (u ≤ k → old ≡ 0)
    → later ≡ later'
    → (if ltb k (u + len) then counted else later)
      ≡ (if ltb k u then old else if ltb (k - u) len then here else later')
one_batch u k len counted here old later later' true e h o l = ground arith
one_batch u k len counted here old later later' false e h o l =
    let zero_here : here ≡ 0 = h refl in ground arith

pub counts_of-extra_copies_of :
    (p : Provider) (info : PeerCntInfo) (k : ℕ)
    → AreMaps p
    → Below info
    → info.peer_unique_cnt + length (all_items p) < 2 ^ 32
    → dup_at (counts_of true p info).peer_dup_cnt k ≡ (
        if ltb k info.peer_unique_cnt
        then dup_at info.peer_dup_cnt k
        else extra_copies_of p (k - info.peer_unique_cnt))
unfolding counts_of extra_copies_of add_unique count_items uint32
counts_of-extra_copies_of [] info k maps below small = ground (arith, below k)
counts_of-extra_copies_of ((items, dup_cnt) ∷ p) info k maps below small =
    let u = info.peer_unique_cnt in
    let info' = count_items (length items) (count_dups dup_cnt info) in
    let total = length-append items (all_items p) in
    let unique : info'.peer_unique_cnt ≡ u + length items =
      ap (λ n. (n + length items) % 2 ^ 32) (unique-count_dups dup_cnt info)
      ∙ omega (arith, small, total) in
    let counted : (k : ℕ)
        → dup_at info'.peer_dup_cnt k ≡ (
            if leb u k && has_key dup_cnt (k - u)
            then dup_at dup_cnt (k - u)
            else dup_at info.peer_dup_cnt k) =
      λ k. count_dups_lem items dup_cnt dup_cnt info k maps.0 (omega (arith, small, total)) in
    let below' : Below info' = λ k le.
      let past : has_key dup_cnt (k - u) ≡ false =
        has_key_past items dup_cnt dup_cnt (k - u) maps.0 (omega (arith, le, unique)) in
      let before : dup_at info.peer_dup_cnt k ≡ 0 = below k (omega (arith, le, unique)) in
      counted k ∙ (rw past (ground (arith, before))) in
    let shift : k - (u + length items) ≡ k - u - length items = omega arith in
    counts_of-extra_copies_of p info' k maps.1 below' (omega (arith, small, total, unique))
    ∙ ap (λ n. if ltb k n then dup_at info'.peer_dup_cnt k else extra_copies_of p (k - n)) unique
    ∙ one_batch u k (length items) (dup_at info'.peer_dup_cnt k) (dup_at dup_cnt (k - u))
        (dup_at info.peer_dup_cnt k) (extra_copies_of p (k - (u + length items)))
        (extra_copies_of p (k - u - length items)) (has_key dup_cnt (k - u)) (counted k)
        (dup_at_absent dup_cnt (k - u)) (below k) (ap (extra_copies_of p) shift)

-- What the server looks up for a position is the client's count of extra copies there.
pub dup_at-counts_of :
    (p : Provider) (k : ℕ)
    → AreMaps p
    → length (all_items p) < 2 ^ 32
    → dup_at (counts_of true p no_peers).peer_dup_cnt k ≡ extra_copies_of p k
unfolding dup_at
dup_at-counts_of p k maps small =
    let none_before : ltb k 0 ≡ false = ground arith in
    let same : k - 0 ≡ k = omega arith in
    counts_of-extra_copies_of p no_peers k maps (λ k le. refl) (omega (arith, small))
    ∙ (rw none_before (ap (extra_copies_of p) same))

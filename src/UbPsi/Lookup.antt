-- ===== src/UbPsi/Lookup.antt =====
-- The server's map from positions to counts (psi/algorithm/ecdh/ub_psi/server.cc), in any order.
use mathlib.Core.Path.{ap₂}
use mathlib.Core.List.{Permᴰ}
use psi.Prelude.{
  ℕ, ◌+◌, ◌≡◌, ◌<◌, ◌≤◌, refl, sym, ◌∙◌, ap, Bool, true, false, ◌||◌, Option, none, some, [], ◌∷◌,
  ◌==◌, if◌then◌else◌, arith, Bool-cases, inl, inr,
}
use psi.Prelude.Count.{All, All-perm}
use psi.Ecdh.{DupCnt}
use psi.UbPsi.Online.{find_index}

-- The map is read only through its entries, whatever their order.
module _ (look : ℕ → Option ℕ) where
  -- Every entry is what `look` says.
  abbrev Agrees : DupCnt → Type 0
  Agrees es = All (λ e. look e.0 ≡ some e.1) es

unfoldable pub has_key : DupCnt → ℕ → Bool
has_key [] k = false
has_key (e ∷ es) k = e.0 == k || has_key es k

or_swap : (a b c : Bool) → (a || (b || c)) ≡ (b || (a || c))
or_swap true true c = refl
or_swap true false c = refl
or_swap false true c = refl
or_swap false false c = refl

has_key-perm : (k : ℕ) {es es' : DupCnt} → Permᴰ es es' → has_key es k ≡ has_key es' k
unfolding has_key
has_key-perm k Permᴰ.nil = refl
has_key-perm k (Permᴰ.cons e p) = ap₂ (λ (x : ℕ × ℕ) (b : Bool). x.0 == k || b) e (has_key-perm k p)
has_key-perm k (Permᴰ.swap {a = a} {b = b} {l = l} e₁ e₂) =
    or_swap (a.0 == k) (b.0 == k) (has_key l k)
    ∙ ap₂ (λ (x y : ℕ × ℕ). x.0 == k || (y.0 == k || has_key l k)) e₂ e₁
has_key-perm k (Permᴰ.trans p q) = has_key-perm k p ∙ has_key-perm k q

find_index_lem :
    (look : ℕ → Option ℕ) (es : DupCnt) (k : ℕ)
    → Agrees look es
    → find_index es k ≡ (if has_key es k then look k else none)
unfolding find_index has_key
find_index_lem look [] k h = refl
find_index_lem look ((j, c) ∷ es) k h = elim (Bool-cases (j == k)) [
  | inl here ↦ let same : j ≡ k = ground (arith, here) in rw here (sym h.0 ∙ ap look same)
  | inr other ↦ rw other (find_index_lem look es k h.1)
]

-- The keys grow, from `j` on.
abbrev pub Grows : ℕ → DupCnt → Type 0
Grows j [] = Unit
Grows j (e ∷ es) = (j ≤ e.0) × Grows (e.0 + 1) es

pub Grows-weaken : (j k : ℕ) (es : DupCnt) → Grows j es → k ≤ j → Grows k es
Grows-weaken j k [] h le = tt
Grows-weaken j k (e ∷ es) h le = (omega (arith, h.0, le), h.1)

pub find_index_below : (j k : ℕ) (es : DupCnt) → Grows j es → k < j → find_index es k ≡ none
unfolding find_index
find_index_below j k [] h lt = refl
find_index_below j k (e ∷ es) h lt =
    let other : e.0 == k ≡ false = ground (arith, h.0, lt) in
    rw other (find_index_below (e.0 + 1) k es h.1 (omega (arith, h.0, lt)))

Agrees-cons :
    (e : ℕ × ℕ) (all es : DupCnt) (j : ℕ)
    → Grows j es
    → e.0 < j
    → Agrees (find_index all) es
    → Agrees (find_index (e ∷ all)) es
unfolding find_index
Agrees-cons e all [] j grows lt h = tt
Agrees-cons e all (x ∷ es) j grows lt h =
    let other : e.0 == x.0 ≡ false = ground (arith, grows.0, lt) in
    (rw other h.0, Agrees-cons e all es (x.0 + 1) grows.1 (omega (arith, grows.0, lt)) h.1)

find_index-Agrees : (j : ℕ) (es : DupCnt) → Grows j es → Agrees (find_index es) es
unfolding find_index
find_index-Agrees j [] h = tt
find_index-Agrees j (e ∷ es) h =
    let same : e.0 == e.0 ≡ true = ground arith in
    (
      rw same refl,
      Agrees-cons e es es (e.0 + 1) h.1 (omega arith) (find_index-Agrees (e.0 + 1) es h.1),
    )

-- Entries with growing keys are found in any order of them.
pub find_index-perm :
    {es es' : DupCnt} (k : ℕ) → Grows 0 es' → Permᴰ es es' → find_index es k ≡ find_index es' k
find_index-perm {es} {es'} k grows p =
    let agrees = find_index-Agrees 0 es' grows in
    find_index_lem (find_index es') es k (All-perm (λ e. find_index es' e.0 ≡ some e.1) p agrees)
    ∙ ap (λ b. if b then find_index es' k else none) (has_key-perm k p)
    ∙ sym (find_index_lem (find_index es') es' k agrees)

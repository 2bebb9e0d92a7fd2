-- ===== src/Table/Split/Batch.antt =====
-- One batch of the key info, as `InterIndexProcessor` (psi/utils/table_utils.cc) goes over it.
use mathlib.Core.Logic.{◌≢◌}
use psi.Prelude.{
  ℕ, suc, ◌+◌, ◌%◌, ◌^◌, ◌<◌, ◌≤◌, ◌≡◌, refl, Bool, true, false, Option, none, some, List, [], ◌∷◌,
  ◌++◌, length, Returns, ltb, ◌==◌, if◌then◌else◌, Bool-cases, ◌⊎◌, inl, inr, arith, ap, sym, ◌∙◌,
  subst,
}
use psi.Table.Split.{InterInfo, InterIndexProcessor, advance, step_index, scan_infos}

-- The indexes grow, from `k` on, and stay below `n`; the counts have 32 bits.
abbrev pub Ascends : ℕ → ℕ → List (ℕ × ℕ) → Type 0
Ascends k n [] = Unit {0}
Ascends k n ((i, c) ∷ is) = (k ≤ i) × (i < n) × (c < 2 ^ 32) × Ascends (i + 1) n is

-- The keys of the intersection, by one walk over the keys from the key `k` on.
unfoldable pub matches : ℕ → List (ℕ × ℕ) → List (ℕ × ℕ) → List InterInfo
matches k [] is = []
matches k ((start, dup) ∷ infos) [] = []
matches k ((start, dup) ∷ infos) ((i, c) ∷ is) =
    if k == i
    then record { start_index = start; self_dup_cnt = dup; peer_dup_cnt = c }
      ∷ matches (k + 1) infos is
    else matches (k + 1) infos ((i, c) ∷ is)

pub matches-nil : (k : ℕ) (infos : List (ℕ × ℕ)) → matches k infos [] ≡ []
unfolding matches
matches-nil k [] = refl
matches-nil k ((start, dup) ∷ infos) = refl

-- The processor with the indexes `is` left, the one that is waited for included.
abbrev pub state : List (ℕ × ℕ) → List (List (ℕ × ℕ)) → ℕ → Bool → InterIndexProcessor
state [] infos k finish = record {
  reader = [];
  infos = infos;
  index_with_peer_cnt = none;
  self_info_index = k;
  finish = finish;
}
state (i ∷ is) infos k finish = record {
  reader = is;
  infos = infos;
  index_with_peer_cnt = some i;
  self_info_index = k;
  finish = finish;
}

abbrev pub front : List (ℕ × ℕ) → Option (ℕ × ℕ)
front [] = none
front (i ∷ is) = some i

-- A processor that has stopped has no index left; another one is at its key.
abbrev pub AtKey : Bool → List (ℕ × ℕ) → ℕ → ℕ → Type 0
AtKey stopped left at_key k = ((stopped ≡ true) × (left ≡ [])) ⊎ ((stopped ≡ false) × (at_key ≡ k))

pub not_stopped :
    (stopped : Bool) (is : List (ℕ × ℕ)) (at_key k : ℕ)
    → stopped ≡ false
    → AtKey stopped is at_key k
    → at_key ≡ k
not_stopped stopped is at_key k going (inl (e, none_left)) = absurd (cc (e, going))
not_stopped stopped is at_key k going (inr (e, at)) = at

-- What reading one batch from the key `k` on gives and leaves.
pub record Scanned (n k : ℕ) (batch is : List (ℕ × ℕ)) (rest : List (List (ℕ × ℕ)))
    (inter : List InterInfo) (q : InterIndexProcessor) : Type 0 where
  pub left : List (ℕ × ℕ)
  pub at_key : ℕ
  pub stopped : Bool
  pub is_state : q ≡ state left rest at_key stopped
  pub matched :
      (more : List (ℕ × ℕ))
      → matches k (batch ++ more) is ≡ inter ++ matches (k + length batch) more left
  pub ascends : Ascends (k + length batch) n left
  pub position : AtKey stopped left at_key (k + length batch)
  pub unread : inter ≡ [] → is ≢ [] → (left ≡ is) × (stopped ≡ false)

module _ (n k start dup i c : ℕ) (batch is : List (ℕ × ℕ)) (rest : List (List (ℕ × ℕ))) where
  abbrev found : InterInfo
  found = record { start_index = start; self_dup_cnt = dup; peer_dup_cnt = c }

  Scanned-found :
      (inter : List InterInfo) (q : InterIndexProcessor)
      → (k == i) ≡ true
      → Scanned n (k + 1) batch is rest inter q
      → Scanned n k ((start, dup) ∷ batch) ((i, c) ∷ is) rest (found ∷ inter) q
  unfolding matches
  Scanned-found inter q here scanned =
      let shift : (k + 1) + length batch ≡ k + suc (length batch) = omega arith in
      record {
        left = scanned.left;
        at_key = scanned.at_key;
        stopped = scanned.stopped;
        is_state = scanned.is_state;
        matched = λ more. rw here (
            ap (λ l. found ∷ l)
              (scanned.matched more ∙ ap (λ j. inter ++ matches j more scanned.left) shift));
        ascends = subst (λ j. Ascends j n scanned.left) shift scanned.ascends;
        position =
            subst (λ j. AtKey scanned.stopped scanned.left scanned.at_key j) shift scanned.position;
        unread = λ none_found ne. absurd (cc none_found);
      }

  Scanned-skipped :
      (inter : List InterInfo) (q : InterIndexProcessor)
      → (k == i) ≡ false
      → Scanned n (k + 1) batch ((i, c) ∷ is) rest inter q
      → Scanned n k ((start, dup) ∷ batch) ((i, c) ∷ is) rest inter q
  unfolding matches
  Scanned-skipped inter q other scanned =
      let shift : (k + 1) + length batch ≡ k + suc (length batch) = omega arith in
      record {
        left = scanned.left;
        at_key = scanned.at_key;
        stopped = scanned.stopped;
        is_state = scanned.is_state;
        matched = λ more.
            rw other (scanned.matched more ∙ ap (λ j. inter ++ matches j more scanned.left) shift);
        ascends = subst (λ j. Ascends j n scanned.left) shift scanned.ascends;
        position =
            subst (λ j. AtKey scanned.stopped scanned.left scanned.at_key j) shift scanned.position;
        unread = scanned.unread;
      }

-- The call for the key after one that was found.
call_after :
    (batch is : List (ℕ × ℕ)) (rest : List (List (ℕ × ℕ))) (k i c : ℕ)
    → (k + 1) % 2 ^ 32 ≡ k + 1
    → (let p' = step_index (advance (state ((i, c) ∷ is) rest k false)) in
        scan_infos batch p'.index_with_peer_cnt p')
      ≡ scan_infos batch (front is) (state is rest (k + 1) false)
call_after batch [] rest k i c wrap = rw wrap refl
call_after batch (j ∷ is) rest k i c wrap = rw wrap refl

module _ (n : ℕ) (bound : n < 2 ^ 32) (rest : List (List (ℕ × ℕ))) where
  pub scan_infos-Scanned :
      (batch is : List (ℕ × ℕ)) (k : ℕ)
      → Ascends k n is
      → k + length batch ≤ n
      → Returns
          (scan_infos batch (front is) (state is rest k false))
          (λ (inter, q). Scanned n k batch is rest inter q)
  unfolding scan_infos matches
  scan_infos-Scanned [] is k up fits =
      let same : k ≡ k + 0 = omega arith in
      (
        ([], state is rest k false),
        refl,
        record {
          left = is;
          at_key = k;
          stopped = false;
          is_state = refl;
          matched = λ more. ap (λ j. matches j more is) same;
          ascends = subst (λ j. Ascends j n is) same up;
          position = inr (refl, same);
          unread = λ e ne. (refl, refl);
        },
      )
  scan_infos-Scanned ((start, dup) ∷ batch) [] k up fits = (
    ([], state [] rest k true),
    refl,
    record {
      left = [];
      at_key = k;
      stopped = true;
      is_state = refl;
      matched = λ more. sym (matches-nil (k + suc (length batch)) more);
      ascends = tt;
      position = inl (refl, refl);
      unread = λ e ne. absurd (ne refl);
    },
  )
  scan_infos-Scanned ((start, dup) ∷ batch) ((i, c) ∷ is) k up fits =
      let wrap : (k + 1) % 2 ^ 32 ≡ k + 1 = omega (arith, bound, fits) in
      elim (Bool-cases (k == i)) [
        | inl here ↦
            let e : k ≡ i = ground arith in
            let fits32 : c % 2 ^ 32 ≡ c = omega (arith, up.2) in
            let (p, eq, scanned) =
              scan_infos-Scanned batch is (k + 1) (subst (λ j. Ascends (j + 1) n is) (sym e) up.3)
                (omega (arith, fits)) in
            (
              (found n k start dup i c batch is rest ∷ p.0, p.1),
              rw (here, fits32, call_after batch is rest k i c wrap, eq) refl,
              Scanned-found n k start dup i c batch is rest p.0 p.1 here scanned,
            )
        | inr other ↦
            let later : ltb i k ≡ false = ground (arith, up.0) in
            let again =
              ap (λ j. scan_infos batch (some (i, c)) (state ((i, c) ∷ is) rest j false)) wrap in
            let (p, eq, scanned) =
              scan_infos-Scanned batch ((i, c) ∷ is) (k + 1)
                (ground (arith, up.0), up.1, up.2, up.3) (omega (arith, fits)) in
            (
              p,
              rw (other, later) (again ∙ eq),
              Scanned-skipped n k start dup i c batch is rest p.0 p.1 other scanned,
            )
      ]

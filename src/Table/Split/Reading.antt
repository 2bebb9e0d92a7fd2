-- ===== src/Table/Split/Reading.antt =====
-- `InterIndexProcessor` (psi/utils/table_utils.cc), against one walk over the keys and the indexes.
use mathlib.Core.Logic.{◌≢◌}
use psi.Prelude.{
  ℕ, ◌+◌, ◌^◌, ◌<◌, ◌≡◌, refl, Bool, true, false, List, [], ◌∷◌, ◌++◌, length, length-append, ok,
  Returns, if◌then◌else◌, inl, inr, arith, ap, sym, ◌∙◌, subst,
}
use psi.Prelude.Bytes.{is_nil, concat}
use psi.Prelude.Count.{All}
use psi.Table.Split.{InterInfo, InterIndexProcessor, new_processor, collect, get_batch_info}
use psi.Table.Split.Batch.{
  Ascends, matches, matches-nil, state, AtKey, not_stopped, Scanned, scan_infos-Scanned,
}

-- The processor between two calls: `k` keys are read of `n`, and `infos` are the batches left.
pub record Reads (n k : ℕ) (is : List (ℕ × ℕ)) (infos : List (List (ℕ × ℕ)))
    (q : InterIndexProcessor) : Type 0 where
  pub at_key : ℕ
  pub stopped : Bool
  pub is_state : q ≡ state is infos at_key stopped
  pub position : AtKey stopped is at_key k
  pub ascends : Ascends k n is
  pub counted : k + length (concat infos) ≡ n
  pub full : All (λ b. is_nil b ≡ false) infos

-- What a call gives: some keys of the intersection, or none if there are no more, and what is left.
pub record Given (n k : ℕ) (is : List (ℕ × ℕ)) (infos : List (List (ℕ × ℕ)))
    (inter : List InterInfo) (q : InterIndexProcessor) : Type 0 where
  pub next_key : ℕ
  pub next_is : List (ℕ × ℕ)
  pub next_infos : List (List (ℕ × ℕ))
  pub reads : Reads n next_key next_is next_infos q
  pub matched : matches k (concat infos) is ≡ inter ++ matches next_key (concat next_infos) next_is
  pub done : inter ≡ [] → matches k (concat infos) is ≡ []
  pub shorter : inter ≢ [] → length next_infos < length infos

-- After a batch: what it gave, or what the batches after it give.
after_batch :
    (n k i c : ℕ) (is batch : List (ℕ × ℕ)) (infos : List (List (ℕ × ℕ)))
    → k + length (concat (batch ∷ infos)) ≡ n
    → All (λ b. is_nil b ≡ false) infos
    → (Ascends (k + length batch) n ((i, c) ∷ is)
        → Returns
            (collect infos (state ((i, c) ∷ is) infos (k + length batch) false))
            (λ (inter, q). Given n (k + length batch) ((i, c) ∷ is) infos inter q))
    → (inter : List InterInfo) (q : InterIndexProcessor)
    → Scanned n k batch ((i, c) ∷ is) infos inter q
    → Returns
        (if is_nil inter then collect infos q else ok (inter, q))
        (λ (inter', q'). Given n k ((i, c) ∷ is) (batch ∷ infos) inter' q')
after_batch n k i c is batch infos counted full next [] q scanned =
    let (same_is, going) = scanned.unread refl (λ e. cc e) in
    let position =
      not_stopped scanned.stopped scanned.left scanned.at_key (k + length batch) going
        scanned.position in
    let q_is : q ≡ state ((i, c) ∷ is) infos (k + length batch) false =
      scanned.is_state ∙ (rw (same_is, going, position) refl) in
    let (p, eq, given) =
      next (subst (λ l. Ascends (k + length batch) n l) same_is scanned.ascends) in
    let matched =
      scanned.matched (concat infos)
      ∙ ap (λ l. matches (k + length batch) (concat infos) l) same_is in
    (
      p,
      rw q_is eq,
      record {
        next_key = given.next_key;
        next_is = given.next_is;
        next_infos = given.next_infos;
        reads = given.reads;
        matched = matched ∙ given.matched;
        done = λ e. matched ∙ given.done e;
        shorter = λ ne. omega (arith, given.shorter ne);
      },
    )
after_batch n k i c is batch infos counted full next (x ∷ inter) q scanned = (
  (x ∷ inter, q),
  refl,
  record {
    next_key = k + length batch;
    next_is = scanned.left;
    next_infos = infos;
    reads = record {
      at_key = scanned.at_key;
      stopped = scanned.stopped;
      is_state = scanned.is_state;
      position = scanned.position;
      ascends = scanned.ascends;
      counted = omega (arith, counted, length-append batch (concat infos));
      full = full;
    };
    matched = scanned.matched (concat infos);
    done = λ e. absurd (cc e);
    shorter = λ ne. omega arith;
  },
)

module _ (n : ℕ) (bound : n < 2 ^ 32) where
  collect-Given :
      (infos : List (List (ℕ × ℕ))) (k i c : ℕ) (is : List (ℕ × ℕ)) (rest : List (List (ℕ × ℕ)))
      → Ascends k n ((i, c) ∷ is)
      → k + length (concat infos) ≡ n
      → All (λ b. is_nil b ≡ false) infos
      → Returns
          (collect infos (state ((i, c) ∷ is) rest k false))
          (λ (inter, q). Given n k ((i, c) ∷ is) infos inter q)
  unfolding collect
  collect-Given [] k i c is rest up counted full = absurd (omega (arith, up.0, up.1, counted))
  collect-Given (batch ∷ infos) k i c is rest up counted full =
      let parts = length-append batch (concat infos) in
      let (p, eq, scanned) =
        scan_infos-Scanned n bound infos batch ((i, c) ∷ is) k up (omega (arith, counted, parts)) in
      rw (full.0, eq)
        (after_batch n k i c is batch infos counted full.1
          (λ up'.
            collect-Given infos (k + length batch) i c is infos up' (omega (arith, counted, parts))
              full.1)
          p.0 p.1 scanned)

  -- Nothing is given where no index is left.
  nothing_left :
      (k at_key : ℕ) (infos : List (List (ℕ × ℕ)))
      → k + length (concat infos) ≡ n
      → All (λ b. is_nil b ≡ false) infos
      → Given n k [] infos [] (state [] infos at_key true)
  nothing_left k at_key infos counted full = record {
    next_key = k;
    next_is = [];
    next_infos = infos;
    reads = record {
      at_key = at_key;
      stopped = true;
      is_state = refl;
      position = inl (refl, refl);
      ascends = tt;
      counted = counted;
      full = full;
    };
    matched = refl;
    done = λ e. matches-nil k (concat infos);
    shorter = λ ne. absurd (ne refl);
  }

  get_from_state :
      (k : ℕ) (is : List (ℕ × ℕ)) (infos : List (List (ℕ × ℕ))) (at_key : ℕ) (stopped : Bool)
      → AtKey stopped is at_key k
      → Ascends k n is
      → k + length (concat infos) ≡ n
      → All (λ b. is_nil b ≡ false) infos
      → Returns
          (get_batch_info (state is infos at_key stopped))
          (λ (inter, q'). Given n k is infos inter q')
  unfolding get_batch_info
  get_from_state k [] infos at_key true position up counted full =
      (([], state [] infos at_key true), refl, nothing_left k at_key infos counted full)
  get_from_state k [] infos at_key false position up counted full =
      (([], state [] infos at_key true), refl, nothing_left k at_key infos counted full)
  get_from_state k (i ∷ is) infos at_key true (inl (e, none_left)) up counted full =
      absurd (cc none_left)
  get_from_state k (i ∷ is) infos at_key true (inr (e, at)) up counted full = absurd (cc e)
  get_from_state k (i ∷ is) infos at_key false (inl (e, none_left)) up counted full = absurd (cc e)
  get_from_state k ((i, c) ∷ is) infos at_key false (inr (e, at)) up counted full =
      rw at (collect-Given infos k i c is infos up counted full)

  -- Every call of `GetBatchInfo` returns.
  pub get_batch_info-Given :
      (k : ℕ) (is : List (ℕ × ℕ)) (infos : List (List (ℕ × ℕ))) (q : InterIndexProcessor)
      → Reads n k is infos q
      → Returns (get_batch_info q) (λ (inter, q'). Given n k is infos inter q')
  get_batch_info-Given k is infos q reads =
      subst (λ p. Returns (get_batch_info p) (λ (inter, q'). Given n k is infos inter q'))
        (sym reads.is_state)
        (get_from_state k is infos reads.at_key reads.stopped reads.position reads.ascends
          reads.counted reads.full)

pub new_processor-Reads :
    (n : ℕ) (is : List (ℕ × ℕ)) (infos : List (List (ℕ × ℕ)))
    → Ascends 0 n is
    → length (concat infos) ≡ n
    → All (λ b. is_nil b ≡ false) infos
    → Reads n 0 is infos (new_processor is infos)
unfolding new_processor
new_processor-Reads n is infos up counted full = record {
  at_key = 0;
  stopped = false;
  is_state = starts is infos;
  position = inr (refl, refl);
  ascends = up;
  counted = omega (arith, counted);
  full = full;
}
  where
    starts :
        (is : List (ℕ × ℕ)) (infos : List (List (ℕ × ℕ)))
        → new_processor is infos ≡ state is infos 0 false
    starts [] infos = refl
    starts (i ∷ is) infos = refl

-- ===== src/Cuckoo/Counts.antt =====
-- How often an input is stored, and what one placement and one round do to that.
use psi.Prelude.{
  ℕ, zero, suc, ◌+◌, ◌^◌, ◌≤◌, ◌≡◌, refl, inl, inr, List, [], ◌∷◌, ◌++◌, arith, ◌==◌, Returns,
  at_total, length, length-set, set, if◌then◌else◌,
}
use psi.Prelude.Count.{All, All-append, All-set, All-at, total, total-append, total-set}
use psi.Cuckoo.{Options, num_bins, input_idx, is_empty, place, pass, rounds}
use psi.Cuckoo.Words.{
  IsEntry, IsSlot, IsUsable, IsEntry-not-empty, target_of_total, Retries, retry_total,
}

-- 1 if the word stores the input, 0 if it is empty or stores another.
abbrev pub stores : ℕ → ℕ → ℕ
stores i w = if is_empty w then 0 else if input_idx w == i then 1 else 0

-- How many of the words store the input.
abbrev pub occurrences : ℕ → List ℕ → ℕ
occurrences i = total (stores i)

-- As many bins as the options say, with words for the first `n` inputs only.
pub record IsTable (o : Options) (n : ℕ) (bins : List ℕ) : Type 0 where
  pub size : length bins ≡ num_bins o
  pub slots : All (IsSlot o n) bins

module _ (o : Options) (u : IsUsable o) (hashes : List ℕ) (few : length hashes ≤ 2 ^ 56) where
  -- Placing a word swaps it with the word that was there.
  pub place_total :
      (bins : List ℕ) (w : ℕ)
      → IsTable o (length hashes) bins
      → IsEntry o (length hashes) w
      → Returns (place o hashes bins w) (λ r.
        IsTable o (length hashes) r.0
        × IsSlot o (length hashes) r.1
        × ((i : ℕ) → occurrences i r.0 + stores i r.1 ≡ occurrences i bins + stores i w))
  unfolding place
  place_total bins w t e =
      let (b, q, small) = target_of_total o u hashes w e in
      let (old, q') = at_total bins b (omega (arith, t.size)) in
      (
        (set bins b w, old),
        rw (q, q') refl,
        (
          record {
            size = omega (arith, length-set bins b w, t.size);
            slots = All-set (IsSlot o (length hashes)) bins b w (λ _. e) t.slots;
          },
          All-at (IsSlot o (length hashes)) bins b old t.slots q',
          (λ i. total-set (stores i) bins b w old q'),
        ),
      )

  Retries-count :
      (w : ℕ) (again : List ℕ)
      → Retries o u (length hashes) w again
      → All (IsEntry o (length hashes)) again × ((i : ℕ) → occurrences i again ≡ stores i w)
  Retries-count w again (inl (e, q)) = rw q (tt, λ i. rw e refl)
  Retries-count w again (inr (e, (c, q, entry, same))) =
      rw q (
        (entry, tt),
        λ i. rw (e, IsEntry-not-empty o u (length hashes) c entry, same) (omega arith),
      )

  -- A round loses no input and makes none up.
  abbrev pub Keeps : List ℕ → List ℕ → List ℕ × List ℕ → Type 0
  Keeps bins cs r =
      IsTable o (length hashes) r.0
      × All (IsEntry o (length hashes)) r.1
      × ((i : ℕ) → occurrences i r.0 + occurrences i r.1 ≡ occurrences i bins + occurrences i cs)

  pub pass_total :
      (bins cs : List ℕ)
      → IsTable o (length hashes) bins
      → All (IsEntry o (length hashes)) cs
      → Returns (pass o hashes bins cs) (Keeps bins cs)
  unfolding pass
  pass_total bins [] t es = ((bins, []), refl, (t, tt, λ i. refl))
  pass_total bins (c ∷ cs) t es =
      let ((bins', old), q, (t', slot, moved)) = place_total bins c t es.0 in
      let (again, q', p) = retry_total o u (length hashes) old few slot in
      let (entries, same) = Retries-count old again p in
      let ((bins'', rest), q'', (t'', entries', kept)) = pass_total bins' cs t' es.1 in
      (
        (bins'', again ++ rest),
        rw (q, q', q'') refl,
        (
          t'',
          All-append (IsEntry o (length hashes)) again rest entries entries',
          (λ i. omega (arith, moved i, same i, kept i, total-append (stores i) again rest)),
        ),
      )

  pub rounds_total :
      (n : ℕ) (bins cs : List ℕ)
      → IsTable o (length hashes) bins
      → All (IsEntry o (length hashes)) cs
      → Returns (rounds n o hashes bins cs) (Keeps bins cs)
  unfolding rounds
  rounds_total zero bins cs t es = ((bins, cs), refl, (t, es, λ i. refl))
  rounds_total (suc n) bins [] t es = ((bins, []), refl, (t, tt, λ i. refl))
  rounds_total (suc n) bins (c ∷ cs) t es =
      let ((bins', cs'), q, (t', es', kept)) = pass_total bins (c ∷ cs) t es in
      let (r, q', (t'', es'', kept')) = rounds_total n bins' cs' t' es' in
      (r, rw (q, q') refl, (t'', es'', λ i. omega (arith, kept i, kept' i)))

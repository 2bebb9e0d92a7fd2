-- ===== src/Progress/Bounds.antt =====
-- `Progress::Get` of psi/utils/progress.cc: the numbers that a report can show.
use psi.Prelude.{
  ℕ, suc, ◌+◌, ◌*◌, ◌/◌, ◌%◌, ◌^◌, ◌≤◌, ◌<◌, ◌≡◌, refl, List, [], ◌∷◌, length, Returns, arith, ◌==◌,
  if◌then◌else◌, Bool-cases, inl, inr,
}
use psi.Prelude.Bytes.{Bytes}
use psi.Progress.{
  Progress, progress, Subs, none_left, sub, Mode, single, serial, parallel, Report, Tally, sum,
  is_done, is_last, add_report, report_single, report_nested, get, get_subs,
}

abbrev pub count : Subs → ℕ
count none_left = 0
count (sub p ss) = suc (count ss)

-- Every percentage is at most 100, every sub progress has a weight, and the sum of the weights does not
-- wrap.
abbrev mutual
  pub IsSound : Progress → Type 0
  IsSound (progress m p done description ws ss) =
      (p ≤ 100) × (count ss ≤ length ws) × (sum ws < 2 ^ 64) × AreSound ss

  pub AreSound : Subs → Type 0
  AreSound none_left = Unit {0}
  AreSound (sub p ss) = IsSound p × AreSound ss

abbrev pub IsPlausible : Report → Type 0
IsPlausible r = (r.percentage ≤ 100) × (r.finished + r.running ≤ r.total)

-- What the loop keeps, with the weights that are left.
abbrev Keeps : ℕ → List ℕ → Tally → Type 0
Keeps spent ws t = (t.total_percent ≤ 100 * spent) × (t.finished + t.running + length ws ≤ t.total)

weighted :
    (w spent percent total : ℕ)
    → percent ≤ 100
    → total ≤ 100 * spent
    → total + w * percent ≤ 100 * (spent + w)
weighted w spent percent total h k = grind arith

average :
    (total weight : ℕ) → total ≤ 100 * weight → total / (if weight == 0 then 1 else weight) ≤ 100
average total weight h = elim (Bool-cases (weight == 0)) [
  | inl e ↦ let z : weight ≡ 0 = ground arith in rw e (ground arith)
  | inr e ↦ let pos : 0 < weight = ground arith in rw e (grind arith)
]

module _ (percent_text : ℕ → Bytes) (comma : Bytes) (jobs_text : ℕ → ℕ → ℕ → Bytes) where
  nested-IsPlausible :
      (m : Mode) (description : Bytes) (ws rest : List ℕ) (spent : ℕ) (t : Tally)
      → spent ≤ sum ws
      → sum ws < 2 ^ 64
      → Keeps spent rest t
      → IsPlausible (report_nested percent_text comma jobs_text m description ws t)
  unfolding report_nested
  nested-IsPlausible m description ws rest spent t h small k =
      let same : sum ws % 2 ^ 64 ≡ sum ws = omega (arith, small) in
      (rw same (average t.total_percent (sum ws) (omega (arith, k.0, h))), omega (arith, k.1))

  mutual
    unfolding get get_subs add_report report_single

    get-IsPlausible' :
        (p : Progress) → IsSound p → Returns (get percent_text comma jobs_text p) IsPlausible
    get-IsPlausible' (progress single p done description ws ss) h =
        (report_single percent_text comma jobs_text p description, refl, (h.0, ground arith))
    get-IsPlausible' (progress serial p done description ws ss) h =
        let (t, e, (spent, rest, le, keeps)) =
          get_subs-Keeps ss ws 0
            (record {
              total = length ws;
              finished = 0;
              running = 0;
              total_percent = 0;
              sub_desc = [];
            })
            h.1 h.3 (omega arith, omega arith) in
        (
          report_nested percent_text comma jobs_text serial description ws t,
          rw e refl,
          nested-IsPlausible serial description ws rest spent t (omega (arith, le)) h.2 keeps,
        )
    get-IsPlausible' (progress parallel p done description ws ss) h =
        let (t, e, (spent, rest, le, keeps)) =
          get_subs-Keeps ss ws 0
            (record {
              total = length ws;
              finished = 0;
              running = 0;
              total_percent = 0;
              sub_desc = [];
            })
            h.1 h.3 (omega arith, omega arith) in
        (
          report_nested percent_text comma jobs_text parallel description ws t,
          rw e refl,
          nested-IsPlausible parallel description ws rest spent t (omega (arith, le)) h.2 keeps,
        )

    get_subs-Keeps :
        (ss : Subs) (ws : List ℕ) (spent : ℕ) (t : Tally)
        → count ss ≤ length ws
        → AreSound ss
        → Keeps spent ws t
        → Returns (get_subs percent_text comma jobs_text ss ws t) (λ t'.
          (spent' : ℕ) × (rest : List ℕ) × (spent' ≤ spent + sum ws) × Keeps spent' rest t')
    get_subs-Keeps none_left ws spent t h s k = (t, refl, (spent, ws, omega arith, k))
    get_subs-Keeps (sub p ss) [] spent t h s k = absurd (omega arith)
    get_subs-Keeps (sub p ss) (w ∷ ws) spent t h s k =
        let (r, e, plausible) = get-IsPlausible' p s.0 in
        let t₁ = add_report percent_text comma jobs_text t w r (is_done p) (is_last ss) in
        let (t', e', (spent', rest, le, keeps)) =
          get_subs-Keeps ss ws (spent + w) t₁ (omega arith) s.1 (
            omega (arith, weighted w spent r.percentage t.total_percent plausible.0 k.0),
            omega (arith, plausible.1, k.1),
          ) in
        (t', rw e e', (spent', rest, omega (arith, le), keeps))

  -- The report of a sound progress, however deeply nested, where no sum of weights wraps, comes without
  -- undefined behaviour, shows at most 100 percent, and counts no more jobs finished or running than it
  -- has.
  pub get-IsPlausible :
      (p : Progress) → IsSound p → Returns (get percent_text comma jobs_text p) IsPlausible
  get-IsPlausible p h = get-IsPlausible' p h

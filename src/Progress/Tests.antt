-- ===== src/Progress/Tests.antt =====
-- Concrete runs of the progress reports.
use psi.Prelude.{ℕ, ◌≡◌, refl, List, [], ◌∷◌, ok, Returns, arith, true, false}
use psi.Prelude.Bytes.{Bytes}
use psi.Progress.{
  Progress, progress, none_left, sub, serial, parallel, single, new, update, finish, finish_all,
  finish_last, push_back, add_sub_progress, next_sub_progress, set_weights, set_sub_job_count, get,
  report_single, report_nested, describe, add_report, get_subs,
}
use psi.Progress.Bounds.{IsSound, IsPlausible, get-IsPlausible}
use psi.Progress.Operations.{
  Operation, updates, finishes, adds, nexts, sets_weights, sets_count, within, at_sub, apply,
  apply_all, new-IsSound, apply_all-IsSound,
}

abbrev percent_text : ℕ → Bytes
percent_text n = n ∷ 37 ∷ []

abbrev comma : Bytes
comma = 44 ∷ 32 ∷ []

abbrev jobs_text : ℕ → ℕ → ℕ → Bytes
jobs_text running finished total = running ∷ finished ∷ total ∷ []

-- Two steps of weights 30 and 70: the first is done, the second stands at a half.
abbrev job : Progress
job = progress serial 0 false [] (30 ∷ 70 ∷ 5 ∷ []) (
    sub (progress single 100 true (1 ∷ []) [] none_left)
      (sub (progress single 50 false (2 ∷ []) [] none_left) none_left))

job-IsSound : IsSound job
job-IsSound = (
  omega arith,
  omega arith,
  omega arith,
  ((omega arith, omega arith, omega arith, tt), ((omega arith, omega arith, omega arith, tt), tt)),
)

job_report :
    get percent_text comma jobs_text job
    ≡ ok (record {
      total = 3;
      finished = 1;
      running = 1;
      percentage = 61;
      description = 2 ∷ 44 ∷ 32 ∷ 50 ∷ 37 ∷ [];
    })
unfolding get get_subs report_nested report_single add_report describe
job_report = refl

get-IsPlausible_example : Returns (get percent_text comma jobs_text job) IsPlausible
get-IsPlausible_example = get-IsPlausible percent_text comma jobs_text job job-IsSound

-- A new progress whose two steps are of weights 3 and 4, the second nested.
abbrev calls : List Operation
calls =
    updates 120
    ∷ sets_weights (3 ∷ 4 ∷ []) serial
    ∷ adds []
    ∷ nexts []
    ∷ within 1 (sets_count 2 parallel)
    ∷ within 1 (adds [])
    ∷ within 1 (within 0 (updates 50))
    ∷ finishes
    ∷ []

apply_all-IsSound_example : IsSound (apply_all calls (new []))
unfolding apply new update finish finish_all add_sub_progress next_sub_progress push_back
    finish_last set_weights set_sub_job_count at_sub
apply_all-IsSound_example = apply_all-IsSound calls (new []) (new-IsSound []) (
  tt,
  (
    (omega arith, omega arith),
    (omega arith, (omega arith, ((omega arith, omega arith), (omega arith, (tt, (tt, tt)))))),
  ),
)

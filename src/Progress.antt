-- ===== src/Progress.antt =====
-- psi/utils/progress.h and .cc: nested progress reports. A progress owns its sub progresses here;
-- the source shares them with their workers, who call `Update` on them. Weights and percentages
-- are `size_t`, and their sums and products wrap; the locks are left out, and texts are bytes: `percent_text` and `jobs_text` stand
-- for the calls of `fmt::format` on numbers.
use psi.Prelude.{
  ℕ, zero, suc, ◌+◌, ◌-◌, ◌*◌, ◌/◌, ◌%◌, ◌^◌, ◌≤◌, ◌<◌, min, Bool, true, false, ◌&&◌, ◌||◌, not,
  List, [], ◌∷◌, ◌++◌, length, replicate, take, Result, ok, err, undefined, ◌>>=◌, ltb, leb, ◌==◌,
  if◌then◌else◌,
}
use psi.Prelude.Bytes.{Bytes, is_nil}
pub mod Bounds
pub mod Operations
mod Tests

pub data Mode : Type 0 where
  single serial parallel : Mode

pub record Report : Type 0 where
  pub total : ℕ
  pub finished : ℕ
  pub running : ℕ
  pub percentage : ℕ
  pub description : Bytes

mutual
  pub data Progress : Type 0 where
    progress : Mode → ℕ → Bool → Bytes → List ℕ → Subs → Progress

  pub data Subs : Type 0 where
    none_left : Subs
    sub : Progress → Subs → Subs

abbrev pub mode : Progress → Mode
mode (progress m percentage done description weights subs) = m

abbrev pub percentage : Progress → ℕ
percentage (progress m p done description weights subs) = p

abbrev pub is_done : Progress → Bool
is_done (progress m p done description weights subs) = done

abbrev pub weights : Progress → List ℕ
weights (progress m p done description ws subs) = ws

abbrev pub subs : Progress → Subs
subs (progress m p done description ws ss) = ss

unfoldable pub new : Bytes → Progress
new description = progress single 0 false description [] none_left

unfoldable pub update : ℕ → Progress → Progress
update percent (progress m p done description ws ss) =
    progress m (min percent 100) done description ws ss

unfoldable mutual
  pub finish : Progress → Progress
  finish (progress m p true description ws ss) = progress m p true description ws ss
  finish (progress single p false description ws ss) = progress single 100 true description ws ss
  finish (progress serial p false description ws ss) =
      progress serial 100 true description ws (finish_all ss)
  finish (progress parallel p false description ws ss) =
      progress parallel 100 true description ws (finish_all ss)

  pub finish_all : Subs → Subs
  finish_all none_left = none_left
  finish_all (sub p ss) = sub (finish p) (finish_all ss)

unfoldable pub set_weights : List ℕ → Mode → Progress → Progress
set_weights new_weights m (progress _ p done description ws ss) =
    progress m p done description new_weights ss

-- `weights_.resize(count, 1)`, where there is memory for it.
unfoldable pub set_sub_job_count : ℕ → Mode → Progress → Progress
set_sub_job_count count m (progress _ p done description ws ss) =
    progress m p done description (take count ws ++ replicate (count - length ws) 1) ss

unfoldable pub push_back : Progress → Subs → Subs
push_back p none_left = sub p none_left
push_back p (sub q ss) = sub q (push_back p ss)

unfoldable pub add_sub_progress : Bytes → Progress → Progress
add_sub_progress text (progress m p done description ws ss) =
    progress m p done description ws (push_back (new text) ss)

-- `sub_progresses_.back()->Done()`
unfoldable pub finish_last : Subs → Subs
finish_last none_left = none_left
finish_last (sub p none_left) = sub (finish p) none_left
finish_last (sub p (sub q ss)) = sub p (finish_last (sub q ss))

unfoldable pub next_sub_progress : Bytes → Progress → Progress
next_sub_progress text (progress m p done description ws ss) =
    progress m p done description ws (push_back (new text) (finish_last ss))

-- The loop of `Get` adds modulo 2^64; the remainder is taken once.
abbrev pub sum : List ℕ → ℕ
sum [] = 0
sum (w ∷ ws) = w + sum ws

-- The variables of the loop of `Get`.
pub record Tally : Type 0 where
  pub total : ℕ
  pub finished : ℕ
  pub running : ℕ
  pub total_percent : ℕ
  pub sub_desc : Bytes

abbrev pub is_last : Subs → Bool
is_last none_left = true
is_last (sub p ss) = false

module _ (percent_text : ℕ → Bytes) (comma : Bytes) (jobs_text : ℕ → ℕ → ℕ → Bytes) where
  unfoldable pub add_report : Tally → ℕ → Report → Bool → Bool → Tally
  add_report t weight data_sub done last = record {
    total = t.total - 1 + data_sub.total;
    finished = t.finished + data_sub.finished;
    running = t.running + data_sub.running;
    total_percent = (t.total_percent + weight * data_sub.percentage) % 2 ^ 64;
    sub_desc = if is_nil t.sub_desc && (not done || last) then data_sub.description else t.sub_desc;
  }

  unfoldable pub describe : Bytes → Bytes → Bytes
  describe own sub_desc =
      if is_nil own then sub_desc else if is_nil sub_desc then own else own ++ (comma ++ sub_desc)

  unfoldable pub report_single : ℕ → Bytes → Report
  report_single p description = record {
    total = 1;
    finished = if leb 100 p then 1 else 0;
    running = if ltb 0 p && ltb p 100 then 1 else 0;
    percentage = p;
    description =
        if is_nil description then percent_text p else description ++ (comma ++ percent_text p);
  }

  unfoldable pub report_nested : Mode → Bytes → List ℕ → Tally → Report
  report_nested m description ws t =
      let sub_desc : Bytes = elim m [
        | parallel ↦ jobs_text t.running t.finished t.total
        | _ ↦ t.sub_desc
      ] in
      record {
        total = t.total;
        finished = t.finished;
        running = t.running;
        percentage = t.total_percent / (if sum ws % 2 ^ 64 == 0 then 1 else sum ws % 2 ^ 64);
        description = describe description sub_desc;
      }

  -- `Get`. A sub progress with no weight reads past the vector, which is undefined.
  unfoldable mutual
    pub get : Progress → Result Report
    get (progress single p done description ws ss) = ok (report_single p description)
    get (progress serial p done description ws ss) = do
      t ← get_subs ss ws (record {
        total = length ws;
        finished = 0;
        running = 0;
        total_percent = 0;
        sub_desc = [];
      })
      ok (report_nested serial description ws t)
    get (progress parallel p done description ws ss) = do
      t ← get_subs ss ws (record {
        total = length ws;
        finished = 0;
        running = 0;
        total_percent = 0;
        sub_desc = [];
      })
      ok (report_nested parallel description ws t)

    pub get_subs : Subs → List ℕ → Tally → Result Tally
    get_subs none_left ws t = ok t
    get_subs (sub p ss) [] t = get p >>= λ r. err undefined
    get_subs (sub p ss) (w ∷ ws) t = do
      r ← get p
      get_subs ss ws (add_report t w r (is_done p) (is_last ss))

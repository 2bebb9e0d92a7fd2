-- ===== src/Progress/Operations.antt =====
-- The operations of psi/utils/progress.cc on a progress and on its sub progresses.
use psi.Prelude.{
  ℕ, zero, suc, ◌+◌, ◌-◌, ◌^◌, ◌≤◌, ◌<◌, ◌≡◌, refl, true, false, List, [], ◌∷◌, ◌++◌, length,
  length-append, length-take, length-replicate, replicate, take, arith,
}
use psi.Prelude.Bytes.{Bytes}
use psi.Progress.{
  Progress, progress, Subs, none_left, sub, Mode, single, serial, parallel, new, update, finish,
  finish_all, finish_last, push_back, add_sub_progress, next_sub_progress, set_weights,
  set_sub_job_count, sum, weights, subs,
}
use psi.Progress.Bounds.{count, IsSound, AreSound}

push_back_sound :
    (p : Progress) (ss : Subs)
    → IsSound p
    → AreSound ss
    → AreSound (push_back p ss) × (count (push_back p ss) ≡ count ss + 1)
unfolding push_back
push_back_sound p none_left h s = ((h, tt), omega arith)
push_back_sound p (sub q ss) h s =
    let (sound, size) = push_back_sound p ss h s.1 in ((s.0, sound), omega (arith, size))

mutual
  unfolding finish finish_all

  finish-IsSound : (p : Progress) → IsSound p → IsSound (finish p)
  finish-IsSound (progress m p true description ws ss) h = h
  finish-IsSound (progress single p false description ws ss) h = (omega arith, h.1, h.2, h.3)
  finish-IsSound (progress serial p false description ws ss) h =
      let (sound, size) = finish_all-IsSound ss h.3 in
      (omega arith, omega (arith, size, h.1), h.2, sound)
  finish-IsSound (progress parallel p false description ws ss) h =
      let (sound, size) = finish_all-IsSound ss h.3 in
      (omega arith, omega (arith, size, h.1), h.2, sound)

  finish_all-IsSound :
      (ss : Subs) → AreSound ss → AreSound (finish_all ss) × (count (finish_all ss) ≡ count ss)
  finish_all-IsSound none_left s = (tt, refl)
  finish_all-IsSound (sub p ss) s =
      let (sound, size) = finish_all-IsSound ss s.1 in
      ((finish-IsSound p s.0, sound), omega (arith, size))

finish_last_sound :
    (ss : Subs) → AreSound ss → AreSound (finish_last ss) × (count (finish_last ss) ≡ count ss)
unfolding finish_last
finish_last_sound none_left s = (tt, refl)
finish_last_sound (sub p none_left) s = ((finish-IsSound p s.0, tt), refl)
finish_last_sound (sub p (sub q ss)) s =
    let (sound, size) = finish_last_sound (sub q ss) s.1 in ((s.0, sound), omega (arith, size))

sum-append : (xs ys : List ℕ) → sum (xs ++ ys) ≡ sum xs + sum ys
sum-append [] ys = omega arith
sum-append (x ∷ xs) ys = omega (arith, sum-append xs ys)

sum-take-le : (n : ℕ) (xs : List ℕ) → sum (take n xs) ≤ sum xs
sum-take-le zero xs = omega arith
sum-take-le (suc n) [] = omega arith
sum-take-le (suc n) (x ∷ xs) = omega (arith, sum-take-le n xs)

sum-replicate : (n : ℕ) → sum (replicate n 1) ≡ n
sum-replicate zero = refl
sum-replicate (suc n) = omega (arith, sum-replicate n)

-- A call on a progress, or on its sub progress of a number, for any order of the calls.
pub data Operation : Type 0 where
  updates : ℕ → Operation
  finishes : Operation
  adds nexts : Bytes → Operation
  sets_weights : List ℕ → Mode → Operation
  sets_count : ℕ → Mode → Operation
  within : ℕ → Operation → Operation

unfoldable pub at_sub : (Progress → Progress) → ℕ → Subs → Subs
at_sub f i none_left = none_left
at_sub f zero (sub p ss) = sub (f p) ss
at_sub f (suc i) (sub p ss) = sub p (at_sub f i ss)

abbrev pub in_subs : (Subs → Subs) → Progress → Progress
in_subs f (progress m p done description ws ss) = progress m p done description ws (f ss)

unfoldable pub apply : Operation → Progress → Progress
apply (updates percent) p = update percent p
apply finishes p = finish p
apply (adds text) p = add_sub_progress text p
apply (nexts text) p = next_sub_progress text p
apply (sets_weights ws m) p = set_weights ws m p
apply (sets_count n m) p = set_sub_job_count n m p
apply (within i o) p = in_subs (at_sub (apply o) i) p

unfoldable pub apply_all : List Operation → Progress → Progress
apply_all [] p = p
apply_all (o ∷ os) p = apply_all os (apply o p)

abbrev pub AllowedAt : (Progress → Type 0) → ℕ → Subs → Type 0
AllowedAt P i none_left = Unit
AllowedAt P zero (sub p ss) = P p
AllowedAt P (suc i) (sub p ss) = AllowedAt P i ss

-- A sub progress is added where a weight is free; new weights are enough for the sub progresses that
-- are there, and their sum does not wrap.
abbrev pub IsAllowed : Operation → Progress → Type 0
IsAllowed (updates percent) p = Unit
IsAllowed finishes p = Unit
IsAllowed (adds text) p = count (subs p) < length (weights p)
IsAllowed (nexts text) p = count (subs p) < length (weights p)
IsAllowed (sets_weights ws m) p = (count (subs p) ≤ length ws) × (sum ws < 2 ^ 64)
IsAllowed (sets_count n m) p = (count (subs p) ≤ n) × (sum (weights p) + n < 2 ^ 64)
IsAllowed (within i o) p = AllowedAt (IsAllowed o) i (subs p)

-- Each operation is allowed when it is reached.
abbrev pub AreAllowed : List Operation → Progress → Type 0
AreAllowed [] p = Unit
AreAllowed (o ∷ os) p = IsAllowed o p × AreAllowed os (apply o p)

at_sub-AreSound :
    (f : Progress → Progress) (P : Progress → Type 0)
    → ((p : Progress) → IsSound p → P p → IsSound (f p))
    → (i : ℕ) (ss : Subs) → AllowedAt P i ss
    → AreSound ss
    → AreSound (at_sub f i ss) × (count (at_sub f i ss) ≡ count ss)
unfolding at_sub
at_sub-AreSound f P keep i none_left a s = (tt, refl)
at_sub-AreSound f P keep zero (sub p ss) a s = ((keep p s.0 a, s.1), refl)
at_sub-AreSound f P keep (suc i) (sub p ss) a s =
    let (sound, size) = at_sub-AreSound f P keep i ss a s.1 in ((s.0, sound), omega (arith, size))

fresh-IsSound : (text : Bytes) → IsSound (progress single 0 false text [] none_left)
fresh-IsSound text = (omega arith, omega arith, omega arith, tt)

pub new-IsSound : (text : Bytes) → IsSound (new text)
unfolding new
new-IsSound text = fresh-IsSound text

apply-IsSound : (o : Operation) (p : Progress) → IsSound p → IsAllowed o p → IsSound (apply o p)
unfolding apply new update add_sub_progress next_sub_progress set_weights set_sub_job_count
apply-IsSound (updates percent) (progress m p done description ws ss) h a =
    (omega arith, h.1, h.2, h.3)
apply-IsSound finishes p h a = finish-IsSound p h
apply-IsSound (adds text) (progress m p done description ws ss) h a =
    let (pushed, size) = push_back_sound (new text) ss (fresh-IsSound text) h.3 in
    (h.0, omega (arith, size, a), h.2, pushed)
apply-IsSound (nexts text) (progress m p done description ws ss) h a =
    let (last, same) = finish_last_sound ss h.3 in
    let (pushed, size) = push_back_sound (new text) (finish_last ss) (fresh-IsSound text) last in
    (h.0, omega (arith, size, same, a), h.2, pushed)
apply-IsSound (sets_weights new_weights m) (progress _ p done description ws ss) h a =
    (h.0, a.0, a.1, h.3)
apply-IsSound (sets_count n m) (progress _ p done description ws ss) h a =
    let ones : List ℕ = replicate (n - length ws) 1 in
    let grown = length-append (take n ws) ones in
    let one : ℕ = 1 in
    (
      h.0,
      omega (arith, grown, length-take n ws, length-replicate (n - length ws) one, a.0),
      omega (
        arith,
        sum-append (take n ws) ones,
        sum-take-le n ws,
        sum-replicate (n - length ws),
        a.1,
      ),
      h.3,
    )
apply-IsSound (within i o) (progress m p done description ws ss) h a =
    let (sound, size) = at_sub-AreSound (apply o) (IsAllowed o) (apply-IsSound o) i ss a h.3 in
    (h.0, omega (arith, size, h.1), h.2, sound)

-- Any operations, on a sound progress or on its sub progresses however deeply nested, leave it sound,
-- where each that adds a sub progress finds a free weight, and new weights are enough for the sub
-- progresses that are there and their sum does not wrap; updates and finishing need nothing.
pub apply_all-IsSound :
    (os : List Operation) (p : Progress) → IsSound p → AreAllowed os p → IsSound (apply_all os p)
unfolding apply_all
apply_all-IsSound [] p h a = h
apply_all-IsSound (o ∷ os) p h a = apply_all-IsSound os (apply o p) (apply-IsSound o p h a.0) a.1

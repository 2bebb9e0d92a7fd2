-- ===== src/Okvs/Bits.antt =====
-- Bits under `^` and `&`, and the product of a row with a column.
use psi.Prelude.{
  ℕ, zero, suc, ◌<◌, ◌≡◌, refl, Bool, true, false, ◌&&◌, not, ltb, ◌==◌, if◌then◌else◌, Bool-cases,
  inl, inr, arith, ap, ap₂, ◌∙◌,
}

abbrev pub xor : Bool → Bool → Bool
xor true b = not b
xor false b = b

-- `v = v ^ (f(k) & g(k))` for `k < n`.
unfoldable pub dot : ℕ → (ℕ → Bool) → (ℕ → Bool) → Bool
dot zero f g = false
dot (suc n) f g = xor (dot n f g) (f n && g n)

pub xor_self : (a : Bool) → xor a a ≡ false
xor_self true = refl
xor_self false = refl

pub xor-false : (a : Bool) → xor a false ≡ a
xor-false true = refl
xor-false false = refl

xor_swap_four : (a b c d : Bool) → xor (xor a b) (xor c d) ≡ xor (xor a c) (xor b d)
xor_swap_four true true true true = refl
xor_swap_four true true true false = refl
xor_swap_four true true false true = refl
xor_swap_four true true false false = refl
xor_swap_four true false true true = refl
xor_swap_four true false true false = refl
xor_swap_four true false false true = refl
xor_swap_four true false false false = refl
xor_swap_four false true true true = refl
xor_swap_four false true true false = refl
xor_swap_four false true false true = refl
xor_swap_four false true false false = refl
xor_swap_four false false true true = refl
xor_swap_four false false true false = refl
xor_swap_four false false false true = refl
xor_swap_four false false false false = refl

and-xor : (a b c : Bool) → (xor a b && c) ≡ xor (a && c) (b && c)
and-xor true true true = refl
and-xor true true false = refl
and-xor true false true = refl
and-xor true false false = refl
and-xor false b c = refl

pub dot_congr :
    (n : ℕ) (f f' g g' : ℕ → Bool)
    → ((k : ℕ) → k < n → (f k && g k) ≡ (f' k && g' k))
    → dot n f g ≡ dot n f' g'
unfolding dot
dot_congr zero f f' g g' h = refl
dot_congr (suc n) f f' g g' h =
    ap₂ xor (dot_congr n f f' g g' (λ k le. h k (omega arith))) (h n (omega arith))

pub dot-xor :
    (n : ℕ) (f f' g : ℕ → Bool) → dot n (λ k. xor (f k) (f' k)) g ≡ xor (dot n f g) (dot n f' g)
unfolding dot
dot-xor zero f f' g = refl
dot-xor (suc n) f f' g =
    ap₂ xor (dot-xor n f f' g) (and-xor (f n) (f' n) (g n))
    ∙ xor_swap_four (dot n f g) (dot n f' g) (f n && g n) (f' n && g n)

-- Only the term at `i` is left.
pub dot_single : (n i : ℕ) (g : ℕ → Bool) → dot n (λ k. k == i) g ≡ (if ltb i n then g i else false)
unfolding dot
dot_single zero i g = let e : ltb i 0 ≡ false = ground arith in rw e refl
dot_single (suc n) i g =
    let below = dot_single n i g in
    elim (Bool-cases (n == i)) [
      | inl e ↦
          let same : n ≡ i = ground arith in
          let not_below : ltb i n ≡ false = ground arith in
          let now : ltb i (suc n) ≡ true = ground arith in rw (e, now, below, not_below) (ap g same)
      | inr e ↦
          let same : ltb i (suc n) ≡ ltb i n = ground arith in rw (e, same, below) (xor-false _)
    ]

pub dot-false :
    (n : ℕ) (f g : ℕ → Bool) → ((k : ℕ) → k < n → (f k && g k) ≡ false) → dot n f g ≡ false
unfolding dot
dot-false zero f g h = refl
dot-false (suc n) f g h = rw (dot-false n f g (λ k le. h k (omega arith)), h n (omega arith)) refl

-- ===== src/Prelude/Count.antt =====
-- Predicates on every member of a list, sums over a list, and writes to one position.
use Prim.Native.Nat.{ℕ, zero, suc, ◌+◌, ◌<◌}
use mathlib.Core.Path.{◌≡◌, refl, sym, ap, ◌∙◌, subst}
use mathlib.Core.List.{List, [], ◌∷◌, ◌++◌, Permᴰ}
use native.Mathlib.Omega.{arith}
use psi.Prelude.Lists.{length, set, take, drop}
use psi.Prelude.Outcome.{at, ok}

abbrev pub All {ℓ κ} : {A : Type ℓ} → (A → Type κ) → List A → Type κ
All P [] = Unit
All P (x ∷ xs) = P x × All P xs

module _ {ℓ κ} {A : Type ℓ} (P : A → Type κ) where
  pub All-append : (xs ys : List A) → All P xs → All P ys → All P (xs ++ ys)
  All-append [] ys hx hy = hy
  All-append (x ∷ xs) ys hx hy = (hx.0, All-append xs ys hx.1 hy)

  pub All-set : (xs : List A) (i : ℕ) (v : A) → P v → All P xs → All P (set xs i v)
  All-set [] i v h hs = tt
  All-set (x ∷ xs) zero v h hs = (h, hs.1)
  All-set (x ∷ xs) (suc i) v h hs = (hs.0, All-set xs i v h hs.1)

  pub All-at : (xs : List A) (i : ℕ) (v : A) → All P xs → at xs i ≡ ok v → P v
  All-at [] i v hs e = absurd (cc)
  All-at (x ∷ xs) zero v hs e = subst P (cc) hs.0
  All-at (x ∷ xs) (suc i) v hs e = All-at xs i v hs.1 e

  pub All-take : (n : ℕ) (xs : List A) → All P xs → All P (take n xs)
  All-take zero xs h = tt
  All-take (suc n) [] h = tt
  All-take (suc n) (x ∷ xs) h = (h.0, All-take n xs h.1)

  pub All-drop : (n : ℕ) (xs : List A) → All P xs → All P (drop n xs)
  All-drop zero xs h = h
  All-drop (suc n) [] h = tt
  All-drop (suc n) (x ∷ xs) h = All-drop n xs h.1

  pub All-perm : {xs ys : List A} → Permᴰ xs ys → All P ys → All P xs
  All-perm Permᴰ.nil h = tt
  All-perm (Permᴰ.cons e d) h = (subst P (sym e) h.0, All-perm d h.1)
  All-perm (Permᴰ.swap e₁ e₂) h = (subst P (sym e₁) h.1.0, (subst P (sym e₂) h.0, h.1.1))
  All-perm (Permᴰ.trans d₁ d₂) h = All-perm d₁ (All-perm d₂ h)

  pub All-all : (xs : List A) → ((a : A) → P a) → All P xs
  All-all [] h = tt
  All-all (x ∷ xs) h = (h x, All-all xs h)

module _ {ℓ κ μ} {A : Type ℓ} {P : A → Type κ} {Q : A → Type μ} where
  pub All-imp : (xs : List A) → ((a : A) → P a → Q a) → All P xs → All Q xs
  All-imp [] f h = tt
  All-imp (x ∷ xs) f h = (f x h.0, All-imp xs f h.1)

module _ {ℓ} {A : Type ℓ} where
  -- The sum of `f` over the list.
  abbrev pub total : (A → ℕ) → List A → ℕ
  total f [] = 0
  total f (x ∷ xs) = f x + total f xs

  pub total-append : (f : A → ℕ) (xs ys : List A) → total f (xs ++ ys) ≡ total f xs + total f ys
  total-append f [] ys = omega arith
  total-append f (x ∷ xs) ys = omega (arith, total-append f xs ys)

  -- Writing over `old` moves the sum by the difference of the two.
  pub total-set :
      (f : A → ℕ) (xs : List A) (i : ℕ) (v old : A)
      → at xs i ≡ ok old
      → total f (set xs i v) + f old ≡ total f xs + f v
  total-set f [] i v old e = cc
  total-set f (x ∷ xs) zero v old e = ground arith
  total-set f (x ∷ xs) (suc i) v old e = omega (arith, total-set f xs i v old e)

  pub at-set_self : (xs : List A) (i : ℕ) (v : A) → i < length xs → at (set xs i v) i ≡ ok v
  at-set_self [] i v h = absurd (omega arith)
  at-set_self (x ∷ xs) zero v h = refl
  at-set_self (x ∷ xs) (suc i) v h = at-set_self xs i v (omega arith)

  pub at-set_ne : (xs : List A) (i j : ℕ) (v : A) → ¬ (i ≡ j) → at (set xs i v) j ≡ at xs j
  at-set_ne [] i j v h = refl
  at-set_ne (x ∷ xs) zero zero v h = absurd (h refl)
  at-set_ne (x ∷ xs) zero (suc j) v h = refl
  at-set_ne (x ∷ xs) (suc i) zero v h = refl
  at-set_ne (x ∷ xs) (suc i) (suc j) v h = at-set_ne xs i j v (omega arith)

  pub at-append_left : (xs ys : List A) (i : ℕ) {a : A} → at xs i ≡ ok a → at (xs ++ ys) i ≡ ok a
  at-append_left [] ys i e = cc
  at-append_left (x ∷ xs) ys zero e = e
  at-append_left (x ∷ xs) ys (suc i) e = at-append_left xs ys i e

module _ {ℓ} {A : Type ℓ} where
  pub length-perm : {xs ys : List A} → Permᴰ xs ys → length xs ≡ length ys
  length-perm Permᴰ.nil = refl
  length-perm (Permᴰ.cons e d) = ap suc (length-perm d)
  length-perm (Permᴰ.swap e₁ e₂) = refl
  length-perm (Permᴰ.trans d₁ d₂) = length-perm d₁ ∙ length-perm d₂
